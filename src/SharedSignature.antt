-- ===== src/SharedSignature.antt =====
-- shared_signature/shared_sig.h and shared_sig.cpp: an ECDSA key shared by two parties, and its
-- signatures. `Verification` has the functions, `Parties` the classes S and B with their methods,
-- `Running` the class SharedSignature; the other modules prove.
pub mod Verification
pub mod Parties
pub mod Running
pub mod Group
pub mod Setup
pub mod Ecdsa
pub mod Verifying
pub mod Blinding
pub mod Signing
pub mod Draws
pub mod Session
