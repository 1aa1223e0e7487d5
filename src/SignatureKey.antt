-- ===== src/SignatureKey.antt =====
-- main/signature_key.h and signature_key.cpp: the sale of one signature. `Keys` has the keys made of
-- the signature, `Parties` the classes, `Running` the class SingleSellInformationProtocol.
pub mod Keys
pub mod Parties
pub mod Running
pub mod Checking
pub mod Committing
pub mod Verdict
