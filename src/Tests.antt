-- ===== src/Tests.antt =====
-- Instances of the interfaces, tests by evaluation, and the theorems at concrete inputs.
mod Reference
mod Residues
mod Timed
mod Bytes
mod Commitments
mod Keys
mod Signing
mod Selling
mod Encryption
mod Euclid
mod Information
mod Waiting
mod Revealing
mod Signed
