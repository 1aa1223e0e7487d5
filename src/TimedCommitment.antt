-- ===== src/TimedCommitment.antt =====
-- timed_commitment/timed_commitment.h and timed_commitment.cpp. `Numbers` has the functions on
-- integers, `Parties` the two classes and their methods, `Protocol` the functions that run both;
-- the other modules prove.
pub mod Numbers
pub mod Parties
pub mod Commiting
pub mod Receiving
pub mod Protocol
pub mod Exponent
pub mod Order
pub mod Loops
pub mod Sealing
pub mod Opening
pub mod Response
pub mod Proving
pub mod Round
pub mod Session
