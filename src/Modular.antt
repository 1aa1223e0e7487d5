-- ===== src/Modular.antt =====
-- Powers and congruences of natural numbers, as the protocols' arithmetic needs them.
mod Powers
mod Congruence
pub mod Primes
pub use Powers.*
pub use Congruence.*
