-- ===== src/Lib.antt =====
-- The protocols of a program that sells information for bitcoins, and their building blocks.
--
-- The seller and the buyer share an ECDSA key (shared_signature/), the seller commits to its half
-- of the key for a time (timed_commitment/) and to keys by SHA-256 (sha_commitment/), and
-- cut-and-choose (cut_and_choose/) opens all of these instances but one. The parts modelled:
--
-- * `Common` is common/common.h and common.cpp: the constants and the conversions of bytes.
-- * `Aes` is common/aes.h and aes.cpp, in front of a cipher of Crypto++ (`Cipher`).
-- * `BitUtils` is timed_commitment/bit_utils.cpp: numbers and strings as lists of bits.
-- * `Protocol` is protocol.h: init, exec and open, which run both parties.
-- * `ShaCommitment` is sha_commitment/, an instance of `Protocol`.
-- * `CutAndChoose` is cut_and_choose/cut_and_choose.h, for any instance of `Protocol`; its child
--   `Sha` runs it over `ShaCommitment`.
-- * `RegularCommitment` is timed_commitment/regular_commitment.h and regular_commitment.cpp.
-- * `TimedCommitment` is timed_commitment/timed_commitment.h and timed_commitment.cpp: `Numbers` has
--   exp, get_g, gen_prime and find_order, `Parties` the classes, `Commiting` the methods of Commiter,
--   `Receiving` those of Receiver, `Protocol` commit and open_commitment. The other children prove.
-- * `Paillier` is shared_signature/paillier.h and paillier.cpp.
-- * `SharedSignature` is shared_signature/shared_sig.h and shared_sig.cpp, an instance of `Protocol`
--   with Paillier keys inside the parties: `Verification` has verify and its helpers, `Parties` the
--   classes S and B (a method that both have ends in _s or _b), `Running` init, exec and open.
--   `Curve` is what they use of secp256k1.
-- * `SignatureKey` is main/signature_key.h and signature_key.cpp, an instance of `Protocol`
--   that runs the protocols above: `Keys` has genKeys and the comparison of verifyKeys, `Parties` the classes
--   SingleSeller and SingleBuyer, `Running` exec and open (sell_exec and sell_open).
-- * `SquareRoot` is common/square_root.h and square_root.cpp; `Sorting` stands for std::sort.
-- * `SellInformation` is main/sell_information.h and sell_information.cpp: `Parties` has the classes
--   Seller and Buyer, `Seller` and `Buyer` their methods, `Payment` those that talk to the bitcoin
--   service, `Indices` and `Opening` the checks and the loops of exec, `Running` init and exec up to
--   its last line. That line, wait_for_signature_or_time_lock, and the two threads that it starts
--   are the step relation of `Waiting`. The other children prove.
-- `Base` has what all of them share, `Modular` the arithmetic of remainders, `Tests` small instances
-- of the interfaces, at which the theorems are applied.
--
-- Crypto++ is a parameter: `Crypto` states, for the operations that the code calls, the documented
-- laws that the theorems use. Integer is read as a number; where the code tests for a negative one,
-- it is the ℤ of `Base.Int`. Randomness is a `World` that every draw takes and returns. A digest is
-- any function to 32 bytes, so that what holds only for a collision-free one is stated with the
-- collision it would give. Objects that a method changes are returned; `Base.Exec` keeps the state
-- also when an exception is thrown, `Base.Errors` does not.
--
-- Loops are structural, or on fuel: exp runs on its exponent, which it halves, and find_order on
-- phi + 1, since each round at least halves the order; both are proved to be enough.
--
-- The threads of the wait interleave in any order; a method that a thread runs is one step, since the
-- two methods write to different members of the buyer. GCD, ModularSquareRoot and CRT are parameters,
-- and so is what GCD and Encode do on a negative number.
--
-- Not modelled: common/log, the network and the bitcoin services, which are input and output;
-- main/main.cpp, which starts the program; reads past the end of an array, which give 0 or false
-- here.
pub mod Base
pub mod Modular
pub mod Crypto
pub mod Common
pub mod Aes
pub mod BitUtils
pub mod Protocol
pub mod ShaCommitment
pub mod CutAndChoose
pub mod Paillier
pub mod Curve
pub mod SharedSignature
pub mod SignatureKey
pub mod SquareRoot
pub mod SellInformation
pub mod RegularCommitment
pub mod TimedCommitment
pub mod Tests
