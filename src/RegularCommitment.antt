-- ===== src/RegularCommitment.antt =====
-- timed_commitment/regular_commitment.h and regular_commitment.cpp: a commitment to a number by the
-- SHA-256 digest of its shortest encoding.
pub mod Equality
pub mod Binding
use selling_information.Base.{
  ℕ, zero, suc, ◌+◌, Bool, true, false, List, ◌==◌, get_or, if◌then◌else◌,
}
use selling_information.Crypto.{Encoding, Sha256}

abbrev pub commitment_size : ℕ
commitment_size = 32

pub record RegularCommitment : Type 0 where
  pub digest : List ℕ

-- The loop of operator==, from `i` on with `rounds` left.
pub digest_eq : ℕ → ℕ → List ℕ → List ℕ → Bool
digest_eq zero i x y = true
digest_eq (suc rounds) i x y =
    let rest = digest_eq rounds (i + 1) x y in if get_or x i 0 == get_or y i 0 then rest else false

pub equals : RegularCommitment → RegularCommitment → Bool
unfolding digest_eq
equals x y = digest_eq commitment_size 0 x.digest y.digest

module _ (enc : Encoding) (sha : Sha256) where
  pub sha256 : ℕ → RegularCommitment
  sha256 x = record { digest = sha.digest (enc.encode x (enc.min_encoded_size x)) }

  unfoldable pub regular_commit : ℕ → RegularCommitment
  unfolding sha256
  regular_commit x = sha256 x

  unfoldable pub regular_verify : RegularCommitment → ℕ → Bool
  unfolding sha256 equals
  regular_verify c x = equals c (sha256 x)
