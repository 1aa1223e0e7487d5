-- ===== src/RegularCommitment/Binding.antt =====
-- What a verified commitment says.
use selling_information.Base.{ℕ, ◌≡◌, refl, sym, ap, ◌∙◌, ◌↔◌, ◌≢◌, true, length}
use selling_information.Crypto.{Encoding, Sha256}
use selling_information.RegularCommitment.{
  RegularCommitment, commitment_size, sha256, regular_commit, regular_verify,
}
use selling_information.RegularCommitment.Equality.{equals_iff}
use native.Mathlib.Nat.{mod-eq_of_lt}

module _ (enc : Encoding) (sha : Sha256) where
  -- A commitment whose digest has 32 bytes verifies against exactly the numbers that commit to it.
  pub regular_verify_iff :
      (c : RegularCommitment) (x : ℕ)
      → length c.digest ≡ commitment_size
      → (regular_verify enc sha c x ≡ true) ↔ (c ≡ regular_commit enc sha x)
  unfolding regular_verify regular_commit
  regular_verify_iff c x h = equals_iff c (sha256 enc sha x) h (sha.length-digest _)

  pub regular_verify-regular_commit :
      (x : ℕ) → regular_verify enc sha (regular_commit enc sha x) x ≡ true
  unfolding regular_commit
  regular_verify-regular_commit x =
      (regular_verify_iff (regular_commit enc sha x) x (sha.length-digest _)).1 refl

  encoding_injective :
      (x y : ℕ)
      → enc.encode x (enc.min_encoded_size x) ≡ enc.encode y (enc.min_encoded_size y)
      → x ≡ y
  encoding_injective x y e =
      sym (mod-eq_of_lt (enc.lt-min_encoded_size x))
      ∙ sym (enc.decode-encode x (enc.min_encoded_size x))
      ∙ ap enc.decode e
      ∙ enc.decode-encode y (enc.min_encoded_size y)
      ∙ mod-eq_of_lt (enc.lt-min_encoded_size y)

  -- If a commitment whose digest has 32 bytes verifies against two different numbers x and y, then their
  -- encodings, each in the bytes that Integer::Encode needs for it, are different and have one SHA-256
  -- digest.
  pub regular_commit_binding :
      (c : RegularCommitment) (x y : ℕ)
      → length c.digest ≡ commitment_size
      → regular_verify enc sha c x ≡ true
      → regular_verify enc sha c y ≡ true
      → x ≢ y
      → (enc.encode x (enc.min_encoded_size x) ≢ enc.encode y (enc.min_encoded_size y))
        × (sha.digest (enc.encode x (enc.min_encoded_size x))
            ≡ sha.digest (enc.encode y (enc.min_encoded_size y)))
  unfolding regular_commit
  regular_commit_binding c x y h vx vy d = (
    λ e. d (encoding_injective x y e),
    ap (λ r. r.digest) (sym ((regular_verify_iff c x h).0 vx) ∙ (regular_verify_iff c y h).0 vy),
  )
