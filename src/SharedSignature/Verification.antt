-- ===== src/SharedSignature/Verification.antt =====
-- shared_sig.cpp: hash_m_to_int, m_to_int, verify and encode_signature. The numbers that the program
-- passes to verify are never negative, so that `r <= 0` is `r == 0`.
use selling_information.Base.{
  ℕ, Bool, true, false, not, ◌||◌, List, ◌++◌, take, length, ◌==◌, leb, if◌then◌else◌, Result, ok,
  guard, protocol,
}
use selling_information.Base.Errors.{◌>>=◌, ◌>>◌}
use selling_information.Crypto.{NumberTheory, Encoding, Sha256}
use selling_information.Curve.{Curve}

module _ (enc : Encoding) where
  unfoldable pub hash_m_to_int : List ℕ → ℕ → Result ℕ
  hash_m_to_int m ret_byte_count = do
    guard (length m == 32) (protocol "m_len != sha digest size")
    ok (enc.decode (take ret_byte_count m))

  unfoldable pub m_to_int : Sha256 → List ℕ → ℕ → ℕ
  m_to_int sha m ret_byte_count = enc.decode (take ret_byte_count (sha.digest m))

  unfoldable pub encode_signature : ℕ → ℕ → List ℕ
  encode_signature r s = enc.encode r 32 ++ enc.encode s 32

module _ (nt : NumberTheory) (curve : Curve) where
  open nt use {a_times_b_mod_c, inverse_mod}

  -- The point P2 of verify.
  unfoldable pub recovered : curve.Point → ℕ → ℕ → ℕ → curve.Point
  recovered q z r s =
      let w = inverse_mod s curve.order in
      let u1 = a_times_b_mod_c z w curve.order in
      let u2 = a_times_b_mod_c r w curve.order in
      curve.add (curve.multiply u1 curve.generator) (curve.multiply u2 q)

  -- verify from `Q == ec.Identity()` on.
  unfoldable pub accepted : curve.Point → ℕ → ℕ → ℕ → Bool
  accepted q z r s =
      if curve.same q curve.identity
      then false
      else if not (curve.same (curve.multiply curve.order q) curve.identity)
      then false
      else if r == 0 || leb curve.order r
      then false
      else if s == 0 || leb curve.order s
      then false
      else if not (curve.x_of (recovered q z r s) == r)
      then false
      else true

  unfoldable pub verify : Encoding → curve.Point → List ℕ → ℕ → ℕ → Result Bool
  verify enc q message r s = do
    z ← hash_m_to_int enc message curve.order_bytes
    ok (accepted q z r s)
