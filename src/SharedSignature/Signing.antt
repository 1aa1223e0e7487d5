-- ===== src/SharedSignature/Signing.antt =====
-- SharedSignature::exec and open: the signature that both parties make verifies.
use selling_information.Base.{
  ℕ, ◌+◌, ◌-◌, ◌*◌, ◌%◌, ◌≤◌, ◌<◌, ◌≡◌, ◌≢◌, ◌⊎◌, inl, inr, refl, ap, ◌∙◌, arith, Bool, true, false,
  List, take, length, ◌==◌, ==_iff, ltb, if◌then◌else◌, Bool-cases, ok, err, protocol, Exception,
}
use selling_information.Base.Exec.{require}
use selling_information.Crypto.{NumberTheory, Encoding}
use selling_information.Curve.{Curve}
use selling_information.SharedSignature.Verification.{hash_m_to_int, accepted, verify}
use selling_information.SharedSignature.Parties.{S, check_sig}
use selling_information.SharedSignature.Verifying.{accepted_lem}

-- The number that finish_sig keeps of s and n - s.
abbrev pub low : ℕ → ℕ → ℕ
low n s = if ltb (n - s) s then n - s else s

pub low_cases :
    (n s : ℕ)
    → 1 ≤ s
    → s < n
    → ((low n s ≡ s) ⊎ (low n s + s ≡ n)) × (1 ≤ low n s) × (low n s < n) × (low n s ≤ n - low n s)
low_cases n s p lt = elim (Bool-cases (ltb (n - s) s)) [
  | inl e ↦ rw e (inr (omega arith), omega arith, omega arith, ground arith)
  | inr e ↦ rw e (inl refl, p, lt, ground arith)
]

require_lem :
    {St : Type 0} (b : Bool) (e : Exception) (st : St)
    → require b e st ≡ ((if b then ok tt else err e), st)
require_lem true e st = refl
require_lem false e st = refl

module _ (nt : NumberTheory) (curve : Curve) (encoding : Encoding) where
  open curve use {generator, order, multiply, x_of}

  lowered :
      (s : S curve.Point)
      → (if ltb (order - s.s) s.s then record s { s = order - s.s } else s)
        ≡ record s { s = low order s.s }
  lowered s = elim (Bool-cases (ltb (order - s.s) s.s)) [ inl e ↦ rw e refl | inr e ↦ rw e refl ]

  verify_lem :
      (q : curve.Point) (m : List ℕ) (r s : ℕ)
      → length m ≡ 32
      → verify nt curve encoding q m r s
        ≡ ok (accepted nt curve q (encoding.decode (take curve.order_bytes m)) r s)
  unfolding verify hash_m_to_int
  verify_lem q m r s size = rw ((==_iff (length m) 32).1 size) refl

  -- finish_sig from the test of s on, for an s that answers for the nonce.
  pub check_sig_lem :
      (s : S curve.Point) (d nonce : ℕ)
      → s.q ≡ multiply d generator
      → d % order ≢ 0
      → length s.data_bytes ≡ 32
      → 1 ≤ s.r
      → s.r < order
      → 1 ≤ s.s
      → s.s < order
      → s.s * nonce % order
        ≡ (encoding.decode (take curve.order_bytes s.data_bytes) + s.r * d) % order
      → let final = record s { s = low order s.s } in
        (verify nt curve encoding final.q final.data_bytes final.r final.s
          ≡ ok (x_of (multiply nonce generator) == s.r))
        × (check_sig curve nt encoding s ≡ (
          (if x_of (multiply nonce generator) == s.r
              then ok tt
              else err (protocol "Invalid signature generated!")),
          final,
        ))
  unfolding check_sig
  check_sig_lem s d nonce key hd size pos_r lt_r pos_s lt_s answer = (
    verified,
    rw (not_zero s.s pos_s, lowered s, not_zero_length, verified)
        (require_lem (x_of (multiply nonce generator) == s.r)
          (protocol "Invalid signature generated!") (record s { s = low order s.s })),
  )
    where
      cases :
          ((low order s.s ≡ s.s) ⊎ (low order s.s + s.s ≡ order))
          × (1 ≤ low order s.s)
          × (low order s.s < order)
          × (low order s.s ≤ order - low order s.s)
      cases = low_cases order s.s pos_s lt_s

      z : ℕ
      z = encoding.decode (take curve.order_bytes s.data_bytes)

      answers :
          (low order s.s ≡ s.s) ⊎ (low order s.s + s.s ≡ order)
          → (low order s.s * nonce % order ≡ (z + s.r * d) % order)
            ⊎ ((other : ℕ) × (low order s.s + other ≡ order)
                × (other * nonce % order ≡ (z + s.r * d) % order))
      answers (inl e) = inl (ap (λ x. x * nonce % order) e ∙ answer)
      answers (inr e) = inr (s.s, e, answer)

      verified :
          verify nt curve encoding s.q s.data_bytes s.r (low order s.s)
          ≡ ok (x_of (multiply nonce generator) == s.r)
      verified =
          verify_lem s.q s.data_bytes s.r (low order s.s) size
          ∙ ap ok (
              ap (λ q. accepted nt curve q z s.r (low order s.s)) key
              ∙ accepted_lem nt curve d z s.r (low order s.s) nonce cases.1 cases.2 hd pos_r lt_r
                  (answers cases.0))

      not_zero : (n : ℕ) → 1 ≤ n → (n == 0) ≡ false
      not_zero n h = ground arith

      not_zero_length : (length s.data_bytes == 0) ≡ false
      not_zero_length = ap (λ n. n == 0) size
