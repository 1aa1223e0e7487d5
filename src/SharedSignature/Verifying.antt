-- ===== src/SharedSignature/Verifying.antt =====
-- verify accepts a signature that answers, for the key and the nonce of Ecdsa.
use selling_information.Base.{
  ℕ, ◌+◌, ◌*◌, ◌%◌, ◌≤◌, ◌<◌, ◌≡◌, ◌≢◌, ◌⊎◌, inl, inr, refl, sym, ap, ap₂, ◌∙◌, arith, Bool, true,
  false, not, ◌||◌, ◌==◌, leb, if◌then◌else◌, Bool-cases,
}
use selling_information.Crypto.{NumberTheory}
use selling_information.Curve.{Curve}
use selling_information.Modular.{add_congr}
use selling_information.SharedSignature.Group.{multiply_congr, multiply-order_multiple, mod-ne-zero}
use selling_information.SharedSignature.Ecdsa.{exponent_lem, same_exponent, opposite_exponent}
use selling_information.SharedSignature.Verification.{recovered, accepted}

not_test : (b : Bool) → (if not b then false else true) ≡ b
not_test true = refl
not_test false = refl

module _ (nt : NumberTheory) (curve : Curve) (d z r s nonce : ℕ) where
  open curve use {generator, order, add, multiply, x_of, identity}

  abbrev w : ℕ
  w = nt.inverse_mod s order

  abbrev exponent : ℕ
  exponent = z * w % order + r * w % order * d

  -- The point that verify computes is a multiple of the generator.
  recovered_lem : recovered nt curve (multiply d generator) z r s ≡ multiply exponent generator
  unfolding recovered
  recovered_lem =
      ap₂ (λ u1 u2. add (multiply u1 generator) (multiply u2 (multiply d generator)))
        (nt.times_lem z w order curve.order_lt) (nt.times_lem r w order curve.order_lt)
      ∙ ap (add (multiply (z * w % order) generator))
          (curve.multiply-multiply (r * w % order) d generator)
      ∙ sym (curve.multiply-add (z * w % order) (r * w % order * d) generator)

  module _ (pos_s : 1 ≤ s) (lt_s : s < order) where
    inverse : s * w % order ≡ 1
    inverse = nt.inverse_mod_lem s v.0 order curve.order_lt v.1
      where
        v : (j : ℕ) × (s * j % order ≡ 1)
        v = curve.invertible s (mod-ne-zero curve s pos_s lt_s)

    -- Its x coordinate is that of the nonce's point, for s that answers and for the number that makes
    -- n with one that does.
    pub x_of-recovered :
        (s * nonce % order ≡ (z + r * d) % order)
          ⊎ ((other : ℕ) × (s + other ≡ order) × (other * nonce % order ≡ (z + r * d) % order))
        → x_of (recovered nt curve (multiply d generator) z r s) ≡ x_of (multiply nonce generator)
    x_of-recovered (inl answer) = ap x_of (
        recovered_lem
        ∙ multiply_congr curve exponent nonce (
            exponent_lem order z r d w
            ∙ same_exponent order s w nonce (z + r * d) curve.order_lt inverse answer))
    x_of-recovered (inr (other, whole, answer)) =
        ap x_of recovered_lem
        ∙ curve.x_of-opposite (multiply exponent generator) (multiply nonce generator) (
            sym (curve.multiply-add exponent nonce generator)
            ∙ multiply_congr curve (exponent + nonce) 0 (zero_mod ∙ omega (arith, curve.order_lt))
            ∙ curve.multiply-zero generator)
      where
        zero_mod : (exponent + nonce) % order ≡ 0
        zero_mod =
            add_congr exponent (w * (z + r * d)) nonce nonce order (exponent_lem order z r d w) refl
            ∙ opposite_exponent order s other w nonce (z + r * d) curve.order_lt whole inverse
                answer

    -- verify then compares r with that coordinate.
    pub accepted_lem :
        d % order ≢ 0
        → 1 ≤ r
        → r < order
        → (s * nonce % order ≡ (z + r * d) % order)
          ⊎ ((other : ℕ) × (s + other ≡ order) × (other * nonce % order ≡ (z + r * d) % order))
        → accepted nt curve (multiply d generator) z r s ≡ (x_of (multiply nonce generator) == r)
    unfolding accepted
    accepted_lem hd pos_r lt_r answer =
        rw
          (
            not_identity,
            (curve.same_iff _ _).1 (multiply-order_multiple curve d),
            in_range r pos_r lt_r,
            in_range s pos_s lt_s,
            x_of-recovered answer,
          )
          (not_test (x_of (multiply nonce generator) == r))
      where
        not_identity : curve.same (multiply d generator) identity ≡ false
        not_identity = elim (Bool-cases (curve.same (multiply d generator) identity)) [
          | inl t ↦ absurd (hd (curve.multiply-eq-identity d ((curve.same_iff _ _).0 t)))
          | inr f ↦ f
        ]

        in_range : (i : ℕ) → 1 ≤ i → i < order → (i == 0 || leb order i) ≡ false
        in_range i p q = ground arith
