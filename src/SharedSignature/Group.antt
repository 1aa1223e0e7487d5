-- ===== src/SharedSignature/Group.antt =====
-- Multiples of the generator of the curve count modulo the order.
use selling_information.Base.{
  ℕ, ◌+◌, ◌*◌, ◌/◌, ◌%◌, ◌≤◌, ◌<◌, ◌≡◌, ◌≢◌, refl, sym, ap, ◌∙◌, ◌≡⟨◌⟩◌, ◌∎, arith,
}
use selling_information.Curve.{Curve}
use selling_information.Modular.{mul_congr}
use native.Mathlib.Nat.{mul_comm, mul_assoc, div-add-mod, mod-eq_of_lt, one-mul}

module _ (curve : Curve) where
  open curve use {Point, identity, generator, order, add, multiply}

  pub multiply-identity : (k : ℕ) → multiply k identity ≡ identity
  multiply-identity k =
      ap (multiply k) (sym (curve.multiply-zero generator))
      ∙ curve.multiply-multiply k 0 generator
      ∙ ap (λ j. multiply j generator) (omega arith)
      ∙ curve.multiply-zero generator

  pub multiply_comm : (j k : ℕ) (a : Point) → multiply j (multiply k a) ≡ multiply k (multiply j a)
  multiply_comm j k a =
      curve.multiply-multiply j k a
      ∙ ap (λ i. multiply i a) (mul_comm j k)
      ∙ sym (curve.multiply-multiply k j a)

  -- Every multiple of the generator has an order that divides that of the generator.
  pub multiply-order_multiple : (d : ℕ) → multiply order (multiply d generator) ≡ identity
  multiply-order_multiple d =
      multiply_comm order d generator ∙ ap (multiply d) curve.multiply-order ∙ multiply-identity d

  pub multiply-mod : (k : ℕ) → multiply (k % order) generator ≡ multiply k generator
  multiply-mod k =
      multiply (k % order) generator
      ≡⟨ ap (λ i. multiply i generator) (omega arith) ⟩ multiply (k % order + 0) generator
      ≡⟨ curve.multiply-add (k % order) 0 generator
        ∙ ap (add (multiply (k % order) generator)) (curve.multiply-zero generator ∙ sym whole) ⟩
        add (multiply (k % order) generator) (multiply (order * (k / order)) generator)
      ≡⟨ sym (curve.multiply-add (k % order) (order * (k / order)) generator)
        ∙ ap (λ i. multiply i generator) (omega (arith, div-add-mod k order)) ⟩
        multiply k generator ∎
    where
      whole : multiply (order * (k / order)) generator ≡ identity
      whole =
          sym (curve.multiply-multiply order (k / order) generator)
          ∙ multiply-order_multiple (k / order)

  pub multiply_congr :
      (j k : ℕ) → j % order ≡ k % order → multiply j generator ≡ multiply k generator
  multiply_congr j k e = sym (multiply-mod j) ∙ ap (λ i. multiply i generator) e ∙ multiply-mod k

  pub positive : 0 < order
  positive = omega (arith, curve.order_lt)

  -- A number below the order that is not 0 is not 0 modulo it, and so is a product of two.
  pub mod-ne-zero : (k : ℕ) → 1 ≤ k → k < order → k % order ≢ 0
  mod-ne-zero k p lt e = omega (arith, mod-eq_of_lt lt)

  pub mul-mod-ne-zero : (j k : ℕ) → j % order ≢ 0 → k % order ≢ 0 → j * k % order ≢ 0
  mul-mod-ne-zero j k hj hk e = hk (
      ap (λ i. i % order) (sym (one-mul k))
      ∙ mul_congr 1 (v.0 * j) k k order
          (mod-eq_of_lt curve.order_lt ∙ sym v.1 ∙ ap (λ i. i % order) (mul_comm j v.0)) refl
      ∙ ap (λ i. i % order) (mul_assoc v.0 j k)
      ∙ mul_congr v.0 v.0 (j * k) 0 order refl (e ∙ omega (arith, positive))
      ∙ omega (arith, positive))
    where
      v : (i : ℕ) × (j * i % order ≡ 1)
      v = curve.invertible j hj
