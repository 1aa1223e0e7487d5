-- ===== src/Modular/Congruence.antt =====
-- Remainders of products and powers.
use selling_information.Base.{
  ℕ, zero, suc, ◌+◌, ◌*◌, ◌/◌, ◌%◌, ◌^◌, ◌<◌, ◌≡◌, refl, sym, ap, ap₂, ◌∙◌, arith, ◌≡⟨◌⟩◌, ◌∎,
}
use native.Mathlib.Nat.{
  pow-zero, pow-suc, mul_comm, mul-one, add-mul-mod_self_left, div-add-mod, add-mod, mod-eq_of_lt,
  one-mul,
}
use selling_information.Modular.Powers.{pow-add, pow-mul, one-pow}

pub mod-mul-mod : (a b n : ℕ) → (a % n * b) % n ≡ (a * b) % n
mod-mul-mod a b n =
    (a % n * b) % n
    ≡⟨ sym (add-mul-mod_self_left (a % n * b) n (a / n * b)) ⟩ (a % n * b + n * (a / n * b)) % n
    ≡⟨ ap (λ k. k % n) (omega (arith, ap (λ k. k * b) (div-add-mod a n))) ⟩ (a * b) % n ∎

pub mul-mod-mod : (a b n : ℕ) → (a * (b % n)) % n ≡ (a * b) % n
mul-mod-mod a b n = rw (mul_comm a (b % n), mod-mul-mod b a n, mul_comm b a)

pub mul-mod : (a b n : ℕ) → (a * b) % n ≡ (a % n * (b % n)) % n
mul-mod a b n = rw (mul-mod-mod (a % n) b n, mod-mul-mod a b n)

pub pow-mod : (a k n : ℕ) → (a % n) ^ k % n ≡ a ^ k % n
pow-mod a zero n = simp pow-zero
pow-mod a (suc k) n = rw (
  pow-suc (a % n) k,
  pow-suc a k,
  mul-mod-mod ((a % n) ^ k) a n,
  ← mod-mul-mod ((a % n) ^ k) a n,
  pow-mod a k n,
  mod-mul-mod (a ^ k) a n,
)

pub mul_congr : (a b c d n : ℕ) → a % n ≡ b % n → c % n ≡ d % n → (a * c) % n ≡ (b * d) % n
mul_congr a b c d n p q = rw (mul-mod a c n, p, q, ← mul-mod b d n)

pub pow_congr : (a b k n : ℕ) → a % n ≡ b % n → a ^ k % n ≡ b ^ k % n
pow_congr a b k n p = sym (pow-mod a k n) ∙ ap (λ x. x ^ k % n) p ∙ pow-mod b k n

-- An exponent counts up to a multiple of a period of the base.
pub pow-add-mul_period :
    (g period e q n : ℕ) → g ^ period % n ≡ 1 % n → g ^ (e + period * q) % n ≡ g ^ e % n
pow-add-mul_period g period e q n h =
    g ^ (e + period * q) % n
    ≡⟨ ap (λ k. k % n) (pow-add g e (period * q) ∙ ap (λ k. g ^ e * k) (pow-mul g period q)) ⟩
      (g ^ e * (g ^ period) ^ q) % n
    ≡⟨ mul_congr (g ^ e) (g ^ e) ((g ^ period) ^ q) 1 n refl
        (pow_congr (g ^ period) 1 q n h ∙ ap (λ k. k % n) (one-pow q)) ⟩
      (g ^ e * 1) % n
    ≡⟨ ap (λ k. k % n) (mul-one (g ^ e)) ⟩ g ^ e % n ∎

pub pow-mod_period : (g period e n : ℕ) → g ^ period % n ≡ 1 % n → g ^ (e % period) % n ≡ g ^ e % n
pow-mod_period g period e n h =
    sym (pow-add-mul_period g period (e % period) (e / period) n h)
    ∙ ap (λ k. g ^ k % n) (omega (arith, div-add-mod e period))

pub add_congr : (a b c d n : ℕ) → a % n ≡ b % n → c % n ≡ d % n → (a + c) % n ≡ (b + d) % n
add_congr a b c d n p q = add-mod a c n ∙ ap₂ (λ x y. (x + y) % n) p q ∙ sym (add-mod b d n)

-- A factor whose product with another is 1 cancels it.
pub unit_cancel : (x y c n : ℕ) → 1 < n → x * y % n ≡ 1 → (x * y) * c % n ≡ c % n
unit_cancel x y c n lt h =
    mul_congr (x * y) 1 c c n (h ∙ sym (mod-eq_of_lt lt)) refl ∙ ap (λ k. k % n) (one-mul c)
