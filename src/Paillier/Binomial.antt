-- ===== src/Paillier/Binomial.antt =====
-- Powers of n + 1 modulo n * n, the arithmetic behind paillier.cpp.
use selling_information.Base.{
  ℕ, zero, suc, ◌+◌, ◌-◌, ◌*◌, ◌/◌, ◌%◌, ◌^◌, ◌<◌, ◌≡◌, refl, ap, ◌∙◌, ◌≡⟨◌⟩◌, ◌∎, arith,
}
use selling_information.Modular.{mul_congr}
use native.Mathlib.Nat.{
  pow-zero, pow-suc, add-mul-mod_self_left, mod-eq_of_lt, div-add-mod, mod-lt, mul-le-mul_left,
  mul-div_cancel_left,
}

pub succ_power : (n k : ℕ) → (n + 1) ^ k % (n * n) ≡ (1 + n * k) % (n * n)
succ_power n zero = ap (λ x. x % (n * n)) (pow-zero (n + 1) ∙ omega arith)
succ_power n (suc k) =
    (n + 1) ^ suc k % (n * n)
    ≡⟨ ap (λ x. x % (n * n)) (pow-suc (n + 1) k) ⟩ (n + 1) ^ k * (n + 1) % (n * n)
    ≡⟨ mul_congr ((n + 1) ^ k) (1 + n * k) (n + 1) (n + 1) (n * n) (succ_power n k) refl ⟩
      (1 + n * k) * (n + 1) % (n * n)
    ≡⟨ ap (λ x. x % (n * n)) (omega arith) ⟩ (1 + n * suc k + n * n * k) % (n * n)
    ≡⟨ add-mul-mod_self_left (1 + n * suc k) (n * n) k ⟩ (1 + n * suc k) % (n * n) ∎

-- What is left of 1 + n * k.
pub succ_remainder : (n k : ℕ) → 1 < n → (1 + n * k) % (n * n) ≡ 1 + n * (k % n)
succ_remainder n k h =
    (1 + n * k) % (n * n)
    ≡⟨ ap (λ x. x % (n * n)) whole ⟩ (1 + n * (k % n) + n * n * (k / n)) % (n * n)
    ≡⟨ add-mul-mod_self_left (1 + n * (k % n)) (n * n) (k / n) ⟩ (1 + n * (k % n)) % (n * n)
    ≡⟨ mod-eq_of_lt small ⟩ 1 + n * (k % n) ∎
  where
    whole : 1 + n * k ≡ 1 + n * (k % n) + n * n * (k / n)
    whole = omega (arith, ap (λ (t : ℕ). n * t) (div-add-mod k n))

    small : 1 + n * (k % n) < n * n
    small = bound (k % n) (mod-lt k (omega arith))
      where
        bound : (r : ℕ) → r < n → 1 + n * r < n * n
        bound r lt = omega (arith, mul-le-mul_left n lt)

pub quotient_of_succ : (n r : ℕ) → 0 < n → (1 + n * r - 1) / n ≡ r
quotient_of_succ n r h = ap (λ x. x / n) (omega arith) ∙ mul-div_cancel_left r h
