-- ===== src/Modular/Powers.antt =====
-- Laws of powers.
use selling_information.Base.{ℕ, zero, suc, ◌+◌, ◌*◌, ◌^◌, ◌≡◌, refl, ap, arith}
use native.Mathlib.Nat.{
  pow-zero, pow-suc, mul_assoc, mul_comm, add-zero, add-suc, mul-zero, mul-suc,
}

pub one-pow : (n : ℕ) → 1 ^ n ≡ 1
one-pow zero = refl
one-pow (suc n) = rw (pow-suc 1 n, one-pow n)

pub pow-one : (x : ℕ) → x ^ 1 ≡ x
pow-one x = rw (pow-suc x 0, pow-zero) (omega arith)

pub pow-two : (x : ℕ) → x ^ 2 ≡ x * x
pow-two x = rw (pow-suc x 1, pow-one x)

pub pow_four : (x : ℕ) → x ^ 4 ≡ x * x * x * x
pow_four x = rw (pow-suc x 3, pow-suc x 2, pow-two x)

pub pow-add : (x a b : ℕ) → x ^ (a + b) ≡ x ^ a * x ^ b
pow-add x a zero = rw (add-zero, pow-zero) (omega arith)
pow-add x a (suc b) = rw (add-suc, pow-suc x (a + b), pow-suc x b, pow-add x a b) (mul_assoc _ _ _)

pub pow-mul : (x a b : ℕ) → x ^ (a * b) ≡ (x ^ a) ^ b
pow-mul x a zero = simp (mul-zero, pow-zero)
pow-mul x a (suc b) = rw (mul-suc, pow-add x (a * b) a, pow-suc (x ^ a) b, pow-mul x a b)

pub mul-pow : (x y n : ℕ) → (x * y) ^ n ≡ x ^ n * y ^ n
mul-pow x y zero = simp pow-zero
mul-pow x y (suc n) = rw (pow-suc (x * y) n, pow-suc x n, pow-suc y n, mul-pow x y n) (omega arith)

pub pow_right_comm : (x a b : ℕ) → (x ^ a) ^ b ≡ (x ^ b) ^ a
pow_right_comm x a b = rw (← pow-mul x a b, ← pow-mul x b a, mul_comm a b)

-- Squaring doubles the exponent.
pub square-pow : (x e : ℕ) → x ^ e * x ^ e ≡ x ^ (2 * e)
square-pow x e = rw (← pow-add x e e) (ap (λ k. x ^ k) (omega arith))
