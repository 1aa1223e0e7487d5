-- ===== src/Modular/Primes.antt =====
-- Divisibility, stated by remainders, of differences and by prime numbers.
use selling_information.Base.{
  ℕ, ◌+◌, ◌-◌, ◌*◌, ◌/◌, ◌%◌, ◌≤◌, ◌<◌, ◌≡◌, ◌⊎◌, inl, inr, refl, sym, ap, ◌∙◌, arith, leb,
  Bool-cases,
}
use selling_information.Modular.Congruence.{mod-mul-mod, unit_cancel, add_congr}
use native.Mathlib.Nat.{
  div-add-mod, mul_comm, mul_assoc, mul-sub, mul-mod_right, zero-mod, zero-mul,
}

-- Euclid's property.
abbrev pub IsPrime : ℕ → Type 0
IsPrime p = (1 < p) × ((a b : ℕ) → a * b % p ≡ 0 → (a % p ≡ 0) ⊎ (b % p ≡ 0))

pub quotient : (n x : ℕ) → x % n ≡ 0 → x ≡ n * (x / n)
quotient n x h = omega (arith, div-add-mod x n)

pub mod-mul : (a b n : ℕ) → a % n ≡ 0 → a * b % n ≡ 0
mod-mul a b n h =
    sym (mod-mul-mod a b n) ∙ ap (λ x. x * b % n) h ∙ ap (λ x. x % n) (zero-mul b) ∙ zero-mod n

pub mod-sub : (n a b : ℕ) → a % n ≡ b % n → (b - a) % n ≡ 0
mod-sub n a b same =
    ap (λ x. x % n) (omega (arith, div-add-mod a n, div-add-mod b n, mul-sub n (b / n) (a / n)))
    ∙ mul-mod_right n (b / n - a / n)

pub congr_of_mod-sub : (n a b : ℕ) → (b - a) % n ≡ 0 → a ≤ b → b % n ≡ a % n
congr_of_mod-sub n a b h le =
    ap (λ x. x % n) (omega arith)
    ∙ add_congr a a (b - a) 0 n refl (h ∙ sym (zero-mod n))
    ∙ ap (λ x. x % n) (omega arith)

-- What two coprime numbers divide, their product divides.
pub mod-product : (p q u x : ℕ) → 1 < q → p * u % q ≡ 1 → x % p ≡ 0 → x % q ≡ 0 → x % (p * q) ≡ 0
mod-product p q u x lt unit hp hq =
    ap (λ y. y % (p * q)) (whole ∙ sym (mul_assoc p q (x / p / q)))
    ∙ mul-mod_right (p * q) (x / p / q)
  where
    divided : x / p % q ≡ 0
    divided =
        sym (unit_cancel p u (x / p) q lt unit)
        ∙ ap (λ y. y % q)
            (omega (
              arith,
              mul_comm p u,
              mul_assoc u p (x / p),
              ap (λ y. y * (x / p)) (mul_comm p u),
              ap (λ y. u * y) (quotient p x hp),
              mul_comm u x,
            ))
        ∙ mod-mul x u q hq

    whole : x ≡ p * (q * (x / p / q))
    whole = quotient p x hp ∙ ap (λ y. p * y) (quotient q (x / p) divided)

-- Congruence modulo two coprime numbers is congruence modulo their product.
pub congr-product :
    (p q u a b : ℕ)
    → 1 < q
    → p * u % q ≡ 1
    → a % p ≡ b % p
    → a % q ≡ b % q
    → a % (p * q) ≡ b % (p * q)
congr-product p q u a b lt unit hp hq = elim (Bool-cases (leb a b)) [
  | inl e ↦ sym (
      congr_of_mod-sub (p * q) a b
        (mod-product p q u (b - a) lt unit (mod-sub p a b hp) (mod-sub q a b hq)) (ground arith))
  | inr e ↦
      congr_of_mod-sub (p * q) b a
        (mod-product p q u (a - b) lt unit (mod-sub p b a (sym hp)) (mod-sub q b a (sym hq)))
        (ground arith)
]

square-add : (x d : ℕ) → (x + d) * (x + d) ≡ x * x + d * (x + d + x)
square-add x d = omega arith

square-sub : (x s : ℕ) → x ≤ s → s * s ≡ x * x + (s - x) * (s + x)
square-sub x s le =
    ap (λ (y : ℕ). y * y) (sym back)
    ∙ square-add x (s - x)
    ∙ ap (λ y. x * x + (s - x) * (y + x)) back
  where
    back : x + (s - x) ≡ s
    back = omega arith

-- The difference of two squares, modulo n.
pub mod-squares : (n x s : ℕ) → x ≤ s → x * x % n ≡ s * s % n → (s - x) * (s + x) % n ≡ 0
mod-squares n x s le same =
    ap (λ y. y % n) (omega (arith, square-sub x s le)) ∙ mod-sub n (x * x) (s * s) same

-- Two square roots of one number modulo a prime are equal up to the sign.
pub prime-roots :
    (p x s : ℕ) → IsPrime p → x * x % p ≡ s * s % p → (x % p ≡ s % p) ⊎ ((x + s) % p ≡ 0)
prime-roots p x s prime same = elim (Bool-cases (leb x s)) [
  | inl e ↦ elim (prime.1 (s - x) (s + x) (mod-squares p x s (ground arith) same)) [
    | inl h ↦ inl (sym (congr_of_mod-sub p x s h (ground arith)))
    | inr h ↦ inr (ap (λ y. y % p) (omega arith) ∙ h)
  ]
  | inr e ↦ elim (prime.1 (x - s) (x + s) (mod-squares p s x (ground arith) (sym same))) [
    | inl h ↦ inl (congr_of_mod-sub p s x h (ground arith))
    | inr h ↦ inr h
  ]
]

-- Numbers that are opposite modulo n have one square.
pub opposite_squares : (n x s : ℕ) → (x + s) % n ≡ 0 → x * x % n ≡ s * s % n
opposite_squares n x s h = elim (Bool-cases (leb x s)) [
  | inl e ↦ sym (ordered x s (ground arith) h)
  | inr e ↦ ordered s x (ground arith) (ap (λ y. y % n) (omega arith) ∙ h)
]
  where
    ordered : (x s : ℕ) → x ≤ s → (x + s) % n ≡ 0 → s * s % n ≡ x * x % n
    ordered x s le h =
        congr_of_mod-sub n (x * x) (s * s)
          (ap (λ y. y % n) (omega (arith, square-sub x s le, mul_comm (s - x) (s + x)))
            ∙ mod-mul (s + x) (s - x) n (ap (λ y. y % n) (omega arith) ∙ h))
          (omega (arith, square-sub x s le))

-- A summand cancels in a congruence.
pub add_cancel : (n a b c : ℕ) → (a + c) % n ≡ (b + c) % n → a % n ≡ b % n
add_cancel n a b c h = elim (Bool-cases (leb a b)) [
  | inl e ↦ sym (
      congr_of_mod-sub n a b (ap (λ y. y % n) (omega arith) ∙ mod-sub n (a + c) (b + c) h)
        (ground arith))
  | inr e ↦
      congr_of_mod-sub n b a (ap (λ y. y % n) (omega arith) ∙ mod-sub n (b + c) (a + c) (sym h))
        (ground arith)
]
