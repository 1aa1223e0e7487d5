-- ===== src/TimedCommitment/Exponent.antt =====
-- timed_commitment.cpp: what exp and get_g compute.
use selling_information.Base.{
  ℕ, zero, suc, ◌*◌, ◌/◌, ◌%◌, ◌^◌, ◌≤◌, ◌<◌, ◌≡◌, sym, ap, ◌∙◌, ◌≡⟨◌⟩◌, ◌∎, inl, inr, List, [],
  ◌∷◌, ◌==◌, ==_iff, Bool-cases, ltb, leb, if◌then◌else◌, length, arith, ok, err, timed_protocol,
  false,
}
use selling_information.Modular.{pow-add, mul-pow}
use selling_information.Crypto.{NumberTheory}
use selling_information.TimedCommitment.Numbers.{b_bound, bits, exp_loop, exp, mult_loop, get_g}
use native.Mathlib.Nat.{pow-zero, pow-succ', mul_assoc, one-mul}

square_pow_half : (x k : ℕ) → (x * x) ^ k ≡ x ^ (2 * k)
square_pow_half x k = rw (mul-pow x x k, ← pow-add x k k) (ap (λ e. x ^ e) (omega arith))

odd_power : (res x n : ℕ) → n % 2 ≡ 1 → res * x * (x * x) ^ (n / 2) ≡ res * x ^ n
odd_power res x n h =
    res * x * (x * x) ^ (n / 2)
    ≡⟨ ap (λ y. res * x * y) (square_pow_half x (n / 2)) ∙ mul_assoc res x _ ⟩
      res * (x * x ^ (2 * (n / 2)))
    ≡⟨ ap (λ y. res * y) (sym (pow-succ' x (2 * (n / 2))) ∙ ap (λ e. x ^ e) (omega arith)) ⟩
      res * x ^ n ∎

even_power : (res x n : ℕ) → n % 2 ≡ 0 → res * (x * x) ^ (n / 2) ≡ res * x ^ n
even_power res x n h = ap (λ y. res * y) (square_pow_half x (n / 2) ∙ ap (λ e. x ^ e) (omega arith))

pos_test : (n : ℕ) → (suc n == 0) ≡ false
pos_test n = ground arith

exp_loop-eq : (fuel res x n : ℕ) → n ≤ fuel → exp_loop fuel res x n ≡ res * x ^ n
unfolding exp_loop
exp_loop-eq zero res x zero h = rw pow-zero (omega arith)
exp_loop-eq zero res x (suc n) h = absurd (omega arith)
exp_loop-eq (suc fuel) res x zero h = rw pow-zero (omega arith)
exp_loop-eq (suc fuel) res x (suc n) h = elim (Bool-cases (suc n % 2 == 1)) [
  | inl odd ↦
      rw (pos_test n, odd)
        (exp_loop-eq fuel (res * x) (x * x) (suc n / 2) (omega arith)
          ∙ odd_power res x (suc n) ((==_iff _ 1).0 odd))
  | inr even ↦
      rw (pos_test n, even)
        (exp_loop-eq fuel res (x * x) (suc n / 2) (omega arith)
          ∙ even_power res x (suc n) (ground arith))
]

-- The loop of exp computes the power, for every base and exponent.
pub exp_lem : (x n : ℕ) → exp x n ≡ x ^ n
unfolding exp
exp_lem x n = exp_loop-eq n 1 x n (omega arith) ∙ omega arith

-- The product of the powers of the primes at the head of the table that are below the bound.
abbrev pub prime_product : List ℕ → ℕ
prime_product [] = 1
prime_product (q ∷ primes) = if ltb q b_bound then q ^ bits * prime_product primes else 1

mult_loop-eq : (primes : List ℕ) (mult : ℕ) → mult_loop primes mult ≡ mult * prime_product primes
unfolding mult_loop
mult_loop-eq [] mult = omega arith
mult_loop-eq (q ∷ primes) mult = elim (Bool-cases (ltb q b_bound)) [
  | inl below ↦
      rw (below, exp_lem q bits)
        (mult_loop-eq primes (mult * q ^ bits) ∙ mul_assoc mult (q ^ bits) (prime_product primes))
  | inr above ↦ rw above (omega arith)
]

module _ (nt : NumberTheory) (primes : List ℕ) where
  -- For a modulus above 1 get_g throws if the table has at most 128 primes; otherwise it is the
  -- power of h whose exponent is the product, over the primes at the head of the table that are
  -- below 128, of their 512th powers.
  pub get_g_lem :
      (n h : ℕ)
      → 1 < n
      → get_g nt primes n h ≡ (
          if leb (length primes) b_bound
          then err (timed_protocol "not enough primes")
          else ok (h ^ prime_product primes % n))
  unfolding get_g
  get_g_lem n h lt = rw (nt.exp_lem h (mult_loop primes 1) n lt, mult_loop-eq primes 1, one-mul)
