-- ===== src/TimedCommitment/Order.antt =====
-- timed_commitment.cpp: find_order ends, and returns a period of the element.
use selling_information.Base.{
  ℕ, zero, suc, ◌-◌, ◌*◌, ◌/◌, ◌%◌, ◌^◌, ◌≤◌, ◌<◌, ◌∣◌, ◌≡◌, refl, sym, subst, ◌∙◌, inl, inr, List,
  [], ◌∷◌, ◌==◌, ==_iff, Bool-cases, arith, ok, All, false,
}
use selling_information.Crypto.{NumberTheory}
use selling_information.TimedCommitment.Numbers.{divide_out, divide_out_all, find_order}
use native.Mathlib.Nat.{dvd_refl, dvd_trans, dvd-mul_left, div-add-mod, le_of_dvd, mul-pos}

-- A period of g modulo n that divides `top`.
abbrev pub IsPeriod : ℕ → ℕ → ℕ → ℕ → Type 0
IsPeriod n g top o = (0 < o) × (o ∣ top) × (g ^ o % n ≡ 1)

quotient_facts :
    (order q : ℕ)
    → 2 ≤ q
    → 0 < order
    → order % q ≡ 0
    → (0 < order / q) × (order / q < order) × (order / q ∣ order)
quotient_facts order q hq ho e = (
  grind (arith, div-add-mod order q),
  grind (arith, div-add-mod order q),
  subst (λ x. order / q ∣ x) whole (dvd-mul_left (order / q) q),
)
  where
    whole : q * (order / q) ≡ order
    whole = omega (arith, div-add-mod order q)

module _ (nt : NumberTheory) where
  divide_out-IsPeriod :
      (fuel n g q order top : ℕ)
      → 1 < n
      → 2 ≤ q
      → order < fuel
      → IsPeriod n g top order
      → (o : ℕ) × (divide_out nt fuel n g q order ≡ ok o) × IsPeriod n g top o
  unfolding divide_out
  divide_out-IsPeriod zero n g q order top hn hq lt per = absurd (omega arith)
  divide_out-IsPeriod (suc fuel) n g q order top hn hq lt per = elim (Bool-cases (order % q == 0)) [
    | inr rest ↦ (order, rw (zero_test q hq, rest) refl, per)
    | inl divides ↦ elim (Bool-cases (nt.a_exp_b_mod_c g (order / q) n == 1)) [
      | inr fails ↦ (order, rw (zero_test q hq, divides, fails) refl, per)
      | inl passes ↦
          let facts = quotient_facts order q hq per.0 ((==_iff _ 0).0 divides) in
          let one = sym (nt.exp_lem g (order / q) n hn) ∙ (==_iff _ 1).0 passes in
          let found =
            divide_out-IsPeriod fuel n g q (order / q) top hn hq (omega arith)
              (facts.0, dvd_trans (order / q) facts.2 per.1, one) in
          (found.0, rw (zero_test q hq, divides, passes) found.1, found.2)
    ]
  ]
    where
      zero_test : (k : ℕ) → 2 ≤ k → (k == 0) ≡ false
      zero_test k h = ground arith

  divide_out_all-IsPeriod :
      (fuel n g : ℕ) (qs : List ℕ) (order top : ℕ)
      → 1 < n
      → All (λ q. 2 ≤ q) qs
      → top < fuel
      → 0 < top
      → IsPeriod n g top order
      → (o : ℕ) × (divide_out_all nt fuel n g qs order ≡ ok o) × IsPeriod n g top o
  unfolding divide_out_all
  divide_out_all-IsPeriod fuel n g [] order top hn hq lt pos per = (order, refl, per)
  divide_out_all-IsPeriod fuel n g (q ∷ qs) order top hn hq lt pos per =
      let first =
        divide_out-IsPeriod fuel n g q order top hn hq.0 (le_trans_lt (le_of_dvd pos per.1) lt)
          per in
      let rest = divide_out_all-IsPeriod fuel n g qs first.0 top hn hq.1 lt pos first.2 in
      (rest.0, rw first.1 rest.1, rest.2)
    where
      le_trans_lt : {a b c : ℕ} → a ≤ b → b < c → a < c
      le_trans_lt h k = omega arith

  -- For p1 and p2 of at least 6 and an element g whose power to (p1 - 1) * (p2 - 1) is 1 modulo p1
  -- * p2, find_order ends with no exception, and what it returns is positive, divides (p1 - 1) *
  -- (p2 - 1), and is a power of g to which g is 1.
  pub find_order-IsPeriod :
      (p1 p2 g : ℕ)
      → 6 ≤ p1
      → 6 ≤ p2
      → g ^ ((p1 - 1) * (p2 - 1)) % (p1 * p2) ≡ 1
      → (o : ℕ) × (find_order nt p1 p2 g ≡ ok o) × IsPeriod (p1 * p2) g ((p1 - 1) * (p2 - 1)) o
  unfolding find_order
  find_order-IsPeriod p1 p2 g h1 h2 one =
      divide_out_all-IsPeriod (suc phi) (p1 * p2) g ((p1 - 1) / 2 ∷ (p2 - 2) / 2 ∷ 2 ∷ []) phi phi
        (grind arith) (omega arith, (omega arith, (omega arith, tt))) (omega arith) pos
        (pos, dvd_refl phi, one)
    where
      phi : ℕ
      phi = (p1 - 1) * (p2 - 1)

      pos : 0 < phi
      pos = mul-pos (omega arith) (omega arith)
