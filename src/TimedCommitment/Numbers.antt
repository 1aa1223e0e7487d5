-- ===== src/TimedCommitment/Numbers.antt =====
-- timed_commitment.cpp: exp, get_g, gen_prime and find_order.
use selling_information.Base.{
  ℕ, zero, suc, ◌-◌, ◌*◌, ◌/◌, ◌%◌, not, List, [], ◌∷◌, ◌==◌, ltb, leb, if◌then◌else◌, length,
  Result, ok, err, timed_protocol, sanity, divide_by_zero, out_of_fuel,
}
use selling_information.Base.Errors.{◌>>=◌}
use selling_information.Crypto.{NumberTheory}

abbrev pub b_bound : ℕ
b_bound = 128

abbrev pub r_bound : ℕ
r_bound = 4 * b_bound

abbrev pub bits : ℕ
bits = 512

-- `while (n)`: the exponent at least halves, so that its first value is fuel enough.
unfoldable pub exp_loop : ℕ → ℕ → ℕ → ℕ → ℕ
exp_loop zero res x n = res
exp_loop (suc fuel) res x n =
    let rest = exp_loop fuel (if n % 2 == 1 then res * x else res) (x * x) (n / 2) in
    if n == 0 then res else rest

unfoldable pub exp : ℕ → ℕ → ℕ
unfolding exp_loop
exp x n = exp_loop n 1 x n

-- The loop over the table of primes, up to the first that is not below `b_bound`.
unfoldable pub mult_loop : List ℕ → ℕ → ℕ
unfolding exp
mult_loop [] mult = mult
mult_loop (q ∷ primes) mult =
    let rest = mult_loop primes (mult * exp q bits) in if ltb q b_bound then rest else mult

module _ (nt : NumberTheory) (primes : List ℕ) where
  -- `primes` is the table of GetPrimeTable.
  unfoldable pub get_g : ℕ → ℕ → Result ℕ
  unfolding mult_loop
  get_g n h =
      if leb (length primes) b_bound
      then err (timed_protocol "not enough primes")
      else ok (nt.a_exp_b_mod_c h (mult_loop primes 1) n)

-- `prime_and_generator` is the constructor PrimeAndGenerator(1, rng, bits) followed by Prime().
unfoldable pub gen_prime :
    {World : Type 0} → (ℕ → World → ℕ × World) → ℕ → World → Result (ℕ × World)
gen_prime prime_and_generator length_in_bits w =
    let drawn = prime_and_generator length_in_bits w in
    if drawn.0 % 4 == 3 then ok drawn else err (sanity "gen prime")

module _ (nt : NumberTheory) where
  -- The inner loop of find_order for one `q`.
  unfoldable pub divide_out : ℕ → ℕ → ℕ → ℕ → ℕ → Result ℕ
  divide_out zero n g q order = err out_of_fuel
  divide_out (suc fuel) n g q order =
      let rest = divide_out fuel n g q (order / q) in
      if q == 0
      then err divide_by_zero
      else if not (order % q == 0)
      then ok order
      else if nt.a_exp_b_mod_c g (order / q) n == 1
      then rest
      else ok order

  unfoldable pub divide_out_all : ℕ → ℕ → ℕ → List ℕ → ℕ → Result ℕ
  unfolding divide_out
  divide_out_all fuel n g [] order = ok order
  divide_out_all fuel n g (q ∷ qs) order =
      divide_out fuel n g q order >>= divide_out_all fuel n g qs

  unfoldable pub find_order : ℕ → ℕ → ℕ → Result ℕ
  unfolding divide_out_all
  find_order p1 p2 g =
      let phi = (p1 - 1) * (p2 - 1) in
      divide_out_all (suc phi) (p1 * p2) g ((p1 - 1) / 2 ∷ (p2 - 2) / 2 ∷ 2 ∷ []) phi
