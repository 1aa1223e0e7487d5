-- ===== src/TimedCommitment/Opening.antt =====
-- timed_commitment.cpp: the three ways to open a sealed commitment give the message.
use selling_information.Base.{
  ℕ, suc, ◌+◌, ◌-◌, ◌*◌, ◌%◌, ◌^◌, ◌≤◌, ◌<◌, ◌≡◌, sym, ap, ◌∙◌, Bool, false, List, length, get_or,
  leb, ==_refl, arith, ok,
}
use selling_information.Modular.{pow_right_comm, pow-mod}
use native.Mathlib.Nat.{mod-eq_of_lt, pow-succ'}
use selling_information.Crypto.{NumberTheory}
use selling_information.TimedCommitment.Numbers.{b_bound}
use selling_information.TimedCommitment.Exponent.{prime_product, get_g_lem}
use selling_information.TimedCommitment.Parties.{
  Commitment, Commiter, Receiver, mask, unmask, square_times,
}
use selling_information.TimedCommitment.Commiting.{commiter_open}
use selling_information.TimedCommitment.Receiving.{
  decode, check_and_decode, force_open, force_open_smart, receiver_open,
}
use selling_information.TimedCommitment.Loops.{
  mask-last, unmask-mask, square_times_lem, exp-reduced, pow-pow-two,
}
use selling_information.TimedCommitment.Sealing.{IsSealed}

pub short : (primes : List ℕ) → b_bound < length primes → leb (length primes) b_bound ≡ false
short primes h = ground arith

suc_pred : (k : ℕ) → 1 ≤ k → k ≡ suc (k - 1)
suc_pred k h = omega arith

module _ (nt : NumberTheory) (m : List Bool) (c : Commitment) (sealed : IsSealed nt m c) where
  -- The number from which the last l squarings start.
  abbrev start : ℕ
  start = c.g ^ (2 ^ (2 ^ c.k - c.l))

  start-last : start ^ (2 ^ c.l) % c.n ≡ c.u
  start-last =
      ap (λ y. y % c.n)
        (pow-pow-two c.g (2 ^ c.k - c.l) c.l ∙ ap (λ y. c.g ^ (2 ^ y)) (omega (arith, sealed.fits)))
      ∙ sym sealed.last

  ended : (mask nt c.n (start % c.n) m).1 ≡ c.u
  ended =
      mask-last nt c.n sealed.modulus m start
      ∙ ap (λ j. start ^ (2 ^ j) % c.n) (sym sealed.size)
      ∙ start-last

  unmask-start : unmask nt c.n c.s c.l 0 (start % c.n) ≡ (m, c.u)
  unmask-start =
      ap (λ t. unmask nt c.n t c.l 0 (start % c.n)) sealed.masked
      ∙ ap (λ j. unmask nt c.n (mask nt c.n (start % c.n) m).0 j 0 (start % c.n)) sealed.size
      ∙ unmask-mask nt c.n sealed.modulus m (start % c.n)
      ∙ ap (λ t. (m, t)) ended

  decode-start : decode nt (start % c.n) c ≡ ok m
  unfolding decode
  decode-start = rw unmask-start (rw (==_refl c.u))

  check_and_decode-start : check_and_decode nt (start % c.n) c ≡ ok m
  unfolding check_and_decode
  check_and_decode-start =
      rw
        (
          nt.exp_lem (start % c.n) (2 ^ c.l) c.n sealed.modulus,
          pow-mod start (2 ^ c.l) c.n,
          start-last,
          ==_refl c.u,
        )
        decode-start

  opens : (v : ℕ) → v ≡ start % c.n → check_and_decode nt v c ≡ ok m
  opens v e = rw e check_and_decode-start

  -- Squaring g for 2 ^ K - l times opens the commitment: the receiver gets the message without the
  -- committer.
  pub force_open_lem : (r : Receiver) → r.commitment ≡ c → force_open nt r ≡ ok m
  unfolding force_open
  force_open_lem r e = rw e (
      opens _ (
        ap (square_times nt c.n (2 ^ c.k - c.l)) (sym (mod-eq_of_lt sealed.reduced))
        ∙ square_times_lem nt c.n sealed.modulus (2 ^ c.k - c.l) c.g))

  smart_start :
      1 ≤ c.k
      → c.l ≤ 2 ^ (c.k - 1)
      → square_times nt c.n (2 ^ (c.k - 1) - c.l) (get_or c.w (c.k - 1) 0) ≡ start % c.n
  smart_start hk hl =
      ap (square_times nt c.n (2 ^ (c.k - 1) - c.l)) (sealed.entries (c.k - 1) (omega arith))
      ∙ square_times_lem nt c.n sealed.modulus (2 ^ (c.k - 1) - c.l) (c.g ^ (2 ^ (2 ^ (c.k - 1))))
      ∙ ap (λ y. y % c.n)
          (pow-pow-two c.g (2 ^ (c.k - 1)) (2 ^ (c.k - 1) - c.l) ∙ ap (λ y. c.g ^ (2 ^ y)) halves)
    where
      half : 2 ^ c.k ≡ 2 * 2 ^ (c.k - 1)
      half = ap (λ j. 2 ^ j) (suc_pred c.k hk) ∙ pow-succ' 2 (c.k - 1)

      halves : 2 ^ (c.k - 1) + (2 ^ (c.k - 1) - c.l) ≡ 2 ^ c.k - c.l
      halves = omega (arith, half)

  -- Half of these squarings are enough from the last but one entry of W.
  pub force_open_smart_lem :
      (r : Receiver)
      → r.commitment ≡ c
      → 1 ≤ c.k
      → c.l ≤ 2 ^ (c.k - 1)
      → force_open_smart nt r ≡ ok m
  unfolding force_open_smart
  force_open_smart_lem r e hk hl = rw e (opens _ (smart_start hk hl))

  module _ (primes : List ℕ) (long : b_bound < length primes) where
    vp_lem :
        (phi : ℕ)
        → 1 < phi
        → c.h ^ phi % c.n ≡ 1
        → c.g ≡ c.h ^ prime_product primes % c.n
        → (nt.a_exp_b_mod_c c.h (nt.a_exp_b_mod_c 2 (2 ^ c.k - c.l) phi) c.n) ^ prime_product primes
            % c.n
          ≡ start % c.n
    vp_lem phi hphi one made =
        ap (λ y. y ^ prime_product primes % c.n)
          (exp-reduced nt c.n sealed.modulus c.h (2 ^ c.k - c.l) phi hphi one)
        ∙ pow-mod (c.h ^ e) (prime_product primes) c.n
        ∙ ap (λ y. y % c.n) (pow_right_comm c.h e (prime_product primes))
        ∙ sym (pow-mod (c.h ^ prime_product primes) e c.n)
        ∙ ap (λ y. y ^ e % c.n) (sym made)
      where
        e : ℕ
        e = 2 ^ (2 ^ c.k - c.l)

    -- The committer's value opens the commitment, for an h that is 1 to the phi.
    pub receiver_open_lem :
        (a : Commiter) (r : Receiver)
        → a.commitment ≡ c
        → r.commitment ≡ c
        → a.n ≡ c.n
        → 1 < a.phi
        → c.h ^ a.phi % c.n ≡ 1
        → c.g ≡ c.h ^ prime_product primes % c.n
        → receiver_open nt primes (commiter_open nt a) r ≡ ok m
    unfolding receiver_open commiter_open
    receiver_open_lem a r ea er en hphi one made =
        rw (ea, er, en, get_g_lem nt primes c.n _ sealed.modulus, short primes long)
          (opens _ (vp_lem a.phi hphi one made))
