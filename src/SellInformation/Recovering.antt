-- ===== src/SellInformation/Recovering.antt =====
-- sell_information.cpp: factorise finds the primes from opened commitments to different roots.
use selling_information.Base.{
  ℕ, ◌+◌, ◌*◌, ◌%◌, ◌<◌, ◌≡◌, ◌≢◌, ◌⊎◌, inl, inr, refl, sym, ap, subst, ◌∙◌, true, false, List, [],
  ◌∷◌, Result, ok,
}
use selling_information.Base.Int.{ℤ, pos}
use selling_information.Aes.{Cipher, aes_dec}
use selling_information.Crypto.{Divisors, Encoding, Sha256}
use selling_information.Modular.Primes.{IsPrime}
use selling_information.SignatureKey.Keys.{gen_keys}
use selling_information.ShaCommitment as Sha
use selling_information.SellInformation.Parties.{Buyer}
use selling_information.SellInformation.Buyer.{factors, factor_loop, factorise}
use selling_information.SellInformation.Factoring.{skipped, round, factorise-ok}
use selling_information.SellInformation.Factors.{factors_lem}

-- Some pair was opened.
abbrev pub SomeOpened : List (List ℕ) → List Sha.Receiver → List Sha.Receiver → Type 0
SomeOpened (key ∷ keys) (c1 ∷ d1) (c2 ∷ d2) = (skipped c1 c2 ≡ false) ⊎ SomeOpened keys d1 d2
SomeOpened keys d1 d2 = ⊥

abbrev ArePrimes : ℕ → ℕ → ℤ × ℕ → Type 0
ArePrimes p q found = (found ≡ (pos p, q)) ⊎ (found ≡ (pos q, p))

module _ (cipher : Cipher) (encoding : Encoding) where
  -- A pair of opened commitments whose messages decrypt to different square roots, below n, of one
  -- number modulo n, of which the sum is no multiple of n.
  pub record IsProper (n : ℕ) (key : List ℕ) (c1 c2 : Sha.Receiver) : Type 0 where
    pub r1_bytes : List ℕ
    pub r2_bytes : List ℕ
    pub opened : skipped c1 c2 ≡ false
    pub dec1 : aes_dec cipher key c1.m ≡ ok r1_bytes
    pub dec2 : aes_dec cipher key c2.m ≡ ok r2_bytes
    pub lt1 : encoding.decode r1_bytes < n
    pub lt2 : encoding.decode r2_bytes < n
    pub same :
        encoding.decode r1_bytes * encoding.decode r1_bytes % n
        ≡ encoding.decode r2_bytes * encoding.decode r2_bytes % n
    pub different : encoding.decode r1_bytes ≢ encoding.decode r2_bytes
    pub sum : (encoding.decode r1_bytes + encoding.decode r2_bytes) % n ≢ 0

  -- Every pair is one that was not opened or such a pair.
  abbrev pub AllProper : ℕ → List (List ℕ) → List Sha.Receiver → List Sha.Receiver → Type 0
  AllProper n (key ∷ keys) (c1 ∷ d1) (c2 ∷ d2) =
      ((skipped c1 c2 ≡ true) ⊎ IsProper n key c1 c2) × AllProper n keys d1 d2
  AllProper n keys d1 d2 = Unit

module _ (divisors : Divisors) (gcd_negative : ℕ → ℕ → ℤ) (cipher : Cipher)
    (encoding : Encoding) where
  round-primes :
      (p q u : ℕ) (key : List ℕ) (c1 c2 : Sha.Receiver) (rest : Result (ℤ × ℕ))
      → IsPrime p
      → IsPrime q
      → p * u % q ≡ 1
      → IsProper cipher encoding (p * q) key c1 c2
      → (found : ℤ × ℕ) × (round divisors gcd_negative cipher encoding (p * q) key c1 c2 rest
          ≡ ok found)
        × ArePrimes p q found
  round-primes p q u key c1 c2 rest hp hq unit h =
      let r1 = encoding.decode h.r1_bytes in
      let r2 = encoding.decode h.r2_bytes in
      let made =
        (factors_lem divisors gcd_negative p q u r1 r2 hp hq unit h.lt1 h.lt2 h.same).0 h.different
          h.sum in
      (factors divisors gcd_negative (p * q) r1 r2, rw (h.dec1, h.dec2, made.1) refl, made.0)

  factor_loop-primes :
      (p q u : ℕ) (keys : List (List ℕ)) (d1 d2 : List Sha.Receiver)
      → IsPrime p
      → IsPrime q
      → p * u % q ≡ 1
      → AllProper cipher encoding (p * q) keys d1 d2
      → SomeOpened keys d1 d2
      → (found : ℤ × ℕ) × (factor_loop divisors gcd_negative cipher encoding (p * q) keys d1 d2
          ≡ ok found)
        × ArePrimes p q found
  unfolding factor_loop
  factor_loop-primes p q u [] d1 d2 hp hq unit all some = absurd some
  factor_loop-primes p q u (key ∷ keys) [] d2 hp hq unit all some = absurd some
  factor_loop-primes p q u (key ∷ keys) (c1 ∷ d1) [] hp hq unit all some = absurd some
  factor_loop-primes p q u (key ∷ keys) (c1 ∷ d1) (c2 ∷ d2) hp hq unit all some = elim all.0 [
    | inl e ↦
        let later = factor_loop-primes p q u keys d1 d2 hp hq unit all.1 (after some e) in
        (later.0, rw e later.1, later.2)
    | inr proper ↦
        let here =
          round-primes p q u key c1 c2
            (factor_loop divisors gcd_negative cipher encoding (p * q) keys d1 d2) hp hq unit
            proper in
        (here.0, rw (proper.opened) here.1, here.2)
  ]
    where
      after :
          (skipped c1 c2 ≡ false) ⊎ SomeOpened keys d1 d2
          → skipped c1 c2 ≡ true
          → SomeOpened keys d1 d2
      after (inl unskipped) e = cc
      after (inr later) e = later

  -- When n is the product of primes p and q, where p has an inverse modulo q, and of the pairs of
  -- commitments at least one was opened and each that was opened decrypts, under its key, to two
  -- square roots of one number modulo n, both below n, that are not equal and whose sum is no
  -- multiple of n: factorise throws nothing and leaves the two primes, in either order, as the
  -- buyer's p and q.
  pub factorise-primes :
      {Point : Type 0} (sha : Sha256) (b : Buyer Point) (p q u : ℕ)
      → IsPrime p
      → IsPrime q
      → p * u % q ≡ 1
      → b.n ≡ p * q
      → AllProper cipher encoding (p * q) (gen_keys encoding sha b.signature) b.d1 b.d2
      → SomeOpened (gen_keys encoding sha b.signature) b.d1 b.d2
      → let after = factorise divisors gcd_negative cipher encoding sha b in
        (after.0 ≡ ok tt)
        × (((after.1.p ≡ pos p) × (after.1.q ≡ q)) ⊎ ((after.1.p ≡ pos q) × (after.1.q ≡ p)))
  factorise-primes {Point} sha b p q u hp hq unit same_n all some =
      subst
        (λ (after : Result (Unit {0}) × Buyer Point).
          (after.0 ≡ ok tt)
          × (((after.1.p ≡ pos p) × (after.1.q ≡ q)) ⊎ ((after.1.p ≡ pos q) × (after.1.q ≡ p))))
        (sym (
          factorise-ok divisors gcd_negative cipher encoding sha b made.0 (
            ap
              (λ n.
                factor_loop divisors gcd_negative cipher encoding n
                  (gen_keys encoding sha b.signature) b.d1 b.d2)
              same_n
            ∙ made.1)))
        (
          refl,
          elim made.2 [
            | inl e ↦ inl (ap (λ (f : ℤ × ℕ). f.0) e, ap (λ (f : ℤ × ℕ). f.1) e)
            | inr e ↦ inr (ap (λ (f : ℤ × ℕ). f.0) e, ap (λ (f : ℤ × ℕ). f.1) e)
          ],
        )
    where
      made :
          (found : ℤ × ℕ) × (factor_loop divisors gcd_negative cipher encoding
              (p * q)
              (gen_keys encoding sha b.signature)
              b.d1
              b.d2
            ≡ ok found)
          × ArePrimes p q found
      made = factor_loop-primes p q u _ b.d1 b.d2 hp hq unit all some
