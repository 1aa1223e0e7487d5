-- ===== src/SellInformation/Factoring.antt =====
-- sell_information.cpp: factorise.
use selling_information.Base.{
  ℕ, ◌*◌, ◌<◌, ◌≡◌, ◌⊎◌, inl, inr, refl, sym, subst, Bool, true, false, ◌||◌, List, [], ◌∷◌, length,
  ◌==◌, ==_iff, if-eq, Exception, Result-cases, ◌&&◌, if◌then◌else◌, Result, ok, err, arith,
}
use selling_information.Base.Errors.{◌>>=◌, >>=-eq-ok}
use selling_information.Base.Int.{ℤ, pos, negsuc}
use selling_information.Aes.{Cipher, aes_dec}
use selling_information.Crypto.{Divisors, Encoding, Sha256}
use selling_information.SignatureKey.Keys.{gen_keys}
use selling_information.SignatureKey.Parties.{SingleBuyer}
use selling_information.ShaCommitment as Sha
use selling_information.SellInformation.Parties.{Buyer}
use selling_information.SellInformation.Buyer.{is_product, factors, factor_loop, factorise}

-- factorise leaves out a round with a commitment that was not opened.
abbrev pub skipped : Sha.Receiver → Sha.Receiver → Bool
skipped c1 c2 = length c1.m == 0 || length c2.m == 0

-- What no method that a thread runs changes.
abbrev pub kept : {Point : Type 0} → Buyer Point → ℕ × SingleBuyer Point
kept b = (b.n, b.single_buyer)

ok-injective : {A : Type 0} {x y : A} → ok x ≡ ok y → x ≡ y
ok-injective h = cc

module _ (divisors : Divisors) (gcd_negative : ℕ → ℕ → ℤ) (cipher : Cipher)
    (encoding : Encoding) where
  abbrev pub round : ℕ → List ℕ → Sha.Receiver → Sha.Receiver → Result (ℤ × ℕ) → Result (ℤ × ℕ)
  round n key c1 c2 rest = do
    r1_bytes ← aes_dec cipher key c1.m
    r2_bytes ← aes_dec cipher key c2.m
    let found =
        factors divisors gcd_negative n (encoding.decode r1_bytes) (encoding.decode r2_bytes)
    if is_product divisors gcd_negative found.0 found.1 n then ok found else rest

  round-product :
      (n : ℕ) (key : List ℕ) (c1 c2 : Sha.Receiver) (rest : Result (ℤ × ℕ)) (found : ℤ × ℕ)
      → (rest ≡ ok found → is_product divisors gcd_negative found.0 found.1 n ≡ true)
      → round n key c1 c2 rest ≡ ok found
      → is_product divisors gcd_negative found.0 found.1 n ≡ true
  round-product n key c1 c2 rest found later h =
      let first = >>=-eq-ok (aes_dec cipher key c1.m) _ h in
      let second = >>=-eq-ok (aes_dec cipher key c2.m) _ first.2 in
      let made =
        factors divisors gcd_negative n (encoding.decode first.0) (encoding.decode second.0) in
      elim (if-eq (is_product divisors gcd_negative made.0 made.1 n) (ok made) rest second.2) [
        | inl e ↦
            subst (λ f. is_product divisors gcd_negative f.0 f.1 n ≡ true) (ok-injective e.1) e.0
        | inr e ↦ later e.1
      ]

  factor_loop-product :
      (n : ℕ) (keys : List (List ℕ)) (d1 d2 : List Sha.Receiver) (found : ℤ × ℕ)
      → factor_loop divisors gcd_negative cipher encoding n keys d1 d2 ≡ ok found
      → is_product divisors gcd_negative found.0 found.1 n ≡ true
  unfolding factor_loop
  factor_loop-product n [] d1 d2 found h = cc
  factor_loop-product n (key ∷ keys) [] d2 found h = cc
  factor_loop-product n (key ∷ keys) (c1 ∷ d1) [] found h = cc
  factor_loop-product n (key ∷ keys) (c1 ∷ d1) (c2 ∷ d2) found h =
      elim (if-eq (skipped c1 c2) _ _ h) [
        | inl e ↦ factor_loop-product n keys d1 d2 found e.1
        | inr e ↦ round-product n key c1 c2 _ found (factor_loop-product n keys d1 d2 found) e.1
      ]

  pub factorise-ok :
      {Point : Type 0} (sha : Sha256) (b : Buyer Point) (found : ℤ × ℕ)
      → factor_loop divisors gcd_negative cipher encoding b.n
          (gen_keys encoding sha b.signature)
          b.d1
          b.d2
        ≡ ok found
      → factorise divisors gcd_negative cipher encoding sha b
        ≡ (ok tt, record b { p = found.0; q = found.1 })
  unfolding factorise
  factorise-ok sha b found h = rw (h, factorise) refl

  factorise-err :
      {Point : Type 0} (sha : Sha256) (b : Buyer Point) (e : Exception)
      → factor_loop divisors gcd_negative cipher encoding b.n
          (gen_keys encoding sha b.signature)
          b.d1
          b.d2
        ≡ err e
      → factorise divisors gcd_negative cipher encoding sha b ≡ (err e, b)
  unfolding factorise
  factorise-err sha b e h = rw (h, factorise) refl

  -- The same for the fields that factorise leaves: where it throws nothing its test passed, and it keeps
  -- what factorise and the time lock read.
  pub factorise-is_product :
      {Point : Type 0} (sha : Sha256) (b : Buyer Point)
      → let after = factorise divisors gcd_negative cipher encoding sha b in
        (kept after.1 ≡ kept b)
        × (after.0 ≡ ok tt → is_product divisors gcd_negative after.1.p after.1.q after.1.n ≡ true)
  factorise-is_product {Point} sha b =
      elim (Result-cases (
        factor_loop divisors gcd_negative cipher encoding b.n (gen_keys encoding sha b.signature)
          b.d1 b.d2)) [
            | inl made ↦
                moved _ (sym (factorise-ok sha b made.0 made.1))
                  (refl, λ h. factor_loop-product b.n _ b.d1 b.d2 made.0 made.1)
            | inr thrown ↦ moved _ (sym (factorise-err sha b thrown.0 thrown.1)) (refl, λ h. cc)
          ]
    where
      Fine : Result (Unit {0}) × Buyer Point → Type 0
      Fine after =
          (kept after.1 ≡ kept b)
          × (after.0 ≡ ok tt
              → is_product divisors gcd_negative after.1.p after.1.q after.1.n ≡ true)

      moved :
          (x : Result (Unit {0}) × Buyer Point) {y : Result (Unit {0}) × Buyer Point}
          → x ≡ y
          → Fine x
          → Fine y
      moved x e f = subst Fine e f

  pub product_value :
      (p : ℤ) (q n : ℕ)
      → 0 < n
      → is_product divisors gcd_negative p q n ≡ true
      → (a : ℕ) × (p ≡ pos a) × (a * q ≡ n)
  unfolding is_product
  product_value (pos a) q n positive h = (a, refl, (==_iff _ n).0 h)
  product_value (negsuc a) q n positive h = absurd (vanishing (q == 0) n positive h)
    where
      vanishing : (b : Bool) (n : ℕ) → 0 < n → (b && n == 0) ≡ true → ⊥
      vanishing true n positive h = ground arith
      vanishing false n positive h = cc

  -- For a buyer whose n is positive: if factorise throws nothing, the product of the buyer's p and q is n, and p is not negative. If it
  -- throws, the buyer is unchanged.
  pub factorise-product :
      {Point : Type 0} (sha : Sha256) (b : Buyer Point)
      → 0 < b.n
      → let after = factorise divisors gcd_negative cipher encoding sha b in
        ((after.0 ≡ ok tt) × (p : ℕ) × (after.1.p ≡ pos p) × (p * after.1.q ≡ b.n))
        ⊎ ((e : Exception) × (after ≡ (err e, b)))
  factorise-product {Point} sha b positive =
      elim (Result-cases (
        factor_loop divisors gcd_negative cipher encoding b.n (gen_keys encoding sha b.signature)
          b.d1 b.d2)) [
            | inl made ↦
                let value =
                  product_value made.0.0 made.0.1 b.n positive
                    (factor_loop-product b.n _ b.d1 b.d2 made.0 made.1) in
                inl (
                  subst
                    (λ (after : Result (Unit {0}) × Buyer Point).
                      (after.0 ≡ ok tt) × (p : ℕ) × (after.1.p ≡ pos p) × (p * after.1.q ≡ b.n))
                    (sym (factorise-ok sha b made.0 made.1)) (refl, value.0, value.1, value.2))
            | inr thrown ↦ inr (thrown.0, factorise-err sha b thrown.0 thrown.1)
          ]
