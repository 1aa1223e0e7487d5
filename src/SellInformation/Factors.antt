-- ===== src/SellInformation/Factors.antt =====
-- sell_information.cpp: what factorise computes of two square roots of one number.
use selling_information.Base.{
  ℕ, ◌+◌, ◌-◌, ◌*◌, ◌%◌, ◌≤◌, ◌<◌, ◌≡◌, ◌≢◌, ◌⊎◌, inl, inr, refl, sym, ap, ap₂, subst, ◌∙◌, true,
  ==_iff, le→leb, arith,
}
use selling_information.Base.Int.{ℤ, pos, sub_ℕ}
use selling_information.Crypto.{Divisors}
use selling_information.SquareRoot.Roots.{congr_left, congr_right}
use selling_information.Modular.Primes.{IsPrime, mod-product, congr_of_mod-sub}
use selling_information.SellInformation.Gcd.{gcd-prime, gcd-unit, sums}
use selling_information.SellInformation.Buyer.{gcd_of, is_product, factors}
use native.Mathlib.Nat.{
  mul_comm, mul-mod_right, dvd_antisymm, dvd_refl, mod-eq_of_lt, mul-mod_left, add-mod_left,
}

sum_pos : (n r1 r2 : ℕ) → r2 ≤ n → sub_ℕ (n + r1) r2 ≡ pos (n + r1 - r2)
sum_pos n r1 r2 h = rw (le→leb r2 (n + r1) (omega arith)) refl

module _ (divisors : Divisors) (gcd_negative : ℕ → ℕ → ℤ) where
  factors-eq :
      (n r1 r2 : ℕ)
      → r2 ≤ n
      → factors divisors gcd_negative n r1 r2
        ≡ (pos (divisors.gcd (n + r1 - r2) n), divisors.gcd (r1 + r2) n)
  unfolding factors gcd_of
  factors-eq n r1 r2 h = rw (sum_pos n r1 r2 h, gcd_of) refl

  passes :
      (x y n : ℕ) (found : ℤ × ℕ)
      → x * y ≡ n
      → found ≡ (pos x, y)
      → is_product divisors gcd_negative found.0 found.1 n ≡ true
  unfolding is_product
  passes x y n found e h =
      subst (λ f. is_product divisors gcd_negative f.0 f.1 n ≡ true) (sym h)
        ((==_iff (x * y) n).1 e)

  gcd_self : (n : ℕ) → divisors.gcd n n ≡ n
  gcd_self n =
      dvd_antisymm (divisors.gcd-dvd_left n n) (divisors.dvd-gcd n n n (dvd_refl n) (dvd_refl n))

  -- For two square roots r1 and r2, below n = p * q, of one number modulo n, where p and q are primes
  -- and p has an inverse modulo q: factorise computes the two primes, in either order, if the roots
  -- are different and their sum is no multiple of n. If they are equal and neither prime divides
  -- their sum, it computes n and 1. In both cases its test of the product passes.
  pub factors_lem :
      (p q u r1 r2 : ℕ)
      → IsPrime p
      → IsPrime q
      → p * u % q ≡ 1
      → r1 < p * q
      → r2 < p * q
      → r1 * r1 % (p * q) ≡ r2 * r2 % (p * q)
      → let found = factors divisors gcd_negative (p * q) r1 r2 in
        (r1 ≢ r2
          → (r1 + r2) % (p * q) ≢ 0
          → ((found ≡ (pos p, q)) ⊎ (found ≡ (pos q, p)))
            × (is_product divisors gcd_negative found.0 found.1 (p * q) ≡ true))
        × (r1 ≡ r2
            → (r1 + r2) % p ≢ 0
            → (r1 + r2) % q ≢ 0
            → (found ≡ (pos (p * q), 1))
              × (is_product divisors gcd_negative found.0 found.1 (p * q) ≡ true))
  factors_lem p q u r1 r2 hp hq unit lt1 lt2 same = (
    λ ne sum_ne.
        let found = proper ne sum_ne in
        (
          found,
          elim found [ inl h ↦ passes p q n _ refl h | inr h ↦ passes q p n _ (mul_comm q p) h ],
        ),
    λ e hb hb'. let found = trivial e hb hb' in (found, passes n 1 n _ (omega arith) found),
  )
    where
      n : ℕ
      n = p * q

      a : ℕ
      a = n + r1 - r2

      computed :
          factors divisors gcd_negative n r1 r2 ≡ (pos (divisors.gcd a n), divisors.gcd (r1 + r2) n)
      computed = factors-eq n r1 r2 (omega (arith, lt2))

      at_p : (a % p ≡ 0) ⊎ ((r1 + r2) % p ≡ 0)
      at_p =
          sums divisors n p r1 r2 hp (omega (arith, lt2)) (mul-mod_right p q)
            (congr_left p q (r1 * r1) (r2 * r2) same)

      at_q : (a % q ≡ 0) ⊎ ((r1 + r2) % q ≡ 0)
      at_q =
          sums divisors n q r1 r2 hq (omega (arith, lt2)) (mul-mod_left p q)
            (congr_right p q (r1 * r1) (r2 * r2) same)

      equal : a % p ≡ 0 → a % q ≡ 0 → r1 ≡ r2
      equal ep eq =
          sym (mod-eq_of_lt lt1)
          ∙ sym (add-mod_left n r1)
          ∙ congr_of_mod-sub n r2 (n + r1) (mod-product p q u a hq.0 unit ep eq)
              (omega (arith, lt2))
          ∙ mod-eq_of_lt lt2

      pair :
          (x y : ℕ)
          → divisors.gcd a n ≡ x
          → divisors.gcd (r1 + r2) n ≡ y
          → factors divisors gcd_negative n r1 r2 ≡ (pos x, y)
      pair x y hx hy = computed ∙ ap₂ (λ (g h : ℕ). (pos g, h)) hx hy

      swapped : (x y : ℕ) → divisors.gcd x (q * p) ≡ y → divisors.gcd x n ≡ y
      swapped x y h = ap (divisors.gcd x) (mul_comm p q) ∙ h

      proper :
          r1 ≢ r2
          → (r1 + r2) % n ≢ 0
          → (factors divisors gcd_negative n r1 r2 ≡ (pos p, q))
            ⊎ (factors divisors gcd_negative n r1 r2 ≡ (pos q, p))
      proper ne sum_ne = elim at_p [
        | inl ep ↦ elim at_q [
          | inl eq ↦ absurd (ne (equal ep eq))
          | inr bq ↦ inl (
              pair p q (gcd-prime divisors p q a hp hq ep (λ eq. ne (equal ep eq))) (
                swapped (r1 + r2) q (
                  gcd-prime divisors q p (r1 + r2) hq hp bq
                    (λ bp. sum_ne (mod-product p q u (r1 + r2) hq.0 unit bp bq)))))
        ]
        | inr bp ↦ elim at_q [
          | inl eq ↦ inr (
              pair q p (swapped a q (gcd-prime divisors q p a hq hp eq (λ ep. ne (equal ep eq)))) (
                gcd-prime divisors p q (r1 + r2) hp hq bp
                  (λ bq. sum_ne (mod-product p q u (r1 + r2) hq.0 unit bp bq))))
          | inr bq ↦ absurd (sum_ne (mod-product p q u (r1 + r2) hq.0 unit bp bq))
        ]
      ]

      trivial :
          r1 ≡ r2
          → (r1 + r2) % p ≢ 0
          → (r1 + r2) % q ≢ 0
          → factors divisors gcd_negative n r1 r2 ≡ (pos n, 1)
      trivial e hb hb' =
          pair n 1 (ap (λ x. divisors.gcd x n) (omega (arith, e)) ∙ gcd_self n)
            (gcd-unit divisors p q (r1 + r2) hp hq hb hb')
