-- ===== src/SellInformation/Gcd.antt =====
-- Greatest common divisors with a product of two primes.
use selling_information.Base.{
  ℕ, ◌+◌, ◌-◌, ◌*◌, ◌/◌, ◌%◌, ◌≤◌, ◌∣◌, ◌≡◌, ◌≢◌, ◌⊎◌, inl, inr, refl, sym, ap, subst, ◌∙◌, arith,
}
use selling_information.Crypto.{Divisors}
use selling_information.Modular.{add_congr}
use selling_information.Modular.Primes.{IsPrime, mod-sub, mod-mul, prime-roots, quotient}
use native.Mathlib.Nat.{
  mod-eq-zero_of_dvd, dvd_of_mod-eq-zero, mod_self, mul_assoc, mul_comm, mul-mod_right,
  eq_of_mul-eq-mul_left, eq-one_of_dvd-one, dvd-mul_right, zero-mod,
}

module _ (divisors : Divisors) where
  -- The greatest common divisor with p * q of a multiple of p that q does not divide.
  pub gcd-prime :
      (p q a : ℕ) → IsPrime p → IsPrime q → a % p ≡ 0 → a % q ≢ 0 → divisors.gcd a (p * q) ≡ p
  gcd-prime p q a hp hq ha hn =
      elim (hq.1 (g / p) cofactor (ap (λ x. x % q) (sym in_q) ∙ mod_self q)) [
        | inl e ↦ absurd (hn (of_g (product_of e)))
        | inr e ↦ in_g ∙ ap (λ x. p * x) (only e) ∙ omega arith
      ]
    where
      g : ℕ
      g = divisors.gcd a (p * q)

      -- p divides g, which divides a and p * q.
      in_g : g ≡ p * (g / p)
      in_g = quotient p g (
          mod-eq-zero_of_dvd p (
            divisors.dvd-gcd p a (p * q) (dvd_of_mod-eq-zero p ha)
              (dvd_of_mod-eq-zero p (mul-mod_right p q))))

      cofactor : ℕ
      cofactor = p * q / g

      in_n : p * q ≡ g * cofactor
      in_n = quotient g (p * q) (mod-eq-zero_of_dvd g (divisors.gcd-dvd_right a (p * q)))

      in_q : q ≡ g / p * cofactor
      in_q =
          eq_of_mul-eq-mul_left p (omega (arith, hp.0)) q (g / p * cofactor)
            (in_n ∙ ap (λ x. x * cofactor) in_g ∙ mul_assoc p (g / p) cofactor)

      product_of : g / p % q ≡ 0 → g % q ≡ 0
      product_of e = ap (λ x. x % q) (in_g ∙ mul_comm p (g / p)) ∙ mod-mul (g / p) p q e

      of_g : g % q ≡ 0 → a % q ≡ 0
      of_g e =
          ap (λ x. x % q) (quotient g a (mod-eq-zero_of_dvd g (divisors.gcd-dvd_left a (p * q))))
          ∙ mod-mul g (a / g) q e

      only : cofactor % q ≡ 0 → g / p ≡ 1
      only e =
          eq-one_of_dvd-one
            (subst (λ y. g / p ∣ y) (sym one) (dvd-mul_right (g / p) (cofactor / q)))
        where
          one : 1 ≡ g / p * (cofactor / q)
          one =
              eq_of_mul-eq-mul_left q (omega (arith, hq.0)) 1 (g / p * (cofactor / q))
                (omega (arith, in_q, ap (λ x. g / p * x) (quotient q cofactor e)))

  -- Modulo a prime, two square roots of one number make one of the two sums vanish.
  pub sums :
      (n p r1 r2 : ℕ)
      → IsPrime p
      → r2 ≤ n
      → n % p ≡ 0
      → r1 * r1 % p ≡ r2 * r2 % p
      → ((n + r1 - r2) % p ≡ 0) ⊎ ((r1 + r2) % p ≡ 0)
  sums n p r1 r2 prime le at_n same = elim (prime-roots p r1 r2 prime same) [
    | inl e ↦ inl (
        mod-sub p r2 (n + r1) (
          sym
            (add_congr n 0 r1 r1 p (at_n ∙ sym (zero-mod p)) refl ∙ ap (λ x. x % p) zero_add ∙ e)))
    | inr e ↦ inr e
  ]
    where
      zero_add : 0 + r1 ≡ r1
      zero_add = omega arith

  -- The greatest common divisor with p * q of a number that neither divides.
  pub gcd-unit :
      (p q a : ℕ) → IsPrime p → IsPrime q → a % p ≢ 0 → a % q ≢ 0 → divisors.gcd a (p * q) ≡ 1
  gcd-unit p q a hp hq ha hb =
      elim (hp.1 g cofactor (ap (λ x. x % p) (sym in_n) ∙ mul-mod_right p q)) [
        | inl e ↦ absurd (ha (of_g p e))
        | inr e ↦ elim (hq.1 g (cofactor / p) (ap (λ x. x % q) (sym (in_q e)) ∙ mod_self q)) [
          | inl e' ↦ absurd (hb (of_g q e'))
          | inr e' ↦
              eq-one_of_dvd-one
                (subst (λ y. g ∣ y) (sym (one e e')) (dvd-mul_right g (cofactor / p / q)))
        ]
      ]
    where
      g : ℕ
      g = divisors.gcd a (p * q)

      cofactor : ℕ
      cofactor = p * q / g

      in_n : p * q ≡ g * cofactor
      in_n = quotient g (p * q) (mod-eq-zero_of_dvd g (divisors.gcd-dvd_right a (p * q)))

      of_g : (d : ℕ) → g % d ≡ 0 → a % d ≡ 0
      of_g d e =
          ap (λ x. x % d) (quotient g a (mod-eq-zero_of_dvd g (divisors.gcd-dvd_left a (p * q))))
          ∙ mod-mul g (a / g) d e

      in_q : cofactor % p ≡ 0 → q ≡ g * (cofactor / p)
      in_q e =
          eq_of_mul-eq-mul_left p (omega (arith, hp.0)) q (g * (cofactor / p))
            (omega (arith, in_n, ap (λ x. g * x) (quotient p cofactor e)))

      one : cofactor % p ≡ 0 → cofactor / p % q ≡ 0 → 1 ≡ g * (cofactor / p / q)
      one e e' =
          eq_of_mul-eq-mul_left q (omega (arith, hq.0)) 1 (g * (cofactor / p / q))
            (omega (arith, in_q e, ap (λ x. g * x) (quotient q (cofactor / p) e')))
