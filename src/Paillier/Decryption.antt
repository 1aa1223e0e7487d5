-- ===== src/Paillier/Decryption.antt =====
-- Paillier::dec and Paillier::enc on a whole key.
use selling_information.Base.{
  ℕ, zero, suc, ◌+◌, ◌*◌, ◌/◌, ◌%◌, ◌^◌, ◌<◌, ◌≡◌, refl, sym, ap, ◌∙◌, ◌≡⟨◌⟩◌, ◌∎, false, ◌==◌, leb,
  arith, ok, inl, inr, Bool-cases, ==_iff, ◌≢◌,
}
use selling_information.Base.Int.{pos}
use selling_information.Crypto.{NumberTheory, Rng}
use selling_information.Modular.{mul_congr, mod-mul-mod, mul-mod, mul-pow, pow-mul, pow-mod}
use selling_information.Paillier.{Paillier, outside_positive, enc, dec, quotient_l}
use selling_information.Paillier.Binomial.{succ_power, succ_remainder, quotient_of_succ}
use selling_information.Paillier.Homomorphism.{IsKey, Encrypts}
use native.Mathlib.Nat.{
  mod-eq_of_lt, mod-lt, div-add-mod, zero-mod, mul-one, mul_comm, mul_assoc, pow-suc,
  mul-add-mod_self_left, mul-mod_right,
}

no_unit : (p a b : ℕ) → 1 < p → p * a ≡ p * b + 1 → ⊥
no_unit p a b lt e =
    ground
      (arith, ap (λ x. x % p) e, mul-mod_right p a, mul-add-mod_self_left p b 1, mod-eq_of_lt lt)

-- A number whose power leaves 1 + n * x modulo n * n has no factor in common with n.
not_multiple :
    (c p q e x : ℕ)
    → 1 < p
    → 0 < e
    → c ^ e % (p * q * (p * q)) ≡ 1 + p * q * x
    → (c % p == 0) ≡ false
not_multiple c p q zero x lt h eq = absurd (omega arith)
not_multiple c p q (suc e) x lt h eq = elim (Bool-cases (c % p == 0)) [
  | inl t ↦ absurd (
      no_unit p (c / p * c ^ e) (q * (p * q) * (c ^ suc e / (p * q * (p * q))) + q * x) lt
        (whole ((==_iff (c % p) 0).0 t)))
  | inr f ↦ f
]
  where
    whole :
        c % p ≡ 0
        → p * (c / p * c ^ e) ≡ p * (q * (p * q) * (c ^ suc e / (p * q * (p * q))) + q * x) + 1
    whole z = left ∙ sym (pow-suc c e ∙ mul_comm (c ^ e) c) ∙ right
      where
        left : p * (c / p * c ^ e) ≡ c * c ^ e
        left =
            sym (mul_assoc p (c / p) (c ^ e))
            ∙ ap (λ (t : ℕ). t * c ^ e) (omega (arith, div-add-mod c p))

        right : c ^ suc e ≡ p * (q * (p * q) * (c ^ suc e / (p * q * (p * q))) + q * x) + 1
        right = omega (arith, div-add-mod (c ^ suc e) (p * q * (p * q)))

module _ (k : Paillier) (p q : ℕ) (key : IsKey k p q) where
  pub large : 1 < k.n
  large = rw key.modulus (grind (arith, key.p_lt, key.q_lt))

  pub squared_large : 1 < k.n2
  squared_large = rw key.squared (grind (arith, large))

  -- A ciphertext of m to the phi.
  power_lem : (m c : ℕ) → Encrypts k m c → c ^ k.phi % k.n2 ≡ 1 + k.n * (m * k.phi % k.n)
  power_lem m c (r, ec, er) =
      c ^ k.phi % k.n2
      ≡⟨ ap (λ x. x ^ k.phi % k.n2) ec ∙ pow-mod (k.g ^ m * r) k.phi k.n2 ⟩
        (k.g ^ m * r) ^ k.phi % k.n2
      ≡⟨ ap (λ x. x % k.n2) (mul-pow (k.g ^ m) r k.phi) ⟩ (k.g ^ m) ^ k.phi * r ^ k.phi % k.n2
      ≡⟨ mul_congr ((k.g ^ m) ^ k.phi) (k.g ^ (m * k.phi)) (r ^ k.phi) 1 k.n2
          (ap (λ x. x % k.n2) (sym (pow-mul k.g m k.phi))) (er ∙ sym (mod-eq_of_lt squared_large)) ⟩
        k.g ^ (m * k.phi) * 1 % k.n2
      ≡⟨ rw (mul-one (k.g ^ (m * k.phi)), key.generator, key.squared) (succ_power k.n (m * k.phi)) ⟩
        (1 + k.n * (m * k.phi)) % (k.n * k.n)
      ≡⟨ succ_remainder k.n (m * k.phi) large ⟩ 1 + k.n * (m * k.phi % k.n) ∎

  power_expanded :
      (m c : ℕ) → Encrypts k m c → c ^ k.phi % (p * q * (p * q)) ≡ 1 + p * q * (m * k.phi % k.n)
  power_expanded m c h =
      ap (λ x. c ^ k.phi % x) (sym (key.squared ∙ ap (λ x. x * x) key.modulus))
      ∙ power_lem m c h
      ∙ ap (λ x. 1 + x * (m * k.phi % k.n)) key.modulus

  not_multiple_of_p : (m c : ℕ) → Encrypts k m c → (c % p == 0) ≡ false
  not_multiple_of_p m c h =
      not_multiple c p q k.phi (m * k.phi % k.n) key.p_lt key.phi_pos (power_expanded m c h)

  not_multiple_of_q : (m c : ℕ) → Encrypts k m c → (c % q == 0) ≡ false
  not_multiple_of_q m c h =
      not_multiple c q p k.phi (m * k.phi % k.n) key.q_lt key.phi_pos
        (rw (mul_comm q p) (power_expanded m c h))

  not_zero : (m c : ℕ) → Encrypts k m c → c ≢ 0
  not_zero m c h e = ground (arith, e, ap (λ x. x % p) e, not_multiple_of_p m c h, zero-mod p)

  in_range : (m c : ℕ) → Encrypts k m c → outside_positive (pos c) k.n2 ≡ false
  in_range m c h = ground (arith, not_zero m c h, below h)
    where
      below : Encrypts k m c → c < k.n2
      below (r, ec, er) = rw ec (mod-lt (k.g ^ m * r) (ground (arith, squared_large)))

  pub not_empty : (k.n == 0) ≡ false
  not_empty = ground (arith, large)

  module _ (nt : NumberTheory) where
    -- What dec returns.
    value_lem :
        (m c : ℕ)
        → Encrypts k m c
        → nt.a_times_b_mod_c (quotient_l k (nt.a_exp_b_mod_c c k.y k.n2)) k.u k.n ≡ m % k.n
    value_lem m c h =
        nt.a_times_b_mod_c (quotient_l k (nt.a_exp_b_mod_c c k.y k.n2)) k.u k.n
        ≡⟨ nt.times_lem (quotient_l k (nt.a_exp_b_mod_c c k.y k.n2)) k.u k.n large ⟩
          quotient_l k (nt.a_exp_b_mod_c c k.y k.n2) * k.u % k.n
        ≡⟨ ap (λ x. quotient_l k x * k.u % k.n)
            (nt.exp_lem c k.y k.n2 squared_large
              ∙ ap (λ y. c ^ y % k.n2) key.exponent
              ∙ power_lem m c h) ⟩
          quotient_l k (1 + k.n * (m * k.phi % k.n)) * k.u % k.n
        ≡⟨ ap (λ x. x * k.u % k.n)
            (quotient_of_succ k.n (m * k.phi % k.n) (ground (arith, large))) ⟩
          m * k.phi % k.n * k.u % k.n
        ≡⟨ mod-mul-mod (m * k.phi) k.u k.n ∙ ap (λ x. x % k.n) (mul_assoc m k.phi k.u) ⟩
          m * (k.phi * k.u) % k.n
        ≡⟨ mul_congr m m (k.phi * k.u) 1 k.n refl (key.inverse ∙ sym (mod-eq_of_lt large))
          ∙ ap (λ x. x % k.n) (mul-one m) ⟩
          m % k.n ∎

    pub dec_lem : (m c : ℕ) → Encrypts k m c → dec nt k (pos c) ≡ ok (m % k.n)
    unfolding dec
    dec_lem m c h =
        rw
          (
            key.has_p,
            key.has_q,
            in_range m c h,
            not_multiple_of_p m c h,
            not_multiple_of_q m c h,
            not_empty,
          )
          (ap ok (value_lem m c h))

    module _ {World : Type 0} (rng : Rng World) where
      pub enc-Encrypts :
          (m : ℕ) (world : World)
          → m < k.n
          → ((rng.randomize 1 k.n world).0 ^ k.n) ^ k.phi % k.n2 ≡ 1
          → (c : ℕ) × (enc nt rng k (pos m) world ≡ ok (c, (rng.randomize 1 k.n world).1))
            × Encrypts k m c
      unfolding enc
      enc-Encrypts m world lt unit = (c, computes, (r ^ k.n, refl, unit))
        where
          r : ℕ
          r = (rng.randomize 1 k.n world).0

          c : ℕ
          c = k.g ^ m * r ^ k.n % k.n2

          computes : enc nt rng k (pos m) world ≡ ok (c, (rng.randomize 1 k.n world).1)
          computes =
              rw
                (
                  not_empty,
                  not_below,
                  nt.exp_lem k.g m k.n2 squared_large,
                  nt.exp_lem r k.n k.n2 squared_large,
                  nt.times_lem (k.g ^ m % k.n2) (r ^ k.n % k.n2) k.n2 squared_large,
                  ← mul-mod (k.g ^ m) (r ^ k.n) k.n2,
                )
                refl
            where
              not_below : leb k.n m ≡ false
              not_below = ground (arith, lt)
