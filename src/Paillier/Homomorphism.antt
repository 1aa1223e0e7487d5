-- ===== src/Paillier/Homomorphism.antt =====
-- paillier.cpp: decryption undoes encryption, and multiplying ciphertexts adds what they hold.
use selling_information.Base.{ℕ, ◌+◌, ◌*◌, ◌%◌, ◌^◌, ◌<◌, ◌≡◌, sym, ap, ◌∙◌, arith}
use selling_information.Base.Int.{pos}
use selling_information.Modular.{
  mul_congr, pow_congr, mul-mod, pow-mod, mul-pow, pow-mul, pow-add, one-pow, pow_right_comm,
}
use selling_information.Paillier.{Paillier}
use native.Mathlib.Nat.{mod-eq_of_lt}

-- A whole key: two primes p and q, with u the inverse of phi modulo n.
pub record IsKey (k : Paillier) (p q : ℕ) : Type 0 where
  pub has_p : k.p ≡ pos p
  pub has_q : k.q ≡ pos q
  pub p_lt : 1 < p
  pub q_lt : 1 < q
  pub modulus : k.n ≡ p * q
  pub squared : k.n2 ≡ k.n * k.n
  pub generator : k.g ≡ k.n + 1
  pub exponent : k.y ≡ k.phi
  pub phi_pos : 0 < k.phi
  pub inverse : k.phi * k.u % k.n ≡ 1

-- c is a ciphertext of m: g to the m, times a factor that is 1 to the phi.
abbrev pub Encrypts : Paillier → ℕ → ℕ → Type 0
Encrypts k m c = (r : ℕ) × (c ≡ k.g ^ m * r % k.n2) × (r ^ k.phi % k.n2 ≡ 1)

module _ (k : Paillier) (lt : 1 < k.n2) where
  -- The product of two ciphertexts is one of the sum.
  pub Encrypts-mul :
      (a b c d : ℕ) → Encrypts k a c → Encrypts k b d → Encrypts k (a + b) (c * d % k.n2)
  Encrypts-mul a b c d (r, ec, er) (s, ed, es) = (
    r * s,
    rw (ec, ed)
        (sym (mul-mod (k.g ^ a * r) (k.g ^ b * s) k.n2)
          ∙ ap (λ x. x % k.n2)
              (regroup (k.g ^ a) r (k.g ^ b) s ∙ ap (λ x. x * (r * s)) (sym (pow-add k.g a b)))),
    ap (λ x. x % k.n2) (mul-pow r s k.phi)
        ∙ mul_congr (r ^ k.phi) 1 (s ^ k.phi) 1 k.n2 (er ∙ sym (mod-eq_of_lt lt))
            (es ∙ sym (mod-eq_of_lt lt))
        ∙ mod-eq_of_lt lt,
  )
    where
      regroup : (x y z w : ℕ) → x * y * (z * w) ≡ x * z * (y * w)
      regroup x y z w = omega arith

  -- A power of a ciphertext is a ciphertext of the multiple.
  pub Encrypts-pow : (a t c : ℕ) → Encrypts k a c → Encrypts k (a * t) (c ^ t % k.n2)
  Encrypts-pow a t c (r, ec, er) = (
    r ^ t,
    rw ec (
        pow-mod (k.g ^ a * r) t k.n2
        ∙ ap (λ x. x % k.n2) (mul-pow (k.g ^ a) r t ∙ ap (λ x. x * r ^ t) (sym (pow-mul k.g a t)))),
    ap (λ x. x % k.n2) (pow_right_comm r t k.phi)
        ∙ pow_congr (r ^ k.phi) 1 t k.n2 (er ∙ sym (mod-eq_of_lt lt))
        ∙ ap (λ x. x % k.n2) (one-pow t)
        ∙ mod-eq_of_lt lt,
  )
