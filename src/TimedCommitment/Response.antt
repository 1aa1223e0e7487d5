-- ===== src/TimedCommitment/Response.antt =====
-- timed_commitment.cpp: why one response of zk_4 meets one check of zk_5.
use selling_information.Base.{
  ℕ, ◌+◌, ◌*◌, ◌%◌, ◌^◌, ◌<◌, ◌≡◌, refl, sym, ap, ◌∙◌, ◌≡⟨◌⟩◌, ◌∎, arith,
}
use selling_information.Modular.{
  pow-add, pow-mul, mul-pow, one-pow, pow_congr, mul-mod, mul_congr, mul-mod-mod, mod-mul-mod,
  pow-mod_period,
}
use selling_information.Crypto.{NumberTheory}
use native.Mathlib.Nat.{mul_comm, one-mul, mod-eq_of_lt}

module _ (nt : NumberTheory) (n order : ℕ) (lt : 1 < n) (lt_order : 1 < order) where
  -- The exponent of a response counts modulo the order only.
  pow-response :
      (b c e alpha : ℕ)
      → b ^ order % n ≡ 1
      → b ^ ((c * (e % order) % order + alpha) % order) % n ≡ (b ^ e) ^ c * b ^ alpha % n
  pow-response b c e alpha one =
      b ^ ((c * (e % order) % order + alpha) % order) % n
      ≡⟨ pow-mod_period b order _ n period
        ∙ ap (λ y. y % n) (pow-add b (c * (e % order) % order) alpha) ⟩
        b ^ (c * (e % order) % order) * b ^ alpha % n
      ≡⟨ mul_congr _ _ _ _ n
          (ap (λ y. b ^ y % n) (mul-mod-mod c e order) ∙ pow-mod_period b order (c * e) n period)
          refl ⟩
        b ^ (c * e) * b ^ alpha % n
      ≡⟨ ap (λ y. y * b ^ alpha % n) (ap (λ y. b ^ y) (mul_comm c e) ∙ pow-mul b e c) ⟩
        (b ^ e) ^ c * b ^ alpha % n ∎
    where
      period : b ^ order % n ≡ 1 % n
      period = one ∙ sym (mod-eq_of_lt lt)

  -- A factor and its inverse to the same power cancel.
  cancel : (x y a c : ℕ) → x * y % n ≡ 1 → (x ^ c * a) * y ^ c % n ≡ a % n
  cancel x y a c h =
      (x ^ c * a) * y ^ c % n
      ≡⟨ ap (λ t. t % n) (omega (arith, ap (λ t. t * a) (mul-pow x y c))) ⟩ (x * y) ^ c * a % n
      ≡⟨ mul_congr _ 1 a a n
          (pow_congr (x * y) 1 c n (h ∙ sym (mod-eq_of_lt lt)) ∙ ap (λ t. t % n) (one-pow c)) refl ⟩
        1 * a % n
      ≡⟨ ap (λ t. t % n) (one-mul a) ⟩ a % n ∎

  -- For w the power of b to 2 ^ e, invertible modulo n, the response answers the challenge c.
  pub reply_lem :
      (b c e alpha w v : ℕ)
      → b ^ order % n ≡ 1
      → w ≡ b ^ (2 ^ e) % n
      → w * v % n ≡ 1
      → nt.a_times_b_mod_c
          (nt.a_exp_b_mod_c b
            ((nt.a_times_b_mod_c c (nt.a_exp_b_mod_c 2 e order) order + alpha) % order)
            n)
          (nt.a_exp_b_mod_c (nt.inverse_mod w n) c n)
          n
        ≡ nt.a_exp_b_mod_c b alpha n
  reply_lem b c e alpha w v one hw hv =
      rw
        (
          nt.exp_lem 2 e order lt_order,
          nt.times_lem c (2 ^ e % order) order lt_order,
          nt.exp_lem b ((c * (2 ^ e % order) % order + alpha) % order) n lt,
          nt.exp_lem (nt.inverse_mod w n) c n lt,
          nt.exp_lem b alpha n lt,
          nt.times_lem _ (nt.inverse_mod w n ^ c % n) n lt,
        )
        (sym (mul-mod _ (nt.inverse_mod w n ^ c) n)
          ∙ mul_congr _ _ _ _ n (pow-response b c (2 ^ e) alpha one) refl
          ∙ cancel (b ^ (2 ^ e)) (nt.inverse_mod w n) (b ^ alpha) c inverse)
    where
      inverse : b ^ (2 ^ e) * nt.inverse_mod w n % n ≡ 1
      inverse =
          sym (mod-mul-mod (b ^ (2 ^ e)) (nt.inverse_mod w n) n)
          ∙ ap (λ y. y * nt.inverse_mod w n % n) (sym hw)
          ∙ nt.inverse_mod_lem w v n lt hv
