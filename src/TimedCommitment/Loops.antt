-- ===== src/TimedCommitment/Loops.antt =====
-- The loops of timed_commitment.cpp that square modulo n: masking, unmasking and the slow opening.
use selling_information.Base.{
  ℕ, zero, suc, ◌+◌, ◌*◌, ◌%◌, ◌^◌, ◌≤◌, ◌<◌, ◌≡◌, refl, sym, ap, ◌∙◌, ◌≡⟨◌⟩◌, ◌∎, Bool, true,
  false, xor, List, [], ◌∷◌, length, get_or, get_or-map-indices, arith,
}
use selling_information.Modular.{pow-add, pow-mul, pow-one, pow-mod_period, mul-mod}
use selling_information.Crypto.{NumberTheory}
use selling_information.TimedCommitment.Parties.{mask, unmask, powers, square_times, bit0}
use native.Mathlib.Nat.{pow-succ', mod-eq_of_lt}

pub square-pow-two : (x e : ℕ) → (x * x) ^ (2 ^ e) ≡ x ^ (2 ^ suc e)
square-pow-two x e =
    (x * x) ^ (2 ^ e)
    ≡⟨ ap (λ y. y ^ (2 ^ e)) (ap (λ y. x * y) (sym (pow-one x)) ∙ sym (pow-succ' x 1)) ⟩
      (x ^ 2) ^ (2 ^ e)
    ≡⟨ sym (pow-mul x 2 (2 ^ e)) ∙ ap (λ y. x ^ y) (sym (pow-succ' 2 e)) ⟩ x ^ (2 ^ suc e) ∎

pub pow-pow-two : (g a b : ℕ) → (g ^ (2 ^ a)) ^ (2 ^ b) ≡ g ^ (2 ^ (a + b))
pow-pow-two g a b = sym (pow-mul g (2 ^ a) (2 ^ b)) ∙ ap (λ y. g ^ y) (sym (pow-add 2 a b))

xor_twice : (a b : Bool) → xor (xor a b) b ≡ a
unfolding xor
xor_twice false false = refl
xor_twice false true = refl
xor_twice true false = refl
xor_twice true true = refl

module _ (nt : NumberTheory) (n : ℕ) (lt : 1 < n) where
  square_lem : (x : ℕ) → nt.a_times_b_mod_c (x % n) (x % n) n ≡ (x * x) % n
  square_lem x = nt.times_lem (x % n) (x % n) n lt ∙ sym (mul-mod x x n)

  pow-two-zero : (x : ℕ) → x % n ≡ x ^ (2 ^ 0) % n
  pow-two-zero x = ap (λ y. y % n) (sym (pow-one x))

  -- Squaring r times raises to 2 ^ r.
  pub square_times_lem : (r x : ℕ) → square_times nt n r (x % n) ≡ x ^ (2 ^ r) % n
  unfolding square_times
  square_times_lem zero x = pow-two-zero x
  square_times_lem (suc r) x =
      rw (square_lem x) (square_times_lem r (x * x) ∙ ap (λ y. y % n) (square-pow-two x r))

  -- So does the masking loop, once for each bit.
  pub mask-last : (m : List Bool) (x : ℕ) → (mask nt n (x % n) m).1 ≡ x ^ (2 ^ length m) % n
  unfolding mask
  mask-last [] x = pow-two-zero x
  mask-last (b ∷ m) x =
      rw (square_lem x) (mask-last m (x * x) ∙ ap (λ y. y % n) (square-pow-two x (length m)))

  unmask-mask_from :
      (m s : List Bool) (i v : ℕ)
      → ((j : ℕ) → get_or s (i + j) false ≡ get_or (mask nt n v m).0 j false)
      → unmask nt n s (length m) i v ≡ (m, (mask nt n v m).1)
  unfolding unmask mask
  unmask-mask_from [] s i v h = refl
  unmask-mask_from (b ∷ m) s i v h =
      rw
        (
          unmask-mask_from m s (i + 1) (nt.a_times_b_mod_c v v n) (λ j. shift j ∙ h (suc j)),
          ap (λ k. get_or s k false) (zero_shift i) ∙ h 0,
        )
        (ap (λ x. (x ∷ m, (mask nt n (nt.a_times_b_mod_c v v n) m).1)) (xor_twice b (bit0 v)))
    where
      shift : (j : ℕ) → get_or s (i + 1 + j) false ≡ get_or s (i + suc j) false
      shift j = ap (λ k. get_or s k false) (omega arith)

      zero_shift : (k : ℕ) → k ≡ k + 0
      zero_shift k = omega arith

  -- Unmasking with the number that masked gives the message back, and ends at the same number.
  pub unmask-mask :
      (m : List Bool) (v : ℕ)
      → unmask nt n (mask nt n v m).0 (length m) 0 v ≡ (m, (mask nt n v m).1)
  unmask-mask m v =
      unmask-mask_from m (mask nt n v m).0 0 v
        (λ j. ap (λ k. get_or (mask nt n v m).0 k false) (omega arith))

  -- The exponents that commit reduces modulo phi.
  pub exp-reduced :
      (g e phi : ℕ)
      → 1 < phi
      → g ^ phi % n ≡ 1
      → nt.a_exp_b_mod_c g (nt.a_exp_b_mod_c 2 e phi) n ≡ g ^ (2 ^ e) % n
  exp-reduced g e phi hphi one =
      rw (nt.exp_lem 2 e phi hphi, nt.exp_lem g (2 ^ e % phi) n lt)
        (pow-mod_period g phi (2 ^ e) n (one ∙ sym (mod-eq_of_lt lt)))

  -- An entry of W, for a base with period phi.
  pub get_or-powers :
      (k g phi i : ℕ)
      → 1 < phi
      → g ^ phi % n ≡ 1
      → i ≤ k
      → get_or (powers nt k n g phi) i 0 ≡ g ^ (2 ^ (2 ^ i)) % n
  unfolding powers
  get_or-powers k g phi i hphi one le =
      get_or-map-indices _ 0 (k + 1) i 0 (omega arith)
      ∙ ap (λ j. nt.a_exp_b_mod_c g (nt.a_exp_b_mod_c 2 (2 ^ j) phi) n) (omega arith)
      ∙ exp-reduced g (2 ^ i) phi hphi one
