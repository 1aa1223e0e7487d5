-- ===== src/Tests/Residues.antt =====
-- Square roots and the Chinese remainder theorem by search, for the tests, and small primes.
use selling_information.Base.{
  ℕ, zero, suc, ◌+◌, ◌-◌, ◌*◌, ◌%◌, ◌≤◌, ◌<◌, ◌≡◌, ◌⊎◌, refl, sym, ap, ◌∙◌, inl, inr, Bool, true,
  ◌||◌, not, ◌==◌, ==_iff, if◌then◌else◌, Bool-cases, arith,
}
use selling_information.Base.Table.{all_below, all_below_sound}
use selling_information.Modular.{mul-mod-mod, mul-mod, add_congr, unit_cancel}
use selling_information.Modular.Primes.{IsPrime}
use selling_information.Crypto.{Residues}
use native.Mathlib.Nat.{mod-lt, mod-mod, add-mul-mod_self_left, mul_assoc}

-- The largest number below the bound whose square is a modulo p, or 0.
unfoldable pub root_below : ℕ → ℕ → ℕ → ℕ
root_below a p zero = 0
root_below a p (suc x) = let rest = root_below a p x in if x * x % p == a % p then x else rest

root_below_lem :
    (a p n b : ℕ) → b < n → b * b % p ≡ a % p → root_below a p n * root_below a p n % p ≡ a % p
unfolding root_below
root_below_lem a p zero b lt h = absurd (omega arith)
root_below_lem a p (suc n) b lt h = elim (Bool-cases (n * n % p == a % p)) [
  | inl e ↦ rw e ((==_iff _ _).0 e)
  | inr e ↦ rw e (root_below_lem a p n b (ground arith) h)
]

pub root_below-lt : (a p n b : ℕ) → 0 < b → n ≤ b → root_below a p n < b
unfolding root_below
root_below-lt a p zero b positive le = positive
root_below-lt a p (suc n) b positive le = elim (Bool-cases (n * n % p == a % p)) [
  | inl e ↦ rw e le
  | inr e ↦ rw e (root_below-lt a p n b positive (omega arith))
]

pub root_law :
    (a p x : ℕ) → IsPrime p → x * x % p ≡ a % p → root_below a p p * root_below a p p % p ≡ a % p
root_law a p x prime h =
    root_below_lem a p p (x % p) (mod-lt x (omega (arith, prime.0))) (sym (mul-mod x x p) ∙ h)

-- xp + p * (u * (xq - xp) % q), with both numbers reduced.
abbrev multiplier : ℕ → ℕ → ℕ → ℕ → ℕ
multiplier x xq q u = (u * (xq + (q - x % q))) % q

unfoldable pub combine : ℕ → ℕ → ℕ → ℕ → ℕ → ℕ
combine xp p xq q u = xp % p + p * multiplier (xp % p) xq q u

pub combine_lem :
    (xp p xq q u : ℕ)
    → 1 < q
    → p * u % q ≡ 1
    → (combine xp p xq q u % p ≡ xp % p) × (combine xp p xq q u % q ≡ xq % q)
unfolding combine
combine_lem xp p xq q u lt unit = (left, right)
  where
    x : ℕ
    x = xp % p

    left : (x + p * multiplier x xq q u) % p ≡ xp % p
    left = add-mul-mod_self_left x p (multiplier x xq q u) ∙ mod-mod xp p

    rest : ℕ
    rest = xq + (q - x % q)

    right : (x + p * multiplier x xq q u) % q ≡ xq % q
    right =
        add_congr x x (p * multiplier x xq q u) rest q refl (
          mul-mod-mod p (u * rest) q
          ∙ ap (λ z. z % q) (sym (mul_assoc p u rest))
          ∙ unit_cancel p u rest q lt unit)
        ∙ add_congr x (x % q) rest rest q (sym (mod-mod x q)) refl
        ∙ ap (λ z. z % q) (omega (arith, mod-lt x {m = q} (omega arith)))
        ∙ add-mul-mod_self_left xq q 1

pub combine-lt : (xp p xq q u : ℕ) → xp < p → xq < q → p * u % q ≡ 1 → combine xp p xq q u < p * q
unfolding combine
combine-lt xp p xq q u hp hq unit =
    bounded (xp % p) (multiplier (xp % p) xq q u) (mod-lt xp (omega arith))
      (mod-lt (u * (xq + (q - xp % p % q))) (omega arith))
  where
    bounded : (x m : ℕ) → x < p → m < q → x + p * m < p * q
    bounded x m hx hm = grind arith

abbrev pub residues : Residues
residues = record {
  modular_square_root = λ a p. root_below a p p;
  crt = combine;
  modular_square_root-lt = λ a p h. root_below-lt a p p p h (omega arith);
  modular_square_root_lem = root_law;
  crt_lem = combine_lem;
  crt-lt = combine-lt;
}

-- Euclid's property, checked on the remainders.
unfoldable pub euclid : ℕ → Bool
unfolding all_below
euclid p = all_below p (λ x. all_below p (λ y. not (x * y % p == 0) || (x == 0 || y == 0)))

euclid-IsPrime : (p : ℕ) → 1 < p → euclid p ≡ true → IsPrime p
unfolding euclid
euclid-IsPrime p lt passed = (lt, split)
  where
    split : (a b : ℕ) → a * b % p ≡ 0 → (a % p ≡ 0) ⊎ (b % p ≡ 0)
    split a b h = decide (a % p) (b % p) (sym (mul-mod a b p) ∙ h) (
        all_below_sound p _ (b % p)
          (all_below_sound p (λ x. all_below p (λ y. not (x * y % p == 0) || (x == 0 || y == 0)))
            (a % p) passed (mod-lt a (omega arith)))
          (mod-lt b (omega arith)))
      where
        decide :
            (x y : ℕ)
            → x * y % p ≡ 0
            → (not (x * y % p == 0) || (x == 0 || y == 0)) ≡ true
            → (x ≡ 0) ⊎ (y ≡ 0)
        decide x y h t = ground (arith)

pub seven_IsPrime : IsPrime 7
unfolding euclid all_below
seven_IsPrime = euclid-IsPrime 7 (omega arith) refl

pub eleven_IsPrime : IsPrime 11
unfolding euclid all_below
eleven_IsPrime = euclid-IsPrime 11 (omega arith) refl
