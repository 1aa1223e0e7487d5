-- ===== src/Base/Counting.antt =====
-- How many elements pass a test, which no permutation changes.
use Prim.Native.Nat.{ℕ, zero, suc, ◌+◌, ◌≤◌, ◌<◌}
use mathlib.Core.Path.{◌≡◌, refl, ap, ap₂, ◌∙◌}
use mathlib.Core.Logic.{∥∥₁_elim, inl, inr}
use mathlib.Core.Bool.{Bool, true, false, not}
use mathlib.Core.List.{List, [], ◌∷◌, Perm}
use mathlib.Core.List.{Permᴰ}
use mathlib.Core.List.Permᴰ.{nil, cons, swap, trans}
use native.Mathlib.Nat.{ℕ_set}
use native.Mathlib.Omega.{arith}
use selling_information.Base.Tests.{if◌then◌else◌, ◌==◌, ltb, lt→ltb, Bool-cases}
use selling_information.Base.Lists.{length, take, All}
use selling_information.Base.Ranges.{indices}

abbrev pub count {ℓ} : {A : Type ℓ} → (A → Bool) → List A → ℕ
count test [] = 0
count test (x ∷ xs) = (if test x then 1 else 0) + count test xs

raised : (b : Bool) (n : ℕ) → b ≡ false → (if not b then 1 else 0) + n ≡ 0 → ⊥
raised true n e h = cc
raised false n e h = absurd (omega arith)

module _ {ℓ} {A : Type ℓ} where
  permuted : (test : A → Bool) {xs ys : List A} → Permᴰ xs ys → count test xs ≡ count test ys
  permuted test nil = refl
  permuted test (cons e d) =
      ap₂ (λ (b : Bool) (n : ℕ). (if b then 1 else 0) + n) (ap test e) (permuted test d)
  permuted test (swap e f) = rw (ap test e, ap test f) (omega arith)
  permuted test (trans d d') = permuted test d ∙ permuted test d'

  pub count-perm : (test : A → Bool) (xs ys : List A) → Perm xs ys → count test xs ≡ count test ys
  count-perm test xs ys perm = ∥∥₁_elim perm (ℕ_set _ _) (permuted test)

  pub count-all : (xs : List A) → count (λ x. true) xs ≡ length xs
  count-all [] = refl
  count-all (x ∷ xs) = omega (arith, count-all xs)

  pub count-take-le :
      (test : A → Bool) (n : ℕ) (xs : List A) → count test (take n xs) ≤ count test xs
  count-take-le test zero xs = omega arith
  count-take-le test (suc n) [] = omega arith
  count-take-le test (suc n) (x ∷ xs) = omega (arith, count-take-le test n xs)

  -- A test that none fails.
  pub All-count :
      (test : A → Bool) (xs : List A)
      → count (λ x. not (test x)) xs ≡ 0
      → All (λ x. test x ≡ true) xs
  All-count test [] h = tt
  All-count test (x ∷ xs) h = elim (Bool-cases (test x)) [
    | inl e ↦ (e, All-count test xs (omega (arith, h)))
    | inr e ↦ absurd (raised (test x) (count (λ x. not (test x)) xs) e h)
  ]

-- Every number occurs at most once.
abbrev pub IsDistinct : List ℕ → Type 0
IsDistinct xs = (a : ℕ) → count (λ x. x == a) xs ≤ 1

pub IsDistinct-indices : (i n : ℕ) → IsDistinct (indices i n)
IsDistinct-indices i n a = occurs i n
  where
    absent : (i n : ℕ) → a < i → count (λ x. x == a) (indices i n) ≡ 0
    absent i zero h = refl
    absent i (suc n) h = ground (arith, absent (i + 1) n (omega arith))

    occurs : (i n : ℕ) → count (λ x. x == a) (indices i n) ≤ 1
    occurs i zero = omega arith
    occurs i (suc n) = elim (Bool-cases (i == a)) [
      | inl e ↦ rw e (omega (arith, absent (i + 1) n (ground arith)))
      | inr e ↦ rw e (omega (arith, occurs (i + 1) n))
    ]

pub indices-lt : (i n b : ℕ) → i + n ≤ b → count (λ x. not (ltb x b)) (indices i n) ≡ 0
indices-lt i zero b h = refl
indices-lt i (suc n) b h =
    rw (lt→ltb i b (omega arith)) (omega (arith, indices-lt (i + 1) n b (omega arith)))
