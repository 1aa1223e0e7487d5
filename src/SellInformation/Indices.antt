-- ===== src/SellInformation/Indices.antt =====
-- SellInformationProtocol::exec: the set of the chosen indices and its checks.
use selling_information.Base.{
  ℕ, inl, inr, ◌+◌, ◌≤◌, ◌≡◌, refl, ap, ◌∙◌, Bool, true, false, ◌||◌, List, [], ◌∷◌, length, All,
  ◌==◌, ==_iff, ltb, if◌then◌else◌, Bool-cases, Result, ok, guard, for_each, for_each-ok, protocol,
  arith,
}
use selling_information.Base.Errors.{◌>>◌}
use selling_information.Base.Counting.{count, IsDistinct}
use selling_information.Common.{l}
use selling_information.SellInformation.Buyer.{half}

-- `indices_set.find(ind) != indices_set.end()`
unfoldable pub has : ℕ → List ℕ → Bool
has ind [] = false
has ind (i ∷ indices) = i == ind || has ind indices

-- The size of the set of these numbers.
unfoldable pub set_size : List ℕ → ℕ
set_size [] = 0
set_size (i ∷ indices) = (if has i indices then 0 else 1) + set_size indices

-- The checks of the set of indices.
unfoldable pub check_indices : List ℕ → Result (Unit {0})
check_indices indices =
    guard (set_size indices == half) (protocol "invalid indices size")
    >> for_each indices (λ ind. guard (ltb ind l) (protocol "invalid commitment_indices value"))

has-count : (i : ℕ) (xs : List ℕ) → count (λ x. x == i) xs ≡ 0 → has i xs ≡ false
unfolding has
has-count i [] h = refl
has-count i (x ∷ xs) h = elim (Bool-cases (x == i)) [
  | inl e ↦ absurd (found (x == i) (count (λ x. x == i) xs) e h)
  | inr e ↦ rw e (has-count i xs (rest (x == i) (count (λ x. x == i) xs) h))
]
  where
    found : (b : Bool) (n : ℕ) → b ≡ true → (if b then 1 else 0) + n ≡ 0 → ⊥
    found true n e h = omega (arith, h)
    found false n e h = cc

    rest : (b : Bool) (n : ℕ) → (if b then 1 else 0) + n ≡ 0 → n ≡ 0
    rest b n h = omega (arith, h)

set_size-IsDistinct : (xs : List ℕ) → IsDistinct xs → set_size xs ≡ length xs
unfolding set_size
set_size-IsDistinct [] h = refl
set_size-IsDistinct (x ∷ xs) h =
    rw (has-count x xs (alone (h x)))
      (omega (arith, set_size-IsDistinct xs (λ a. omega (arith, h a))))
  where
    alone : (if x == x then 1 else 0) + count (λ y. y == x) xs ≤ 1 → count (λ y. y == x) xs ≡ 0
    alone h = ground arith

-- Half as many different indices below L pass both checks.
pub check_indices-ok :
    (indices : List ℕ)
    → length indices ≡ half
    → All (λ i. ltb i l ≡ true) indices
    → IsDistinct indices
    → check_indices indices ≡ ok tt
unfolding check_indices
check_indices-ok indices size below distinct =
    rw ((==_iff _ _).1 (set_size-IsDistinct indices distinct ∙ size))
      (for_each-ok indices _ (passed indices below))
  where
    passed :
        (xs : List ℕ)
        → All (λ i. ltb i l ≡ true) xs
        → All (λ ind. guard (ltb ind l) (protocol "invalid commitment_indices value") ≡ ok tt) xs
    passed [] h = tt
    passed (x ∷ xs) h =
        (ap (λ b. guard b (protocol "invalid commitment_indices value")) h.0, passed xs h.1)
