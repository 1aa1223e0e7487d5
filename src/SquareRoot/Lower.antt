-- ===== src/SquareRoot/Lower.antt =====
-- all_square_roots gives all the roots in ascending order, those below n / 2 first.
use selling_information.Base.{
  ℕ, ◌+◌, ◌*◌, ◌%◌, ◌≤◌, ◌<◌, ◌≡◌, ◌⊎◌, inl, inr, refl, ap, subst, Bool, true, false, List, [], ◌∷◌,
  All, length, leb, ok, arith,
}
use selling_information.Base.Counting.{count}
use selling_information.Base.Int.{ℤ, pos, negsuc, pos_part}
use selling_information.Crypto.{Residues}
use selling_information.SquareRoot.{SquareRoot, plus, minus, candidate, is_sign, all_square_roots}
use selling_information.SquareRoot.Sorting.{
  sort, IsSorted, IsIn, IsIn-sort, All-sort, sort-IsSorted, length-sort, count-sort,
}
use selling_information.SquareRoot.Roots.{IsWhole, square_root-eq-pos}
use selling_information.SquareRoot.Candidates.{four, all_square_roots-eq-sort, among, candidate-le}

-- Four square roots of a modulo n in ascending order, the last two of them not below n / 2.
pub record FourRoots (n a : ℕ) (zs : List ℤ) : Type 0 where
  pub r0 : ℕ
  pub r1 : ℕ
  pub r2 : ℕ
  pub r3 : ℕ
  pub listed : zs ≡ pos r0 ∷ pos r1 ∷ pos r2 ∷ pos r3 ∷ []
  pub squares : All (λ r. r * r % n ≡ a) (r0 ∷ r1 ∷ r2 ∷ r3 ∷ [])
  pub ascending : (r0 ≤ r1) × (r1 ≤ r2) × (r2 ≤ r3)
  pub upper : n ≤ 2 * r2

abbrev IsRoot : ℕ → ℕ → ℤ → Type 0
IsRoot n a (pos r) = r * r % n ≡ a
IsRoot n a (negsuc r) = ⊥

abbrev is_upper : ℕ → ℤ → Bool
is_upper n (pos r) = leb n (2 * r)
is_upper n (negsuc r) = false

FourRoots-sorted :
    (n a : ℕ) (zs : List ℤ)
    → length zs ≡ 4
    → All (IsRoot n a) zs
    → IsSorted zs
    → 2 ≤ count (is_upper n) zs
    → FourRoots n a zs
FourRoots-sorted n a [] len roots sorted upper = absurd (omega arith)
FourRoots-sorted n a (negsuc z ∷ zs) len roots sorted upper = absurd roots.0
FourRoots-sorted n a (pos r0 ∷ []) len roots sorted upper = absurd (omega arith)
FourRoots-sorted n a (pos r0 ∷ negsuc z ∷ zs) len roots sorted upper = absurd roots.1.0
FourRoots-sorted n a (pos r0 ∷ pos r1 ∷ []) len roots sorted upper = absurd (omega arith)
FourRoots-sorted n a (pos r0 ∷ pos r1 ∷ negsuc z ∷ zs) len roots sorted upper = absurd roots.1.1.0
FourRoots-sorted n a (pos r0 ∷ pos r1 ∷ pos r2 ∷ []) len roots sorted upper = absurd (omega arith)
FourRoots-sorted n a (pos r0 ∷ pos r1 ∷ pos r2 ∷ negsuc z ∷ zs) len roots sorted upper =
    absurd roots.1.1.1.0
FourRoots-sorted n a (pos r0 ∷ pos r1 ∷ pos r2 ∷ pos r3 ∷ []) len roots sorted upper = record {
  r0 = r0;
  r1 = r1;
  r2 = r2;
  r3 = r3;
  listed = refl;
  squares = roots;
  ascending = (ground arith, ground arith, ground arith);
  upper = ground arith;
}
FourRoots-sorted n a (pos r0 ∷ pos r1 ∷ pos r2 ∷ pos r3 ∷ z ∷ zs) len roots sorted upper =
    absurd (omega arith)

-- Of the roots below n / 2 each is the first or the second.
pub FourRoots-lower :
    {n a : ℕ} {zs : List ℤ} (four_roots : FourRoots n a zs) (x : ℕ)
    → IsIn (pos x) zs
    → 2 * x < n
    → (x ≡ four_roots.r0) ⊎ (x ≡ four_roots.r1)
FourRoots-lower {n} four_roots x mem low = pick (subst (IsIn (pos x)) four_roots.listed mem)
  where
    pick :
        IsIn
          (pos x)
          (pos four_roots.r0 ∷ pos four_roots.r1 ∷ pos four_roots.r2 ∷ pos four_roots.r3 ∷ [])
        → (x ≡ four_roots.r0) ⊎ (x ≡ four_roots.r1)
    pick (inl e) = inl (ap pos_part e)
    pick (inr (inl e)) = inr (ap pos_part e)
    pick (inr (inr (inl e))) =
        let same : x ≡ four_roots.r2 = ap pos_part e in
        absurd (omega (arith, four_roots.upper, same))
    pick (inr (inr (inr (inl e)))) =
        let same : x ≡ four_roots.r3 = ap pos_part e in
        absurd (omega (arith, four_roots.upper, four_roots.ascending, same))
    pick (inr (inr (inr (inr none)))) = absurd none

module _ (residues : Residues) (root : SquareRoot) (whole : IsWhole root) where
  -- The candidates with opposite signs are not both below n / 2.
  count-four :
      (a x : ℕ)
      → 0 < a
      → a < root.n
      → x * x % root.n ≡ a
      → 2 ≤ count (is_upper root.n) (four residues root whole a)
  count-four a x positive lt h = ground (arith, both, mixed)
    where
      both : root.n ≤ candidate residues root a minus minus + candidate residues root a plus plus
      both =
          candidate-le residues root whole a minus minus plus plus (λ m y lt. omega arith)
            (λ m y lt. omega arith) positive
            (square_root-eq-pos residues root whole a x minus minus refl refl lt h).1

      mixed : root.n ≤ candidate residues root a plus minus + candidate residues root a minus plus
      mixed =
          candidate-le residues root whole a plus minus minus plus (λ m y lt. omega arith)
            (λ m y lt. omega arith) positive
            (square_root-eq-pos residues root whole a x plus minus refl refl lt h).1

  -- For a SquareRoot whose n is p * q, of primes p and q, and whose u is an inverse of p modulo q
  -- (IsWhole): for a positive number a below n that has a square root modulo n, all_square_roots gives four
  -- square roots of a in ascending order, of which the third and the fourth are not below n / 2
  -- (FourRoots). Every square root of a below n is among the four.
  pub all_square_roots_lem :
      (a x : ℕ)
      → 0 < a
      → a < root.n
      → x * x % root.n ≡ a
      → (zs : List ℤ) × (all_square_roots residues root a ≡ ok zs)
        × FourRoots root.n a zs
        × ((y : ℕ) → y < root.n → y * y % root.n ≡ a → IsIn (pos y) zs)
  all_square_roots_lem a x positive lt h = (
    sort (four residues root whole a),
    all_square_roots-eq-sort residues root whole a x lt h,
    FourRoots-sorted root.n a (sort (four residues root whole a)) (length-sort _)
        (All-sort (IsRoot root.n a) (four residues root whole a) each) (sort-IsSorted _)
        (omega (
          arith,
          count-sort (is_upper root.n) (four residues root whole a),
          count-four a x positive lt h,
        )),
    λ y below square.
        IsIn-sort (pos y) (four residues root whole a)
          (among residues root whole a y lt square below),
  )
    where
      at :
          (sx sy : ℤ)
          → is_sign sx ≡ true
          → is_sign sy ≡ true
          → candidate residues root a sx sy * candidate residues root a sx sy % root.n ≡ a
      at sx sy hx hy = (square_root-eq-pos residues root whole a x sx sy hx hy lt h).1

      each : All (IsRoot root.n a) (four residues root whole a)
      each = (
        at minus minus refl refl,
        (at plus minus refl refl, (at minus plus refl refl, (at plus plus refl refl, tt))),
      )
