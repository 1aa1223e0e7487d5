-- ===== src/SellInformation/Matching.antt =====
-- sell_information.cpp: the roots that findRoots takes and the values that acceptSubset accepts.
use selling_information.Base.{
  ℕ, zero, suc, ◌*◌, ◌/◌, ◌%◌, ◌<◌, ◌≡◌, ◌⊎◌, inl, inr, refl, sym, ap, ◌∙◌, List, [], ◌∷◌, map,
  length, get_or, All, Bool-cases, ◌==◌, ==_iff, if◌then◌else◌, ok, arith,
}
use selling_information.Base.Int.{ℤ, pos}
use selling_information.Crypto.{Residues, Rng}
use selling_information.Modular.Primes.{mod-product}
use selling_information.SquareRoot.{SquareRoot, all_square_roots}
use selling_information.SquareRoot.Roots.{IsWhole, congr_left, congr_right}
use selling_information.SquareRoot.Sorting.{IsIn}
use selling_information.SquareRoot.Lower.{FourRoots, FourRoots-lower, all_square_roots_lem}
use selling_information.SellInformation.Parties.{Seller}
use selling_information.SellInformation.Seller.{find_root, find_loop, accept_value}
use selling_information.SellInformation.Verifying.{accept_value_lem}
use native.Mathlib.Nat.{mod-lt, mod-eq_of_lt, zero-mod}

-- A value of the buyer that acceptSubset may accept, other than 0.
abbrev pub IsLow : ℕ → ℕ → Type 0
IsLow n x = (0 < x) × (x < n / 2)

-- Each value is one of the two numbers at its place.
abbrev pub Matches : List ℕ → List ℤ → List ℤ → Type 0
Matches xs rs1 rs2 =
    (i : ℕ)
    → i < length xs
    → (pos (get_or xs i 0) ≡ get_or rs1 i (pos 0)) ⊎ (pos (get_or xs i 0) ≡ get_or rs2 i (pos 0))

Matches-cons :
    (x : ℕ) (xs : List ℕ) (r1 r2 : ℤ) (rs1 rs2 : List ℤ)
    → (pos x ≡ r1) ⊎ (pos x ≡ r2)
    → Matches xs rs1 rs2
    → Matches (x ∷ xs) (r1 ∷ rs1) (r2 ∷ rs2)
Matches-cons x xs r1 r2 rs1 rs2 here later zero h = here
Matches-cons x xs r1 r2 rs1 rs2 here later (suc i) h = later i (omega arith)

module _ {World : Type 0} (residues : Residues) (rng : Rng World) (root : SquareRoot)
    (whole : IsWhole root) where
  -- A square is 0 only of 0.
  square_pos : (x : ℕ) → 0 < x → x < root.n → 0 < x * x % root.n
  square_pos x positive lt = elim (Bool-cases (x * x % root.n == 0)) [
    | inl e ↦ absurd (omega (arith, positive, none ((==_iff _ 0).0 e)))
    | inr e ↦ ground arith
  ]
    where
      divided : (p : ℕ) → (x * x % p ≡ 0 → (x % p ≡ 0) ⊎ (x % p ≡ 0)) → x * x % p ≡ 0 → x % p ≡ 0
      divided p prime h = elim (prime h) [ inl e ↦ e | inr e ↦ e ]

      zero_at : x * x % root.n ≡ 0 → x * x % (root.p * root.q) ≡ 0 % (root.p * root.q)
      zero_at h = sym (ap (λ n. x * x % n) whole.product) ∙ h ∙ sym (zero-mod (root.p * root.q))

      none : x * x % root.n ≡ 0 → x ≡ 0
      none h =
          sym (mod-eq_of_lt lt)
          ∙ ap (λ n. x % n) whole.product
          ∙ mod-product root.p root.q root.u x whole.q_prime.0 whole.unit
              (divided root.p (whole.p_prime.1 x x)
                (congr_left root.p root.q (x * x) 0 (zero_at h) ∙ zero-mod root.p))
              (divided root.q (whole.q_prime.1 x x)
                (congr_right root.p root.q (x * x) 0 (zero_at h) ∙ zero-mod root.q))

  find_root-eq :
      (y : ℕ) (world : World) (zs : List ℤ)
      → all_square_roots residues root y ≡ ok zs
      → (find_root residues rng root y world).0
        ≡ ok (
            if (rng.generate_bit world).0
            then (get_or zs 1 (pos 0), get_or zs 0 (pos 0))
            else (get_or zs 0 (pos 0), get_or zs 1 (pos 0)))
  unfolding find_root
  find_root-eq y world zs e = rw (e, find_root) refl

  -- Of the two numbers that findRoots takes for the square of a low value, one is the value.
  find_root_lem :
      (x : ℕ) (world : World)
      → IsLow root.n x
      → (r : ℤ × ℤ) × ((find_root residues rng root (x * x % root.n) world).0 ≡ ok r)
        × ((pos x ≡ r.0) ⊎ (pos x ≡ r.1))
  find_root_lem x world low = elim (Bool-cases (rng.generate_bit world).0) [
    | inl e ↦ (
      (pos four.r1, pos four.r0),
      taken ∙ rw e refl,
      elim first [ inl h ↦ inr (ap pos h) | inr h ↦ inl (ap pos h) ],
    )
    | inr e ↦ (
      (pos four.r0, pos four.r1),
      taken ∙ rw e refl,
      elim first [ inl h ↦ inl (ap pos h) | inr h ↦ inr (ap pos h) ],
    )
  ]
    where
      found :
          (zs : List ℤ) × (all_square_roots residues root (x * x % root.n) ≡ ok zs)
          × FourRoots root.n (x * x % root.n) zs
          × ((y : ℕ) → y < root.n → y * y % root.n ≡ x * x % root.n → IsIn (pos y) zs)
      found =
          all_square_roots_lem residues root whole (x * x % root.n) x
            (square_pos x low.0 (omega (arith, low))) (mod-lt (x * x) (omega (arith, low))) refl

      four : FourRoots root.n (x * x % root.n) found.0
      four = found.2

      taken :
          (find_root residues rng root (x * x % root.n) world).0
          ≡ ok (
              if (rng.generate_bit world).0
              then (pos four.r1, pos four.r0)
              else (pos four.r0, pos four.r1))
      taken = find_root-eq (x * x % root.n) world _ (found.1 ∙ ap ok four.listed)

      first : (x ≡ four.r0) ⊎ (x ≡ four.r1)
      first = FourRoots-lower four x (found.3 x (omega (arith, low)) refl) (omega (arith, low))

  find_loop-cons :
      (y : ℕ) (ys : List ℕ) (world : World) (r : ℤ × ℤ) (rs : List ℤ × List ℤ)
      → (find_root residues rng root y world).0 ≡ ok r
      → (find_loop residues rng root ys (find_root residues rng root y world).1).0 ≡ ok rs
      → (find_loop residues rng root (y ∷ ys) world).0 ≡ ok (r.0 ∷ rs.0, r.1 ∷ rs.1)
  unfolding find_loop
  find_loop-cons y ys world r rs h k = rw (h, k, find_loop) refl

  -- The same for each of a list of low values.
  pub find_loop_lem :
      (xs : List ℕ) (world : World)
      → All (IsLow root.n) xs
      → (rs : List ℤ × List ℤ) × ((find_loop residues rng root
            (map (λ x. x * x % root.n) xs)
            world).0
          ≡ ok rs)
        × Matches xs rs.0 rs.1
  unfolding find_loop
  find_loop_lem [] world low = (([], []), refl, λ i h. absurd (omega arith))
  find_loop_lem (x ∷ xs) world low =
      let here = find_root_lem x world low.0 in
      let after = (find_root residues rng root (x * x % root.n) world).1 in
      let later = find_loop_lem xs after low.1 in
      (
        (here.0.0 ∷ later.0.0, here.0.1 ∷ later.0.1),
        find_loop-cons (x * x % root.n) (map (λ x. x * x % root.n) xs) world here.0 later.0 here.1
            later.1,
        Matches-cons x xs here.0.0 here.0.1 later.0.0 later.0.1 here.2 later.2,
      )

module _ {Point : Type 0} where
  -- The index of acceptSubset is that of a commitment to the value.
  abbrev pub IsIndexOf : Seller Point → ℕ → ℕ → ℕ → Type 0
  IsIndexOf s ind x c =
      ((c ≡ 1) × (pos x ≡ get_or s.r1 ind (pos 0))) ⊎ ((c ≡ 2) × (pos x ≡ get_or s.r2 ind (pos 0)))

  pub accept_value-IsIndexOf :
      (s : Seller Point) (ind x : ℕ)
      → x < s.n / 2
      → x * x % s.n ≡ get_or s.y ind 0
      → (pos x ≡ get_or s.r1 ind (pos 0)) ⊎ (pos x ≡ get_or s.r2 ind (pos 0))
      → (c : ℕ) × (accept_value s ind x ≡ ok c) × IsIndexOf s ind x c
  accept_value-IsIndexOf s ind x low square found = elim ((accept_value_lem s ind x).2 low square) [
    | inl h ↦ (2, h.1, inr (refl, h.0))
    | inr later ↦ elim later [
      | inl h ↦ (1, h.2, inl (refl, h.1))
      | inr h ↦ elim found [ inl e ↦ absurd (h.1 e) | inr e ↦ absurd (h.0 e) ]
    ]
  ]
