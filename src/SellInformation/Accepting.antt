-- ===== src/SellInformation/Accepting.antt =====
-- sell_information.cpp: the honest run from genSquares to acceptSubset.
use selling_information.Base.{
  ℕ, ◌*◌, ◌/◌, ◌%◌, ◌<◌, ◌≡◌, refl, sym, ap, subst, ◌∙◌, true, List, [], ◌∷◌, map, length, get_or,
  get_or-map, All, All-get_or, ltb, ltb→lt, Result, ok, arith,
}
use selling_information.Base.Int.{ℤ}
use selling_information.Common.{l}
use selling_information.Crypto.{Residues, Rng}
use selling_information.SquareRoot.{SquareRoot}
use selling_information.SquareRoot.Roots.{IsWhole}
use selling_information.TimedCommitment.Round.{length-draws}
use selling_information.TimedCommitment.Parties.{draws}
use selling_information.SellInformation.Parties.{Seller, Buyer, accept_squares}
use selling_information.SellInformation.Seller.{find_loop, find_roots, accept_subset}
use selling_information.SellInformation.Buyer.{
  gen_squares, pick_subset, get_subset_indices, get_subset_values,
}
use selling_information.SellInformation.Matching.{
  IsLow, Matches, IsIndexOf, find_loop_lem, accept_value-IsIndexOf,
}
use selling_information.SellInformation.Subset.{IsSubset, pick_subset-IsSubset}

module _ {Point : Type 0} where
  -- Each index of acceptSubset is that of a commitment to the value.
  abbrev pub AreIndices : Seller Point → List ℕ → List ℕ → List ℕ → Type 0
  AreIndices s (ind ∷ indices) (x ∷ values) (c ∷ cs) =
      IsIndexOf s ind x c × AreIndices s indices values cs
  AreIndices s [] [] [] = Unit
  AreIndices s indices values cs = ⊥

  accept_subset-AreIndices :
      (s : Seller Point) (xs indices : List ℕ)
      → All (IsLow s.n) xs
      → s.y ≡ map (λ x. x * x % s.n) xs
      → Matches xs s.r1 s.r2
      → length xs ≡ l
      → All (λ i. ltb i l ≡ true) indices
      → (cs : List ℕ) × (accept_subset s indices (map (λ i. get_or xs i 0) indices) ≡ ok cs)
        × AreIndices s indices (map (λ i. get_or xs i 0) indices) cs
  unfolding accept_subset
  accept_subset-AreIndices s xs [] low squares found size below = ([], refl, tt)
  accept_subset-AreIndices s xs (ind ∷ indices) low squares found size below =
      let lt : ind < length xs = omega (arith, size, ltb→lt ind l below.0) in
      let here =
        accept_value-IsIndexOf s ind (get_or xs ind 0) (All-get_or (IsLow s.n) xs ind 0 low lt).1
          (sym (get_or-map (λ x. x * x % s.n) xs ind 0 0 lt)
            ∙ ap (λ ys. get_or ys ind 0) (sym squares))
          (found ind lt) in
      let later = accept_subset-AreIndices s xs indices low squares found size below.1 in
      (here.0 ∷ later.0, rw (here.1, later.1) refl, (here.2, later.2))

module _ {Point World : Type 0} (residues : Residues) (rng : Rng World) where
  find_roots-eq :
      (s : Seller Point) (world : World) (rs : List ℤ × List ℤ)
      → (find_loop residues rng s.square_root s.y world).0 ≡ ok rs
      → find_roots residues rng (s, world) ≡ (
        ok tt,
        (record s { r1 = rs.0; r2 = rs.1 }, (find_loop residues rng s.square_root s.y world).1),
      )
  unfolding find_roots
  find_roots-eq s world rs e = rw (e, find_roots) refl

  -- When the seller's SquareRoot has n = p * q, of primes p and q, and an inverse u of p modulo q
  -- (IsWhole), its n is the seller's and the buyer's n, and the numbers that genSquares draws are
  -- positive and below n / 2, the seller's findRoots on their
  -- squares throws nothing and acceptSubset accepts any subset that pickSubset then chooses: for each
  -- value it gives 1 or 2, never 5, and that root of the seller is the value.
  pub find_roots-accept_subset :
      (s : Seller Point) (b : Buyer Point) (world later : World)
      → IsWhole s.square_root
      → s.square_root.n ≡ s.n
      → b.n ≡ s.n
      → let drawn = gen_squares rng (b, world) in
        All (IsLow s.n) drawn.1.0.x
        → let found = find_roots residues rng (accept_squares drawn.1.0.y s, drawn.1.1) in
          let chosen = pick_subset rng (drawn.1.0, later) in
          let indices = get_subset_indices chosen.1.0 in
          let values = get_subset_values chosen.1.0 in
          (found.0 ≡ ok tt)
          × (cs : List ℕ) × (accept_subset found.1.0 indices values ≡ ok cs)
          × AreIndices found.1.0 indices values cs
  unfolding gen_squares
  find_roots-accept_subset s b world later whole same_n same_b low =
      subst
        (λ (f : Result (Unit {0}) × (Seller Point × World)).
          (f.0 ≡ ok tt)
          × (cs : List ℕ) × (accept_subset f.1.0 indices values ≡ ok cs)
          × AreIndices f.1.0 indices values cs)
        (sym (find_roots-eq (record s { y = ys }) drawn.1 loop.0 looped))
        (refl, accepted.0, accepted.1, accepted.2)
    where
      drawn : List ℕ × World
      drawn = draws (rng.randomize 0 (b.n / 2)) l world

      ys : List ℕ
      ys = map (λ x. x * x % b.n) drawn.0

      root : SquareRoot
      root = s.square_root

      loop :
          (rs : List ℤ × List ℤ) × ((find_loop residues rng root
              (map (λ x. x * x % root.n) drawn.0)
              drawn.1).0
            ≡ ok rs)
          × Matches drawn.0 rs.0 rs.1
      loop =
          find_loop_lem residues rng root whole drawn.0 drawn.1
            (subst (λ n. All (IsLow n) drawn.0) (sym same_n) low)

      looped : (find_loop residues rng root ys drawn.1).0 ≡ ok loop.0
      looped =
          ap (λ n. (find_loop residues rng root (map (λ x. x * x % n) drawn.0) drawn.1).0)
            (same_b ∙ sym same_n)
          ∙ loop.1

      b1 : Buyer Point
      b1 = (gen_squares rng (b, world)).1.0

      indices : List ℕ
      indices = get_subset_indices (pick_subset rng (b1, later)).1.0

      values : List ℕ
      values = get_subset_values (pick_subset rng (b1, later)).1.0

      subset : IsSubset indices
      subset = (pick_subset-IsSubset rng b1 later).1

      accepted :
          (cs : List ℕ) × (accept_subset
              (record s { y = ys; r1 = loop.0.0; r2 = loop.0.1 })
              indices
              values
            ≡ ok cs)
          × AreIndices (record s { y = ys; r1 = loop.0.0; r2 = loop.0.1 }) indices values cs
      accepted =
          let s1 : Seller Point = record s { y = ys; r1 = loop.0.0; r2 = loop.0.1 } in
          subst
            (λ values.
              (cs : List ℕ) × (accept_subset s1 indices values ≡ ok cs)
              × AreIndices s1 indices values cs)
            (sym (pick_subset-IsSubset rng b1 later).3)
            (accept_subset-AreIndices s1 drawn.0 indices low
              (ap (λ n. map (λ x. x * x % n) drawn.0) same_b) loop.2
              (length-draws (rng.randomize 0 (b.n / 2)) l world) subset.below)
