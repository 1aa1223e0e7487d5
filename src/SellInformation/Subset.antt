-- ===== src/SellInformation/Subset.antt =====
-- sell_information.cpp: the subset that pickSubset chooses.
use selling_information.Base.{
  ℕ, ◌≡◌, refl, sym, ap, ◌∙◌, Bool, true, not, List, map, length, get_or, length-take,
  length-indices, map-get_or-indices, All, ltb, take, ◌==◌, ok, arith, indices as upto,
}
use selling_information.Base.Counting.{
  count, count-perm, count-all, count-take-le, All-count, IsDistinct, IsDistinct-indices,
  indices-lt,
}
use selling_information.Common.{l}
use selling_information.SellInformation.Indices.{check_indices, check_indices-ok}
use selling_information.Crypto.{Rng}
use selling_information.SellInformation.Parties.{Buyer}
use selling_information.SellInformation.Buyer.{
  half, pick_subset, get_subset_indices, get_subset_values,
}

-- L/2 different indices below L.
pub record IsSubset (indices : List ℕ) : Type 0 where
  pub size : length indices ≡ half
  pub below : All (λ i. ltb i l ≡ true) indices
  pub distinct : IsDistinct indices

module _ {Point World : Type 0} (rng : Rng World) where
  -- pickSubset throws nothing and leaves L/2 different indices below L, so that both checks of exec on
  -- them pass: "invalid indices size" and "invalid commitment_indices value" are never thrown. The
  -- values that go with them are the buyer's numbers at these indices.
  pub pick_subset-IsSubset :
      (b : Buyer Point) (world : World)
      → let after = pick_subset rng (b, world) in
        (after.0 ≡ ok tt)
        × IsSubset (get_subset_indices after.1.0)
        × (check_indices (get_subset_indices after.1.0) ≡ ok tt)
        × (get_subset_values after.1.0 ≡ map (λ i. get_or b.x i 0) (get_subset_indices after.1.0))
  unfolding pick_subset get_subset_indices get_subset_values
  pick_subset-IsSubset b world = (
    refl,
    subset,
    check_indices-ok (take half shuffled) subset.size subset.below subset.distinct,
    values,
  )
    where
      shuffled : List ℕ
      shuffled = (rng.shuffle (upto 0 l) world).0

      same : (test : ℕ → Bool) → count test shuffled ≡ count test (upto 0 l)
      same test = count-perm test shuffled (upto 0 l) (rng.shuffle-perm (upto 0 l) world)

      size : length shuffled ≡ l
      size = sym (count-all shuffled) ∙ same (λ x. true) ∙ count-all (upto 0 l) ∙ length-indices 0 l

      subset : IsSubset (take half shuffled)
      subset = record {
        size = omega (arith, length-take half shuffled, size);
        below =
            All-count (λ i. ltb i l) (take half shuffled)
              (omega (
                arith,
                count-take-le (λ x. not (ltb x l)) half shuffled,
                same (λ x. not (ltb x l)),
                indices-lt 0 l l (omega arith),
              ));
        distinct = λ a. omega (
          arith,
          count-take-le (λ x. x == a) half shuffled,
          same (λ x. x == a),
          IsDistinct-indices 0 l a,
        );
      }

      values :
          map (λ i. get_or b.x (get_or (take half shuffled) i 0) 0) (upto 0 half)
          ≡ map (λ i. get_or b.x i 0) (take half shuffled)
      values =
          ap (λ n. map (λ i. get_or b.x (get_or (take half shuffled) i 0) 0) (upto 0 n))
            (sym subset.size)
          ∙ map-get_or-indices (λ i. get_or b.x i 0) (take half shuffled) 0
