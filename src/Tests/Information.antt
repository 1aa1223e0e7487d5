-- ===== src/Tests/Information.antt =====
-- The theorems on square_root.cpp and sell_information.cpp, with n = 7 * 11.
use selling_information.Base.{
  ℕ, ◌+◌, ◌*◌, ◌%◌, ◌<◌, ◌≡◌, ◌≢◌, ◌⊎◌, inl, inr, refl, true, false, ◌&&◌, List, [], ◌∷◌, map,
  replicate, get_or, All, ok, err, protocol, standard, Exception, arith,
}
use selling_information.Base.Int.{ℤ, pos}
use selling_information.SquareRoot.{
  SquareRoot, new_square_root, plus, minus, is_sign, square_root, all_square_roots,
}
use selling_information.SquareRoot.Sorting.{IsIn}
use selling_information.SquareRoot.Roots.{IsWhole, new_square_root-IsWhole, square_root_lem}
use selling_information.SquareRoot.Lower.{FourRoots, all_square_roots_lem}
use selling_information.Aes.{aes_enc, aes_dec}
use selling_information.ShaCommitment as Sha
use selling_information.SignatureKey.Keys.{gen_keys}
use selling_information.SignatureKey.Parties.{new_single_buyer}
use selling_information.TimedCommitment.Parties.{draws}
use selling_information.SellInformation.Parties.{
  Seller, Buyer, new_seller, new_buyer, accept_squares,
}
use selling_information.SellInformation.Seller.{find_roots, accept_subset, root_bytes}
use selling_information.SellInformation.Buyer.{
  gen_squares, pick_subset, get_subset_indices, get_subset_values, verify_root, is_product, factors,
  factorise,
}
use selling_information.SellInformation.Verifying.{verify_root-aes_enc}
use selling_information.SellInformation.Indices.{check_indices}
use selling_information.SellInformation.Matching.{IsLow}
use selling_information.SellInformation.Subset.{IsSubset, pick_subset-IsSubset}
use selling_information.SellInformation.Accepting.{AreIndices, find_roots-accept_subset}
use selling_information.SellInformation.Factors.{factors_lem}
use selling_information.SellInformation.Factoring.{factorise-product}
use selling_information.SellInformation.Recovering.{IsProper, factorise-primes}
use selling_information.Common.{l}
use selling_information.SellInformation.Indices.{has}
use selling_information.SellInformation.Opening.{commit_roots, open_rest}
use selling_information.SellInformation.Showing.{commit_roots-open_rest}
use selling_information.Tests.Signing.{holder}
use selling_information.Tests.Selling.{seller}
use selling_information.Tests.Encryption.{toy_cipher}
use selling_information.Tests.Reference.{number_theory, encoding, sha, rng, toy_digest, decode}
use selling_information.Common.{concatenate, to_bytes}
use selling_information.Tests.Residues.{residues, seven_IsPrime, eleven_IsPrime}
use selling_information.Tests.Euclid.{divisors}

abbrev small_root : SquareRoot
small_root = new_square_root number_theory 7 11

small_root-IsWhole : IsWhole small_root
small_root-IsWhole = new_square_root-IsWhole number_theory 7 11 8 seven_IsPrime eleven_IsPrime refl

square_root_lem_example :
    ((is_sign minus && is_sign plus) ≡ false
      → square_root residues small_root 4 minus plus ≡ err standard)
    × (is_sign minus ≡ true
        → is_sign plus ≡ true
        → ((x : ℕ)
            → x * x % small_root.n ≡ 4
            → (r : ℕ) × (square_root residues small_root 4 minus plus ≡ ok (pos r))
              × (r * r % small_root.n ≡ 4))
          × (((x : ℕ) → x * x % small_root.n ≢ 4)
              → square_root residues small_root 4 minus plus ≡ ok minus))
unfolding new_square_root
square_root_lem_example =
    square_root_lem residues small_root small_root-IsWhole 4 minus plus (omega arith)

all_square_roots_lem_example :
    (zs : List ℤ) × (all_square_roots residues small_root 4 ≡ ok zs)
    × FourRoots small_root.n 4 zs
    × ((y : ℕ) → y < small_root.n → y * y % small_root.n ≡ 4 → IsIn (pos y) zs)
unfolding new_square_root
all_square_roots_lem_example =
    all_square_roots_lem residues small_root small_root-IsWhole 4 2 (omega arith) (omega arith) refl

abbrev small_seller : Seller ℕ
small_seller = new_seller number_theory seller 7 11 5 false

abbrev pub small_buyer : Buyer ℕ
small_buyer = new_buyer (new_single_buyer holder) 77 5

low : All (IsLow 77) (gen_squares rng (small_buyer, 1)).1.0.x
unfolding gen_squares draws new_buyer
low = ground arith

find_roots-accept_subset_example :
    let drawn = gen_squares rng (small_buyer, 1) in
    let found = find_roots residues rng (accept_squares drawn.1.0.y small_seller, drawn.1.1) in
    let chosen = pick_subset rng (drawn.1.0, 9) in
    let indices = get_subset_indices chosen.1.0 in
    let values = get_subset_values chosen.1.0 in
    (found.0 ≡ ok tt)
    × (cs : List ℕ) × (accept_subset found.1.0 indices values ≡ ok cs)
    × AreIndices found.1.0 indices values cs
unfolding new_seller new_square_root new_buyer
find_roots-accept_subset_example =
    find_roots-accept_subset residues rng small_seller small_buyer 1 9 small_root-IsWhole refl refl
      low

pick_subset-IsSubset_example :
    let after = pick_subset rng (small_buyer, 1) in
    (after.0 ≡ ok tt)
    × IsSubset (get_subset_indices after.1.0)
    × (check_indices (get_subset_indices after.1.0) ≡ ok tt)
    × (get_subset_values after.1.0
        ≡ map (λ i. get_or small_buyer.x i 0) (get_subset_indices after.1.0))
pick_subset-IsSubset_example = pick_subset-IsSubset rng small_buyer 1

verify_root-aes_enc_example :
    (c : List ℕ) × (aes_enc toy_cipher (replicate 32 9) (root_bytes encoding (λ x. []) (pos 3))
      ≡ ok c)
    × (get_or small_buyer.x 0 0 ≡ 3
        → verify_root toy_cipher encoding small_buyer 0 (replicate 32 9) c ≡ ok tt)
    × (get_or small_buyer.x 0 0 ≢ 3
        → verify_root toy_cipher encoding small_buyer 0 (replicate 32 9) c
          ≡ err (protocol "verifyRoot failed"))
verify_root-aes_enc_example =
    verify_root-aes_enc toy_cipher encoding (λ x. []) small_buyer 0 3 (replicate 32 9) refl

-- GCD of a negative number, for the tests.
abbrev pub no_gcd : ℕ → ℕ → ℤ
no_gcd a b = pos 0

factors_lem_example :
    let r1 : ℕ = 9 in
    let r2 : ℕ = 2 in
    let found = factors divisors no_gcd (7 * 11) r1 r2 in
    (r1 ≢ r2
      → (r1 + r2) % (7 * 11) ≢ 0
      → ((found ≡ (pos 7, 11)) ⊎ (found ≡ (pos 11, 7)))
        × (is_product divisors no_gcd found.0 found.1 (7 * 11) ≡ true))
    × (r1 ≡ r2
        → (r1 + r2) % 7 ≢ 0
        → (r1 + r2) % 11 ≢ 0
        → (found ≡ (pos (7 * 11), 1))
          × (is_product divisors no_gcd found.0 found.1 (7 * 11) ≡ true))
factors_lem_example =
    factors_lem divisors no_gcd 7 11 8 9 2 seven_IsPrime eleven_IsPrime refl (omega arith)
      (omega arith) refl

-- A buyer who was shown the encryptions of the roots 9 and 2 at the first index.
abbrev pub shown : ℕ → Sha.Receiver
shown r = record Sha.new_receiver { m = 0 ∷ r ∷ [] }

abbrev pub opened_buyer : Buyer ℕ
opened_buyer = record small_buyer {
  d1 = shown 9 ∷ replicate 9 Sha.new_receiver;
  d2 = shown 2 ∷ replicate 9 Sha.new_receiver;
}

factorise-product_example :
    let after = factorise divisors no_gcd toy_cipher encoding sha opened_buyer in
    ((after.0 ≡ ok tt) × (p : ℕ) × (after.1.p ≡ pos p) × (p * after.1.q ≡ opened_buyer.n))
    ⊎ ((e : Exception) × (after ≡ (err e, opened_buyer)))
unfolding new_buyer
factorise-product_example =
    factorise-product divisors no_gcd toy_cipher encoding sha opened_buyer (omega arith)

factorise-primes_example :
    let after = factorise divisors no_gcd toy_cipher encoding sha opened_buyer in
    (after.0 ≡ ok tt)
    × (((after.1.p ≡ pos 7) × (after.1.q ≡ 11)) ⊎ ((after.1.p ≡ pos 11) × (after.1.q ≡ 7)))
unfolding new_buyer gen_keys aes_dec toy_cipher toy_digest decode
factorise-primes_example =
    factorise-primes divisors no_gcd toy_cipher encoding sha opened_buyer 7 11 8 seven_IsPrime
      eleven_IsPrime refl refl
      (
        inr proper,
        (
          inl refl,
          (
            inl refl,
            (inl refl, (inl refl, (inl refl, (inl refl, (inl refl, (inl refl, (inl refl, tt))))))),
          ),
        ),
      )
      (inl refl)
  where
    proper :
        IsProper toy_cipher encoding 77
          (toy_digest (concatenate [] (to_bytes encoding 0)))
          (shown 9)
          (shown 2)
    proper = record {
      r1_bytes = 9 ∷ [];
      r2_bytes = 2 ∷ [];
      opened = refl;
      dec1 = refl;
      dec2 = refl;
      lt1 = omega arith;
      lt2 = omega arith;
      same = refl;
      different = λ e. omega (arith, e);
      sum = λ e. omega (arith, e);
    }

commit_roots-open_rest_example :
    let indices : List ℕ = 0 ∷ 2 ∷ [] in
    let made = commit_roots sha rng (small_seller, small_buyer, 3) in
    let opened = open_rest sha indices made.1 in
    (made.0 ≡ ok tt)
    × (opened.0 ≡ ok tt)
    × ((i : ℕ)
        → i < l
        → (has i indices ≡ false
            → ((get_or opened.1.1.d1 i Sha.new_receiver).m
                ≡ (get_or small_seller.d1 i Sha.new_sender).m)
              × ((get_or opened.1.1.d2 i Sha.new_receiver).m
                  ≡ (get_or small_seller.d2 i Sha.new_sender).m))
          × (has i indices ≡ true
              → ((get_or opened.1.1.d1 i Sha.new_receiver).m
                  ≡ (get_or small_buyer.d1 i Sha.new_receiver).m)
                × ((get_or opened.1.1.d2 i Sha.new_receiver).m
                    ≡ (get_or small_buyer.d2 i Sha.new_receiver).m)))
unfolding new_seller new_buyer
commit_roots-open_rest_example =
    commit_roots-open_rest sha rng (0 ∷ 2 ∷ []) (small_seller, small_buyer, 3) refl refl refl refl
