-- ===== src/Tests/Revealing.antt =====
-- The loop of sell_information.cpp that opens commitments, for five values of which each is the root 9.
use selling_information.Base.{
  ℕ, zero, suc, ◌<◌, ◌≡◌, refl, List, [], replicate, get_or, ok, false, inl, arith,
}
use selling_information.Base.Int.{pos}
use selling_information.Common.{l}
use selling_information.ShaCommitment.{Sender, Receiver, new_sender, new_receiver, compute_sha}
use selling_information.SignatureKey.Parties.{new_single_buyer}
use selling_information.SellInformation.Parties.{Seller, Buyer, new_seller, new_buyer}
use selling_information.SellInformation.Pairs.{AllPairs}
use selling_information.SellInformation.Seller.{encrypt_roots, setup_commit}
use selling_information.SellInformation.Opening.{commit_roots, open_values}
use selling_information.SellInformation.Subset.{IsSubset, pick_subset-IsSubset}
use selling_information.SellInformation.Buyer.{pick_subset, get_subset_indices}
use selling_information.SellInformation.Revealing.{encrypt_roots-open_values}
use selling_information.Tests.Signing.{holder}
use selling_information.Tests.Selling.{seller}
use selling_information.Tests.Encryption.{toy_cipher}
use selling_information.Tests.Reference.{number_theory, encoding, sha, rng}

get_or-replicate : {A : Type 0} (n i : ℕ) (a d : A) → i < n → get_or (replicate n a) i d ≡ a
get_or-replicate zero i a d lt = absurd (omega arith)
get_or-replicate (suc n) zero a d lt = refl
get_or-replicate (suc n) (suc i) a d lt = get_or-replicate n i a d (omega arith)

abbrev key : List ℕ
key = replicate 32 9

abbrev key_sender : Sender
key_sender = record new_sender { m = key; commitment = compute_sha sha key new_sender.seed }

abbrev key_receiver : Receiver
key_receiver = record new_receiver { commitment = compute_sha sha key new_sender.seed }

abbrev root_seller : Seller ℕ
root_seller = record (new_seller number_theory seller 7 11 5 false) {
  single_seller = record seller { keys_commits = replicate 10 key_sender };
  r1 = replicate 10 (pos 9);
  r2 = replicate 10 (pos 2);
}

abbrev root_buyer : Buyer ℕ
root_buyer = record (new_buyer (new_single_buyer holder) 77 5) {
  single_buyer = record (new_single_buyer holder) { keys_commits = replicate 10 key_receiver };
  x = replicate 10 9;
}

abbrev chosen : List ℕ
chosen = get_subset_indices (pick_subset rng (root_buyer, 9)).1.0

chosen-IsSubset : IsSubset chosen
chosen-IsSubset = (pick_subset-IsSubset rng root_buyer 9).1

sealed :
    AllPairs
      (λ i k r. r.commitment ≡ compute_sha sha k.m k.seed)
      root_seller.single_seller.keys_commits
      root_buyer.single_buyer.keys_commits
sealed = (
  refl,
  refl,
  λ i h.
      rw
        (
          get_or-replicate l i key_sender new_sender h,
          get_or-replicate l i key_receiver new_receiver h,
        )
        refl,
)

encrypt_roots-open_values_example :
    (e : Seller ℕ) × (encrypt_roots toy_cipher encoding (λ x. []) root_seller ≡ ok e)
    × ((commit_roots sha rng (setup_commit e, root_buyer, 3)).0 ≡ ok tt)
    × ((open_values sha toy_cipher encoding chosen
          (replicate 5 1)
          (commit_roots sha rng (setup_commit e, root_buyer, 3)).1).0
        ≡ ok tt)
unfolding new_seller new_buyer pick_subset get_subset_indices
encrypt_roots-open_values_example =
    encrypt_roots-open_values sha rng toy_cipher encoding (λ x. []) root_seller root_buyer 3 chosen
      (replicate 5 1)
      (refl, (refl, (refl, (refl, (refl, (refl, (refl, (refl, (refl, (refl, tt)))))))))) sealed
      (refl, refl) (refl, refl) (refl, refl) chosen-IsSubset
      (
        inl (refl, refl),
        (inl (refl, refl), (inl (refl, refl), (inl (refl, refl), (inl (refl, refl), tt)))),
      )
