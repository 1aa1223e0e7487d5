-- ===== src/SellInformation/Opened.antt =====
-- SellInformationProtocol::exec: the loop that opens a commitment for each chosen value.
use selling_information.Base.{
  ℕ, ◌<◌, ◌≡◌, ◌⊎◌, inl, inr, refl, ap, ◌∙◌, List, get_or, get_or-set_self, set, ok, arith,
}
use selling_information.Aes.{Cipher}
use selling_information.Common.{l}
use selling_information.Crypto.{Encoding, Sha256}
use selling_information.ShaCommitment.{
  Sender, Receiver, new_sender, new_receiver, compute_sha, receive,
}
use selling_information.SellInformation.Parties.{Buyer}
use selling_information.SellInformation.Buyer.{half, verify_root}
use selling_information.SellInformation.Opening.{State, open_chosen, open_value, open_values}
use selling_information.SellInformation.Pairs.{each-indices, AllPairs, AllPairs-set}
use selling_information.SellInformation.Committing.{sha_open-made}

-- The chosen commitment decrypts to the buyer's number.
abbrev pub Passes :
    Type 0
    → Cipher
    → Encoding
    → (ℕ → List ℕ)
    → (ℕ → List ℕ)
    → (ℕ → List ℕ)
    → List ℕ
    → ℕ
    → ℕ
    → Type 0
Passes Point cipher encoding keys c1 c2 xs ind c =
    ((c ≡ 1)
      × ((b : Buyer Point)
          → b.x ≡ xs
          → verify_root cipher encoding b ind (keys ind) (c1 ind) ≡ ok tt))
    ⊎ ((c ≡ 2)
        × ((b : Buyer Point)
            → b.x ≡ xs
            → verify_root cipher encoding b ind (keys ind) (c2 ind) ≡ ok tt))

module _ (sha : Sha256) where
  -- The sender holds the message of that index, and the commitment is made.
  abbrev pub Holds : (ℕ → List ℕ) → ℕ → Sender → Receiver → Type 0
  Holds m i s r = (s.m ≡ m i) × (r.commitment ≡ compute_sha sha s.m s.seed)

  Holds-set :
      (m : ℕ → List ℕ) (ss : List Sender) (rs : List Receiver) (k : ℕ)
      → k < l
      → AllPairs (Holds m) ss rs
      → AllPairs
          (Holds m)
          (set ss k (get_or ss k new_sender))
          (set rs k (receive sha (get_or ss k new_sender) (get_or rs k new_receiver)))
  unfolding receive
  Holds-set m ss rs k lt all =
      AllPairs-set (Holds m) (Holds m) ss rs k _ _ all lt (all.2 k lt) (λ i h other held. held)

  shown :
      (m : ℕ → List ℕ) (i : ℕ) (ss : List Sender) (rs : List Receiver)
      → i < l
      → AllPairs (Holds m) ss rs
      → (get_or
          (set rs i (receive sha (get_or ss i new_sender) (get_or rs i new_receiver)))
          i
          new_receiver).m
        ≡ m i
  unfolding receive
  shown m i ss rs lt all =
      ap (λ r. r.m) (get_or-set_self rs i _ new_receiver (omega (arith, all.1, lt)))
      ∙ (all.2 i lt).0

  module _ {Point World : Type 0} (cipher : Cipher) (encoding : Encoding) (keys c1 c2 : ℕ → List ℕ)
      (xs : List ℕ) where
    -- All commitments are made, to the keys and to c1 and c2, and the buyer's numbers are xs.
    abbrev pub IsHeld : State Point World → Type 0
    IsHeld st =
        AllPairs (Holds keys) st.0.single_seller.keys_commits st.1.single_buyer.keys_commits
        × AllPairs (Holds c1) st.0.d1 st.1.d1
        × AllPairs (Holds c2) st.0.d2 st.1.d2
        × (st.1.x ≡ xs)

    open_value-IsHeld :
        (ind c : ℕ) (st : State Point World)
        → ind < l
        → Passes Point cipher encoding keys c1 c2 xs ind c
        → IsHeld st
        → ((open_value sha cipher encoding ind c st).0 ≡ ok tt)
          × IsHeld (open_value sha cipher encoding ind c st).1
    unfolding open_value open_chosen
    open_value-IsHeld ind c st lt (inl (chosen, passes)) held =
        rw
          (
            chosen,
            sha_open-made sha (get_or st.0.single_seller.keys_commits ind new_sender)
                (get_or st.1.single_buyer.keys_commits ind new_receiver) st.2 (held.0.2 ind lt).1,
            sha_open-made sha (get_or st.0.d1 ind new_sender) (get_or st.1.d1 ind new_receiver) st.2
                (held.1.2 ind lt).1,
            shown keys ind st.0.single_seller.keys_commits st.1.single_buyer.keys_commits lt held.0,
            shown c1 ind st.0.d1 st.1.d1 lt held.1,
            passes
                (record (st.1) {
                  single_buyer = record (st.1.single_buyer) {
                    keys_commits = set st.1.single_buyer.keys_commits ind (
                        receive sha (get_or st.0.single_seller.keys_commits ind new_sender)
                          (get_or st.1.single_buyer.keys_commits ind new_receiver));
                  };
                  d1 = set st.1.d1 ind (
                      receive sha (get_or st.0.d1 ind new_sender)
                        (get_or st.1.d1 ind new_receiver));
                })
                held.3,
          )
          (refl, (Holds-set keys _ _ ind lt held.0, Holds-set c1 _ _ ind lt held.1, held.2, held.3))
    open_value-IsHeld ind c st lt (inr (chosen, passes)) held =
        rw
          (
            chosen,
            sha_open-made sha (get_or st.0.single_seller.keys_commits ind new_sender)
                (get_or st.1.single_buyer.keys_commits ind new_receiver) st.2 (held.0.2 ind lt).1,
            sha_open-made sha (get_or st.0.d2 ind new_sender) (get_or st.1.d2 ind new_receiver) st.2
                (held.2.2 ind lt).1,
            shown keys ind st.0.single_seller.keys_commits st.1.single_buyer.keys_commits lt held.0,
            shown c2 ind st.0.d2 st.1.d2 lt held.2,
            passes
                (record (st.1) {
                  single_buyer = record (st.1.single_buyer) {
                    keys_commits = set st.1.single_buyer.keys_commits ind (
                        receive sha (get_or st.0.single_seller.keys_commits ind new_sender)
                          (get_or st.1.single_buyer.keys_commits ind new_receiver));
                  };
                  d2 = set st.1.d2 ind (
                      receive sha (get_or st.0.d2 ind new_sender)
                        (get_or st.1.d2 ind new_receiver));
                })
                held.3,
          )
          (refl, (Holds-set keys _ _ ind lt held.0, held.1, Holds-set c2 _ _ ind lt held.2, held.3))

    -- The loop over the subset throws nothing.
    pub open_values-IsHeld :
        (indices commitment_indices : List ℕ) (st : State Point World)
        → ((i : ℕ)
            → i < half
            → (get_or indices i 0 < l)
              × Passes Point cipher encoding keys c1 c2 xs
                  (get_or indices i 0)
                  (get_or commitment_indices i 0))
        → IsHeld st
        → ((open_values sha cipher encoding indices commitment_indices st).0 ≡ ok tt)
          × IsHeld (open_values sha cipher encoding indices commitment_indices st).1
    unfolding open_values
    open_values-IsHeld indices commitment_indices st passes held =
        each-indices (λ i. IsHeld)
          (λ i. open_value sha cipher encoding (get_or indices i 0) (get_or commitment_indices i 0))
          half (λ i st' lt. open_value-IsHeld _ _ st' (passes i lt).0 (passes i lt).1) 0 half st
          (omega arith) held
