-- ===== src/SellInformation/Opening.antt =====
-- SellInformationProtocol::exec: the loops that commit to the encrypted roots and open them.
-- `val` of the loop is not used there.
use selling_information.Base.{ℕ, List, get_or, set, ◌==◌, if◌then◌else◌, protocol, indices as upto}
use selling_information.Base.Exec.{Exec, lift, zoom, gets, return, throw, each, ◌>>=◌, ◌>>◌}
use selling_information.Aes.{Cipher}
use selling_information.Common.{l}
use selling_information.Crypto.{Encoding, Sha256, Rng}
use selling_information.ShaCommitment.{
  Sender, Receiver, new_sender, new_receiver, sha_exec, sha_open,
}
use selling_information.SellInformation.Parties.{Seller, Buyer}
use selling_information.SellInformation.Indices.{has}
use selling_information.SellInformation.Buyer.{half, verify_root}

abbrev pub State : Type 0 → Type 0 → Type 0
State Point World = Seller Point × Buyer Point × World

module _ {Point World : Type 0} where
  -- A protocol on &seller->d1[i] and &buyer->d1[i], on those of d2, and on the keys' commitments of the
  -- single parties.
  abbrev pub on_d1 :
      ℕ → Exec (Sender × Receiver × World) (Unit {0}) → Exec (State Point World) (Unit {0})
  on_d1 i =
      zoom
        (λ (st : State Point World).
          (get_or st.0.d1 i new_sender, get_or st.1.d1 i new_receiver, st.2))
        (λ part st. (
          record (st.0) { d1 = set st.0.d1 i part.0 },
          record (st.1) { d1 = set st.1.d1 i part.1 },
          part.2,
        ))

  abbrev pub on_d2 :
      ℕ → Exec (Sender × Receiver × World) (Unit {0}) → Exec (State Point World) (Unit {0})
  on_d2 i =
      zoom
        (λ (st : State Point World).
          (get_or st.0.d2 i new_sender, get_or st.1.d2 i new_receiver, st.2))
        (λ part st. (
          record (st.0) { d2 = set st.0.d2 i part.0 },
          record (st.1) { d2 = set st.1.d2 i part.1 },
          part.2,
        ))

  abbrev pub on_key :
      ℕ → Exec (Sender × Receiver × World) (Unit {0}) → Exec (State Point World) (Unit {0})
  on_key i =
      zoom
        (λ (st : State Point World). (
          get_or st.0.single_seller.keys_commits i new_sender,
          get_or st.1.single_buyer.keys_commits i new_receiver,
          st.2,
        ))
        (λ part st. (
          record (st.0) {
            single_seller = record (st.0.single_seller) {
              keys_commits = set st.0.single_seller.keys_commits i part.0;
            };
          },
          record (st.1) {
            single_buyer = record (st.1.single_buyer) {
              keys_commits = set st.1.single_buyer.keys_commits i part.1;
            };
          },
          part.2,
        ))

  unfoldable pub commit_roots : Sha256 → Rng World → Exec (State Point World) (Unit {0})
  commit_roots sha rng =
      each (upto 0 l) (λ i. do on_d1 i (sha_exec sha rng); on_d2 i (sha_exec sha rng))

  module _ (sha : Sha256) where
    -- The switch on commit_ind: the opened message.
    unfoldable pub open_chosen : ℕ → ℕ → Exec (State Point World) (List ℕ)
    open_chosen ind commit_ind =
        if commit_ind == 1
        then (do on_d1 ind (sha_open sha); gets (λ st. (get_or st.1.d1 ind new_receiver).m))
        else if commit_ind == 2
        then (do on_d2 ind (sha_open sha); gets (λ st. (get_or st.1.d2 ind new_receiver).m))
        else throw (protocol "matching roots to values didn't work")

    -- One round of the loop over the subset.
    unfoldable pub open_value : Cipher → Encoding → ℕ → ℕ → Exec (State Point World) (Unit {0})
    open_value cipher encoding ind commit_ind = do
      on_key ind (sha_open sha)
      key ← gets (λ st. (get_or st.1.single_buyer.keys_commits ind new_receiver).m)
      c ← open_chosen ind commit_ind
      b ← gets (λ st. st.1)
      lift (verify_root cipher encoding b ind key c)

    unfoldable pub open_values :
        Cipher → Encoding → List ℕ → List ℕ → Exec (State Point World) (Unit {0})
    open_values cipher encoding indices commitment_indices =
        each (upto 0 half)
          (λ i. open_value cipher encoding (get_or indices i 0) (get_or commitment_indices i 0))

    -- The loop over the indices that are not in the subset.
    unfoldable pub open_rest : List ℕ → Exec (State Point World) (Unit {0})
    open_rest indices = each (upto 0 l) (λ ind.
        if has ind indices
        then return tt
        else do on_d1 ind (sha_open sha); on_d2 ind (sha_open sha))
