-- ===== src/SellInformation/Revealing.antt =====
-- sell_information.cpp: encryptRoots and setupCommit fit the loop of exec that opens a commitment for
-- each chosen value.
use selling_information.Base.{
  ltb, ltb→lt, All, All-get_or, map, [], ◌∷◌, ℕ, zero, suc, ◌<◌, ◌≡◌, inl, inr, refl, sym, ap, ap₂,
  subst, ◌∙◌, true, List, length, get_or, ok, arith,
}
use selling_information.Aes.{Cipher}
use selling_information.Common.{l}
use selling_information.Crypto.{Encoding, Sha256, Rng}
use selling_information.ShaCommitment.{Sender, Receiver, new_sender, compute_sha, sha_exec}
use selling_information.SellInformation.Parties.{Seller, Buyer}
use selling_information.SellInformation.Buyer.{half, verify_root}
use selling_information.SellInformation.Opening.{State, commit_roots, open_values}
use selling_information.SellInformation.Pairs.{each-indices, AllPairs}
use selling_information.SellInformation.Showing.{Both, commit_round, commit_roots-Both}
use selling_information.SellInformation.Encrypting.{
  assign_all-get_or, AreEncrypted, encrypt_loop-ok, IsEncrypted-verify_root,
}
use selling_information.SellInformation.Matching.{IsIndexOf}
use selling_information.SellInformation.Accepting.{AreIndices}
use selling_information.SellInformation.Subset.{IsSubset}
use selling_information.SellInformation.Seller.{encrypt_loop, encrypt_roots, setup_commit}
use selling_information.Base.Int.{ℤ, pos}
use selling_information.SignatureKey.Parties.{SingleSeller, SingleBuyer, assign_all}
use selling_information.SignatureKey.Committing.{length-assign_all}
use selling_information.SellInformation.Committing.{IsMade}
use selling_information.SellInformation.Opened.{Holds, IsHeld, Passes, open_values-IsHeld}

module _ {Point World : Type 0} (sha : Sha256) (rng : Rng World) (cipher : Cipher)
    (encoding : Encoding) (negative : ℕ → List ℕ) where
  -- What commit_roots does not touch.
  commit_roots-keeps :
      (st : State Point World)
      → let after = (commit_roots sha rng st).1 in
        (after.0.single_seller ≡ st.0.single_seller)
        × (after.1.single_buyer ≡ st.1.single_buyer)
        × (after.1.x ≡ st.1.x)
  unfolding commit_roots sha_exec
  commit_roots-keeps st =
      (each-indices
        (λ i (after : State Point World).
          (after.0.single_seller ≡ st.0.single_seller)
          × (after.1.single_buyer ≡ st.1.single_buyer)
          × (after.1.x ≡ st.1.x))
        (commit_round sha rng) l (λ i st' lt same. (refl, same)) 0 l st (omega arith)
        (refl, refl, refl)).1

  abbrev key_of : Seller Point → ℕ → Sender
  key_of s i = get_or s.single_seller.keys_commits i new_sender

  AreIndices-at :
      (s : Seller Point) (xs indices cs : List ℕ)
      → AreIndices s indices (map (λ i. get_or xs i 0) indices) cs
      → (i : ℕ) → i < length indices
      → IsIndexOf s (get_or indices i 0) (get_or xs (get_or indices i 0) 0) (get_or cs i 0)
  AreIndices-at s xs [] cs are i lt = absurd (omega arith)
  AreIndices-at s xs (ind ∷ indices) [] are i lt = absurd are
  AreIndices-at s xs (ind ∷ indices) (c ∷ cs) are zero lt = are.0
  AreIndices-at s xs (ind ∷ indices) (c ∷ cs) are (suc i) lt =
      AreIndices-at s xs indices cs are.1 i (omega arith)

  encrypt_roots-eq :
      (s : Seller Point) (c : List (List ℕ) × List (List ℕ))
      → encrypt_loop cipher encoding negative s.single_seller.keys_commits s.r1 s.r2 ≡ ok c
      → encrypt_roots cipher encoding negative s ≡ ok (record s { c1 = c.0; c2 = c.1 })
  unfolding encrypt_roots
  encrypt_roots-eq s c e = rw (e, encrypt_roots) refl

  -- For a seller and a buyer with L commitments to keys of 32 bytes, L roots of either kind and L commitments
  -- of either kind to them: encryptRoots throws nothing, commit_roots throws nothing on what
  -- setupCommit makes of it, and the loop of exec over a subset then throws nothing where acceptSubset
  -- gave an index of the buyer's number for each of its values.
  pub encrypt_roots-open_values :
      (s : Seller Point) (b : Buyer Point) (w : World) (indices cs : List ℕ)
      → All (λ (k : Sender). length k.m ≡ 32) s.single_seller.keys_commits
      → AllPairs
          (λ i k r. r.commitment ≡ compute_sha sha k.m k.seed)
          s.single_seller.keys_commits
          b.single_buyer.keys_commits
      → (length s.r1 ≡ l) × (length s.r2 ≡ l)
      → (length s.d1 ≡ l) × (length b.d1 ≡ l)
      → (length s.d2 ≡ l) × (length b.d2 ≡ l)
      → IsSubset indices
      → AreIndices s indices (map (λ i. get_or b.x i 0) indices) cs
      → (e : Seller Point) × (encrypt_roots cipher encoding negative s ≡ ok e)
        × ((commit_roots sha rng (setup_commit e, b, w)).0 ≡ ok tt)
        × ((open_values sha cipher encoding indices cs
              (commit_roots sha rng (setup_commit e, b, w)).1).0
            ≡ ok tt)
  unfolding setup_commit
  encrypt_roots-open_values s b w indices cs sizes keys roots d1 d2 subset are = (
    record s { c1 = loop.0.0; c2 = loop.0.1 },
    encrypt_roots-eq s loop.0 loop.1,
    made.0,
    (open_values-IsHeld sha cipher encoding (λ i. (key_of s i).m) (message st.0.d1)
        (message st.0.d2) b.x indices cs (commit_roots sha rng st).1 passes held).0,
  )
    where
      ks : List Sender
      ks = s.single_seller.keys_commits

      message : List Sender → ℕ → List ℕ
      message ss i = (get_or ss i new_sender).m

      loop :
          (c : List (List ℕ) × List (List ℕ)) × (encrypt_loop cipher encoding negative ks s.r1 s.r2
            ≡ ok c)
          × AreEncrypted cipher encoding negative ks s.r1 c.0
          × AreEncrypted cipher encoding negative ks s.r2 c.1
      loop =
          encrypt_loop-ok cipher encoding negative ks s.r1 s.r2 sizes (roots.0 ∙ sym keys.0)
            (roots.1 ∙ sym keys.0)

      st : State Point World
      st = (setup_commit (record s { c1 = loop.0.0; c2 = loop.0.1 }), b, w)

      made :
          ((commit_roots sha rng st).0 ≡ ok tt)
          × Both sha rng (IsMade sha) st l (commit_roots sha rng st).1
      made =
          commit_roots-Both sha rng st (length-assign_all s.d1 loop.0.0 ∙ d1.0) d1.1
            (length-assign_all s.d2 loop.0.1 ∙ d2.0) d2.1

      after : State Point World
      after = (commit_roots sha rng st).1

      kept :
          (after.0.single_seller ≡ s.single_seller)
          × (after.1.single_buyer ≡ b.single_buyer)
          × (after.1.x ≡ b.x)
      kept = commit_roots-keeps st

      keys_held :
          AllPairs
            (Holds sha (λ i. (key_of s i).m))
            after.0.single_seller.keys_commits
            after.1.single_buyer.keys_commits
      keys_held =
          subst
            (λ (k : SingleSeller Point × SingleBuyer Point).
              AllPairs (Holds sha (λ i. (key_of s i).m)) k.0.keys_commits k.1.keys_commits)
            (ap₂ (λ x y. (x, y)) (sym kept.0) (sym kept.1))
            (keys.0, keys.1, λ i h. (refl, keys.2 i h))

      roots_held :
          (ss : List Sender) (rs : List Receiver) (ss' : List Sender) (rs' : List Receiver)
          → AllPairs (IsMade sha ss rs l) ss' rs'
          → AllPairs (Holds sha (message ss)) ss' rs'
      roots_held ss rs ss' rs' all = (all.0, all.1, λ i h. ((all.2 i h).0, (all.2 i h).2 h))

      held :
          IsHeld sha cipher encoding
            (λ i. (key_of s i).m)
            (message st.0.d1)
            (message st.0.d2)
            b.x
            (commit_roots sha rng st).1
      held = (
        keys_held,
        roots_held st.0.d1 st.1.d1 _ _ made.1.0,
        roots_held st.0.d2 st.1.d2 _ _ made.1.1,
        kept.2,
      )

      passes :
          (i : ℕ)
          → i < half
          → (get_or indices i 0 < l)
            × Passes Point cipher encoding
                (λ i. (key_of s i).m)
                (message st.0.d1)
                (message st.0.d2)
                b.x
                (get_or indices i 0)
                (get_or cs i 0)
      passes i lt = (
        below,
        elim (AreIndices-at s b.x indices cs are i (omega (arith, subset.size, lt))) [
          | inl h ↦ inl (h.0, λ b' same. verified b' s.r1 loop.0.0 s.d1 same h.1 d1.0 loop.2)
          | inr h ↦ inr (h.0, λ b' same. verified b' s.r2 loop.0.1 s.d2 same h.1 d2.0 loop.3)
        ],
      )
        where
          ind : ℕ
          ind = get_or indices i 0

          below : ind < l
          below = ltb→lt ind l (
              All-get_or (λ i. ltb i l ≡ true) indices i 0 subset.below
                (omega (arith, subset.size, lt)))

          verified :
              (b' : Buyer Point) (rs : List ℤ) (c : List (List ℕ)) (d : List Sender)
              → b'.x ≡ b.x
              → pos (get_or b.x ind 0) ≡ get_or rs ind (pos 0)
              → length d ≡ l
              → AreEncrypted cipher encoding negative ks rs c
              → verify_root cipher encoding b' ind (key_of s ind).m (message (assign_all d c) ind)
                ≡ ok tt
          verified b' rs c d same number size all =
              subst (λ m. verify_root cipher encoding b' ind (key_of s ind).m m ≡ ok tt)
                (sym (
                  assign_all-get_or d c ind (all.0 ∙ keys.0 ∙ sym size)
                    (omega (arith, size, below))))
                (IsEncrypted-verify_root cipher encoding negative b' ind (get_or b.x ind 0)
                  (key_of s ind) (get_or rs ind (pos 0)) (get_or c ind [])
                  (All-get_or (λ (k : Sender). length k.m ≡ 32) ks ind new_sender sizes
                    (omega (arith, keys.0, below)))
                  number (ap (λ x. get_or x ind 0) same) (all.1 ind (omega (arith, keys.0, below))))
