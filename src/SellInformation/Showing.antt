-- ===== src/SellInformation/Showing.antt =====
-- SellInformationProtocol::exec: what the buyer has seen after the last loop of openings.
use selling_information.Base.{
  ℕ, ◌+◌, ◌<◌, ◌≡◌, inl, inr, refl, true, false, List, length, get_or, Bool-cases, ok,
  if◌then◌else◌, arith,
}
use selling_information.Base.Exec.{Exec, return, ◌>>◌}
use selling_information.Common.{l}
use selling_information.Crypto.{Sha256, Rng}
use selling_information.ShaCommitment.{
  Sender, Receiver, new_sender, new_receiver, sha_exec, sha_open,
}
use selling_information.SellInformation.Indices.{has}
use selling_information.SellInformation.Opening.{State, on_d1, on_d2, commit_roots, open_rest}
use selling_information.SellInformation.Pairs.{each-indices, AllPairs}
use selling_information.SellInformation.Committing.{
  IsMade, IsShown, commit-AllPairs, open-AllPairs, skip-AllPairs, sha_open-made,
}

module _ {Point World : Type 0} (sha : Sha256) (rng : Rng World) where
  abbrev pub Both :
      (List Sender → List Receiver → ℕ → ℕ → Sender → Receiver → Type 0)
      → State Point World
      → ℕ
      → State Point World
      → Type 0
  Both R st k st' =
      AllPairs (R st.0.d1 st.1.d1 k) st'.0.d1 st'.1.d1
      × AllPairs (R st.0.d2 st.1.d2 k) st'.0.d2 st'.1.d2

  abbrev pub commit_round : ℕ → Exec (State Point World) (Unit {0})
  commit_round i = on_d1 i (sha_exec sha rng) >> on_d2 i (sha_exec sha rng)

  commit_round-Both :
      (st : State Point World) (i : ℕ) (st' : State Point World)
      → i < l
      → Both (IsMade sha) st i st'
      → ((commit_round i st').0 ≡ ok tt) × Both (IsMade sha) st (i + 1) (commit_round i st').1
  unfolding sha_exec
  commit_round-Both st i st' lt both = (
    refl,
    (
      commit-AllPairs sha st.0.d1 st.1.d1 i st'.0.d1 st'.1.d1 _ lt both.0,
      commit-AllPairs sha st.0.d2 st.1.d2 i st'.0.d2 st'.1.d2 _ lt both.1,
    ),
  )

  pub commit_roots-Both :
      (st : State Point World)
      → length st.0.d1 ≡ l
      → length st.1.d1 ≡ l
      → length st.0.d2 ≡ l
      → length st.1.d2 ≡ l
      → ((commit_roots sha rng st).0 ≡ ok tt) × Both (IsMade sha) st l (commit_roots sha rng st).1
  unfolding commit_roots
  commit_roots-Both st s1 r1 s2 r2 =
      each-indices (Both (IsMade sha) st) commit_round l (commit_round-Both st) 0 l st (omega arith)
        (
          (s1, r1, λ i h. (refl, refl, λ below. absurd (omega arith))),
          (s2, r2, λ i h. (refl, refl, λ below. absurd (omega arith))),
        )

  abbrev open_round : List ℕ → ℕ → Exec (State Point World) (Unit {0})
  open_round indices ind =
      if has ind indices then return tt else on_d1 ind (sha_open sha) >> on_d2 ind (sha_open sha)

  open_round-Both :
      (indices : List ℕ) (st : State Point World) (i : ℕ) (st' : State Point World)
      → i < l
      → Both (IsShown sha indices) st i st'
      → ((open_round indices i st').0 ≡ ok tt)
        × Both (IsShown sha indices) st (i + 1) (open_round indices i st').1
  open_round-Both indices st i st' lt both = elim (Bool-cases (has i indices)) [
    | inl e ↦ rw e (
      refl,
      (
        skip-AllPairs sha indices st.0.d1 st.1.d1 i st'.0.d1 st'.1.d1 e both.0,
        skip-AllPairs sha indices st.0.d2 st.1.d2 i st'.0.d2 st'.1.d2 e both.1,
      ),
    )
    | inr e ↦
        rw
          (
            e,
            sha_open-made sha (get_or st'.0.d1 i new_sender) (get_or st'.1.d1 i new_receiver) st'.2
                (both.0.2 i lt).1,
            sha_open-made sha (get_or st'.0.d2 i new_sender) (get_or st'.1.d2 i new_receiver) st'.2
                (both.1.2 i lt).1,
          )
          (
            refl,
            (
              open-AllPairs sha indices st.0.d1 st.1.d1 i st'.0.d1 st'.1.d1 lt e both.0,
              open-AllPairs sha indices st.0.d2 st.1.d2 i st'.0.d2 st'.1.d2 lt e both.1,
            ),
          )
  ]

  -- When the parties hold L commitments of either kind: commit_roots throws nothing, and on what it
  -- leaves the last loop of exec throws nothing for any subset. After both the buyer has both
  -- messages of the seller at every index outside of the subset, and at those of the subset it
  -- has the messages that it had.
  pub commit_roots-open_rest :
      (indices : List ℕ) (st : State Point World)
      → length st.0.d1 ≡ l
      → length st.1.d1 ≡ l
      → length st.0.d2 ≡ l
      → length st.1.d2 ≡ l
      → let made = commit_roots sha rng st in
        let opened = open_rest sha indices made.1 in
        (made.0 ≡ ok tt)
        × (opened.0 ≡ ok tt)
        × ((i : ℕ)
            → i < l
            → (has i indices ≡ false
                → ((get_or opened.1.1.d1 i new_receiver).m ≡ (get_or st.0.d1 i new_sender).m)
                  × ((get_or opened.1.1.d2 i new_receiver).m ≡ (get_or st.0.d2 i new_sender).m))
              × (has i indices ≡ true
                  → ((get_or opened.1.1.d1 i new_receiver).m ≡ (get_or st.1.d1 i new_receiver).m)
                    × ((get_or opened.1.1.d2 i new_receiver).m
                        ≡ (get_or st.1.d2 i new_receiver).m)))
  unfolding open_rest
  commit_roots-open_rest indices st s1 r1 s2 r2 = (
    made.0,
    opened.0,
    λ i h.
        let one = opened.1.0.2 i h in
        let two = opened.1.1.2 i h in
        (
          λ out. (one.3 out (omega (arith, h)), two.3 out (omega (arith, h))),
          λ taken. (one.2 taken, two.2 taken),
        ),
  )
    where
      made :
          ((commit_roots sha rng st).0 ≡ ok tt) × Both (IsMade sha) st l (commit_roots sha rng st).1
      made = commit_roots-Both st s1 r1 s2 r2

      shown :
          (ss : List Sender) (rs : List Receiver) (ss' : List Sender) (rs' : List Receiver)
          → AllPairs (IsMade sha ss rs l) ss' rs'
          → AllPairs (IsShown sha indices ss rs 0) ss' rs'
      shown ss rs ss' rs' all = (
        all.0,
        all.1,
        λ i h. let m = all.2 i h in (m.0, m.2 h, λ taken. m.1, λ out below. absurd (omega arith)),
      )

      opened :
          ((open_rest sha indices (commit_roots sha rng st).1).0 ≡ ok tt)
          × Both (IsShown sha indices) st l (open_rest sha indices (commit_roots sha rng st).1).1
      opened =
          each-indices (Both (IsShown sha indices) st) (open_round indices) l
            (open_round-Both indices st) 0 l (commit_roots sha rng st).1 (omega arith)
            (shown st.0.d1 st.1.d1 _ _ made.1.0, shown st.0.d2 st.1.d2 _ _ made.1.1)
