-- ===== src/SellInformation/Committing.antt =====
-- SellInformationProtocol::exec: the loop that commits to the encrypted roots fits the loop that opens
-- those outside of the subset.
use selling_information.Base.{
  ℕ, ◌+◌, ◌<◌, ◌≡◌, ◌≢◌, refl, sym, subst, Bool, true, false, List, get_or, set, list_eq,
  list_eq_refl, ok, arith,
}
use selling_information.Common.{l}
use selling_information.Crypto.{Sha256}
use selling_information.ShaCommitment.{
  Sender, Receiver, new_sender, new_receiver, compute_sha, receive, sha_open,
}
use selling_information.SellInformation.Indices.{has}
use selling_information.SellInformation.Pairs.{AllPairs, AllPairs-set}

module _ (sha : Sha256) where
  -- The messages are those of ss and rs; below k the commitments are made.
  abbrev pub IsMade : List Sender → List Receiver → ℕ → ℕ → Sender → Receiver → Type 0
  IsMade ss rs k i s r =
      (s.m ≡ (get_or ss i new_sender).m)
      × (r.m ≡ (get_or rs i new_receiver).m)
      × (i < k → r.commitment ≡ compute_sha sha s.m s.seed)

  -- Outside of the indices those below k are opened, at the indices the receivers have the messages of rs.
  abbrev pub IsShown : List ℕ → List Sender → List Receiver → ℕ → ℕ → Sender → Receiver → Type 0
  IsShown indices ss rs k i s r =
      (s.m ≡ (get_or ss i new_sender).m)
      × (r.commitment ≡ compute_sha sha s.m s.seed)
      × (has i indices ≡ true → r.m ≡ (get_or rs i new_receiver).m)
      × (has i indices ≡ false → i < k → r.m ≡ (get_or ss i new_sender).m)

  pub commit-AllPairs :
      (ss : List Sender) (rs : List Receiver) (k : ℕ) (ss' : List Sender) (rs' : List Receiver)
      (seed : List ℕ)
      → k < l
      → AllPairs (IsMade ss rs k) ss' rs'
      → let s = get_or ss' k new_sender in
        let r = get_or rs' k new_receiver in
        let digest = compute_sha sha s.m seed in
        AllPairs
          (IsMade ss rs (k + 1))
          (set ss' k (record s { seed = seed; commitment = digest }))
          (set rs' k (record r { commitment = digest }))
  commit-AllPairs ss rs k ss' rs' seed lt all =
      AllPairs-set (IsMade ss rs k) (IsMade ss rs (k + 1)) ss' rs' k _ _ all lt
        ((all.2 k lt).0, (all.2 k lt).1, λ h. refl)
        (λ i h other made. (made.0, made.1, λ below. made.2 (omega (arith, other, below))))

  pub open-AllPairs :
      (indices : List ℕ) (ss : List Sender) (rs : List Receiver) (k : ℕ) (ss' : List Sender)
      (rs' : List Receiver)
      → k < l
      → has k indices ≡ false
      → AllPairs (IsShown indices ss rs k) ss' rs'
      → let s = get_or ss' k new_sender in
        let r = get_or rs' k new_receiver in
        AllPairs (IsShown indices ss rs (k + 1)) (set ss' k s) (set rs' k (receive sha s r))
  unfolding receive
  open-AllPairs indices ss rs k ss' rs' lt out all =
      AllPairs-set (IsShown indices ss rs k) (IsShown indices ss rs (k + 1)) ss' rs' k _ _ all lt
        ((all.2 k lt).0, (all.2 k lt).1, λ h. absurd (unlike h out), λ h below. (all.2 k lt).0)
        (λ i h other shown.
          (shown.0, shown.1, shown.2, λ out below. shown.3 out (omega (arith, other, below))))
    where
      unlike : {b : Bool} → b ≡ true → b ≡ false → ⊥
      unlike p q = cc

  pub skip-AllPairs :
      (indices : List ℕ) (ss : List Sender) (rs : List Receiver) (k : ℕ) (ss' : List Sender)
      (rs' : List Receiver)
      → has k indices ≡ true
      → AllPairs (IsShown indices ss rs k) ss' rs'
      → AllPairs (IsShown indices ss rs (k + 1)) ss' rs'
  skip-AllPairs indices ss rs k ss' rs' taken all = (
    all.0,
    all.1,
    λ i h.
        let shown = all.2 i h in
        (shown.0, shown.1, shown.2, λ out below. shown.3 out (omega (arith, below, apart i out))),
  )
    where
      apart : (i : ℕ) → has i indices ≡ false → i ≢ k
      apart i out e = unlike (subst (λ j. has j indices ≡ true) (sym e) taken) out
        where
          unlike : {b : Bool} → b ≡ true → b ≡ false → ⊥
          unlike p q = cc

  pub sha_open-made :
      {World : Type 0} (s : Sender) (r : Receiver) (w : World)
      → r.commitment ≡ compute_sha sha s.m s.seed
      → sha_open sha (s, r, w) ≡ (ok tt, (s, receive sha s r, w))
  unfolding sha_open receive
  sha_open-made s r w made = rw (checked, sha_open) refl
    where
      checked : list_eq r.commitment (compute_sha sha s.m s.seed) ≡ true
      checked = subst (λ c. list_eq r.commitment c ≡ true) made (list_eq_refl r.commitment)
