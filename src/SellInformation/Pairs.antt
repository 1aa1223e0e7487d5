-- ===== src/SellInformation/Pairs.antt =====
-- What holds of each sender and receiver at one index, through a write at one index.
use selling_information.Base.{
  ℕ, zero, suc, ◌+◌, ◌≤◌, ◌<◌, ◌≡◌, ◌≢◌, inl, inr, refl, subst, ◌∙◌, List, length, length-set,
  get_or, set, get_or-set_self, get_or-set_ne, Bool, Bool-cases, ◌==◌, ==_iff, indices, ok, arith,
}
use selling_information.Base.Exec.{Exec, each}
use selling_information.Common.{l}
use selling_information.ShaCommitment.{Sender, Receiver, new_sender, new_receiver}

-- A loop over the indices from k on keeps what each of its rounds keeps.
pub each-indices {ℓ κ} :
    {S : Type ℓ} (P : ℕ → S → Type κ) (body : ℕ → Exec S (Unit {0})) (b : ℕ)
    → ((i : ℕ) (s : S) → i < b → P i s → ((body i s).0 ≡ ok tt) × P (i + 1) (body i s).1)
    → (k n : ℕ) (s : S) → k + n ≤ b
    → P k s
    → ((each (indices k n) body s).0 ≡ ok tt) × P (k + n) (each (indices k n) body s).1
each-indices P body b step k zero s h p = (refl, subst (λ j. P j s) (omega arith) p)
each-indices P body b step k (suc n) s h p =
    let here = step k s (omega arith) p in
    let later = each-indices P body b step (k + 1) n (body k s).1 (omega arith) here.1 in
    rw here.0 (
      later.0,
      subst (λ j. P j (each (indices (k + 1) n) body (body k s).1).1) (omega arith) later.1,
    )

abbrev pub AllPairs : (ℕ → Sender → Receiver → Type 0) → List Sender → List Receiver → Type 0
AllPairs R ss rs =
    (length ss ≡ l)
    × (length rs ≡ l)
    × ((i : ℕ) → i < l → R i (get_or ss i new_sender) (get_or rs i new_receiver))

pub AllPairs-set :
    (R R' : ℕ → Sender → Receiver → Type 0) (ss : List Sender) (rs : List Receiver) (k : ℕ)
    (s : Sender) (r : Receiver)
    → AllPairs R ss rs
    → k < l
    → R' k s r
    → ((i : ℕ)
        → i < l
        → k ≢ i
        → R i (get_or ss i new_sender) (get_or rs i new_receiver)
        → R' i (get_or ss i new_sender) (get_or rs i new_receiver))
    → AllPairs R' (set ss k s) (set rs k r)
AllPairs-set R R' ss rs k s r all lt here kept = (
  length-set ss k s ∙ all.0,
  length-set rs k r ∙ all.1,
  λ i h. elim (Bool-cases (k == i)) [
    | inl e ↦
        subst (λ j. R' j (get_or (set ss k s) j new_sender) (get_or (set rs k r) j new_receiver))
          ((==_iff k i).0 e)
          (rw
            (
              get_or-set_self ss k s new_sender (omega (arith, all.0, lt)),
              get_or-set_self rs k r new_receiver (omega (arith, all.1, lt)),
            )
            here)
    | inr e ↦
        let other : k ≢ i = unequal k i e in
        rw (get_or-set_ne ss k i s new_sender other, get_or-set_ne rs k i r new_receiver other)
          (kept i h other (all.2 i h))
  ],
)
  where
    unequal : (k i : ℕ) → (k == i) ≡ Bool.false → k ≢ i
    unequal k i e h = ground arith
