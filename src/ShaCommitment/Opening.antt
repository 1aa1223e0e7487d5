-- ===== src/ShaCommitment/Opening.antt =====
-- sha_commitment.cpp: what opening a commitment shows.
use selling_information.Base.{
  ℕ, ◌≡◌, refl, sym, ap, ◌∙◌, ◌≢◌, ◌↔◌, inl, inr, true, false, List, [], ◌∷◌, ◌++◌, length,
  length-append, list_eq, list_eq→eq, list_eq_refl, Bool-cases, arith, ok, err, protocol,
}
use mathlib.Core.Bool.{false≢true}
use selling_information.Common.{concatenate}
use selling_information.Crypto.{Sha256, Rng}
use selling_information.ShaCommitment.{
  Sender, Receiver, n, flip_first, compute_sha, receive, sha_exec, sha_open,
}

differs : (xs ys : List ℕ) → list_eq xs ys ≡ false → xs ≢ ys
differs xs ys h e = false≢true (sym h ∙ ap (list_eq xs) (sym e) ∙ list_eq_refl xs)

pub append_cancel : (xs ys us vs : List ℕ) → length us ≡ length vs → xs ++ us ≡ ys ++ vs → xs ≡ ys
append_cancel [] [] us vs h e = refl
append_cancel [] (y ∷ ys) us vs h e = absurd (omega (arith, ap length e, length-append ys vs))
append_cancel (x ∷ xs) [] us vs h e = absurd (omega (arith, ap length e, length-append xs us))
append_cancel (x ∷ xs) (y ∷ ys) us vs h e = ground (arith, append_cancel xs ys us vs)

module _ {World : Type 0} (sha : Sha256) (s : Sender) (r : Receiver) (world : World) where
  -- ShaCommitment::open succeeds exactly when the received digest is that of the sender's message
  -- and seed; otherwise it throws ProtocolException. On both paths the receiver has then the
  -- message and the seed, its open_verified is true exactly in the first case, and the sender, the
  -- received digest and the generator are unchanged.
  pub sha_open_lem :
      let after = sha_open sha (s, r, world) in
      ((after.0 ≡ ok tt) ↔ (r.commitment ≡ compute_sha sha s.m s.seed))
      × ((after.1.1.open_verified ≡ true) ↔ (r.commitment ≡ compute_sha sha s.m s.seed))
      × (r.commitment ≢ compute_sha sha s.m s.seed
          → after.0 ≡ err (protocol "sha commitment open failed"))
      × (after.1.0 ≡ s)
      × (after.1.1.m ≡ s.m)
      × (after.1.1.seed ≡ s.seed)
      × (after.1.1.commitment ≡ r.commitment)
      × (after.1.2 ≡ world)
  unfolding sha_open receive
  sha_open_lem = elim (Bool-cases (list_eq r.commitment (compute_sha sha s.m s.seed))) [
    | inl same ↦
        let equal = list_eq→eq r.commitment (compute_sha sha s.m s.seed) same in
        rw same (
          (λ _. equal, λ _. refl),
          (λ _. equal, λ _. refl),
          λ d. absurd (d equal),
          refl,
          refl,
          refl,
          refl,
          refl,
        )
    | inr other ↦
        let differ = differs r.commitment (compute_sha sha s.m s.seed) other in
        rw other (
          (λ e. cc, λ e. absurd (differ e)),
          (λ e. cc, λ e. absurd (differ e)),
          λ d. refl,
          refl,
          refl,
          refl,
          refl,
          refl,
        )
  ]

module _ {World : Type 0} (sha : Sha256) (rng : Rng World) (s : Sender) (r : Receiver)
    (world : World) where
  -- A commitment that is opened as it was made opens: exec throws nothing, and then open throws
  -- nothing, and the receiver has the sender's message, the seed and a verified commitment.
  pub sha_exec-sha_open :
      let made = sha_exec sha rng (s, r, world) in
      let after = sha_open sha made.1 in
      (made.0 ≡ ok tt)
      × (after.0 ≡ ok tt)
      × (after.1.1.m ≡ s.m)
      × (after.1.1.seed ≡ made.1.0.seed)
      × (after.1.1.open_verified ≡ true)
  unfolding sha_exec
  sha_exec-sha_open =
      let made = sha_exec sha rng (s, r, world) in
      let facts = sha_open_lem sha made.1.0 made.1.1 made.1.2 in
      (refl, facts.0.1 refl, facts.4, facts.5, facts.1.1 refl)

  -- If, after exec, a sender with another message and a seed of 32 bytes opens the receiver's
  -- commitment, then that message followed by that seed, and the message of exec followed by the seed
  -- that exec drew, are different and have one SHA-256 digest.
  pub sha_open_binding :
      (other : Sender)
      → length other.seed ≡ n
      → other.m ≢ s.m
      → (sha_open sha
          (other, (sha_exec sha rng (s, r, world)).1.1, (sha_exec sha rng (s, r, world)).1.2)).0
        ≡ ok tt
      → let seed = (sha_exec sha rng (s, r, world)).1.0.seed in
        (s.m ++ seed ≢ other.m ++ other.seed)
        × (sha.digest (s.m ++ seed) ≡ sha.digest (other.m ++ other.seed))
  unfolding sha_exec compute_sha concatenate
  sha_open_binding other size differ opened =
      let drawn = (rng.generate_block n world).0 in
      (
        λ e. differ (
            sym (
              append_cancel s.m other.m drawn other.seed
                (rng.length-generate_block n world ∙ sym size) e)),
        (sha_open_lem sha other (sha_exec sha rng (s, r, world)).1.1
              (sha_exec sha rng (s, r, world)).1.2).0.0
            opened,
      )

-- Cheating changes a message that is not empty.
pub flip_first_ne : (b : ℕ) (rest : List ℕ) → flip_first (b ∷ rest) ≢ b ∷ rest
unfolding flip_first
flip_first_ne b rest e = ground arith
