-- ===== src/CutAndChoose/Sha.antt =====
-- cut_and_choose.h over sha_commitment.h, as test_cc_sha_commit.cpp runs them.
use selling_information.Base.{
  ℕ, ◌+◌, ◌≡◌, refl, sym, ap, subst, ◌∙◌, ◌≢◌, true, List, ◌∷◌, ◌++◌, Option, none, some, get_elem?,
  arith, Result, ok,
}
use selling_information.Crypto.{Sha256, Rng}
use selling_information.ShaCommitment.{
  Sender, Receiver, n, flip_first, cheat, compute_sha, sha_exec, sha_open, sha_commitment,
}
use selling_information.Common.{concatenate}
use selling_information.Protocol.{Protocol}
use selling_information.ShaCommitment.Opening.{sha_open_lem, append_cancel, flip_first_ne}
use selling_information.CutAndChoose.{Choice, run_all, cheat_if, cut_and_choose}
use selling_information.CutAndChoose.Soundness.{
  cut_and_choose-Checked, cut_and_choose_honest, run_all-Good, run_all-Made, Checked-Opens,
  cheat_at-get_elem?,
}

module _ {World : Type 0} (sha : Sha256) (rng : Rng World) where
  abbrev pub cut_and_choose_sha :
      Option ℕ → Choice Sender Receiver World → Result (Unit {0}) × Choice Sender Receiver World
  cut_and_choose_sha =
      cut_and_choose (sha_commitment sha rng) (λ r. r.open_verified) (λ s. ok (cheat s))

  abbrev Good : Sender × Receiver → Type 0
  Good (s, r) = r.commitment ≡ compute_sha sha s.m s.seed

  made :
      (a : Sender) (b : Receiver) (world : World)
      → let after = sha_exec sha rng (a, b, world) in
        (after.0 ≡ ok tt) × Good (after.1.0, after.1.1)
  unfolding sha_exec
  made a b world = (refl, refl)

  opens :
      (a : Sender) (b : Receiver) (world : World)
      → Good (a, b)
      → let after = sha_open sha (a, b, world) in
        (after.0 ≡ ok tt) × (after.1.1.open_verified ≡ true)
  opens a b world good = let facts = sha_open_lem sha a b world in (facts.0.1 good, facts.1.1 good)

  -- Over SHA commitments, without cheating, the run throws nothing and the verdict is true,
  -- whatever the messages, their number and the chosen index.
  pub cut_and_choose_sha_honest :
      (v : Choice Sender Receiver World)
      → ((cut_and_choose_sha none v).0 ≡ ok tt) × ((cut_and_choose_sha none v).1.res ≡ true)
  unfolding sha_commitment
  cut_and_choose_sha_honest v =
      cut_and_choose_honest (sha_commitment sha rng) (λ r. r.open_verified) (λ s. ok (cheat s)) Good
        made opens v

  -- The message and the changed one, with one seed, are different inputs with one digest.
  abbrev pub Collides : List ℕ → List ℕ → Type 0
  Collides m seed =
      (m ++ seed ≢ flip_first m ++ seed)
      × (sha.digest (m ++ seed) ≡ sha.digest (flip_first m ++ seed))

  -- The sender of a made commitment cheats and opens it.
  collision :
      (a : Sender) (b : Receiver) (world later : World) (first : ℕ) (rest : List ℕ)
      → a.m ≡ first ∷ rest
      → (sha_open sha (
        cheat (sha_exec sha rng (a, b, world)).1.0,
        (sha_exec sha rng (a, b, world)).1.1,
        later,
      )).0
        ≡ ok tt
      → Collides a.m (sha_exec sha rng (a, b, world)).1.0.seed
  unfolding sha_exec cheat compute_sha concatenate
  collision a b world later first rest message opened =
      let seed = (rng.generate_block n world).0 in
      (
        λ e. flip_first_ne first rest (
            ap flip_first (sym message)
            ∙ sym (append_cancel a.m (flip_first a.m) seed seed refl e)
            ∙ message),
        (sha_open_lem sha (cheat (sha_exec sha rng (a, b, world)).1.0)
              (sha_exec sha rng (a, b, world)).1.1 later).0.0
            opened,
      )

  -- Over SHA commitments, if the prover cheats at instance j, which is not the chosen one and
  -- whose message m was not empty, and the run throws nothing and gives the verdict true, then m
  -- and m with its first byte changed, each followed by the seed that the prover drew at instance j
  -- when all instances were run, are different inputs with one SHA-256 digest.
  pub cut_and_choose_sha_cheat :
      (v : Choice Sender Receiver World) (j first : ℕ) (rest : List ℕ) {a : Sender} {b : Receiver}
      → j ≢ v.chosen
      → get_elem? v.parties j ≡ some (a, b)
      → a.m ≡ first ∷ rest
      → (cut_and_choose_sha (some j) v).0 ≡ ok tt
      → (cut_and_choose_sha (some j) v).1.res ≡ true
      → (y : Sender × Receiver) × (get_elem?
            (run_all (sha_commitment sha rng) (λ r. r.open_verified) v.parties v.world).1
            j
          ≡ some y)
        × Collides a.m y.0.seed
  unfolding cheat_if sha_commitment
  cut_and_choose_sha_cheat v j first rest {a} {b} other at_j message ran accepted =
      let (parties, cheated, checked) =
        cut_and_choose-Checked p (λ r. r.open_verified) (λ s. ok (cheat s)) (some j) v ran
          accepted in
      let all_ran =
        run_all-Good p (λ r. r.open_verified) (λ s. ok (cheat s)) Good made opens v.parties
          v.world in
      let (y, found, y_made) =
        run_all-Made p (λ r. r.open_verified) v.parties v.world j at_j all_ran.0 in
      let opened =
        Checked-Opens p (λ r. r.open_verified) v.chosen 0 parties _ j checked
          (cheat_at-get_elem? cheat j _ cheated found) (λ e. other (zero_left j e)) in
      (
        y,
        found,
        subst (λ (z : Sender × Receiver). Collides a.m z.0.seed) (sym y_made.1)
            (collision a b y_made.0 opened.0 first rest message
              (subst (λ z. (sha_open sha (cheat z.0, z.1, opened.0)).0 ≡ ok tt) y_made.1 opened.1)),
      )
    where
      p : Protocol Sender Receiver World
      p = sha_commitment sha rng

      zero_left : (i : ℕ) {k : ℕ} → 0 + i ≡ k → i ≡ k
      zero_left i e = omega arith
