-- ===== src/SignatureKey/Committing.antt =====
-- signature_key.cpp: the commitments to the keys, from genKeysAndSetupCommits to verifyKeys.
use selling_information.Base.{
  ℕ, suc, ◌≡◌, refl, sym, ap, ap₂, ◌∙◌, List, [], ◌∷◌, map, length, arith, Result, ok,
}
use selling_information.Crypto.{Encoding, Sha256, Rng}
use selling_information.Curve.{Curve}
use selling_information.Common.{l}
use selling_information.ShaCommitment.{compute_sha, sha_exec, sha_open}
use selling_information.ShaCommitment as Sha
use selling_information.ShaCommitment.Opening.{sha_open_lem}
use selling_information.SharedSignature.Parties.{get_signature}
use selling_information.SignatureKey.Keys.{check_keys, gen_keys}
use selling_information.SignatureKey.Parties.{
  SingleSeller, SingleBuyer, assign_all, gen_keys_and_setup_commits, verify_keys,
}
use selling_information.SignatureKey.Running.{each_pair}
use selling_information.SignatureKey.Checking.{gen_keys-sizes, check_keys_refl}

abbrev sent : Sha.Sender → List ℕ
sent s = s.m

abbrev received : Sha.Receiver → List ℕ
received r = r.m

-- Each receiver holds the digest that its sender can open.
abbrev AllGood : Sha256 → List Sha.Sender → List Sha.Receiver → Type 0
AllGood sha [] [] = Unit {0}
AllGood sha [] (r ∷ rs) = ⊥
AllGood sha (s ∷ ss) [] = ⊥
AllGood sha (s ∷ ss) (r ∷ rs) = (r.commitment ≡ compute_sha sha s.m s.seed) × AllGood sha ss rs

module _ {World : Type 0} (sha : Sha256) where
  each_pair-exec :
      (rng : Rng World) (ss : List Sha.Sender) (rs : List Sha.Receiver) (w : World)
      → length ss ≡ length rs
      → let after = each_pair (sha_exec sha rng) (ss, rs, w) in
        (after.0 ≡ ok tt) × AllGood sha after.1.0 after.1.1 × (map sent after.1.0 ≡ map sent ss)
  unfolding each_pair sha_exec
  each_pair-exec rng [] [] w h = (refl, tt, refl)
  each_pair-exec rng [] (r ∷ rs) w h = absurd (omega arith)
  each_pair-exec rng (s ∷ ss) [] w h = absurd (omega arith)
  each_pair-exec rng (s ∷ ss) (r ∷ rs) w h =
      let later = each_pair-exec rng ss rs (sha_exec sha rng (s, r, w)).1.2 (omega arith) in
      (later.0, (refl, later.1), ap (λ ms. s.m ∷ ms) later.2)

  each_pair-open :
      (ss : List Sha.Sender) (rs : List Sha.Receiver) (w : World)
      → AllGood sha ss rs
      → let after = each_pair (sha_open sha) (ss, rs, w) in
        (after.0 ≡ ok tt) × (map received after.1.1 ≡ map sent ss)
  unfolding each_pair
  each_pair-open [] [] w h = (refl, refl)
  each_pair-open [] (r ∷ rs) w h = absurd h
  each_pair-open (s ∷ ss) [] w h = absurd h
  each_pair-open (s ∷ ss) (r ∷ rs) w h =
      let here = sha_open_lem sha s r w in
      let later = each_pair-open ss rs (sha_open sha (s, r, w)).1.2 h.1 in
      rw (here.0.1 h.0, each_pair) (later.0, ap₂ ◌∷◌ here.4 later.1)

assign_all-sent :
    (ss : List Sha.Sender) (keys : List (List ℕ))
    → length ss ≡ length keys
    → map sent (assign_all ss keys) ≡ keys
unfolding assign_all
assign_all-sent [] [] h = refl
assign_all-sent [] (key ∷ keys) h = absurd (omega arith)
assign_all-sent (s ∷ ss) [] h = absurd (omega arith)
assign_all-sent (s ∷ ss) (key ∷ keys) h =
    ap (λ rest. key ∷ rest) (assign_all-sent ss keys (omega arith))

pub length-assign_all :
    (ss : List Sha.Sender) (keys : List (List ℕ)) → length (assign_all ss keys) ≡ length ss
unfolding assign_all
length-assign_all [] keys = refl
length-assign_all (s ∷ ss) [] = refl
length-assign_all (s ∷ ss) (key ∷ keys) = ap suc (length-assign_all ss keys)

module _ {World : Type 0} (curve : Curve) (encoding : Encoding) (sha : Sha256)
    (rng : Rng World) where
  -- For a seller and a buyer with L commitments each, the last steps of exec and of open fit: after
  -- genKeysAndSetupCommits every commitment is made and opened with no exception, and verifyKeys
  -- accepts what the buyer was shown.
  pub each_pair-verify_keys :
      (s : SingleSeller curve.Point) (b : SingleBuyer curve.Point) (w w' : World)
      → length s.keys_commits ≡ l
      → length b.keys_commits ≡ l
      → let set = gen_keys_and_setup_commits curve encoding sha s in
        let made = each_pair (sha_exec sha rng) (set.keys_commits, b.keys_commits, w) in
        let signed = sha_exec sha rng (set.signature_commit, b.signature_commit, made.1.2) in
        let opened = each_pair (sha_open sha) (made.1.0, made.1.1, w') in
        let shown = sha_open sha (signed.1.0, signed.1.1, opened.1.2) in
        (made.0 ≡ ok tt)
        × (signed.0 ≡ ok tt)
        × (opened.0 ≡ ok tt)
        × (shown.0 ≡ ok tt)
        × (verify_keys curve encoding sha
              (record b { keys_commits = opened.1.1; signature_commit = shown.1.1 })
            ≡ ok tt)
  unfolding gen_keys_and_setup_commits verify_keys sha_exec
  each_pair-verify_keys s b w w' hs hb =
      let shown =
        sha_open_lem sha signed.1.0 signed.1.1
          (each_pair (sha_open sha) (after.1.0, after.1.1, w')).1.2 in
      (
        made.0,
        refl,
        opened.0,
        shown.0.1 refl,
        ap₂ check_keys
              (opened.1
                ∙ made.2
                ∙ assign_all-sent s.keys_commits keys
                    (hs ∙ sym (gen_keys-sizes curve encoding sha signature).0))
              (ap (gen_keys encoding sha) shown.4)
            ∙ check_keys_refl keys,
      )
    where
      signature : List ℕ
      signature = get_signature curve encoding s.shared_signature_s

      keys : List (List ℕ)
      keys = gen_keys encoding sha signature

      set : List Sha.Sender
      set = assign_all s.keys_commits keys

      after : Result (Unit {0}) × (List Sha.Sender × List Sha.Receiver × World)
      after = each_pair (sha_exec sha rng) (set, b.keys_commits, w)

      made :
          (after.0 ≡ ok tt) × AllGood sha after.1.0 after.1.1 × (map sent after.1.0 ≡ map sent set)
      made =
          each_pair-exec sha rng set b.keys_commits w
            (length-assign_all s.keys_commits keys ∙ hs ∙ sym hb)

      opened :
          ((each_pair (sha_open sha) (after.1.0, after.1.1, w')).0 ≡ ok tt)
          × (map received (each_pair (sha_open sha) (after.1.0, after.1.1, w')).1.1
              ≡ map sent after.1.0)
      opened = each_pair-open sha after.1.0 after.1.1 w' made.1

      signed : Result (Unit {0}) × (Sha.Sender × Sha.Receiver × World)
      signed =
          sha_exec sha rng
            (record (s.signature_commit) { m = signature }, b.signature_commit, after.1.2)
