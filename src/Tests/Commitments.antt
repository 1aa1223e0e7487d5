-- ===== src/Tests/Commitments.antt =====
-- The theorems on the commitments by SHA-256 and on cut-and-choose, with a toy digest.
use selling_information.Base.{
  ℕ, ◌%◌, ◌≡◌, refl, ◌≢◌, ◌↔◌, true, false, List, [], ◌∷◌, ◌++◌, get_elem?, some, none, replicate,
  length, length-replicate, arith, ok, err, protocol, list_eq, All, IsByte,
}
use selling_information.Crypto.{Sha256}
use selling_information.RegularCommitment.{RegularCommitment, regular_commit, regular_verify}
use selling_information.RegularCommitment.Binding.{regular_verify_iff, regular_commit_binding}
use selling_information.ShaCommitment.{
  Sender, Receiver, new_sender, new_receiver, compute_sha, sha_exec, sha_open, sha_commitment,
  cheat,
}
use selling_information.ShaCommitment.Opening.{sha_open_lem, sha_exec-sha_open, sha_open_binding}
use selling_information.CutAndChoose.{Choice, cut_and_choose, cheat_if, run_all, open_all}
use selling_information.CutAndChoose.Soundness.{Checked, cut_and_choose-Checked}
use selling_information.CutAndChoose.Sha.{
  Collides, cut_and_choose_sha, cut_and_choose_sha_honest, cut_and_choose_sha_cheat,
}
use selling_information.Tests.Reference.{
  encoding, sha, rng, encoded_size, encode, toy_digest, length-toy_digest, replicate-IsByte,
}
use native.Mathlib.Nat.{mod-lt}

-- The bytes of both numbers have the same sum.
abbrev committed : RegularCommitment
committed = regular_commit encoding sha 258

size : length committed.digest ≡ 32
unfolding regular_commit
size = length-toy_digest _

regular_verify_iff_example :
    (regular_verify encoding sha committed 258 ≡ true)
    ↔ (committed ≡ regular_commit encoding sha 258)
regular_verify_iff_example = regular_verify_iff encoding sha committed 258 size

verifies :
    (x : ℕ)
    → regular_commit encoding sha 258 ≡ regular_commit encoding sha x
    → regular_verify encoding sha committed x ≡ true
verifies x e = (regular_verify_iff encoding sha committed x size).1 e

regular_commit_binding_example :
    (encoding.encode 258 (encoding.min_encoded_size 258)
      ≢ encoding.encode 513 (encoding.min_encoded_size 513))
    × (sha.digest (encoding.encode 258 (encoding.min_encoded_size 258))
        ≡ sha.digest (encoding.encode 513 (encoding.min_encoded_size 513)))
unfolding regular_commit encoded_size encode toy_digest
regular_commit_binding_example =
    regular_commit_binding encoding sha committed 258 513 size (verifies 258 refl)
      (verifies 513 refl) (λ e. ground (arith, e))

abbrev sender : Sender
sender = record new_sender { m = 1 ∷ 2 ∷ [] }

sha_open_lem_example :
    let world : ℕ = 5 in
    let after = sha_open sha (sender, new_receiver, world) in
    ((after.0 ≡ ok tt) ↔ (new_receiver.commitment ≡ compute_sha sha sender.m sender.seed))
    × ((after.1.1.open_verified ≡ true)
        ↔ (new_receiver.commitment ≡ compute_sha sha sender.m sender.seed))
    × (new_receiver.commitment ≢ compute_sha sha sender.m sender.seed
        → after.0 ≡ err (protocol "sha commitment open failed"))
    × (after.1.0 ≡ sender)
    × (after.1.1.m ≡ sender.m)
    × (after.1.1.seed ≡ sender.seed)
    × (after.1.1.commitment ≡ new_receiver.commitment)
    × (after.1.2 ≡ world)
sha_open_lem_example = sha_open_lem sha sender new_receiver 5

sha_exec-sha_open_example :
    let made = sha_exec sha rng (sender, new_receiver, 5) in
    let after = sha_open sha made.1 in
    (made.0 ≡ ok tt)
    × (after.0 ≡ ok tt)
    × (after.1.1.m ≡ sender.m)
    × (after.1.1.seed ≡ made.1.0.seed)
    × (after.1.1.open_verified ≡ true)
sha_exec-sha_open_example = sha_exec-sha_open sha rng sender new_receiver 5

-- Another message with the same sum.
abbrev forger : Sender
forger = record new_sender { m = 2 ∷ 1 ∷ []; seed = replicate 32 5 }

sha_open_binding_example :
    let seed = (sha_exec sha rng (sender, new_receiver, 5)).1.0.seed in
    (sender.m ++ seed ≢ forger.m ++ forger.seed)
    × (sha.digest (sender.m ++ seed) ≡ sha.digest (forger.m ++ forger.seed))
unfolding sha_exec compute_sha toy_digest
sha_open_binding_example =
    sha_open_binding sha rng sender new_receiver 5 forger refl (λ e. ground (arith, e))
      ((sha_open_lem sha forger (sha_exec sha rng (sender, new_receiver, 5)).1.1
          (sha_exec sha rng (sender, new_receiver, 5)).1.2).0.1
        refl)

abbrev instances : Choice Sender Receiver ℕ
instances = record {
  parties = (sender, new_receiver) ∷ (sender, new_receiver) ∷ (sender, new_receiver) ∷ [];
  chosen = 1;
  res = false;
  world = 0;
}

cut_and_choose_sha_honest_example :
    ((cut_and_choose_sha sha rng none instances).0 ≡ ok tt)
    × ((cut_and_choose_sha sha rng none instances).1.res ≡ true)
cut_and_choose_sha_honest_example = cut_and_choose_sha_honest sha rng instances

cut_and_choose-Checked_example :
    (parties : List (Sender × Receiver)) × (cheat_if
        (λ s. ok (cheat s))
        none
        (run_all
          (sha_commitment sha rng)
          (λ r. r.open_verified)
          instances.parties
          instances.world).1
      ≡ ok parties)
    × Checked
        (sha_commitment sha rng)
        (λ r. r.open_verified)
        1
        0
        parties
        (cut_and_choose
          (sha_commitment sha rng)
          (λ r. r.open_verified)
          (λ s. ok (cheat s))
          none
          instances).1.parties
cut_and_choose-Checked_example =
    cut_and_choose-Checked (sha_commitment sha rng) (λ r. r.open_verified) (λ s. ok (cheat s)) none
      instances (cut_and_choose_sha_honest sha rng instances).0
      (cut_and_choose_sha_honest sha rng instances).1

-- A digest that sees the length alone.
abbrev length_digest : List ℕ → List ℕ
length_digest m = replicate 32 (length m % 256)

length_digest-IsByte : (m : List ℕ) → All IsByte (length_digest m)
length_digest-IsByte m = replicate-IsByte 32 (length m % 256) (mod-lt (length m) (omega arith))

abbrev weak_sha : Sha256
weak_sha = record {
  digest = length_digest;
  length-digest = λ m. length-replicate 32 (length m % 256);
  digest-IsByte = length_digest-IsByte;
}

cut_and_choose_sha_cheat_example :
    (y : Sender × Receiver) × (get_elem?
        (run_all
          (sha_commitment weak_sha rng)
          (λ r. r.open_verified)
          instances.parties
          instances.world).1
        0
      ≡ some y)
    × Collides weak_sha rng sender.m y.0.seed
unfolding cut_and_choose run_all sha_commitment sha_exec cheat_if open_all sha_open list_eq cheat
cut_and_choose_sha_cheat_example =
    cut_and_choose_sha_cheat weak_sha rng instances 0 1 (2 ∷ []) (λ e. ground (arith, e)) refl refl
      refl refl
