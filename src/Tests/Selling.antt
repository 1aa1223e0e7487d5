-- ===== src/Tests/Selling.antt =====
-- The theorems on signature_key.cpp, with the group of three elements and small numbers.
use selling_information.Base.{
  ℕ, ◌≡◌, ◌≢◌, ◌⊎◌, refl, List, [], ◌∷◌, map, replicate, All, ok, err, protocol, list_eq,
}
use selling_information.Base.Exec.{return}
use selling_information.Common.{l}
use selling_information.ShaCommitment.{compute_sha, sha_exec, sha_open}
use selling_information.ShaCommitment as Sha
use selling_information.SignatureKey.Keys.{starts, check_keys, gen_keys}
use selling_information.SignatureKey.Parties.{
  BitcoinClient, SingleSeller, SingleBuyer, new_single_buyer, verify_keys,
  gen_keys_and_setup_commits,
}
use selling_information.SignatureKey.Running.{
  each_pair, sell_open, check_and_store, open_keys, open_timed,
}
use selling_information.SignatureKey.Checking.{HasDigestSize, verify_keys_lem, verify_keys_empty}
use selling_information.SignatureKey.Committing.{each_pair-verify_keys}
use selling_information.SignatureKey.Verdict.{sell_open-verify_keys}
use selling_information.Base.{xor}
use selling_information.Common.{concatenate, to_bytes}
use selling_information.ShaCommitment.{receive}
use selling_information.SharedSignature.Running.{opening}
use selling_information.SharedSignature.Verification.{verify, hash_m_to_int, accepted, recovered}
use selling_information.TimedCommitment.Protocol.{open_commitment}
use selling_information.TimedCommitment.Receiving.{receiver_open, check_and_decode, decode}
use selling_information.TimedCommitment.Commiting.{commiter_open}
use selling_information.TimedCommitment.Parties.{unmask, mask, powers}
use selling_information.TimedCommitment.Numbers.{get_g, mult_loop, exp, exp_loop}
use selling_information.Tests.Reference.{
  number_theory, encoding, sha, rng, toy_digest, encode, encoded_size,
}
use selling_information.Tests.Signing.{small_curve, signer, holder}
use selling_information.Tests.Timed as Timed

abbrev signature : List ℕ
signature = 3 ∷ 1 ∷ 4 ∷ []

-- A receiver that was shown m.
abbrev shown : List ℕ → Sha.Receiver
shown m = record Sha.new_receiver { m = m }

-- A buyer who was shown that message for each key, and the signature.
abbrev buyer : List ℕ → SingleBuyer ℕ
buyer m = record (new_single_buyer holder) {
  keys_commits = replicate l (shown m);
  signature_commit = shown signature;
}

sizes : All (λ (r : Sha.Receiver). HasDigestSize r.m) (replicate l (shown (replicate 32 7)))
sizes = (refl, (refl, (refl, (refl, (refl, (refl, (refl, (refl, (refl, (refl, tt))))))))))

verify_keys_lem_example :
    let messages = map (λ (r : Sha.Receiver). r.m) (replicate l (shown (replicate 32 7))) in
    let keys = gen_keys encoding sha signature in
    ((messages ≡ keys)
      × (verify_keys (small_curve 1) encoding sha (buyer (replicate 32 7)) ≡ ok tt))
    ⊎ ((messages ≢ keys)
        × (verify_keys (small_curve 1) encoding sha (buyer (replicate 32 7))
            ≡ err (protocol "Invalid key")))
unfolding new_single_buyer
verify_keys_lem_example =
    verify_keys_lem (small_curve 1) encoding sha (buyer (replicate 32 7)) refl sizes

verify_keys_empty_example : verify_keys (small_curve 1) encoding sha (buyer []) ≡ ok tt
unfolding new_single_buyer
verify_keys_empty_example =
    verify_keys_empty (small_curve 1) encoding sha (buyer [])
      (refl, (refl, (refl, (refl, (refl, (refl, (refl, (refl, (refl, (refl, tt))))))))))

abbrev pub seller : SingleSeller ℕ
seller = record {
  address = [];
  t1_output_script = [];
  t2_hash = [];
  t2 = [];
  keys = [];
  shared_signature_s = signer;
  timed_commitment_commiter = Timed.holder;
  keys_commits = replicate l Sha.new_sender;
  signature_commit = Sha.new_sender;
}

each_pair-verify_keys_example :
    let later : ℕ = 9 in
    let set = gen_keys_and_setup_commits (small_curve 1) encoding sha seller in
    let made = each_pair (sha_exec sha rng) (set.keys_commits, (buyer []).keys_commits, 3) in
    let signed = sha_exec sha rng (set.signature_commit, (buyer []).signature_commit, made.1.2) in
    let opened = each_pair (sha_open sha) (made.1.0, made.1.1, later) in
    let last = sha_open sha (signed.1.0, signed.1.1, opened.1.2) in
    (made.0 ≡ ok tt)
    × (signed.0 ≡ ok tt)
    × (opened.0 ≡ ok tt)
    × (last.0 ≡ ok tt)
    × (verify_keys
          (small_curve 1)
          encoding
          sha
          (record (buyer []) { keys_commits = opened.1.1; signature_commit = last.1.1 })
        ≡ ok tt)
each_pair-verify_keys_example =
    each_pair-verify_keys (small_curve 1) encoding sha rng seller (buyer []) 3 9 refl refl

silent : BitcoinClient ℕ
silent = record {
  fresh_address = return [];
  create_send = λ x y v. return [];
  create_send_transaction_to_address = λ t x y a. return [];
  get_output_script = λ t x y. return [];
  hash_for_signature = λ t x y s. return [];
  get_signed_transaction = λ t x y r s script. return [];
}

-- A seller and a buyer after a sale, with commitments that open.
abbrev made_keys : List (List ℕ)
made_keys = gen_keys encoding sha signature

abbrev sold_by : SingleSeller ℕ
sold_by = record seller {
  keys_commits = map (λ m. record Sha.new_sender { m = m }) made_keys;
  signature_commit = record Sha.new_sender { m = signature };
}

abbrev committed_to : List ℕ → Sha.Receiver
committed_to m = record Sha.new_receiver { commitment = compute_sha sha m (replicate 32 0) }

abbrev sold_to : SingleBuyer ℕ
sold_to = record (new_single_buyer holder) {
  timed_commitment_receiver = Timed.verifier;
  keys_commits = map committed_to made_keys;
  signature_commit = committed_to signature;
}

opens :
    (sell_open
      (small_curve 1)
      number_theory
      Timed.table
      rng
      encoding
      sha
      silent
      (sold_by, sold_to, 0)).0
    ≡ ok tt
unfolding sell_open opening verify hash_m_to_int new_single_buyer open_timed open_commitment
    receiver_open get_g check_and_decode commiter_open decode unmask mask powers open_keys each_pair
    gen_keys sha_open xor list_eq concatenate to_bytes compute_sha receive accepted recovered
    check_keys starts verify_keys check_and_store exp exp_loop mult_loop toy_digest encode
    encoded_size
opens = refl

sell_open-verify_keys_example :
    let after =
      (sell_open
        (small_curve 1)
        number_theory
        Timed.table
        rng
        encoding
        sha
        silent
        (sold_by, sold_to, 0)).1 in
    (verify_keys (small_curve 1) encoding sha after.1 ≡ ok tt)
    × (after.1.open_verified ≡ after.1.shared_signature_b.open_verified)
sell_open-verify_keys_example =
    sell_open-verify_keys (small_curve 1) number_theory Timed.table rng encoding sha silent
      (sold_by, sold_to, 0) opens
