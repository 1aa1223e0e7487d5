-- ===== src/SignatureKey/Running.antt =====
-- The class SingleSellInformationProtocol of signature_key.cpp. The result of cryptopp_test, which
-- the code drops, is left out. `K` and `L` are those of `Common`.
use selling_information.Base.{ℕ, Bool, List, [], ◌∷◌, ok, err}
use selling_information.Base.Int.{pos}
use selling_information.Base.Exec.{Exec, lift, zoom, modify, gets, return, ◌>>=◌, ◌>>◌}
use selling_information.Common.{k}
use selling_information.Crypto.{NumberTheory, Encoding, Sha256, Rng}
use selling_information.Curve.{Curve}
use selling_information.Protocol.{Protocol}
use selling_information.BitUtils.{integer_to_bits}
use selling_information.SharedSignature.Parties as Shared
use selling_information.SharedSignature.Running as SharedRunning
use selling_information.TimedCommitment.Protocol as TimedRunning
use selling_information.ShaCommitment as Sha
use selling_information.SignatureKey.Parties.{
  SingleSeller, SingleBuyer, BitcoinClient, verify_t2_signature, create_t1_and_t2,
  gen_keys_and_setup_commits, verify_keys,
}

-- A step for each pair of commitments in turn, up to an exception.
unfoldable pub each_pair :
    {World : Type 0}
    → Exec (Sha.Sender × Sha.Receiver × World) (Unit {0})
    → Exec (List Sha.Sender × List Sha.Receiver × World) (Unit {0})
each_pair step ([], rs, w) = (ok tt, ([], rs, w))
each_pair step (s ∷ ss, [], w) = (ok tt, (s ∷ ss, [], w))
each_pair step (s ∷ ss, r ∷ rs, w) =
    let here = step (s, r, w) in
    let later = each_pair step (ss, rs, here.1.2) in
    elim here.0 [
      | err e ↦ (err e, (here.1.0 ∷ ss, here.1.1 ∷ rs, here.1.2))
      | ok u ↦ (later.0, (here.1.0 ∷ later.1.0, here.1.1 ∷ later.1.1, later.1.2))
    ]

abbrev pub State : Type 0 → Curve → Type 0
State World curve = SingleSeller curve.Point × SingleBuyer curve.Point × World

module _ {World : Type 0} (curve : Curve) where
  -- The parts of both parties on which a protocol of theirs runs.
  abbrev pub on_shared :
      Exec (Shared.S curve.Point × Shared.B curve.Point × World) (Unit {0})
      → Exec (State World curve) (Unit {0})
  on_shared =
      zoom (λ (st : State World curve). (st.0.shared_signature_s, st.1.shared_signature_b, st.2))
        (λ part st. (
          record (st.0) { shared_signature_s = part.0 },
          record (st.1) { shared_signature_b = part.1 },
          part.2,
        ))

  abbrev pub on_keys :
      Exec (List Sha.Sender × List Sha.Receiver × World) (Unit {0})
      → Exec (State World curve) (Unit {0})
  on_keys =
      zoom (λ (st : State World curve). (st.0.keys_commits, st.1.keys_commits, st.2))
        (λ part st. (
          record (st.0) { keys_commits = part.0 },
          record (st.1) { keys_commits = part.1 },
          part.2,
        ))

  abbrev pub on_signature :
      Exec (Sha.Sender × Sha.Receiver × World) (Unit {0}) → Exec (State World curve) (Unit {0})
  on_signature =
      zoom (λ (st : State World curve). (st.0.signature_commit, st.1.signature_commit, st.2))
        (λ part st. (
          record (st.0) { signature_commit = part.0 },
          record (st.1) { signature_commit = part.1 },
          part.2,
        ))

module _ {World : Type 0} (curve : Curve) (nt : NumberTheory) (primes : List ℕ) (rng : Rng World)
    (encoding : Encoding) (sha : Sha256) (client : BitcoinClient World) where
  -- timed_commitment::commit on the parties' halves, which are left as they were when it throws.
  unfoldable pub timed_commit : List Bool → Exec (State World curve) (Unit {0})
  timed_commit m (s, b, world) =
      elim (TimedRunning.commit nt primes rng encoding sha k m
        (s.timed_commitment_commiter, b.timed_commitment_receiver, world)) [
          | err e ↦ (err e, (s, b, world))
          | ok after ↦ (
            ok tt,
            (
              record s { timed_commitment_commiter = after.1 },
              record b { timed_commitment_receiver = after.2 },
              after.3,
            ),
          )
        ]

  unfoldable pub sell_exec : Exec (State World curve) (Unit {0})
  sell_exec = do
    on_shared curve (SharedRunning.init curve nt rng encoding)
    modify (λ st. (st.0, record (st.1) { seller_address = st.0.address }, st.2))
    zoom (λ st. (st.1, st.2)) (λ part st. (st.0, part.0, part.1))
        (create_t1_and_t2 curve encoding client)
    modify (λ st.
        (record (st.0) { t1_output_script = st.1.t1_output_script; t2 = st.1.t2 }, st.1, st.2))
    modify (λ st. (
      record (st.0) {
        shared_signature_s = Shared.set_data_s curve st.1.t2_hash st.0.shared_signature_s;
      },
      record (st.1) {
        shared_signature_b = Shared.set_data_b curve st.1.t2_hash st.1.shared_signature_b;
      },
      st.2,
    ))
    on_shared curve (SharedRunning.exec curve nt rng encoding)
    zoom (λ st. (st.0, st.2)) (λ part st. (part.0, st.1, part.1))
        (verify_t2_signature curve encoding client)
    ds ← gets (λ st. st.0.shared_signature_s.ds)
    m ← lift (integer_to_bits encoding (pos ds))
    timed_commit m
    modify (λ st. (gen_keys_and_setup_commits curve encoding sha st.0, st.1, st.2))
    on_keys curve (each_pair (Sha.sha_exec sha rng))
    on_signature curve (Sha.sha_exec sha rng)

  -- The last lines of open, from verifyKeys on, and those from the keys on.
  unfoldable pub check_and_store : Exec (State World curve) (Unit {0})
  check_and_store = do
    last ← gets (λ st. st)
    lift (verify_keys curve encoding sha last.1)
    modify (λ st.
        (st.0, record (st.1) { open_verified = st.1.shared_signature_b.open_verified }, st.2))

  unfoldable pub open_keys : Exec (State World curve) (Unit {0})
  open_keys = do
    on_keys curve (each_pair (Sha.sha_open sha))
    on_signature curve (Sha.sha_open sha)
    check_and_store

  unfoldable pub open_timed : Exec (State World curve) (Unit {0})
  open_timed = do
    parties ← gets (λ st. st)
    _ ← lift (
        TimedRunning.open_commitment nt primes parties.0.timed_commitment_commiter
          parties.1.timed_commitment_receiver)
    open_keys

  unfoldable pub sell_open : Exec (State World curve) (Unit {0})
  sell_open = do on_shared curve (SharedRunning.opening curve nt rng encoding); open_timed

  unfoldable pub sell_protocol : Protocol (SingleSeller curve.Point) (SingleBuyer curve.Point) World
  sell_protocol = record { init = return tt; exec = sell_exec; opening = sell_open }
