-- ===== src/SignatureKey/Verdict.antt =====
-- SingleSellInformationProtocol::open: what the buyer's verdict rests on.
use selling_information.Base.{ℕ, ◌≡◌, refl, sym, List, Result, ok, err}
use selling_information.Base.Exec.{Exec, bind_result, lift, modify, ◌>>◌, >>=-ensures}
use selling_information.Crypto.{NumberTheory, Encoding, Sha256, Rng}
use selling_information.Curve.{Curve}
use selling_information.TimedCommitment.Protocol.{open_commitment}
use selling_information.ShaCommitment as Sha
use selling_information.SharedSignature.Running.{opening}
use selling_information.SignatureKey.Parties.{BitcoinClient, verify_keys}
use selling_information.SignatureKey.Running.{
  State, each_pair, on_keys, on_signature, on_shared, check_and_store, open_keys, open_timed,
  sell_open,
}

module _ {World : Type 0} (curve : Curve) (nt : NumberTheory) (primes : List ℕ) (rng : Rng World)
    (encoding : Encoding) (sha : Sha256) (client : BitcoinClient World) where
  abbrev Accepted : Result (Unit {0}) × State World curve → Type 0
  Accepted after =
      (verify_keys curve encoding sha after.1.1 ≡ ok tt)
      × (after.1.1.open_verified ≡ after.1.1.shared_signature_b.open_verified)

  abbrev store_verdict : Exec (State World curve) (Unit {0})
  store_verdict =
      modify (λ st.
        (st.0, record (st.1) { open_verified = st.1.shared_signature_b.open_verified }, st.2))

  stored :
      (r : Result (Unit {0})) (st : State World curve)
      → r ≡ verify_keys curve encoding sha st.1
      → (bind_result r st (λ u. store_verdict)).0 ≡ ok tt
      → Accepted (bind_result r st (λ u. store_verdict))
  unfolding verify_keys
  stored (ok u) st e h = (sym e, refl)
  stored (err x) st e h = cc

  last_steps :
      (st : State World curve)
      → (check_and_store curve nt primes rng encoding sha client st).0 ≡ ok tt
      → Accepted (check_and_store curve nt primes rng encoding sha client st)
  unfolding check_and_store
  last_steps st h = stored (verify_keys curve encoding sha st.1) st refl h

  keys_steps :
      (st : State World curve)
      → (open_keys curve nt primes rng encoding sha client st).0 ≡ ok tt
      → Accepted (open_keys curve nt primes rng encoding sha client st)
  unfolding open_keys
  keys_steps =
      >>=-ensures (on_keys curve (each_pair (Sha.sha_open sha)))
        (λ u.
          on_signature curve (Sha.sha_open sha)
          >> check_and_store curve nt primes rng encoding sha client)
        Accepted
        (λ u.
          >>=-ensures (on_signature curve (Sha.sha_open sha))
            (λ v. check_and_store curve nt primes rng encoding sha client) Accepted
            (λ v. last_steps))

  timed_steps :
      (st : State World curve)
      → (open_timed curve nt primes rng encoding sha client st).0 ≡ ok tt
      → Accepted (open_timed curve nt primes rng encoding sha client st)
  unfolding open_timed
  timed_steps st =
      >>=-ensures
        (lift
          (open_commitment nt primes st.0.timed_commitment_commiter st.1.timed_commitment_receiver))
        (λ m. open_keys curve nt primes rng encoding sha client) Accepted (λ m. keys_steps) st

  -- If open throws nothing, then verifyKeys accepts the keys and the signature that the buyer holds
  -- after it, and the buyer's open_verified is the verdict of the shared signature.
  pub sell_open-verify_keys :
      (st : State World curve)
      → (sell_open curve nt primes rng encoding sha client st).0 ≡ ok tt
      → let after = (sell_open curve nt primes rng encoding sha client st).1 in
        (verify_keys curve encoding sha after.1 ≡ ok tt)
        × (after.1.open_verified ≡ after.1.shared_signature_b.open_verified)
  unfolding sell_open
  sell_open-verify_keys st h =
      >>=-ensures (on_shared curve (opening curve nt rng encoding))
        (λ u. open_timed curve nt primes rng encoding sha client) Accepted (λ u. timed_steps) st h
