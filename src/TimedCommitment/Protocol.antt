-- ===== src/TimedCommitment/Protocol.antt =====
-- timed_commitment.cpp: commit and open_commitment, which run both parties.
use selling_information.Base.{ℕ, zero, suc, Bool, List, Result, ok}
use selling_information.Base.Errors.{◌>>=◌}
use selling_information.Crypto.{NumberTheory, Rng, Encoding, Sha256}
use selling_information.TimedCommitment.Parties.{Commitment, Commiter, Receiver}
use selling_information.TimedCommitment.Commiting.{commiter_commit, zk_2, zk_4, commiter_open}
use selling_information.TimedCommitment.Receiving.{
  accept_commitment, zk_1, zk_3, zk_5, receiver_open,
}

module _ {World : Type 0} (nt : NumberTheory) (primes : List ℕ) (rng : Rng World) (enc : Encoding)
    (sha : Sha256) where
  -- One round of the proof that W is as it should be.
  unfoldable pub zk_round : Commiter × Receiver × World → Result (Commiter × Receiver × World)
  zk_round (c, r, world) = do
    let first = zk_1 rng enc sha r world
    second ← zk_2 nt primes rng first.0 c first.2
    third ← zk_3 second.0 first.1
    y ← zk_4 nt enc sha third.0 second.1
    _ ← zk_5 nt y third.1
    ok (second.1, third.1, second.2)

  unfoldable pub zk_rounds : ℕ → Commiter × Receiver × World → Result (Commiter × Receiver × World)
  zk_rounds zero s = ok s
  zk_rounds (suc rounds) s = zk_round s >>= zk_rounds rounds

  unfoldable pub commit :
      ℕ
      → List Bool
      → Commiter × Receiver × World
      → Result (Commitment × Commiter × Receiver × World)
  commit k m (c, r, world) = do
    made ← commiter_commit nt primes rng k m c world
    accepted ← accept_commitment nt primes made.0 r
    after ← zk_rounds 10 (made.1, accepted, made.2)
    ok (made.0, after.0, after.1, after.2)

module _ (nt : NumberTheory) (primes : List ℕ) where
  unfoldable pub open_commitment : Commiter → Receiver → Result (List Bool)
  open_commitment c r = receiver_open nt primes (commiter_open nt c) r
