-- ===== src/SignatureKey/Parties.antt =====
-- signature_key.h: SingleSeller and SingleBuyer with their methods. A string is a list of bytes.
use selling_information.Base.{
  ℕ, Bool, false, not, List, [], ◌∷◌, map, replicate, length, ◌==◌, Result, ok, err, protocol,
}
use selling_information.Base.Exec.{Exec, zoom, modify, gets, throw, require, ◌>>=◌, ◌>>◌}
use selling_information.Common.{l, integer2string}
use selling_information.Crypto.{Encoding, Sha256}
use selling_information.Curve.{Curve}
use selling_information.SharedSignature.Parties as Shared
use selling_information.TimedCommitment.Parties as Timed
use selling_information.ShaCommitment as Sha
use selling_information.SignatureKey.Keys.{check_keys, gen_keys}

-- BitcoinUtilsClient: calls of a service, each of which may throw.
pub record BitcoinClient (World : Type 0) : Type 0 where
  pub fresh_address : Exec World (List ℕ)
  pub create_send : List ℕ → List ℕ → ℕ → Exec World (List ℕ)
  pub create_send_transaction_to_address : List ℕ → List ℕ → List ℕ → List ℕ → Exec World (List ℕ)
  pub get_output_script : List ℕ → List ℕ → List ℕ → Exec World (List ℕ)
  pub hash_for_signature : List ℕ → List ℕ → List ℕ → List ℕ → Exec World (List ℕ)
  pub get_signed_transaction :
      List ℕ → List ℕ → List ℕ → List ℕ → List ℕ → List ℕ → Exec World (List ℕ)

pub record SingleSeller (Point : Type 0) : Type 0 where
  pub address : List ℕ
  pub t1_output_script : List ℕ
  pub t2_hash : List ℕ
  pub t2 : List ℕ
  pub keys : List (List ℕ)
  pub shared_signature_s : Shared.S Point
  pub timed_commitment_commiter : Timed.Commiter
  pub keys_commits : List Sha.Sender
  pub signature_commit : Sha.Sender

pub record SingleBuyer (Point : Type 0) : Type 0 where
  pub seller_address : List ℕ
  pub t1 : List ℕ
  pub t1_output_script : List ℕ
  pub t2 : List ℕ
  pub t2_hash : List ℕ
  pub open_verified : Bool
  pub shared_signature_b : Shared.B Point
  pub timed_commitment_receiver : Timed.Receiver
  pub keys_commits : List Sha.Receiver
  pub signature_commit : Sha.Receiver

-- keys_commits[i].m.assign(keys[i].begin(), keys[i].end()) for every i.
unfoldable pub assign_all : List Sha.Sender → List (List ℕ) → List Sha.Sender
assign_all [] keys = []
assign_all (s ∷ senders) [] = s ∷ senders
assign_all (s ∷ senders) (key ∷ keys) = record s { m = key } ∷ assign_all senders keys

-- The constructors; what they leave unset is empty.
module _ {Point World : Type 0} where
  unfoldable pub new_single_seller :
      BitcoinClient World
      → (ℕ → World → ℕ × World)
      → Shared.S Point
      → World
      → Result (SingleSeller Point) × World
  new_single_seller client prime_and_generator shared_signature_s world =
      elim (Timed.new_commiter prime_and_generator world) [
        | err e ↦ (err e, world)
        | ok made ↦
            let fresh = client.fresh_address made.1 in
            elim fresh.0 [
              | err e ↦ (err e, fresh.1)
              | ok address ↦ (
                ok (record {
                  address = address;
                  t1_output_script = [];
                  t2_hash = [];
                  t2 = [];
                  keys = replicate l (replicate 32 0);
                  shared_signature_s = shared_signature_s;
                  timed_commitment_commiter = made.0;
                  keys_commits = replicate l Sha.new_sender;
                  signature_commit = Sha.new_sender;
                }),
                fresh.1,
              )
            ]
      ]

unfoldable pub new_single_buyer : {Point : Type 0} → Shared.B Point → SingleBuyer Point
new_single_buyer shared_signature_b = record {
  seller_address = [];
  t1 = [];
  t1_output_script = [];
  t2 = [];
  t2_hash = [];
  open_verified = false;
  shared_signature_b = shared_signature_b;
  timed_commitment_receiver = Timed.new_receiver;
  keys_commits = replicate l Sha.new_receiver;
  signature_commit = Sha.new_receiver;
}

unfoldable pub single_seller_cheat :
    {Point World : Type 0} → Exec (SingleSeller Point × World) (Unit {0})
single_seller_cheat = throw (protocol "Cheating not implemented!")

module _ {World : Type 0} (curve : Curve) (encoding : Encoding) (client : BitcoinClient World) where
  -- The world of a call, beside a party.
  abbrev with_world : {Party A : Type 0} → Exec World A → Exec (Party × World) A
  with_world = zoom (λ st. st.1) (λ w st. (st.0, w))

  unfoldable pub verify_t2_signature : Exec (SingleSeller curve.Point × World) (Unit {0})
  verify_t2_signature = do
    s ← gets (λ st. st.0)
    let shared = s.shared_signature_s
    res ← with_world (
        client.get_signed_transaction s.t2 (integer2string encoding (curve.x_of shared.q))
          (integer2string encoding (curve.y_of shared.q)) (integer2string encoding shared.r)
          (integer2string encoding shared.s) s.t1_output_script)
    require (not (length res == 0)) (protocol "verify T2 signature in bitcoinj failed")
    modify (λ st. (record (st.0) { t2 = res }, st.1))

  unfoldable pub create_t1_and_t2 : Exec (SingleBuyer curve.Point × World) (Unit {0})
  create_t1_and_t2 = do
    b ← gets (λ st. st.0)
    let x = integer2string encoding (curve.x_of b.shared_signature_b.q)
    let y = integer2string encoding (curve.y_of b.shared_signature_b.q)
    t1 ← with_world (client.create_send x y 20000)
    modify (λ st. (record (st.0) { t1 = t1 }, st.1))
    require (not (length t1 == 0)) (protocol "T1 is empty")
    t2 ← with_world (client.create_send_transaction_to_address t1 x y b.seller_address)
    modify (λ st. (record (st.0) { t2 = t2 }, st.1))
    script ← with_world (client.get_output_script t1 x y)
    modify (λ st. (record (st.0) { t1_output_script = script }, st.1))
    hash ← with_world (client.hash_for_signature t2 x y script)
    modify (λ st. (record (st.0) { t2_hash = hash }, st.1))

module _ (curve : Curve) (encoding : Encoding) (sha : Sha256) where
  unfoldable pub gen_keys_and_setup_commits : SingleSeller curve.Point → SingleSeller curve.Point
  gen_keys_and_setup_commits s =
      let signature = Shared.get_signature curve encoding s.shared_signature_s in
      let keys = gen_keys encoding sha signature in
      record s {
        keys = keys;
        keys_commits = assign_all s.keys_commits keys;
        signature_commit = record (s.signature_commit) { m = signature };
      }

  unfoldable pub verify_keys : SingleBuyer curve.Point → Result (Unit {0})
  verify_keys b =
      check_keys (map (λ (r : Sha.Receiver). r.m) b.keys_commits)
        (gen_keys encoding sha b.signature_commit.m)
