-- ===== src/SellInformation/Payment.antt =====
-- sell_information.cpp: the methods of both parties that talk to the bitcoin service. Logging is left
-- out. What a thread runs is here the method that it is started on, with its own connection.
use selling_information.Base.{ℕ, ◌*◌, ◌%◌, Bool, List, if◌then◌else◌, protocol}
use selling_information.Base.Exec.{Exec, lift, zoom, modify, gets, return, require, ◌>>=◌, ◌>>◌}
use selling_information.Base.Int.{ℤ, pos_part}
use selling_information.Aes.{Cipher}
use selling_information.BitUtils.{bits_to_integer}
use selling_information.Common.{integer2string}
use selling_information.Crypto.{NumberTheory, Encoding, Divisors, Sha256}
use selling_information.Curve.{Curve}
use selling_information.SharedSignature.Verification.{encode_signature}
use selling_information.TimedCommitment.Receiving.{force_open_smart}
use selling_information.SellInformation.Parties.{Seller, Buyer, Payments}
use selling_information.SellInformation.Buyer.{factorise}

module _ {World : Type 0} (curve : Curve) (encoding : Encoding) (payments : Payments World) where
  -- The world of a call, beside a party.
  abbrev pub with_world : {Party A : Type 0} → Exec World A → Exec (Party × World) A
  with_world = zoom (λ st. st.1) (λ w st. (st.0, w))

  unfoldable pub accept_t1 : List ℕ → Exec (Seller curve.Point × World) (Unit {0})
  accept_t1 t1 = do
    modify (λ st. (record (st.0) { t1 = t1 }, st.1))
    s ← gets (λ st. st.0)
    let q = s.single_seller.shared_signature_s.q
    verified ← with_world (
        payments.verify_transaction t1 (integer2string encoding (curve.x_of q))
          (integer2string encoding (curve.y_of q)) s.price)
    require verified (protocol "verify T1 failed!")
    arrived ← with_world (payments.wait_for_transaction t1 1)
    require arrived (protocol "wait for t1 failed!")

  -- The rest of accept_payment, for a seller who does not cheat.
  unfoldable pub broadcast_t2 : Exec (Seller curve.Point × World) (Unit {0})
  broadcast_t2 = do
    s ← gets (λ st. st.0)
    sent ← with_world (payments.broadcast_transaction s.single_seller.t2)
    require sent (protocol "accept payment failed!")

  unfoldable pub accept_payment : Exec (Seller curve.Point × World) (Unit {0})
  accept_payment = do s ← gets (λ st. st.0); if s.cheat then return tt else broadcast_t2

  unfoldable pub make_payment : Exec (Buyer curve.Point × World) (Unit {0})
  make_payment = do
    b ← gets (λ st. st.0)
    sent ← with_world (payments.broadcast_transaction b.single_buyer.t1)
    require sent (protocol "make payment failed")

  -- Whether solve_time_lock finishes: where the money is not redeemed, it sleeps for ever. It changes
  -- nothing of the buyer. bits_to_integer gives no negative number.
  unfoldable pub solve_time_lock : NumberTheory → Buyer curve.Point → Exec World Bool
  solve_time_lock nt b = do
    ds_bits ← lift (force_open_smart nt b.single_buyer.timed_commitment_receiver)
    payments.connect
    ds ← lift (bits_to_integer encoding ds_bits)
    let shared = b.single_buyer.shared_signature_b
    payments.redeem_transaction b.single_buyer.t1
        (integer2string encoding (pos_part ds * shared.db % curve.order))
        (integer2string encoding (curve.x_of shared.q))
        (integer2string encoding (curve.y_of shared.q))

  module _ (divisors : Divisors) (gcd_negative : ℕ → ℕ → ℤ) (cipher : Cipher) (sha : Sha256) where
    -- get_signature after the call that fetches the signature.
    unfoldable pub use_signature : List ℕ × List ℕ → Exec (Buyer curve.Point × World) (Unit {0})
    use_signature found = do
      modify (λ st. (
        record (st.0) {
          signature = encode_signature encoding (encoding.decode found.0) (encoding.decode found.1);
        },
        st.1,
      ))
      zoom (λ st. st.0) (λ b st. (b, st.1)) (factorise divisors gcd_negative cipher encoding sha)

    -- get_signature with a connection.
    unfoldable pub fetch_signature : List ℕ → Exec (Buyer curve.Point × World) (Unit {0})
    fetch_signature address = do
      arrived ← with_world (payments.wait_for_transaction_by_output address 1)
      require arrived (protocol "wait for transaction by output failed")
      found ← with_world (payments.get_signature address)
      use_signature found

    unfoldable pub get_signature : Exec (Buyer curve.Point × World) (Unit {0})
    get_signature = do
      with_world payments.connect
      b ← gets (λ st. st.0)
      fetch_signature b.single_buyer.seller_address
