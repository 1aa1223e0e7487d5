-- ===== src/SellInformation/Redeeming.antt =====
-- sell_information.cpp: solve_time_lock spends the money of the shared key with that key.
use selling_information.Base.{ℕ, ◌-◌, ◌*◌, ◌%◌, ◌^◌, ◌≤◌, ◌≡◌, refl, sym, ap, ◌∙◌, Bool, List, ok}
use selling_information.Base.Exec.{◌>>◌}
use selling_information.Base.Int.{pos}
use selling_information.BitUtils.{integer_to_bits, bits_to_integer}
use selling_information.BitUtils.RoundTrip.{bits_to_integer-integer_to_bits}
use selling_information.Common.{integer2string}
use selling_information.Crypto.{NumberTheory, Encoding}
use selling_information.Curve.{Curve}
use selling_information.SharedSignature.Group.{multiply-mod}
use selling_information.TimedCommitment.Sealing.{IsSealed}
use selling_information.TimedCommitment.Opening.{force_open_smart_lem}
use selling_information.SellInformation.Parties.{Buyer, Payments}
use selling_information.SellInformation.Payment.{solve_time_lock}

bits_to_integer-ok :
    (encoding : Encoding) (n : ℕ) (bits : List Bool)
    → integer_to_bits encoding (pos n) ≡ ok bits
    → bits_to_integer encoding bits ≡ ok (pos n)
bits_to_integer-ok encoding n bits h =
    let made = bits_to_integer-integer_to_bits encoding n in
    ap (bits_to_integer encoding) (same (sym h ∙ made.1)) ∙ made.2
  where
    same : {x y : List Bool} → ok x ≡ ok y → x ≡ y
    same e = cc

module _ {World : Type 0} (curve : Curve) (nt : NumberTheory) (encoding : Encoding)
    (payments : Payments World) where
  -- If the buyer's timed commitment is sealed on the bits of ds, with no more bits than half of its
  -- squarings, and its key is ds * db times the generator: solve_time_lock throws nothing of its
  -- own, it connects and redeems T1 with a number d for the private key and the coordinates of
  -- the key, and d times the generator is the key.
  pub solve_time_lock_lem :
      (b : Buyer curve.Point) (ds : ℕ) (bits : List Bool) (world : World)
      → let shared = b.single_buyer.shared_signature_b in
        let commitment = b.single_buyer.timed_commitment_receiver.commitment in
        integer_to_bits encoding (pos ds) ≡ ok bits
        → IsSealed nt bits commitment
        → 1 ≤ commitment.k
        → commitment.l ≤ 2 ^ (commitment.k - 1)
        → shared.q ≡ curve.multiply (ds * shared.db) curve.generator
        → let d = ds * shared.db % curve.order in
          (solve_time_lock curve encoding payments nt b world
            ≡ (payments.connect
                  >> payments.redeem_transaction b.single_buyer.t1
                      (integer2string encoding d)
                      (integer2string encoding (curve.x_of shared.q))
                      (integer2string encoding (curve.y_of shared.q)))
                world)
          × (curve.multiply d curve.generator ≡ shared.q)
  unfolding solve_time_lock
  solve_time_lock_lem b ds bits world encoded sealed large short key = (
    rw
        (
          force_open_smart_lem nt bits b.single_buyer.timed_commitment_receiver.commitment sealed
              b.single_buyer.timed_commitment_receiver refl large short,
          bits_to_integer-ok encoding ds bits encoded,
        )
        refl,
    multiply-mod curve (ds * b.single_buyer.shared_signature_b.db) ∙ sym key,
  )
