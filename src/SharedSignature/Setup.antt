-- ===== src/SharedSignature/Setup.antt =====
-- SharedSignature::init: both parties get one key, whose secret is the product of their halves.
use selling_information.Base.{ℕ, ◌-◌, ◌*◌, ◌≤◌, ◌<◌, ◌≡◌, refl, true, arith, ok}
use selling_information.Crypto.{NumberTheory, Encoding, Rng}
use selling_information.Curve.{Curve}
use selling_information.SharedSignature.Parties.{
  S, B, start_init_s, start_init_b, finish_init_s, finish_init_b,
}
use selling_information.SharedSignature.Running.{init}
use selling_information.SharedSignature.Group.{multiply_comm}

-- Both hold the key whose secret is ds * db, and each secret is in the range that is drawn from.
pub record IsShared (curve : Curve) (s : S curve.Point) (b : B curve.Point) : Type 0 where
  pub ds_pos : 1 ≤ s.ds
  pub ds_lt : s.ds < curve.order
  pub db_pos : 1 ≤ b.db
  pub db_lt : b.db < curve.order
  pub key_s : s.q ≡ curve.multiply (s.ds * b.db) curve.generator
  pub key_b : b.q ≡ s.q

module _ {World : Type 0} (curve : Curve) (nt : NumberTheory) (rng : Rng World)
    (encoding : Encoding) where
  open curve use {generator, order, multiply}

  -- From any state, init throws nothing, so that "Mismatching Q" is never thrown. After it both
  -- parties have the point ds * db times the generator as their key, for secrets ds of S and db of B
  -- from 1 to n - 1 (IsShared); the messages and the Paillier keys are unchanged.
  pub init-IsShared :
      (s : S curve.Point) (b : B curve.Point) (world : World)
      → let after = init curve nt rng encoding (s, b, world) in
        (after.0 ≡ ok tt)
        × IsShared curve after.1.0 after.1.1
        × (after.1.0.data_bytes ≡ s.data_bytes)
        × (after.1.1.data_bytes ≡ b.data_bytes)
        × (after.1.0.paillier_key ≡ s.paillier_key)
        × (after.1.1.paillier_key ≡ b.paillier_key)
  unfolding init start_init_s start_init_b finish_init_s finish_init_b
  init-IsShared s b world = rw agreed (refl, shared, refl, refl, refl, refl)
    where
      drawn_s : ℕ × World
      drawn_s = rng.randomize 1 (order - 1) world

      drawn_b : ℕ × World
      drawn_b = rng.randomize 1 (order - 1) drawn_s.1

      agreed :
          curve.same
            (multiply drawn_s.0 (multiply drawn_b.0 generator))
            (multiply drawn_b.0 (multiply drawn_s.0 generator))
          ≡ true
      agreed = (curve.same_iff _ _).1 (multiply_comm curve drawn_s.0 drawn_b.0 generator)

      final_s : S curve.Point
      final_s =
          finish_init_s curve (multiply drawn_b.0 generator) (start_init_s curve rng s world).0

      shared :
          IsShared curve final_s
            (finish_init_b curve final_s.q_s (start_init_b curve rng b drawn_s.1).0)
      shared = record {
        ds_pos = (rng.randomize-le 1 (order - 1) world (omega (arith, curve.order_lt))).0;
        ds_lt = omega (
          arith,
          curve.order_lt,
          (rng.randomize-le 1 (order - 1) world (omega (arith, curve.order_lt))).1,
        );
        db_pos = (rng.randomize-le 1 (order - 1) drawn_s.1 (omega (arith, curve.order_lt))).0;
        db_lt = omega (
          arith,
          curve.order_lt,
          (rng.randomize-le 1 (order - 1) drawn_s.1 (omega (arith, curve.order_lt))).1,
        );
        key_s = curve.multiply-multiply drawn_s.0 drawn_b.0 generator;
        key_b = multiply_comm curve drawn_b.0 drawn_s.0 generator;
      }
