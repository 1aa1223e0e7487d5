-- ===== src/SharedSignature/Draws.antt =====
-- SharedSignature::exec: what its parties draw, and the conditions of its theorems.
use selling_information.Base.{ℕ, ◌+◌, ◌-◌, ◌*◌, ◌%◌, ◌≤◌, ◌<◌, ◌≡◌, ◌≢◌, take, length}
use selling_information.Crypto.{Encoding, Rng}
use selling_information.Curve.{Curve}
use selling_information.Paillier.{public_paillier}
use selling_information.Paillier.Homomorphism.{IsKey}
use selling_information.Paillier.RoundTrip.{DrawsUnit}
use selling_information.SharedSignature.Parties.{S, B}
use selling_information.SharedSignature.Setup.{IsShared}

module _ {World : Type 0} (curve : Curve) (rng : Rng World) where
  -- The draws of exec: ks, the factor of cs, kb, and, in cont_sig, those of c1, u and enc(u*n).
  abbrev pub drawn_ks : World → ℕ × World
  drawn_ks world = rng.randomize 1 (curve.order - 1) world

  abbrev pub drawn_kb : ℕ → World → ℕ × World
  drawn_kb n world = rng.randomize 1 (curve.order - 1) (rng.randomize 1 n (drawn_ks world).1).1

  abbrev pub last_world : ℕ → World → World
  last_world n world =
      (rng.randomize 0 (curve.order * curve.order - 1) (rng.randomize 1 n (drawn_kb n world).1).1).1

  -- The x coordinate of the point K of cont_sig.
  abbrev pub nonce_x : ℕ → World → ℕ
  nonce_x n world =
      curve.x_of (curve.multiply ((drawn_kb n world).0 * (drawn_ks world).0) curve.generator)

  -- The conditions on the parties and on the draws.
  pub record IsPrepared (encoding : Encoding) (s : S curve.Point) (b : B curve.Point) (p q : ℕ)
      (world : World) : Type 0 where
    pub shared : IsShared curve s b
    pub key : IsKey s.paillier_key p q
    pub public : b.paillier_key ≡ public_paillier s.paillier_key.n s.paillier_key.g
    pub size : 2 * curve.order * curve.order * curve.order * curve.order < s.paillier_key.n
    pub agreed : b.data_bytes ≡ s.data_bytes
    pub hashed : length s.data_bytes ≡ 32
    pub unit_cs : DrawsUnit rng s.paillier_key (drawn_ks world).1
    pub unit_c1 : DrawsUnit rng s.paillier_key (drawn_kb s.paillier_key.n world).1
    pub unit_last : DrawsUnit rng s.paillier_key (last_world s.paillier_key.n world)
    pub r_pos : 1 ≤ nonce_x s.paillier_key.n world % curve.order
    pub s_pos :
        (encoding.decode (take curve.order_bytes s.data_bytes)
            + nonce_x s.paillier_key.n world % curve.order * (s.ds * b.db))
          % curve.order
        ≢ 0
