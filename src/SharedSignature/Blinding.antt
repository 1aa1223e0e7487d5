-- ===== src/SharedSignature/Blinding.antt =====
-- shared_sig.cpp: what the ciphertexts of start_sig and cont_sig hold.
use selling_information.Base.{
  ℕ, ◌+◌, ◌-◌, ◌*◌, ◌%◌, ◌^◌, ◌≤◌, ◌<◌, ◌≡◌, refl, sym, ap, subst, ◌∙◌, arith, List, take, length,
  ==_iff, ok,
}
use selling_information.Base.Int.{pos}
use selling_information.Crypto.{NumberTheory, Encoding, Rng}
use selling_information.Curve.{Curve}
use selling_information.Paillier.{Paillier, public_paillier, enc, get_n2}
use selling_information.Paillier.Homomorphism.{IsKey, Encrypts, Encrypts-mul, Encrypts-pow}
use selling_information.Paillier.Decryption.{not_empty, squared_large, enc-Encrypts}
use selling_information.Paillier.RoundTrip.{DrawsUnit}
use selling_information.SharedSignature.Verification.{hash_m_to_int}
use selling_information.SharedSignature.Parties.{B, encrypt, blind}
use selling_information.SharedSignature.Group.{positive}
use native.Mathlib.Nat.{mul-pos, mul-le-mul, mul-le-mul_left, mul-le-mul_right, mod-lt}

-- What cont_sig encrypts is below the modulus that B asks of the Paillier key.
pub plain_lt :
    (n x d t u : ℕ)
    → 1 < n
    → x < n
    → d < n
    → t < n
    → u < n * n
    → x + d * t + u * n < 2 * n * n * n * n
plain_lt n x d t u hn hx hd ht hu = omega (
  arith,
  mul-le-mul {n₁ = d} {m₁ = t} {n₂ = n} {m₂ = n} (omega arith) (omega arith),
  mul-le-mul_right {m = u + 1} {n = n * n} n (omega arith),
  mul-le-mul_left {m = 1} {n = n} (n * n) (omega arith),
  mul-le-mul_left {m = 1} {n = n} (n * n * n) (omega arith),
)

module _ {World : Type 0} (nt : NumberTheory) (rng : Rng World) (k : Paillier) (p q : ℕ)
    (key : IsKey k p q) where
  -- The public key encrypts as the whole one.
  enc-public :
      (m : ℕ) (world : World)
      → enc nt rng (public_paillier k.n k.g) (pos m) world ≡ enc nt rng k (pos m) world
  unfolding enc public_paillier
  enc-public m world = rw key.squared refl

  module _ (curve : Curve) (encoding : Encoding) where
    open curve use {order}

    encrypt_lem :
        (b : B curve.Point) (m : ℕ) (world : World)
        → b.paillier_key ≡ public_paillier k.n k.g
        → m < k.n
        → DrawsUnit rng k world
        → (c : ℕ) × (encrypt curve nt rng encoding m (b, world)
            ≡ (ok c, (b, (rng.randomize 1 k.n world).1)))
          × Encrypts k m c
    unfolding encrypt
    encrypt_lem b m world public lt unit =
        let (c, made, holds) = enc-Encrypts k p q key nt rng m world lt unit in
        (
          c,
          rw
              (
                ap (λ owner. enc nt rng owner (pos m) world) public ∙ enc-public m world ∙ made,
                encrypt,
              )
              refl,
          holds,
        )

    get_n2-public : get_n2 (public_paillier k.n k.g) ≡ ok k.n2
    unfolding get_n2 public_paillier
    get_n2-public = rw (not_empty k p q key) (ap ok (sym key.squared))

    module _ (size : 2 * order * order * order * order < k.n) where
      pub order_le : order ≤ k.n
      order_le = omega (
        arith,
        size,
        plain_lt order (order - 1) 0 0 0 curve.order_lt (omega (arith, curve.order_lt))
            (positive curve) (positive curve) (mul-pos (positive curve) (positive curve)),
      )

      module _ (b : B curve.Point) (m : List ℕ) (cs ds : ℕ) (world : World) where
        abbrev pub inverse : ℕ
        inverse = nt.inverse_mod b.kb order

        abbrev pub hi : ℕ
        hi = encoding.decode (take curve.order_bytes m)

        abbrev pub share : ℕ
        share = nt.a_times_b_mod_c inverse hi order

        abbrev pub factor : ℕ
        factor = nt.a_times_b_mod_c (nt.a_times_b_mod_c inverse b.r order) b.db order

        abbrev pub world1 : World
        world1 = (rng.randomize 1 k.n world).1

        abbrev pub noise : ℕ
        noise = (rng.randomize 0 (order * order - 1) world1).0

        abbrev pub world2 : World
        world2 = (rng.randomize 0 (order * order - 1) world1).1

        abbrev pub plain : ℕ
        plain = share + ds * factor + noise * order

        below : (x y : ℕ) → nt.a_times_b_mod_c x y order < order
        below x y =
            subst (λ i. i < order) (sym (nt.times_lem x y order curve.order_lt))
              (mod-lt (x * y) (positive curve))

        noise_lt : noise < order * order
        noise_lt = omega (
          arith,
          (rng.randomize-le 0 (order * order - 1) world1 (omega arith)).1,
          mul-pos (positive curve) (positive curve),
        )

        hash_lem : length m ≡ 32 → hash_m_to_int encoding m curve.order_bytes ≡ ok hi
        unfolding hash_m_to_int
        hash_lem h = rw ((==_iff (length m) 32).1 h) refl

        plain_small : ds < order → plain < k.n
        plain_small lt = omega (
          arith,
          size,
          plain_lt order share ds factor noise curve.order_lt (below inverse hi) lt
              (below (nt.a_times_b_mod_c inverse b.r order) b.db) noise_lt,
        )

        noise_small : ds < order → noise * order < k.n
        noise_small lt = omega (arith, plain_small lt)

        abbrev combined : ℕ → ℕ → ℕ
        combined c1 c3 =
            nt.a_times_b_mod_c (nt.a_times_b_mod_c c1 (nt.a_exp_b_mod_c cs factor k.n2) k.n2) c3
              k.n2

        combined-Encrypts :
            (c1 c3 : ℕ)
            → Encrypts k share c1
            → Encrypts k ds cs
            → Encrypts k (noise * order) c3
            → Encrypts k plain (combined c1 c3)
        combined-Encrypts c1 c3 first second third = subst (Encrypts k plain) (sym computed) (
            Encrypts-mul k lt (share + ds * factor) (noise * order)
              (c1 * (cs ^ factor % k.n2) % k.n2) c3
              (Encrypts-mul k lt share (ds * factor) c1 (cs ^ factor % k.n2) first
                (Encrypts-pow k lt ds factor cs second))
              third)
          where
            lt : 1 < k.n2
            lt = squared_large k p q key

            computed : combined c1 c3 ≡ c1 * (cs ^ factor % k.n2) % k.n2 * c3 % k.n2
            computed =
                nt.times_lem (nt.a_times_b_mod_c c1 (nt.a_exp_b_mod_c cs factor k.n2) k.n2) c3 k.n2
                  lt
                ∙ ap (λ x. x * c3 % k.n2)
                    (nt.times_lem c1 (nt.a_exp_b_mod_c cs factor k.n2) k.n2 lt
                      ∙ ap (λ x. c1 * x % k.n2) (nt.exp_lem cs factor k.n2 lt))

        -- The rest of cont_sig ends with a ciphertext of the blinded share.
        pub blind_lem :
            b.paillier_key ≡ public_paillier k.n k.g
            → length m ≡ 32
            → ds < order
            → Encrypts k ds cs
            → DrawsUnit rng k world
            → DrawsUnit rng k world2
            → (c : ℕ) × (blind curve nt rng encoding cs m b (b, world)
                ≡ (ok tt, (record b { cb = c }, (rng.randomize 1 k.n world2).1)))
              × Encrypts k plain c
              × (plain < k.n)
        unfolding blind
        blind_lem public h lt_ds holds unit unit2 =
            let (c1, ran1, holds1) =
              encrypt_lem b share world public (omega (arith, below inverse hi, order_le)) unit in
            let (c3, ran3, holds3) =
              encrypt_lem b (noise * order) world2 public (noise_small lt_ds) unit2 in
            (
              combined c1 c3,
              rw (hash_lem h, ran1, ap get_n2 public ∙ get_n2-public, ran3) refl,
              combined-Encrypts c1 c3 holds1 holds holds3,
              plain_small lt_ds,
            )
