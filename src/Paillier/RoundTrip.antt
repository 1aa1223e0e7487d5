-- ===== src/Paillier/RoundTrip.antt =====
-- paillier.cpp as a whole: the constructor, Paillier::enc and Paillier::dec.
use selling_information.Base.{ℕ, ◌+◌, ◌-◌, ◌*◌, ◌%◌, ◌^◌, ◌≤◌, ◌<◌, ◌≡◌, refl, ap, ◌∙◌, arith, ok}
use selling_information.Base.Int.{pos}
use selling_information.Crypto.{NumberTheory, Rng}
use selling_information.Paillier.{Paillier, enc, dec, new_paillier}
use selling_information.Paillier.Homomorphism.{IsKey, Encrypts, Encrypts-mul, Encrypts-pow}
use selling_information.Paillier.Decryption.{squared_large, dec_lem, enc-Encrypts}
use native.Mathlib.Nat.{mod-eq_of_lt, pow-le-pow_right}

-- The factor that enc draws is a unit modulo n: its n-th power is 1 to the phi.
abbrev pub DrawsUnit : {World : Type 0} → Rng World → Paillier → World → Type 0
DrawsUnit rng k world = ((rng.randomize 1 k.n world).0 ^ k.n) ^ k.phi % k.n2 ≡ 1

module _ {World : Type 0} (nt : NumberTheory) (rng : Rng World) (k : Paillier) (p q : ℕ)
    (key : IsKey k p q) where
  -- With a whole key (IsKey) and a drawn factor that is a unit (DrawsUnit), enc of a message below
  -- n succeeds, and dec of its ciphertext returns the message.
  pub dec-enc :
      (m : ℕ) (world : World)
      → m < k.n
      → DrawsUnit rng k world
      → (c : ℕ) × (world' : World) × (enc nt rng k (pos m) world ≡ ok (c, world'))
        × (dec nt k (pos c) ≡ ok m)
  dec-enc m world lt unit = finish (enc-Encrypts k p q key nt rng m world lt unit)
    where
      finish :
          ((c : ℕ) × (enc nt rng k (pos m) world ≡ ok (c, (rng.randomize 1 k.n world).1))
            × Encrypts k m c)
          → (c : ℕ) × (world' : World) × (enc nt rng k (pos m) world ≡ ok (c, world'))
            × (dec nt k (pos c) ≡ ok m)
      finish (c, e, h) = (
        c,
        (rng.randomize 1 k.n world).1,
        e,
        dec_lem k p q key nt m c h ∙ ap ok (mod-eq_of_lt lt),
      )

  -- With a whole key (IsKey) and drawn factors that are units (DrawsUnit), enc of a and of b below
  -- n succeeds with ciphertexts c and d, and for every t dec of c * (d ^ t mod n * n) mod n * n
  -- returns a + b * t modulo n.
  pub dec-affine :
      (a b t : ℕ) (world world' : World)
      → a < k.n
      → b < k.n
      → DrawsUnit rng k world
      → DrawsUnit rng k world'
      → (c d : ℕ) × (after after' : World) × (enc nt rng k (pos a) world ≡ ok (c, after))
        × (enc nt rng k (pos b) world' ≡ ok (d, after'))
        × (dec nt k (pos (c * (d ^ t % k.n2) % k.n2)) ≡ ok ((a + b * t) % k.n))
  dec-affine a b t world world' lt_a lt_b unit unit' =
      finish (enc-Encrypts k p q key nt rng a world lt_a unit)
        (enc-Encrypts k p q key nt rng b world' lt_b unit')
    where
      large : 1 < k.n2
      large = squared_large k p q key

      finish :
          ((c : ℕ) × (enc nt rng k (pos a) world ≡ ok (c, (rng.randomize 1 k.n world).1))
            × Encrypts k a c)
          → ((d : ℕ) × (enc nt rng k (pos b) world' ≡ ok (d, (rng.randomize 1 k.n world').1))
              × Encrypts k b d)
          → (c d : ℕ) × (after after' : World) × (enc nt rng k (pos a) world ≡ ok (c, after))
            × (enc nt rng k (pos b) world' ≡ ok (d, after'))
            × (dec nt k (pos (c * (d ^ t % k.n2) % k.n2)) ≡ ok ((a + b * t) % k.n))
      finish (c, e, h) (d, e', h') = (
        c,
        d,
        (rng.randomize 1 k.n world).1,
        (rng.randomize 1 k.n world').1,
        e,
        e',
        dec_lem k p q key nt (a + b * t) (c * (d ^ t % k.n2) % k.n2)
            (Encrypts-mul k large a (b * t) c (d ^ t % k.n2) h (Encrypts-pow k large b t d h')),
      )

-- Where the drawn primes are at least the lower bound asked for, there is at least one bit, and
-- phi has an inverse modulo n, the constructor Paillier(bits) makes a whole key (IsKey).
pub new_paillier-IsKey :
    {World : Type 0} (nt : NumberTheory) (random_prime : ℕ → ℕ → World → ℕ × World) (bits : ℕ)
    (world : World) (v : ℕ)
    → ((lo hi : ℕ) (w : World) → lo ≤ (random_prime lo hi w).0)
    → 1 ≤ bits
    → (let key = (new_paillier nt random_prime bits world).0 in key.phi * v % key.n ≡ 1)
    → (p q : ℕ) × IsKey (new_paillier nt random_prime bits world).0 p q
unfolding new_paillier
new_paillier-IsKey {World = World} nt random_prime bits world v bound lt inverse = (
  p,
  q,
  record {
    has_p = refl;
    has_q = refl;
    p_lt = p_lt;
    q_lt = q_lt;
    modulus = refl;
    squared = refl;
    generator = refl;
    exponent = refl;
    phi_pos = grind (arith, p_lt, q_lt);
    inverse = nt.inverse_mod_lem ((p - 1) * (q - 1)) v (p * q) (grind (arith, p_lt, q_lt)) inverse;
  },
)
  where
    drawn : ℕ × World
    drawn = random_prime (2 ^ bits) (2 ^ (bits + 1)) world

    at_least_two : 2 ≤ 2 ^ bits
    at_least_two = pow-le-pow_right (omega arith) lt

    p : ℕ
    p = drawn.0

    q : ℕ
    q = (random_prime (2 ^ bits) (2 ^ (bits + 1)) drawn.1).0

    p_lt : 1 < p
    p_lt = omega (arith, at_least_two, bound (2 ^ bits) (2 ^ (bits + 1)) world)

    q_lt : 1 < q
    q_lt = omega (arith, at_least_two, bound (2 ^ bits) (2 ^ (bits + 1)) drawn.1)
