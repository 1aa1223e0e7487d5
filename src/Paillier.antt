-- ===== src/Paillier.antt =====
-- shared_signature/paillier.h and paillier.cpp. A prime that the object does not have is -1, as
-- there; what a constructor leaves unset is 0. L is applied to numbers from 1 on.
pub mod Binomial
pub mod Homomorphism
pub mod Decryption
pub mod RoundTrip
use selling_information.Base.{
  ℕ, ◌+◌, ◌-◌, ◌*◌, ◌/◌, ◌%◌, ◌^◌, Bool, true, false, not, ◌||◌, ◌==◌, leb, Result, ok, err, guard,
  paillier,
}
use selling_information.Base.Int.{ℤ, pos, negsuc}
use selling_information.Base.Errors.{◌>>=◌, ◌>>◌}
use selling_information.Crypto.{NumberTheory, Rng}

pub record Paillier : Type 0 where
  pub p : ℤ
  pub q : ℤ
  pub n : ℕ
  pub n2 : ℕ
  pub y : ℕ
  pub g : ℕ
  pub u : ℕ
  pub phi : ℕ

abbrev pub uninitialized : Paillier
uninitialized = record { p = pos 0; q = pos 0; n = 0; n2 = 0; y = 0; g = 0; u = 0; phi = 0 }

-- Paillier(bits): `random_prime lo hi` is Randomize with Integer::PRIME.
unfoldable pub new_paillier :
    {World : Type 0} → NumberTheory → (ℕ → ℕ → World → ℕ × World) → ℕ → World → Paillier × World
new_paillier nt random_prime bits world =
    let drawn_p = random_prime (2 ^ bits) (2 ^ (bits + 1)) world in
    let drawn_q = random_prime (2 ^ bits) (2 ^ (bits + 1)) drawn_p.1 in
    let p = drawn_p.0 in
    let q = drawn_q.0 in
    let n = p * q in
    let phi = (p - 1) * (q - 1) in
    (
      record {
        p = pos p;
        q = pos q;
        n = n;
        n2 = n * n;
        y = phi;
        g = n + 1;
        u = nt.inverse_mod phi n;
        phi = phi;
      },
      drawn_q.1,
    )

-- Paillier(n, g): the public key alone.
unfoldable pub public_paillier : ℕ → ℕ → Paillier
public_paillier n g = record {
  p = negsuc 0;
  q = negsuc 0;
  n = n;
  n2 = n * n;
  y = 0;
  g = g;
  u = 0;
  phi = 0;
}

abbrev pub initialized : Paillier → Result (Unit {0})
initialized k = guard (not (k.n == 0)) (paillier "not initialized")

unfoldable pub get_n : Paillier → Result ℕ
get_n k = do initialized k; ok k.n

unfoldable pub get_n2 : Paillier → Result ℕ
get_n2 k = do initialized k; ok k.n2

unfoldable pub get_g : Paillier → Result ℕ
get_g k = do initialized k; ok k.g

-- Paillier::L.
abbrev pub quotient_l : Paillier → ℕ → ℕ
quotient_l k x = (x - 1) / k.n

-- `m >= n || m < 0`, and `c <= 0 || c >= n2`.
abbrev pub outside : ℤ → ℕ → Bool
outside (pos m) n = leb n m
outside (negsuc m) n = true

abbrev pub outside_positive : ℤ → ℕ → Bool
outside_positive (pos c) n2 = (c == 0) || leb n2 c
outside_positive (negsuc c) n2 = true

abbrev pub nat_value : ℤ → ℕ
nat_value (pos m) = m
nat_value (negsuc m) = 0

-- `p == -1`.
abbrev pub missing : ℤ → Bool
missing (pos p) = false
missing (negsuc p) = p == 0

module _ {World : Type 0} (nt : NumberTheory) (rng : Rng World) where
  unfoldable pub enc : Paillier → ℤ → World → Result (ℕ × World)
  enc k m world = do
    initialized k
    guard (not (outside m k.n)) (paillier "m >= n || m < 0 ")
    let drawn = rng.randomize 1 k.n world
    ok (
      nt.a_times_b_mod_c (nt.a_exp_b_mod_c k.g (nat_value m) k.n2)
          (nt.a_exp_b_mod_c drawn.0 k.n k.n2) k.n2,
      drawn.1,
    )

module _ (nt : NumberTheory) where
  unfoldable pub dec : Paillier → ℤ → Result ℕ
  dec k c = do
    initialized k
    guard (not (missing k.p || missing k.q)) (paillier "client can not decrypt data")
    guard (not (outside_positive c k.n2)) (paillier "c <= 0 || c >= n2")
    guard (not ((nat_value c % nat_value k.p == 0) || (nat_value c % nat_value k.q == 0)))
        (paillier "c % p == 0 || c % q == 0")
    ok (nt.a_times_b_mod_c (quotient_l k (nt.a_exp_b_mod_c (nat_value c) k.y k.n2)) k.u k.n)
