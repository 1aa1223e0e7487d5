-- ===== src/Crypto.antt =====
-- What the program takes from Crypto++: interfaces with the documented behaviour that it relies on.
-- `Integer` is read as the number that it stands for; an operator of it is that of the numbers.
use selling_information.Base.{ℕ, ◌*◌, ◌%◌, ◌^◌, ◌≤◌, ◌<◌, ◌∣◌, ◌≡◌, Bool, List, length, All, IsByte}
use mathlib.Core.List.{Perm}
use selling_information.Modular.Primes.{IsPrime}

-- integer.h and nbtheory.h.
pub record NumberTheory : Type 0 where
  pub a_times_b_mod_c : ℕ → ℕ → ℕ → ℕ
  pub a_exp_b_mod_c : ℕ → ℕ → ℕ → ℕ
  -- Integer::InverseMod.
  pub inverse_mod : ℕ → ℕ → ℕ
  pub times_lem : (a b c : ℕ) → 1 < c → a_times_b_mod_c a b c ≡ a * b % c
  pub exp_lem : (a b c : ℕ) → 1 < c → a_exp_b_mod_c a b c ≡ a ^ b % c
  pub inverse_mod_lem : (a b c : ℕ) → 1 < c → a * b % c ≡ 1 → a * inverse_mod a c % c ≡ 1

-- GCD of nbtheory.h.
pub record Divisors : Type 0 where
  pub gcd : ℕ → ℕ → ℕ
  pub gcd-dvd_left : (a b : ℕ) → gcd a b ∣ a
  pub gcd-dvd_right : (a b : ℕ) → gcd a b ∣ b
  pub dvd-gcd : (d a b : ℕ) → d ∣ a → d ∣ b → d ∣ gcd a b

-- ModularSquareRoot and CRT of nbtheory.h.
pub record Residues : Type 0 where
  pub modular_square_root : ℕ → ℕ → ℕ
  pub crt : ℕ → ℕ → ℕ → ℕ → ℕ → ℕ
  pub modular_square_root-lt : (a p : ℕ) → 0 < p → modular_square_root a p < p
  pub modular_square_root_lem :
      (a p x : ℕ)
      → IsPrime p
      → x * x % p ≡ a % p
      → modular_square_root a p * modular_square_root a p % p ≡ a % p
  pub crt_lem :
      (xp p xq q u : ℕ)
      → 1 < q
      → p * u % q ≡ 1
      → (crt xp p xq q u % p ≡ xp % p) × (crt xp p xq q u % q ≡ xq % q)
  pub crt-lt : (xp p xq q u : ℕ) → xp < p → xq < q → p * u % q ≡ 1 → crt xp p xq q u < p * q

-- Integer::MinEncodedSize, Integer::Encode and the constructor from big-endian bytes.
pub record Encoding : Type 0 where
  pub min_encoded_size : ℕ → ℕ
  pub encode : ℕ → ℕ → List ℕ
  pub decode : List ℕ → ℕ
  pub length-encode : (x n : ℕ) → length (encode x n) ≡ n
  pub encode-IsByte : (x n : ℕ) → All IsByte (encode x n)
  pub decode-encode : (x n : ℕ) → decode (encode x n) ≡ x % 256 ^ n
  pub lt-min_encoded_size : (x : ℕ) → x < 256 ^ min_encoded_size x

-- SHA256().CalculateDigest.
pub record Sha256 : Type 0 where
  pub digest : List ℕ → List ℕ
  pub length-digest : (m : List ℕ) → length (digest m) ≡ 32
  pub digest-IsByte : (m : List ℕ) → All IsByte (digest m)

-- AutoSeededRandomPool. `World` is what the draws depend on and change.
pub record Rng (World : Type 0) : Type 0 where
  pub generate_block : ℕ → World → List ℕ × World
  pub generate_bit : World → Bool × World
  -- Integer(rng, lo, hi) and Randomize: a number from lo to hi, both included.
  pub randomize : ℕ → ℕ → World → ℕ × World
  pub shuffle : List ℕ → World → List ℕ × World
  pub length-generate_block : (n : ℕ) (w : World) → length (generate_block n w).0 ≡ n
  pub generate_block-IsByte : (n : ℕ) (w : World) → All IsByte (generate_block n w).0
  pub randomize-le :
      (lo hi : ℕ) (w : World)
      → lo ≤ hi
      → (lo ≤ (randomize lo hi w).0) × ((randomize lo hi w).0 ≤ hi)
  pub shuffle-perm : (xs : List ℕ) (w : World) → Perm (shuffle xs w).0 xs
