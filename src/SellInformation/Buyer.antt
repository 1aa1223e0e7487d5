-- ===== src/SellInformation/Buyer.antt =====
-- sell_information.cpp: the methods of Buyer that draw, choose, check and factorise. Logging is left
-- out. The numbers r1 and r2 of factorise are read from bytes and not negative, so that their sign
-- is never changed.
use selling_information.Base.{
  ℕ, ◌+◌, ◌-◌, ◌*◌, ◌/◌, ◌%◌, Bool, ◌||◌, ◌&&◌, List, [], ◌∷◌, map, take, length, indices as upto,
  ◌==◌, get_or, if◌then◌else◌, Result, ok, err, guard, protocol,
}
use selling_information.Base.Errors.{◌>>=◌}
use selling_information.Base.Exec.{Exec}
use selling_information.Base.Int.{ℤ, pos, negsuc, sub_ℕ}
use selling_information.Aes.{Cipher, aes_dec}
use selling_information.Common.{t, l}
use selling_information.Crypto.{Divisors, Encoding, Sha256, Rng}
use selling_information.SignatureKey.Keys.{gen_keys}
use selling_information.TimedCommitment.Parties.{draws}
use selling_information.SellInformation.Parties.{Buyer}
use selling_information.ShaCommitment as Sha

-- L/2
abbrev pub half : ℕ
half = l / 2

module _ {Point World : Type 0} (rng : Rng World) where
  unfoldable pub pick_r : Exec (Buyer Point × World) (Unit {0})
  pick_r (b, world) =
      let drawn = rng.randomize 0 (t - 1) world in (ok tt, (record b { r = drawn.0 }, drawn.1))

  unfoldable pub gen_squares : Exec (Buyer Point × World) (Unit {0})
  unfolding draws
  gen_squares (b, world) =
      let drawn = draws (rng.randomize 0 (b.n / 2)) l world in
      (ok tt, (record b { x = drawn.0; y = map (λ x. x * x % b.n) drawn.0 }, drawn.1))

  unfoldable pub pick_subset : Exec (Buyer Point × World) (Unit {0})
  pick_subset (b, world) =
      let shuffled = rng.shuffle (upto 0 l) world in
      (ok tt, (record b { indices = take half shuffled.0 }, shuffled.1))

module _ {Point : Type 0} where
  unfoldable pub get_subset_indices : Buyer Point → List ℕ
  get_subset_indices b = b.indices

  unfoldable pub get_subset_values : Buyer Point → List ℕ
  get_subset_values b = map (λ i. get_or b.x (get_or b.indices i 0) 0) (upto 0 half)

  unfoldable pub verify_root :
      Cipher → Encoding → Buyer Point → ℕ → List ℕ → List ℕ → Result (Unit {0})
  verify_root cipher encoding b ind key c = do
    x_encoded ← aes_dec cipher key c
    guard (encoding.decode x_encoded == get_or b.x ind 0) (protocol "verifyRoot failed")

module _ (divisors : Divisors) (gcd_negative : ℕ → ℕ → ℤ) where
  -- GCD(a, b) of any a. `gcd_negative` is what it is for a = -(n + 1).
  unfoldable pub gcd_of : ℤ → ℕ → ℤ
  gcd_of (pos a) b = pos (divisors.gcd a b)
  gcd_of (negsuc a) b = gcd_negative a b

  -- `p * q == n`
  unfoldable pub is_product : ℤ → ℕ → ℕ → Bool
  is_product (pos p) q n = p * q == n
  is_product (negsuc p) q n = q == 0 && n == 0

  -- p and q of one round.
  unfoldable pub factors : ℕ → ℕ → ℕ → ℤ × ℕ
  factors n r1 r2 = (gcd_of (sub_ℕ (n + r1) r2) n, divisors.gcd (r1 + r2) n)

  -- The loop of factorise over the keys, d1 and d2.
  unfoldable pub factor_loop :
      Cipher → Encoding → ℕ → List (List ℕ) → List Sha.Receiver → List Sha.Receiver → Result (ℤ × ℕ)
  factor_loop cipher encoding n [] d1 d2 = err (protocol "Factorization failed!")
  factor_loop cipher encoding n (key ∷ keys) [] d2 = err (protocol "Factorization failed!")
  factor_loop cipher encoding n (key ∷ keys) (c1 ∷ d1) [] = err (protocol "Factorization failed!")
  factor_loop cipher encoding n (key ∷ keys) (c1 ∷ d1) (c2 ∷ d2) =
      let rest = factor_loop cipher encoding n keys d1 d2 in
      if length c1.m == 0 || length c2.m == 0 then rest else do
        r1_bytes ← aes_dec cipher key c1.m
        r2_bytes ← aes_dec cipher key c2.m
        let found = factors n (encoding.decode r1_bytes) (encoding.decode r2_bytes)
        if is_product found.0 found.1 n then ok found else rest

  unfoldable pub factorise :
      {Point : Type 0} → Cipher → Encoding → Sha256 → Exec (Buyer Point) (Unit {0})
  factorise cipher encoding sha b =
      elim (factor_loop cipher encoding b.n (gen_keys encoding sha b.signature) b.d1 b.d2) [
        | err e ↦ (err e, b)
        | ok found ↦ (ok tt, record b { p = found.0; q = found.1 })
      ]
