-- ===== src/Tests/Keys.antt =====
-- The theorems on paillier.cpp with the primes 5 and 7.
use selling_information.Base.{ℕ, ◌+◌, ◌*◌, ◌%◌, ◌^◌, ◌≡◌, refl, arith, ok}
use selling_information.Base.Int.{pos}
use selling_information.Paillier.{Paillier, enc, dec, new_paillier}
use selling_information.Paillier.Homomorphism.{IsKey}
use selling_information.Paillier.RoundTrip.{dec-enc, dec-affine, new_paillier-IsKey}
use selling_information.Tests.Reference.{number_theory, rng}

-- 24 * 19 = 456 = 13 * 35 + 1.
abbrev small_key : Paillier
small_key = record { p = pos 5; q = pos 7; n = 35; n2 = 1225; y = 24; g = 36; u = 19; phi = 24 }

small_IsKey : IsKey small_key 5 7
small_IsKey = record {
  has_p = refl;
  has_q = refl;
  p_lt = omega arith;
  q_lt = omega arith;
  modulus = refl;
  squared = refl;
  generator = refl;
  exponent = refl;
  phi_pos = omega arith;
  inverse = refl;
}

-- The generator draws 2 in world 1, and 3 in world 2.
dec-enc_example :
    (c : ℕ) × (world' : ℕ) × (enc number_theory rng small_key (pos 23) 1 ≡ ok (c, world'))
    × (dec number_theory small_key (pos c) ≡ ok 23)
dec-enc_example = dec-enc number_theory rng small_key 5 7 small_IsKey 23 1 (omega arith) refl

dec-affine_example :
    (c d : ℕ) × (after after' : ℕ) × (enc number_theory rng small_key (pos 23) 1 ≡ ok (c, after))
    × (enc number_theory rng small_key (pos 11) 2 ≡ ok (d, after'))
    × (dec number_theory small_key (pos (c * (d ^ 3 % small_key.n2) % small_key.n2))
        ≡ ok ((23 + 11 * 3) % small_key.n))
dec-affine_example =
    dec-affine number_theory rng small_key 5 7 small_IsKey 23 11 3 1 2 (omega arith) (omega arith)
      refl refl

-- Draws 2 ^ bits + 1 and then 2 ^ bits + 3: 5 and 7 for two bits.
abbrev next_prime : ℕ → ℕ → ℕ → ℕ × ℕ
next_prime lo hi world = (lo + world, world + 2)

new_paillier-IsKey_example : (p q : ℕ) × IsKey (new_paillier number_theory next_prime 2 1).0 p q
unfolding new_paillier
new_paillier-IsKey_example =
    new_paillier-IsKey number_theory next_prime 2 1 19 (λ lo hi w. omega arith) (omega arith) refl
