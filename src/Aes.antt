-- ===== src/Aes.antt =====
-- common/aes.h and aes.cpp. The overloads that take an array of AES_LENGTH bytes are the calls of the
-- cipher themselves.
use selling_information.Base.{
  ℕ, ◌≡◌, ◌≢◌, refl, false, List, length, ◌==◌, ==_iff, arith, Result, ok, err, guard, protocol,
  standard,
}
use selling_information.Base.Errors.{◌>>◌}

abbrev pub aes_length : ℕ
aes_length = 32

-- AES in ECB mode with the default padding. A decryption of what was not encrypted may throw.
pub record Cipher : Type 0 where
  pub encrypt : List ℕ → List ℕ → List ℕ
  pub decrypt : List ℕ → List ℕ → Result (List ℕ)
  pub decrypt-encrypt :
      (key m : List ℕ) → length key ≡ aes_length → decrypt key (encrypt key m) ≡ ok m

module _ (cipher : Cipher) where
  unfoldable pub aes_enc : List ℕ → List ℕ → Result (List ℕ)
  aes_enc key m = do
    guard (length key == aes_length) (protocol "Invalid length")
    ok (cipher.encrypt key m)

  unfoldable pub aes_dec : List ℕ → List ℕ → Result (List ℕ)
  aes_dec key m = do guard (length key == aes_length) standard; cipher.decrypt key m

  -- With a key of 32 bytes enc succeeds, and dec of what it makes returns the message; with any other
  -- key enc throws ProtocolException and dec, of anything, std::exception.
  pub aes_dec-aes_enc :
      (key m other : List ℕ)
      → (length key ≡ 32 → (c : List ℕ) × (aes_enc key m ≡ ok c) × (aes_dec key c ≡ ok m))
        × (length key ≢ 32
            → (aes_enc key m ≡ err (protocol "Invalid length"))
              × (aes_dec key other ≡ err standard))
  unfolding aes_enc aes_dec
  aes_dec-aes_enc key m other = (
    λ size. (cipher.encrypt key m, encrypts size, decrypts size),
    λ wrong. rw (unequal (length key) wrong) (refl, refl),
  )
    where
      encrypts : length key ≡ 32 → aes_enc key m ≡ ok (cipher.encrypt key m)
      encrypts size = rw ((==_iff (length key) 32).1 size) refl

      decrypts : length key ≡ 32 → aes_dec key (cipher.encrypt key m) ≡ ok m
      decrypts size = rw ((==_iff (length key) 32).1 size) (cipher.decrypt-encrypt key m size)

      unequal : (n : ℕ) → n ≢ 32 → (n == 32) ≡ false
      unequal n h = ground arith
