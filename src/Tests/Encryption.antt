-- ===== src/Tests/Encryption.antt =====
-- A cipher for the tests, in place of that of aes.cpp: it puts the first byte of the key before the message.
use selling_information.Base.{ℕ, refl, List, [], ◌∷◌, Result, ok, err, standard}
use selling_information.Aes.{Cipher}

first : List ℕ → ℕ
first [] = 0
first (b ∷ key) = b

without_first : List ℕ → Result (List ℕ)
without_first [] = err standard
without_first (b ∷ m) = ok m

unfoldable pub toy_cipher : Cipher
unfolding first without_first
toy_cipher = record {
  encrypt = λ key m. first key ∷ m;
  decrypt = λ key m. without_first m;
  decrypt-encrypt = λ key m h. refl;
}
