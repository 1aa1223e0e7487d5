-- ===== src/SignatureKey/Keys.antt =====
-- signature_key.cpp: genKeys, and the comparison of verifyKeys.
use selling_information.Base.{
  ℕ, Bool, true, false, ◌&&◌, List, [], ◌∷◌, map, indices, ◌==◌, Result, ok, guard, protocol,
}
use selling_information.Base.Errors.{◌>>◌}
use selling_information.Common.{l, concatenate, to_bytes}
use selling_information.Crypto.{Encoding, Sha256}

-- equal(m.begin(), m.end(), key.begin()): as many bytes are compared as m has. Where the code would
-- read past the end of the key this is false.
unfoldable pub starts : List ℕ → List ℕ → Bool
starts [] key = true
starts (c ∷ m) [] = false
starts (c ∷ m) (d ∷ key) = c == d && starts m key

-- The loop of verifyKeys over what was committed to and the expected keys.
unfoldable pub check_keys : List (List ℕ) → List (List ℕ) → Result (Unit {0})
check_keys [] keys = ok tt
check_keys (m ∷ messages) [] = ok tt
check_keys (m ∷ messages) (key ∷ keys) = do
  guard (starts m key) (protocol "Invalid key")
  check_keys messages keys

unfoldable pub gen_keys : Encoding → Sha256 → List ℕ → List (List ℕ)
gen_keys enc sha signature =
    map (λ i. sha.digest (concatenate signature (to_bytes enc i))) (indices 0 l)
