-- ===== src/Tests/Bytes.antt =====
-- The theorems on common/ and bit_utils.cpp at concrete bytes.
use selling_information.Base.{
  ℕ, ◌*◌, ◌%◌, ◌≡◌, Bool, true, false, List, [], ◌∷◌, length, arith, ok, err, standard, All, IsByte,
  ◌≢◌,
}
use selling_information.Base.Int.{pos, negsuc}
use selling_information.Common.{string2hex}
use selling_information.Common.Hex.{from_hex, from_hex-string2hex}
use selling_information.BitUtils.{to_bits, from_bits, integer_to_bits, bits_to_integer}
use selling_information.BitUtils.RoundTrip.{to_bits-from_bits, bits_to_integer-integer_to_bits}
use selling_information.Tests.Reference.{encoding}

abbrev some_bytes : List ℕ
some_bytes = 0 ∷ 171 ∷ 255 ∷ []

some_bytes-IsByte : All IsByte some_bytes
some_bytes-IsByte = (omega arith, (omega arith, (omega arith, tt)))

from_hex-string2hex_example :
    (from_hex (string2hex some_bytes) ≡ some_bytes)
    × (length (string2hex some_bytes) ≡ 2 * length some_bytes)
from_hex-string2hex_example = from_hex-string2hex some_bytes some_bytes-IsByte

abbrev some_bits : List Bool
some_bits = true ∷ false ∷ false ∷ true ∷ true ∷ true ∷ false ∷ true ∷ []

to_bits-from_bits_example :
    ((length some_bits % 8 ≡ 0)
      → (bytes : List ℕ) × (from_bits some_bits ≡ ok bytes)
        × (to_bits bytes ≡ some_bits)
        × All IsByte bytes
        × (8 * length bytes ≡ length some_bits))
    × (length some_bits % 8 ≢ 0 → from_bits some_bits ≡ err standard)
to_bits-from_bits_example = to_bits-from_bits some_bits

bits_to_integer-integer_to_bits_example :
    (bits : List Bool) × (integer_to_bits encoding (pos 700) ≡ ok bits)
    × (bits_to_integer encoding bits ≡ ok (pos 700))
    × (integer_to_bits encoding (negsuc 700) ≡ err standard)
bits_to_integer-integer_to_bits_example = bits_to_integer-integer_to_bits encoding 700
