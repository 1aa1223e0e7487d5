-- ===== src/Common/Hex.antt =====
-- common.cpp: the hexadecimal text determines the bytes, and the encoding of a number the number.
use selling_information.Base.{
  ℕ, ◌+◌, ◌-◌, ◌*◌, ◌/◌, ◌%◌, ◌≡◌, refl, ap₂, ◌∙◌, true, List, [], ◌∷◌, length, get_or, All, IsByte,
  ◌==◌, ==_iff, ltb, if◌then◌else◌, arith,
}
use selling_information.Base.Table.{all_below, all_below_sound}
use selling_information.Crypto.{Encoding}
use selling_information.Common.{lut, string2hex, to_bytes}
use native.Mathlib.Nat.{mod-eq_of_lt}

-- The value of a hexadecimal digit, and the bytes of a text of pairs of them.
digit_value : ℕ → ℕ
digit_value d = if ltb d b'A' then d - b'0' else d - b'A' + 10

pub from_hex : List ℕ → List ℕ
from_hex (high ∷ low ∷ rest) = (16 * digit_value high + digit_value low) ∷ from_hex rest
from_hex other = []

hex_table :
    all_below 256
      (λ c. 16 * digit_value (get_or lut (c / 16) 0) + digit_value (get_or lut (c % 16) 0) == c)
    ≡ true
unfolding all_below digit_value
hex_table = refl

-- The hexadecimal text of bytes has two digits for each, and reading it in pairs gives the bytes
-- back.
pub from_hex-string2hex :
    (s : List ℕ)
    → All IsByte s
    → (from_hex (string2hex s) ≡ s) × (length (string2hex s) ≡ 2 * length s)
unfolding from_hex string2hex
from_hex-string2hex [] h = (refl, refl)
from_hex-string2hex (c ∷ s) h =
    let later = from_hex-string2hex s h.1 in
    (
      ap₂ ◌∷◌ ((==_iff _ c).0 (all_below_sound 256 _ c hex_table h.0)) later.0,
      omega (arith, later.1),
    )

module _ (enc : Encoding) where
  pub decode-to_bytes : (x : ℕ) → enc.decode (to_bytes enc x) ≡ x
  unfolding to_bytes
  decode-to_bytes x =
      enc.decode-encode x (enc.min_encoded_size x) ∙ mod-eq_of_lt (enc.lt-min_encoded_size x)
