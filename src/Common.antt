-- ===== src/Common.antt =====
-- common/common.h and common.cpp: constants and conversions. A string is the list of its bytes.
pub mod Hex
use selling_information.Base.{ℕ, ◌+◌, ◌/◌, ◌%◌, List, [], ◌∷◌, ◌++◌, get_or}
use selling_information.Crypto.{Encoding}

abbrev pub t : ℕ
t = 10

abbrev pub k : ℕ
k = 29

abbrev pub l : ℕ
l = 10

-- Both insertions at the end of the result.
unfoldable pub concatenate {ℓ} : {A : Type ℓ} → List A → List A → List A
concatenate x y = ([] ++ x) ++ y

module _ (enc : Encoding) where
  unfoldable pub to_bytes : ℕ → List ℕ
  to_bytes x = enc.encode x (enc.min_encoded_size x)

  unfoldable pub integer2string : ℕ → List ℕ
  unfolding to_bytes
  integer2string ix = to_bytes ix

-- "0123456789ABCDEF"
abbrev pub lut : List ℕ
lut =
    b'0' ∷ b'1' ∷ b'2' ∷ b'3' ∷ b'4' ∷ b'5' ∷ b'6' ∷ b'7' ∷ b'8' ∷ b'9' ∷ b'A' ∷ b'B' ∷ b'C' ∷ b'D'
    ∷ b'E' ∷ b'F' ∷ []

-- `c >> 4` and `c & 15` of a byte.
unfoldable pub string2hex : List ℕ → List ℕ
string2hex [] = []
string2hex (c ∷ input) = get_or lut (c / 16) 0 ∷ get_or lut (c % 16) 0 ∷ string2hex input

unfoldable pub string2v : List ℕ → List ℕ
string2v input = input

unfoldable pub v2string : List ℕ → List ℕ
v2string input = input
