-- ===== src/BitUtils.antt =====
-- timed_commitment/bit_utils.h and bit_utils.cpp. A string is the list of its bytes.
pub mod RoundTrip
use Prim.Native.Nat.{bit_and}
use selling_information.Base.{
  ℕ, zero, suc, ◌+◌, ◌*◌, ◌/◌, ◌%◌, ◌^◌, Bool, true, false, not, List, [], ◌∷◌, ◌++◌, map, indices,
  ◌==◌, if◌then◌else◌, length, get_or, drop, Result, ok, err, standard,
}
use selling_information.Base.Int.{ℤ, pos, negsuc}
use selling_information.Base.Errors.{◌>>=◌}
use selling_information.Crypto.{Encoding}

-- The inner loop of to_bits: the eight bits of one element, `e & (1 << i)` for each i.
abbrev pub byte_bits : ℕ → List Bool
byte_bits e = map (λ i. not (bit_and e (2 ^ i) == 0)) (indices 0 8)

pub to_bits : List ℕ → List Bool
to_bits [] = []
to_bits (e ∷ cont) = byte_bits e ++ to_bits cont

-- The inner loop of from_bits: `x += 1 << bit` on an unsigned char, from `bit` on.
abbrev pub byte_loop : ℕ → ℕ → List Bool → ℕ → ℕ
byte_loop zero bit bits x = x
byte_loop (suc rounds) bit bits x =
    byte_loop rounds (bit + 1) bits (if get_or bits bit false then (x + 2 ^ bit) % 256 else x)

abbrev pub byte_of : List Bool → ℕ
byte_of bits = byte_loop 8 0 bits 0

-- The outer loop: `bits` are those from position i on, which grows by eight.
pub from_bits_loop : ℕ → List Bool → List ℕ
from_bits_loop zero bits = []
from_bits_loop (suc rounds) bits = byte_of bits ∷ from_bits_loop rounds (drop 8 bits)

pub from_bits : List Bool → Result (List ℕ)
from_bits bits =
    if not (length bits % 8 == 0) then err standard else ok (from_bits_loop (length bits / 8) bits)

unfoldable pub string_to_bits : List ℕ → List Bool
unfolding to_bits
string_to_bits s = to_bits s

unfoldable pub bits_to_string : List Bool → Result (List ℕ)
unfolding from_bits
bits_to_string bits = from_bits bits

module _ (enc : Encoding) where
  unfoldable pub integer_to_bits : ℤ → Result (List Bool)
  unfolding to_bits
  integer_to_bits (pos n) = ok (to_bits (enc.encode n (enc.min_encoded_size n)))
  integer_to_bits (negsuc n) = err standard

  unfoldable pub bits_to_integer : List Bool → Result ℤ
  unfolding from_bits
  bits_to_integer bits = do bytes ← from_bits bits; ok (pos (enc.decode bytes))
