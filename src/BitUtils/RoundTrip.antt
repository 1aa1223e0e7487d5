-- ===== src/BitUtils/RoundTrip.antt =====
-- bit_utils.cpp: bytes to bits and back, both ways round.
use selling_information.Base.{
  ℕ, zero, suc, ◌*◌, ◌/◌, ◌%◌, ◌<◌, ◌≡◌, refl, ap, ap₂, ◌∙◌, Bool, true, false, List, [], ◌∷◌, ◌++◌,
  ◌==◌, ==_iff, length, All, IsByte, arith, ok, err, standard, not, xor, ◌≢◌, ltb, ltb→lt, ◌&&◌,
}
use selling_information.Base.Table.{all_below, all_below_sound, all_lists, all_lists_sound}
use selling_information.Base.Int.{pos, negsuc}
use selling_information.Crypto.{Encoding}
use selling_information.BitUtils.{
  byte_bits, to_bits, byte_of, from_bits_loop, from_bits, integer_to_bits, bits_to_integer,
}
use native.Mathlib.Nat.{mod-eq_of_lt}

byte_table : all_below 256 (λ e. byte_of (byte_bits e) == e) ≡ true
unfolding all_below
byte_table = refl

byte_of-byte_bits : (e : ℕ) (rest : List Bool) → e < 256 → byte_of (byte_bits e ++ rest) ≡ e
byte_of-byte_bits e rest h = (==_iff _ e).0 (all_below_sound 256 _ e byte_table h)

length-to_bits : (bytes : List ℕ) → length (to_bits bytes) ≡ 8 * length bytes
unfolding to_bits
length-to_bits [] = refl
length-to_bits (e ∷ bytes) = omega (arith, length-to_bits bytes)

from_bits_loop-to_bits :
    (bytes : List ℕ) → All IsByte bytes → from_bits_loop (length bytes) (to_bits bytes) ≡ bytes
unfolding from_bits_loop to_bits
from_bits_loop-to_bits [] h = refl
from_bits_loop-to_bits (e ∷ bytes) h =
    ap₂ ◌∷◌ (byte_of-byte_bits e (to_bits bytes) h.0) (from_bits_loop-to_bits bytes h.1)

-- The bits of a list of bytes are turned back into these bytes, with no exception.
from_bits-to_bits : (bytes : List ℕ) → All IsByte bytes → from_bits (to_bits bytes) ≡ ok bytes
unfolding from_bits
from_bits-to_bits bytes h =
    rw (whole (length (to_bits bytes)) (length-to_bits bytes))
      (ap ok (ap (λ n. from_bits_loop n (to_bits bytes)) count ∙ from_bits_loop-to_bits bytes h))
  where
    whole : (n : ℕ) → n ≡ 8 * length bytes → (n % 8 == 0) ≡ true
    whole n e = (==_iff _ 0).1 (omega arith)

    count : length (to_bits bytes) / 8 ≡ length bytes
    count = omega (arith, length-to_bits bytes)

and_left : (a b : Bool) → (a && b) ≡ true → a ≡ true
and_left true b h = refl
and_left false b h = h

and_right : (a b : Bool) → (a && b) ≡ true → b ≡ true
and_right true b h = h
and_right false b h = cc

bits_eq : List Bool → List Bool → Bool
bits_eq [] [] = true
bits_eq [] (b ∷ l) = false
bits_eq (a ∷ k) [] = false
bits_eq (a ∷ k) (b ∷ l) = not (xor a b) && bits_eq k l

bits_eq→eq : (k l : List Bool) → bits_eq k l ≡ true → k ≡ l
unfolding bits_eq xor
bits_eq→eq [] [] h = refl
bits_eq→eq [] (b ∷ l) h = ground arith
bits_eq→eq (a ∷ k) [] h = ground arith
bits_eq→eq (true ∷ k) (true ∷ l) h = ap (λ x. true ∷ x) (bits_eq→eq k l h)
bits_eq→eq (true ∷ k) (false ∷ l) h = ground arith
bits_eq→eq (false ∷ k) (true ∷ l) h = ground arith
bits_eq→eq (false ∷ k) (false ∷ l) h = ap (λ x. false ∷ x) (bits_eq→eq k l h)

abbrev byte_test : List Bool → Bool
byte_test l = bits_eq (byte_bits (byte_of l)) l && ltb (byte_of l) 256

bits_table : all_lists 8 byte_test ≡ true
unfolding all_lists bits_eq xor
bits_table = refl

byte_bits-byte_of : (l : List Bool) → length l ≡ 8 → (byte_bits (byte_of l) ≡ l) × (byte_of l < 256)
byte_bits-byte_of l h =
    let passed = all_lists_sound 8 byte_test l bits_table h in
    (bits_eq→eq _ l (and_left _ _ passed), ltb→lt _ 256 (and_right _ _ passed))

to_bits-from_bits_loop :
    (n : ℕ) (bits : List Bool)
    → length bits ≡ 8 * n
    → (to_bits (from_bits_loop n bits) ≡ bits)
      × All IsByte (from_bits_loop n bits)
      × (length (from_bits_loop n bits) ≡ n)
unfolding from_bits_loop to_bits
to_bits-from_bits_loop zero [] h = (refl, tt, refl)
to_bits-from_bits_loop zero (b ∷ bits) h = absurd (omega arith)
to_bits-from_bits_loop (suc n) (b0 ∷ b1 ∷ b2 ∷ b3 ∷ b4 ∷ b5 ∷ b6 ∷ b7 ∷ rest) h =
    let first = byte_bits-byte_of (b0 ∷ b1 ∷ b2 ∷ b3 ∷ b4 ∷ b5 ∷ b6 ∷ b7 ∷ []) refl in
    let later = to_bits-from_bits_loop n rest (omega arith) in
    (ap₂ ◌++◌ first.0 later.0, (first.1, later.1), ap suc later.2)
to_bits-from_bits_loop (suc n) bits h = absurd (omega arith)

-- from_bits of bits whose number is a multiple of eight succeeds with an eighth as many bytes,
-- each below 256, whose bits are the given ones; any other number of bits is refused with
-- std::exception.
pub to_bits-from_bits :
    (bits : List Bool)
    → ((length bits % 8 ≡ 0)
        → (bytes : List ℕ) × (from_bits bits ≡ ok bytes)
          × (to_bits bytes ≡ bits)
          × All IsByte bytes
          × (8 * length bytes ≡ length bits))
      × (length bits % 8 ≢ 0 → from_bits bits ≡ err standard)
unfolding from_bits
to_bits-from_bits bits = (
  λ whole.
      let facts = to_bits-from_bits_loop (length bits / 8) bits (omega arith) in
      (
        from_bits_loop (length bits / 8) bits,
        rw ((==_iff _ 0).1 whole),
        facts.0,
        facts.1,
        omega (arith, facts.2),
      ),
  λ ragged. rw (not_zero (length bits % 8) ragged),
)
  where
    not_zero : (n : ℕ) → n ≢ 0 → (n == 0) ≡ false
    not_zero n h = ground arith

module _ (enc : Encoding) where
  -- integer_to_bits of a number that is not negative succeeds, and bits_to_integer returns the
  -- number; integer_to_bits refuses a negative number with std::exception.
  pub bits_to_integer-integer_to_bits :
      (n : ℕ)
      → (bits : List Bool) × (integer_to_bits enc (pos n) ≡ ok bits)
        × (bits_to_integer enc bits ≡ ok (pos n))
        × (integer_to_bits enc (negsuc n) ≡ err standard)
  unfolding integer_to_bits bits_to_integer
  bits_to_integer-integer_to_bits n =
      let size = enc.min_encoded_size n in
      (
        to_bits (enc.encode n size),
        refl,
        rw (from_bits-to_bits (enc.encode n size) (enc.encode-IsByte n size)) (
            ap (λ x. ok (pos x))
              (enc.decode-encode n size ∙ mod-eq_of_lt (enc.lt-min_encoded_size n))),
        refl,
      )
