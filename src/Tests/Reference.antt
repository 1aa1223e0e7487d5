-- ===== src/Tests/Reference.antt =====
-- Small functions that meet the interfaces of `Crypto`, for the tests.
use selling_information.Base.{
  ℕ, zero, suc, ◌+◌, ◌-◌, ◌*◌, ◌/◌, ◌%◌, ◌^◌, ◌≤◌, ◌<◌, ◌≡◌, refl, sym, ap, ◌∙◌, inl, inr, List, [],
  ◌∷◌, length, length-replicate, replicate, All, IsByte, ◌==◌, ==_iff, ltb, if◌then◌else◌,
  Bool-cases, arith,
}
use selling_information.Modular.{mul-mod-mod}
use selling_information.Crypto.{NumberTheory, Encoding, Sha256, Rng}
use mathlib.Core.List.Perm
use native.Mathlib.Nat.{
  le_refl, mod-lt, mod-eq_of_lt, div-add-mod, pow-succ', one-le-pow, mul-add-mod_self_left,
}

-- The largest number below the bound that inverts a modulo c, or 0.
unfoldable pub inverse_below : ℕ → ℕ → ℕ → ℕ
inverse_below a c zero = 0
inverse_below a c (suc x) = let rest = inverse_below a c x in if a * x % c == 1 then x else rest

inverse_below_lem : (a c n b : ℕ) → b < n → a * b % c ≡ 1 → a * inverse_below a c n % c ≡ 1
unfolding inverse_below
inverse_below_lem a c zero b lt h = absurd (omega arith)
inverse_below_lem a c (suc n) b lt h = elim (Bool-cases (a * n % c == 1)) [
  | inl e ↦ rw e ((==_iff _ 1).0 e)
  | inr e ↦ rw e (inverse_below_lem a c n b (ground arith) h)
]

pub inverse_law : (a b c : ℕ) → 1 < c → a * b % c ≡ 1 → a * inverse_below a c c % c ≡ 1
inverse_law a b c lt h =
    inverse_below_lem a c c (b % c) (mod-lt b (omega arith)) (mul-mod-mod a b c ∙ h)

abbrev pub number_theory : NumberTheory
number_theory = record {
  a_times_b_mod_c = λ a b c. a * b % c;
  a_exp_b_mod_c = λ a b c. a ^ b % c;
  inverse_mod = λ a c. inverse_below a c c;
  times_lem = λ a b c h. refl;
  exp_lem = λ a b c h. refl;
  inverse_mod_lem = inverse_law;
}

-- Big-endian digits to the base 256.
unfoldable pub encode : ℕ → ℕ → List ℕ
encode x zero = []
encode x (suc n) = (x / 256 ^ n % 256) ∷ encode x n

unfoldable pub decode : List ℕ → ℕ
decode [] = 0
decode (b ∷ bs) = b * 256 ^ length bs + decode bs

unfoldable pub encoded_size : ℕ → ℕ → ℕ
encoded_size zero x = 1
encoded_size (suc fuel) x =
    let rest = suc (encoded_size fuel (x / 256)) in if ltb x 256 then 1 else rest

pub length-encode : (x n : ℕ) → length (encode x n) ≡ n
unfolding encode
length-encode x zero = refl
length-encode x (suc n) = ap suc (length-encode x n)

pub encode-IsByte : (x n : ℕ) → All IsByte (encode x n)
unfolding encode
encode-IsByte x zero = tt
encode-IsByte x (suc n) = (mod-lt (x / 256 ^ n) (omega arith), encode-IsByte x n)

pos_power : (n : ℕ) → 0 < 256 ^ n
pos_power n = one-le-pow n 256 (omega arith)

digit_split : (x p : ℕ) → 0 < p → x / p % 256 * p + x % p ≡ x % (256 * p)
digit_split x p h =
    sym (mod-eq_of_lt below)
    ∙ sym (mul-add-mod_self_left (256 * p) (x / p / 256) (x / p % 256 * p + x % p))
    ∙ ap (λ y. y % (256 * p)) whole
  where
    below : x / p % 256 * p + x % p < 256 * p
    below = scale (x / p % 256) (x % p) (mod-lt (x / p) (omega arith)) (mod-lt x h)
      where
        scale : (d r : ℕ) → d < 256 → r < p → d * p + r < 256 * p
        scale d r hd hr = grind arith

    whole : 256 * p * (x / p / 256) + (x / p % 256 * p + x % p) ≡ x
    whole = omega (arith, div-add-mod x p, ap (λ (t : ℕ). t * p) (div-add-mod (x / p) 256))

pub decode-encode : (x n : ℕ) → decode (encode x n) ≡ x % 256 ^ n
unfolding encode decode
decode-encode x zero = omega arith
decode-encode x (suc n) =
    rw (length-encode x n, decode-encode x n, pow-succ' 256 n)
      (digit_split x (256 ^ n) (pos_power n))

pub encoded_size_lem : (fuel x : ℕ) → x ≤ fuel → x < 256 ^ encoded_size fuel x
unfolding encoded_size
encoded_size_lem zero x h = omega arith
encoded_size_lem (suc fuel) x h = elim (Bool-cases (ltb x 256)) [
  | inl e ↦ rw e (ground arith)
  | inr e ↦
      rw (e, pow-succ' 256 (encoded_size fuel (x / 256)))
        (ground (arith, encoded_size_lem fuel (x / 256)))
]

abbrev pub encoding : Encoding
encoding = record {
  min_encoded_size = λ x. encoded_size x x;
  encode = encode;
  decode = decode;
  length-encode = length-encode;
  encode-IsByte = encode-IsByte;
  decode-encode = decode-encode;
  lt-min_encoded_size = λ x. encoded_size_lem x x (le_refl x);
}

sum : List ℕ → ℕ
sum [] = 0
sum (x ∷ xs) = x + sum xs

pub replicate-IsByte : (n b : ℕ) → IsByte b → All IsByte (replicate n b)
replicate-IsByte zero b h = tt
replicate-IsByte (suc n) b h = (h, replicate-IsByte n b h)

unfoldable pub toy_digest : List ℕ → List ℕ
unfolding sum
toy_digest m = replicate 32 (sum m % 256)

pub length-toy_digest : (m : List ℕ) → length (toy_digest m) ≡ 32
unfolding toy_digest
length-toy_digest m = length-replicate 32 (sum m % 256)

pub toy_digest-IsByte : (m : List ℕ) → All IsByte (toy_digest m)
unfolding toy_digest
toy_digest-IsByte m = replicate-IsByte 32 (sum m % 256) (mod-lt (sum m) (omega arith))

abbrev pub sha : Sha256
sha = record {
  digest = toy_digest;
  length-digest = length-toy_digest;
  digest-IsByte = toy_digest-IsByte;
}

pub draw-le :
    (lo hi w : ℕ) → lo ≤ hi → (lo ≤ lo + w % (hi - lo + 1)) × (lo + w % (hi - lo + 1) ≤ hi)
draw-le lo hi w h = omega (arith, mod-lt w {m = hi - lo + 1} (omega arith))

pub block-IsByte : (n w : ℕ) → All IsByte (replicate n (w % 256))
block-IsByte n w = replicate-IsByte n (w % 256) (mod-lt w (omega arith))

-- The world is a counter, from which every draw is taken.
abbrev pub rng : Rng ℕ
rng = record {
  generate_block = λ n w. (replicate n (w % 256), w + 1);
  generate_bit = λ w. (w % 2 == 1, w + 1);
  randomize = λ lo hi w. (lo + w % (hi - lo + 1), w + 1);
  shuffle = λ xs w. (xs, w + 1);
  length-generate_block = λ n w. length-replicate n (w % 256);
  generate_block-IsByte = block-IsByte;
  randomize-le = draw-le;
  shuffle-perm = λ xs w. Perm.refl xs;
}
