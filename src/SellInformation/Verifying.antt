-- ===== src/SellInformation/Verifying.antt =====
-- sell_information.cpp: encryptRoots and verifyRoot, and what acceptSubset refuses.
use selling_information.Base.{
  ℕ, ◌*◌, ◌/◌, ◌%◌, ◌≤◌, ◌<◌, ◌≡◌, ◌≢◌, ◌⊎◌, inl, inr, refl, sym, ap, ◌∙◌, Bool, true, false, List,
  [], length, get_or, ◌==◌, ==_iff, ==_refl, lt→ltb, subst, Bool-cases, ltb, ok, err, protocol,
  arith,
}
use selling_information.Base.Int.{ℤ, pos, negsuc}
use selling_information.Aes.{Cipher, aes_enc, aes_dec, aes_dec-aes_enc}
use selling_information.Common.{to_bytes}
use selling_information.Crypto.{Encoding}
use selling_information.SellInformation.Parties.{Seller, Buyer}
use selling_information.SellInformation.Seller.{root_bytes, accept_value, is_value}
use selling_information.SellInformation.Buyer.{verify_root}
use native.Mathlib.Nat.{mod-eq_of_lt}

unequal : (m n : ℕ) → m ≢ n → (m == n) ≡ false
unequal m n h = ground arith

-- A root that encryptRoots encrypts with a key of 32 bytes passes verifyRoot with that key at
-- an index if it is the buyer's number there; any other root makes verifyRoot throw.
pub verify_root-aes_enc :
    {Point : Type 0} (cipher : Cipher) (encoding : Encoding) (negative : ℕ → List ℕ)
    (b : Buyer Point) (ind r : ℕ) (key : List ℕ)
    → length key ≡ 32
    → (c : List ℕ) × (aes_enc cipher key (root_bytes encoding negative (pos r)) ≡ ok c)
      × (get_or b.x ind 0 ≡ r → verify_root cipher encoding b ind key c ≡ ok tt)
      × (get_or b.x ind 0 ≢ r
          → verify_root cipher encoding b ind key c ≡ err (protocol "verifyRoot failed"))
unfolding verify_root root_bytes to_bytes
verify_root-aes_enc cipher encoding negative b ind r key size = (
  made.0,
  made.1,
  λ same. rw (made.2, decoded, (==_iff r (get_or b.x ind 0)).1 (sym same)) refl,
  λ other. rw (made.2, decoded, unequal r (get_or b.x ind 0) (λ e. other (sym e))) refl,
)
  where
    bytes : List ℕ
    bytes = encoding.encode r (encoding.min_encoded_size r)

    made : (c : List ℕ) × (aes_enc cipher key bytes ≡ ok c) × (aes_dec cipher key c ≡ ok bytes)
    made = (aes_dec-aes_enc cipher key bytes []).0 size

    decoded : encoding.decode bytes ≡ r
    decoded =
        encoding.decode-encode r (encoding.min_encoded_size r)
        ∙ mod-eq_of_lt (encoding.lt-min_encoded_size r)

is_value_eq : (z : ℤ) (x : ℕ) → is_value z x ≡ true → pos x ≡ z
is_value_eq (pos r) x h = ap pos ((==_iff x r).0 h)
is_value_eq (negsuc r) x h = cc

is_value_refl : (z : ℤ) (x : ℕ) → pos x ≡ z → is_value z x ≡ true
is_value_refl z x h = subst (λ z. is_value z x ≡ true) h (==_refl x)

not_value : (z : ℤ) (x : ℕ) → is_value z x ≡ false → pos x ≢ z
not_value z x h e = unlike (is_value_refl z x e) h
  where
    unlike : {b : Bool} → b ≡ true → b ≡ false → ⊥
    unlike p q = cc

-- acceptSubset on one value, on every branch: "xi >= n/2" for a value not below n / 2, "xi is not a
-- square root of yi" for one below it with another square. For any other value the index is 2 if it is r2,
-- 1 if it is r1 and not r2, and 5 if it is neither.
pub accept_value_lem :
    {Point : Type 0} (s : Seller Point) (ind x : ℕ)
    → (s.n / 2 ≤ x → accept_value s ind x ≡ err (protocol "xi >= n/2"))
      × (x < s.n / 2
          → x * x % s.n ≢ get_or s.y ind 0
          → accept_value s ind x ≡ err (protocol "xi is not a square root of yi"))
      × (x < s.n / 2
          → x * x % s.n ≡ get_or s.y ind 0
          → ((pos x ≡ get_or s.r2 ind (pos 0)) × (accept_value s ind x ≡ ok 2))
            ⊎ ((pos x ≢ get_or s.r2 ind (pos 0))
                × (pos x ≡ get_or s.r1 ind (pos 0))
                × (accept_value s ind x ≡ ok 1))
            ⊎ ((pos x ≢ get_or s.r2 ind (pos 0))
                × (pos x ≢ get_or s.r1 ind (pos 0))
                × (accept_value s ind x ≡ ok 5)))
unfolding accept_value
accept_value_lem s ind x = (
  λ high. rw (not_below high) refl,
  λ low other. rw (lt→ltb x (s.n / 2) low, unequal _ _ other) refl,
  λ low same. elim (Bool-cases (is_value (get_or s.r2 ind (pos 0)) x)) [
    | inl e ↦ inl (is_value_eq _ x e, rw (lt→ltb x (s.n / 2) low, (==_iff _ _).1 same, e) refl)
    | inr e ↦ elim (Bool-cases (is_value (get_or s.r1 ind (pos 0)) x)) [
      | inl e' ↦ inr (
          inl (
            not_value _ x e,
            is_value_eq _ x e',
            rw (lt→ltb x (s.n / 2) low, (==_iff _ _).1 same, e, e') refl,
          ))
      | inr e' ↦ inr (
          inr (
            not_value _ x e,
            not_value _ x e',
            rw (lt→ltb x (s.n / 2) low, (==_iff _ _).1 same, e, e') refl,
          ))
    ]
  ],
)
  where
    not_below : s.n / 2 ≤ x → ltb x (s.n / 2) ≡ false
    not_below high = ground arith
