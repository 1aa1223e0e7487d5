-- ===== src/Tests/Signing.antt =====
-- The theorems on shared_sig.cpp with a group of three elements.
use selling_information.Base.{
  ℕ, ◌+◌, ◌-◌, ◌*◌, ◌%◌, ◌≤◌, ◌≡◌, ◌≢◌, refl, sym, ap, ◌∙◌, inl, inr, true, false, [], ◌∷◌,
  replicate, ◌==◌, ==_iff, Bool-cases, if◌then◌else◌, arith, ok, err, protocol,
}
use selling_information.Base.Int.{pos}
use selling_information.Modular.{mul-mod-mod}
use selling_information.Curve.{Curve}
use selling_information.Paillier.{Paillier, public_paillier}
use selling_information.Paillier.Homomorphism.{IsKey}
use selling_information.SharedSignature.Parties.{S, B}
use selling_information.SharedSignature.Running.{init, exec, opening}
use selling_information.SharedSignature.Setup.{IsShared, init-IsShared}
use selling_information.SharedSignature.Session.{exec-opening, exec-refused}
use selling_information.SharedSignature.Draws.{IsPrepared}
use selling_information.Tests.Reference.{number_theory, encoding, rng, decode}
use native.Mathlib.Nat.{mul_assoc}

-- v is the x coordinate of both points that are not the identity.
abbrev pub x_coordinate : ℕ → ℕ → ℕ
x_coordinate v a = if a % 3 == 0 then 0 else v

pub opposite : (v a b : ℕ) → (a + b) % 3 ≡ 0 → x_coordinate v a ≡ x_coordinate v b
opposite v a b e = elim (Bool-cases (a % 3 == 0)) [
  | inl t ↦ rw (t, both a b e t) refl
  | inr f ↦ rw (f, neither a b e f) refl
]
  where
    both : (a b : ℕ) → (a + b) % 3 ≡ 0 → (a % 3 == 0) ≡ true → (b % 3 == 0) ≡ true
    both a b e t = ground arith

    neither : (a b : ℕ) → (a + b) % 3 ≡ 0 → (a % 3 == 0) ≡ false → (b % 3 == 0) ≡ false
    neither a b e f = ground arith

pub unit_three : (k : ℕ) → k % 3 ≢ 0 → (j : ℕ) × (k * j % 3 ≡ 1)
unit_three k h = elim (Bool-cases (k % 3 == 1)) [
  | inl t ↦ (1, ground arith)
  | inr f ↦ (2, ground arith)
]

abbrev pub small_curve : ℕ → Curve
small_curve v = record {
  Point = ℕ;
  identity = 0;
  generator = 1;
  order = 3;
  order_bits = 2;
  order_bytes = 1;
  add = λ a b. (a + b) % 3;
  multiply = λ k a. k * a % 3;
  x_of = x_coordinate v;
  y_of = λ a. a;
  same = λ a b. a == b;
  same_iff = ==_iff;
  multiply-zero = λ a. omega arith;
  multiply-add = λ j k a. omega arith;
  multiply-multiply = λ j k a. mul-mod-mod j (k * a) 3 ∙ ap (λ i. i % 3) (sym (mul_assoc j k a));
  multiply-order = refl;
  multiply-eq-identity = λ k e. omega arith;
  x_of-opposite = opposite v;
  order_lt = omega arith;
  invertible = unit_three;
}

-- 160 * 90 = 14400 = 77 * 187 + 1.
abbrev pub key : Paillier
key = record { p = pos 11; q = pos 17; n = 187; n2 = 34969; y = 160; g = 188; u = 90; phi = 160 }

key-IsKey : IsKey key 11 17
key-IsKey = record {
  has_p = refl;
  has_q = refl;
  p_lt = omega arith;
  q_lt = omega arith;
  modulus = refl;
  squared = refl;
  generator = refl;
  exponent = refl;
  phi_pos = omega arith;
  inverse = refl;
}

abbrev pub signer : S ℕ
signer = record {
  data_bytes = replicate 32 5;
  ds = 1;
  ks = 0;
  q_s = 1;
  q_b = 2;
  q = 2;
  k_s = 0;
  paillier_key = key;
  cs = 0;
  r = 0;
  s = 0;
}

abbrev pub holder : B ℕ
holder = record {
  db = 2;
  kb = 0;
  q_s = 1;
  q_b = 2;
  q = 2;
  paillier_key = public_paillier 187 188;
  k = 0;
  r = 0;
  cb = 0;
  data_bytes = replicate 32 5;
  open_verified = false;
}

init-IsShared_example :
    let after = init (small_curve 1) number_theory rng encoding (signer, holder, 0) in
    (after.0 ≡ ok tt)
    × IsShared (small_curve 1) after.1.0 after.1.1
    × (after.1.0.data_bytes ≡ signer.data_bytes)
    × (after.1.1.data_bytes ≡ holder.data_bytes)
    × (after.1.0.paillier_key ≡ signer.paillier_key)
    × (after.1.1.paillier_key ≡ holder.paillier_key)
init-IsShared_example = init-IsShared (small_curve 1) number_theory rng encoding signer holder 0

shared : (v : ℕ) → IsShared (small_curve v) signer holder
shared v = record {
  ds_pos = omega arith;
  ds_lt = omega arith;
  db_pos = omega arith;
  db_lt = omega arith;
  key_s = refl;
  key_b = refl;
}

nonzero : (decode (5 ∷ []) + 2) % 3 ≢ 0
unfolding decode
nonzero e = ground (arith, e)

-- ks and kb are both drawn as 1, the factors as 2, 4 and 6.
one_IsPrepared : IsPrepared (small_curve 1) rng encoding signer holder 11 17 0
one_IsPrepared = record {
  shared = shared 1;
  key = key-IsKey;
  public = refl;
  size = omega arith;
  agreed = refl;
  hashed = refl;
  unit_cs = refl;
  unit_c1 = refl;
  unit_last = refl;
  r_pos = omega arith;
  s_pos = nonzero;
}

exec-opening_example :
    let after = exec (small_curve 1) number_theory rng encoding (signer, holder, 0) in
    let opened = opening (small_curve 1) number_theory rng encoding after.1 in
    (after.0 ≡ ok tt)
    × (opened.0 ≡ ok tt)
    × (opened.1.1.open_verified ≡ true)
    × (after.1.0.r ≡ 1)
    × (1 ≤ after.1.0.s)
    × (after.1.0.s ≤ 3 - after.1.0.s)
exec-opening_example =
    exec-opening (small_curve 1) number_theory rng encoding signer holder 11 17 0 one_IsPrepared
      (omega arith)

-- Here the points that are not the identity have an x coordinate above the order.
four_IsPrepared : IsPrepared (small_curve 4) rng encoding signer holder 11 17 0
four_IsPrepared = record {
  shared = shared 4;
  key = key-IsKey;
  public = refl;
  size = omega arith;
  agreed = refl;
  hashed = refl;
  unit_cs = refl;
  unit_c1 = refl;
  unit_last = refl;
  r_pos = omega arith;
  s_pos = nonzero;
}

exec-refused_example :
    (exec (small_curve 4) number_theory rng encoding (signer, holder, 0)).0
    ≡ err (protocol "Invalid signature generated!")
exec-refused_example =
    exec-refused (small_curve 4) number_theory rng encoding signer holder 11 17 0 four_IsPrepared
      (omega arith)
