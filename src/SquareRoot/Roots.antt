-- ===== src/SquareRoot/Roots.antt =====
-- square_root finds a root where there is one.
use selling_information.Base.{
  ℕ, ◌-◌, ◌*◌, ◌%◌, ◌<◌, ◌≡◌, ◌≢◌, inl, inr, refl, sym, ap, ◌∙◌, Bool, true, false, ◌&&◌,
  Bool-cases, ==_iff, ◌==◌, ok, err, standard, arith,
}
use selling_information.Base.Int.{ℤ, pos}
use selling_information.Crypto.{NumberTheory, Residues}
use selling_information.Modular.{mul_congr}
use selling_information.Modular.Primes.{IsPrime, congr-product, opposite_squares}
use selling_information.SquareRoot.{
  SquareRoot, new_square_root, minus, is_minus_one, is_sign, with_sign, candidate, square_root,
}
use native.Mathlib.Nat.{mod-eq_of_lt, mod-mod_of_dvd, dvd-mul_right, dvd-mul_left, mod_self}

pub record IsWhole (root : SquareRoot) : Type 0 where
  pub p_prime : IsPrime root.p
  pub q_prime : IsPrime root.q
  pub unit : root.p * root.u % root.q ≡ 1
  pub product : root.n ≡ root.p * root.q

-- What the constructor makes of two primes with an inverse.
pub new_square_root-IsWhole :
    (nt : NumberTheory) (p q b : ℕ)
    → IsPrime p
    → IsPrime q
    → p * b % q ≡ 1
    → IsWhole (new_square_root nt p q)
unfolding new_square_root
new_square_root-IsWhole nt p q b hp hq unit = record {
  p_prime = hp;
  q_prime = hq;
  unit = nt.inverse_mod_lem p b q hq.0 unit;
  product = refl;
}

-- A congruence modulo n is one modulo its factors.
pub congr_left : (p q a b : ℕ) → a % (p * q) ≡ b % (p * q) → a % p ≡ b % p
congr_left p q a b h =
    sym (mod-mod_of_dvd p a (dvd-mul_right p q))
    ∙ ap (λ x. x % p) h
    ∙ mod-mod_of_dvd p b (dvd-mul_right p q)

pub congr_right : (p q a b : ℕ) → a % (p * q) ≡ b % (p * q) → a % q ≡ b % q
congr_right p q a b h =
    sym (mod-mod_of_dvd q a (dvd-mul_left q p))
    ∙ ap (λ x. x % q) h
    ∙ mod-mod_of_dvd q b (dvd-mul_left q p)

and_false : (a b : Bool) → (a && b) ≡ false → b ≡ true → a ≡ false
and_false true b h e = cc
and_false false b h e = refl

pub with_sign-square :
    (sign : ℤ) (m x : ℕ) → x < m → with_sign sign m x * with_sign sign m x % m ≡ x * x % m
with_sign-square sign m x lt = elim (Bool-cases (is_minus_one sign)) [
  | inl e ↦ rw e (opposite_squares m (m - x) x (ap (λ y. y % m) (omega arith) ∙ mod_self m))
  | inr e ↦ rw e refl
]

module _ (residues : Residues) (root : SquareRoot) (whole : IsWhole root) where
  -- Modulo each factor the candidate is the root with its sign.
  pub candidate-congr :
      (a : ℕ) (sx sy : ℤ)
      → (candidate residues root a sx sy % root.p
          ≡ with_sign sx root.p (residues.modular_square_root a root.p) % root.p)
        × (candidate residues root a sx sy % root.q
            ≡ with_sign sy root.q (residues.modular_square_root a root.q) % root.q)
  unfolding candidate
  candidate-congr a sx sy =
      residues.crt_lem (with_sign sx root.p (residues.modular_square_root a root.p)) root.p
        (with_sign sy root.q (residues.modular_square_root a root.q)) root.q root.u
        (whole.q_prime.0) whole.unit

  candidate-square :
      (a x : ℕ) (sx sy : ℤ)
      → x * x % root.n ≡ a % root.n
      → candidate residues root a sx sy * candidate residues root a sx sy % root.n ≡ a % root.n
  candidate-square a x sx sy h =
      ap (λ n. c * c % n) whole.product
      ∙ congr-product root.p root.q root.u (c * c) a whole.q_prime.0 whole.unit left right
      ∙ sym (ap (λ n. a % n) whole.product)
    where
      c : ℕ
      c = candidate residues root a sx sy

      given : x * x % (root.p * root.q) ≡ a % (root.p * root.q)
      given = sym (ap (λ n. x * x % n) whole.product) ∙ h ∙ ap (λ n. a % n) whole.product

      side :
          (sign : ℤ) (m : ℕ)
          → IsPrime m
          → x * x % m ≡ a % m
          → c % m ≡ with_sign sign m (residues.modular_square_root a m) % m
          → c * c % m ≡ a % m
      side sign m prime known congr =
          let w = with_sign sign m (residues.modular_square_root a m) in
          mul_congr c w c w m congr congr
          ∙ with_sign-square sign m (residues.modular_square_root a m)
              (residues.modular_square_root-lt a m (omega (arith, prime.0)))
          ∙ residues.modular_square_root_lem a m x prime known

      left : c * c % root.p ≡ a % root.p
      left =
          side sx root.p whole.p_prime (congr_left root.p root.q (x * x) a given)
            (candidate-congr a sx sy).0

      right : c * c % root.q ≡ a % root.q
      right =
          side sy root.q whole.q_prime (congr_right root.p root.q (x * x) a given)
            (candidate-congr a sx sy).1

  -- Below the modulus, the candidate for a number with a root is a root.
  pub square_root-eq-pos :
      (a x : ℕ) (sx sy : ℤ)
      → is_sign sx ≡ true
      → is_sign sy ≡ true
      → a < root.n
      → x * x % root.n ≡ a
      → (square_root residues root a sx sy ≡ ok (pos (candidate residues root a sx sy)))
        × (candidate residues root a sx sy * candidate residues root a sx sy % root.n ≡ a)
  unfolding square_root
  square_root-eq-pos a x sx sy hx hy lt h = (rw (hy, hx, (==_iff _ a).1 squared) refl, squared)
    where
      squared : candidate residues root a sx sy * candidate residues root a sx sy % root.n ≡ a
      squared = candidate-square a x sx sy (h ∙ sym (mod-eq_of_lt lt)) ∙ mod-eq_of_lt lt

  -- For a SquareRoot whose n is p * q, of primes p and q, and whose u is an inverse of p modulo q
  -- (IsWhole), and for a below n: with a sign other than 1 and -1, square_root throws std::exception. With two signs,
  -- it returns a square root of a modulo n if there is one, and -1 if there is none.
  pub square_root_lem :
      (a : ℕ) (sx sy : ℤ)
      → a < root.n
      → ((is_sign sx && is_sign sy) ≡ false → square_root residues root a sx sy ≡ err standard)
        × (is_sign sx ≡ true
            → is_sign sy ≡ true
            → ((x : ℕ)
                → x * x % root.n ≡ a
                → (r : ℕ) × (square_root residues root a sx sy ≡ ok (pos r)) × (r * r % root.n ≡ a))
              × (((x : ℕ) → x * x % root.n ≢ a) → square_root residues root a sx sy ≡ ok minus))
  unfolding square_root
  square_root_lem a sx sy lt = (
    refused,
    λ hx hy. (
      λ x h.
          let made = square_root-eq-pos a x sx sy hx hy lt h in
          (candidate residues root a sx sy, made.0, made.1),
      none_found hx hy,
    ),
  )
    where
      refused :
          (is_sign sx && is_sign sy) ≡ false → square_root residues root a sx sy ≡ err standard
      refused h = elim (Bool-cases (is_sign sy)) [
        | inl e ↦ rw (e, and_false (is_sign sx) (is_sign sy) h e) refl
        | inr e ↦ rw e refl
      ]

      none_found :
          is_sign sx ≡ true
          → is_sign sy ≡ true
          → ((x : ℕ) → x * x % root.n ≢ a)
          → square_root residues root a sx sy ≡ ok minus
      none_found hx hy none =
          let c = candidate residues root a sx sy in
          elim (Bool-cases (c * c % root.n == a)) [
            | inl e ↦ absurd (none c ((==_iff _ a).0 e))
            | inr e ↦ rw (hy, hx, e) refl
          ]
