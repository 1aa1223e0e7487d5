-- ===== src/SquareRoot.antt =====
-- common/square_root.h and square_root.cpp: the square roots modulo n of the class SquareRoot, from
-- those modulo its factors. An array of four numbers is a list.
pub mod Sorting
pub mod Roots
pub mod Candidates
pub mod Lower
use selling_information.Base.{
  ℕ, ◌-◌, ◌*◌, ◌%◌, Bool, true, false, ◌||◌, List, [], ◌∷◌, ◌==◌, if◌then◌else◌, Result, ok, err,
  guard, standard,
}
use selling_information.Base.Errors.{◌>>=◌, ◌>>◌}
use selling_information.Base.Int.{ℤ, pos, negsuc}
use selling_information.Crypto.{NumberTheory, Residues}
use selling_information.SquareRoot.Sorting.{sort}

pub record SquareRoot : Type 0 where
  pub p : ℕ
  pub q : ℕ
  pub n : ℕ
  pub u : ℕ

unfoldable pub new_square_root : NumberTheory → ℕ → ℕ → SquareRoot
new_square_root nt p q = record { p = p; q = q; n = p * q; u = nt.inverse_mod p q }

-- The signs 1 and -1.
abbrev pub plus : ℤ
plus = pos 1

abbrev pub minus : ℤ
minus = negsuc 0

abbrev pub is_one : ℤ → Bool
is_one (pos n) = n == 1
is_one (negsuc n) = false

abbrev pub is_minus_one : ℤ → Bool
is_minus_one (pos n) = false
is_minus_one (negsuc n) = n == 0

abbrev pub is_sign : ℤ → Bool
is_sign sign = is_minus_one sign || is_one sign

-- `if (sign == -1) x = m - x;`
abbrev pub with_sign : ℤ → ℕ → ℕ → ℕ
with_sign sign m x = if is_minus_one sign then m - x else x

module _ (residues : Residues) (root : SquareRoot) where
  -- The number that the Chinese remainder theorem makes of the two roots.
  unfoldable pub candidate : ℕ → ℤ → ℤ → ℕ
  candidate a sign_x sign_y =
      let xp = with_sign sign_x root.p (residues.modular_square_root a root.p) in
      let xq = with_sign sign_y root.q (residues.modular_square_root a root.q) in
      residues.crt xp root.p xq root.q root.u

  unfoldable pub square_root : ℕ → ℤ → ℤ → Result ℤ
  square_root a sign_x sign_y = do
    guard (is_sign sign_y) standard
    guard (is_sign sign_x) standard
    let x = candidate a sign_x sign_y
    ok (if x * x % root.n == a then pos x else minus)

  unfoldable pub all_square_roots : ℕ → Result (List ℤ)
  unfolding sort
  all_square_roots a = do
    r1 ← square_root a minus minus
    r2 ← square_root a plus minus
    r3 ← square_root a minus plus
    r4 ← square_root a plus plus
    ok (sort (r1 ∷ r2 ∷ r3 ∷ r4 ∷ []))
