-- ===== src/SquareRoot/Candidates.antt =====
-- The four candidates of all_square_roots: every square root is one of them, and two with opposite
-- signs reach n together.
use selling_information.Base.{
  ℕ, zero, suc, ◌+◌, ◌-◌, ◌*◌, ◌%◌, ◌≤◌, ◌<◌, ◌≡◌, ◌⊎◌, inl, inr, refl, sym, ap, ap₂, subst, ◌∙◌,
  List, [], ◌∷◌, leb, Bool-cases, ok, arith,
}
use selling_information.Base.Int.{ℤ, pos}
use selling_information.Crypto.{Residues}
use selling_information.Modular.{add_congr}
use selling_information.Modular.Primes.{
  IsPrime, congr-product, prime-roots, mod-product, add_cancel,
}
use selling_information.SquareRoot.{SquareRoot, plus, minus, with_sign, candidate, all_square_roots}
use selling_information.SquareRoot.Sorting.{sort, IsIn}
use selling_information.SquareRoot.Roots.{
  IsWhole, square_root-eq-pos, candidate-congr, congr_left, congr_right,
}
use native.Mathlib.Nat.{mod-eq_of_lt, mod_self, zero-mod}

-- One of the two signs.
abbrev pub OneOf : ℤ → Type 0
OneOf s = (s ≡ plus) ⊎ (s ≡ minus)

sign_for :
    (m x y : ℕ)
    → y < m
    → (x % m ≡ y % m) ⊎ ((x + y) % m ≡ 0)
    → (s : ℤ) × OneOf s × (with_sign s m y < m) × (x % m ≡ with_sign s m y % m)
sign_for m x y lt (inl e) = (plus, inl refl, lt, e)
sign_for m x zero lt (inr e) =
    (plus, inl refl, lt, ap (λ z. z % m) (omega arith) ∙ e ∙ sym (zero-mod m))
sign_for m x (suc y) lt (inr e) = (
  minus,
  inr refl,
  omega arith,
  add_cancel m x (m - suc y) (suc y) (e ∙ sym (mod_self m) ∙ ap (λ z. z % m) (omega arith)),
)

module _ (residues : Residues) (root : SquareRoot) (whole : IsWhole root) where
  abbrev pub c : ℕ → ℤ → ℤ → ℕ
  c = candidate residues root

  abbrev pub four : ℕ → List ℤ
  four a =
      pos (c a minus minus) ∷ pos (c a plus minus) ∷ pos (c a minus plus) ∷ pos (c a plus plus) ∷ []

  pub all_square_roots-eq-sort :
      (a x : ℕ)
      → a < root.n
      → x * x % root.n ≡ a
      → all_square_roots residues root a ≡ ok (sort (four a))
  unfolding all_square_roots
  all_square_roots-eq-sort a x lt h =
      rw
        (
          (square_root-eq-pos residues root whole a x minus minus refl refl lt h).0,
          (square_root-eq-pos residues root whole a x plus minus refl refl lt h).0,
          (square_root-eq-pos residues root whole a x minus plus refl refl lt h).0,
          (square_root-eq-pos residues root whole a x plus plus refl refl lt h).0,
        )
        refl

  -- Modulo a factor, a root of a is the one that the code takes, with one of the signs.
  factor_sign :
      (a x m : ℕ)
      → IsPrime m
      → x * x % m ≡ a % m
      → (s : ℤ) × OneOf s
        × (with_sign s m (residues.modular_square_root a m) < m)
        × (x % m ≡ with_sign s m (residues.modular_square_root a m) % m)
  factor_sign a x m prime known =
      let y = residues.modular_square_root a m in
      sign_for m x y (residues.modular_square_root-lt a m (omega (arith, prime.0)))
        (prime-roots m x y prime (known ∙ sym (residues.modular_square_root_lem a m x prime known)))

  -- Every root below n is a candidate.
  is_candidate :
      (a x : ℕ)
      → a < root.n
      → x * x % root.n ≡ a
      → x < root.n
      → (sx : ℤ) × (sy : ℤ) × OneOf sx × OneOf sy × (x ≡ c a sx sy)
  unfolding candidate
  is_candidate a x lt h below = (at_p.0, at_q.0, at_p.1, at_q.1, equal)
    where
      given : x * x % (root.p * root.q) ≡ a % (root.p * root.q)
      given =
          sym (ap (λ n. x * x % n) whole.product)
          ∙ h
          ∙ sym (mod-eq_of_lt lt)
          ∙ ap (λ n. a % n) whole.product

      at_p :
          (s : ℤ) × OneOf s
          × (with_sign s root.p (residues.modular_square_root a root.p) < root.p)
          × (x % root.p ≡ with_sign s root.p (residues.modular_square_root a root.p) % root.p)
      at_p = factor_sign a x root.p whole.p_prime (congr_left root.p root.q (x * x) a given)

      at_q :
          (s : ℤ) × OneOf s
          × (with_sign s root.q (residues.modular_square_root a root.q) < root.q)
          × (x % root.q ≡ with_sign s root.q (residues.modular_square_root a root.q) % root.q)
      at_q = factor_sign a x root.q whole.q_prime (congr_right root.p root.q (x * x) a given)

      congr : x % (root.p * root.q) ≡ c a at_p.0 at_q.0 % (root.p * root.q)
      congr =
          let made = candidate-congr residues root whole a at_p.0 at_q.0 in
          congr-product root.p root.q root.u x (c a at_p.0 at_q.0) whole.q_prime.0 whole.unit
            (at_p.3 ∙ sym made.0) (at_q.3 ∙ sym made.1)

      equal : x ≡ c a at_p.0 at_q.0
      equal =
          sym (mod-eq_of_lt (subst (λ n. x < n) whole.product below))
          ∙ congr
          ∙ mod-eq_of_lt (residues.crt-lt _ root.p _ root.q root.u at_p.2 at_q.2 whole.unit)

  pub among : (a x : ℕ) → a < root.n → x * x % root.n ≡ a → x < root.n → IsIn (pos x) (four a)
  among a x lt h below =
      let found = is_candidate a x lt h below in
      place found.0 found.1 found.2 found.3 (ap pos found.4)
    where
      place : (sx sy : ℤ) → OneOf sx → OneOf sy → pos x ≡ pos (c a sx sy) → IsIn (pos x) (four a)
      place sx sy (inl p) (inl q) e = inr (inr (inr (inl (e ∙ ap₂ (λ s t. pos (c a s t)) p q))))
      place sx sy (inl p) (inr q) e = inr (inl (e ∙ ap₂ (λ s t. pos (c a s t)) p q))
      place sx sy (inr p) (inl q) e = inr (inr (inl (e ∙ ap₂ (λ s t. pos (c a s t)) p q)))
      place sx sy (inr p) (inr q) e = inl (e ∙ ap₂ (λ s t. pos (c a s t)) p q)

  abbrev pub Opposite : ℤ → ℤ → Type 0
  Opposite s t = (m y : ℕ) → y < m → with_sign s m y + with_sign t m y ≡ m

  -- Two candidates with opposite signs reach n together.
  pub candidate-le :
      (a : ℕ) (sx sy tx ty : ℤ)
      → Opposite sx tx
      → Opposite sy ty
      → 0 < a
      → c a sx sy * c a sx sy % root.n ≡ a
      → root.n ≤ c a sx sy + c a tx ty
  candidate-le a sx sy tx ty hx hy positive square =
      elim (Bool-cases (leb root.n (c a sx sy + c a tx ty))) [
        | inl e ↦ ground arith
        | inr e ↦ absurd (omega (arith, positive, vanishes (ground arith)))
      ]
    where
      at :
          (m : ℕ)
          → 0 < m
          → (u v : ℕ) (s t : ℤ) → Opposite s t
          → u % m ≡ with_sign s m (residues.modular_square_root a m) % m
          → v % m ≡ with_sign t m (residues.modular_square_root a m) % m
          → (u + v) % m ≡ 0
      at m large u v s t opp hu hv =
          let y = residues.modular_square_root a m in
          add_congr u (with_sign s m y) v (with_sign t m y) m hu hv
          ∙ ap (λ z. z % m) (opp m y (residues.modular_square_root-lt a m large))
          ∙ mod_self m

      sum_vanishes : (c a sx sy + c a tx ty) % root.n ≡ 0
      sum_vanishes =
          let made = candidate-congr residues root whole a sx sy in
          let other = candidate-congr residues root whole a tx ty in
          ap (λ n. (c a sx sy + c a tx ty) % n) whole.product
          ∙ mod-product root.p root.q root.u (c a sx sy + c a tx ty) whole.q_prime.0 whole.unit
              (at root.p (omega (arith, whole.p_prime.0)) _ _ sx tx hx made.0 other.0)
              (at root.q (omega (arith, whole.q_prime.0)) _ _ sy ty hy made.1 other.1)

      vanishes : c a sx sy + c a tx ty < root.n → a ≡ 0
      vanishes lt = sym square ∙ ap (λ z. z * z % root.n) none ∙ zero-mod root.n
        where
          none : c a sx sy ≡ 0
          none = omega (arith, sum_vanishes, mod-eq_of_lt lt)
