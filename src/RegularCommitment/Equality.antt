-- ===== src/RegularCommitment/Equality.antt =====
-- The comparison loop of regular_commitment.h decides equality of digests.
use selling_information.Base.{
  ℕ, zero, suc, ◌+◌, ◌≤◌, ◌<◌, ◌≡◌, refl, ap, ◌↔◌, inl, inr, true, List, [], ◌∷◌, ◌==◌, ==_iff,
  Bool-cases, arith, length, get_or,
}
use selling_information.RegularCommitment.{RegularCommitment, commitment_size, digest_eq, equals}

digest_eq-get_or :
    (n i j : ℕ) (x y : List ℕ)
    → digest_eq n i x y ≡ true
    → i ≤ j
    → j < i + n
    → get_or x j 0 ≡ get_or y j 0
unfolding digest_eq
digest_eq-get_or zero i j x y h le lt = absurd (omega arith)
digest_eq-get_or (suc n) i j x y h le lt = elim (Bool-cases (j == i)) [
  | inl e ↦
      ground (
        arith,
        ap (λ k. get_or x k 0) ((==_iff j i).0 e),
        ap (λ k. get_or y k 0) ((==_iff j i).0 e),
      )
  | inr e ↦ ground (arith, digest_eq-get_or n (i + 1) j x y)
]

digest_eq_refl : (n i : ℕ) (x : List ℕ) → digest_eq n i x x ≡ true
unfolding digest_eq
digest_eq_refl zero i x = refl
digest_eq_refl (suc n) i x = ground (arith, digest_eq_refl n (i + 1) x)

list_ext :
    (x y : List ℕ)
    → length x ≡ length y
    → ((j : ℕ) → j < length x → get_or x j 0 ≡ get_or y j 0)
    → x ≡ y
list_ext [] [] e h = refl
list_ext [] (b ∷ y) e h = absurd (omega arith)
list_ext (a ∷ x) [] e h = absurd (omega arith)
list_ext (a ∷ x) (b ∷ y) e h =
    ground (arith, h 0 (omega arith), list_ext x y (omega arith) (λ j lt. h (suc j) (omega arith)))

-- For commitments whose digests have 32 bytes operator== is true exactly when they are equal.
pub equals_iff :
    (c d : RegularCommitment)
    → length c.digest ≡ commitment_size
    → length d.digest ≡ commitment_size
    → (equals c d ≡ true) ↔ (c ≡ d)
unfolding equals
equals_iff c d p q = (
  λ h.
      ap (λ (x : List ℕ). record { digest = x })
        (list_ext c.digest d.digest (omega arith)
          λ j lt. digest_eq-get_or 32 0 j c.digest d.digest h (omega arith) (omega arith)),
  λ e. subst_eq e,
)
  where
    subst_eq : c ≡ d → equals c d ≡ true
    subst_eq e = rw (← e) (digest_eq_refl 32 0 c.digest)
