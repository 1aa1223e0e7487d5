-- ===== src/SquareRoot/Sorting.antt =====
-- std::sort on integers, as the insertion of each, with what it keeps.
use selling_information.Base.{
  suc, ◌≡◌, ◌⊎◌, inl, inr, refl, ap, ◌∙◌, Bool, true, false, List, [], ◌∷◌, All, length, leb,
  if◌then◌else◌, Bool-cases, arith,
}
use selling_information.Base.Counting.{count}
use selling_information.Base.Int.{ℤ, pos, negsuc}
use mathlib.Core.List.{Perm}
use mathlib.Core.List.Perm as Perm

abbrev pub at_most : ℤ → ℤ → Bool
at_most (pos a) (pos b) = leb a b
at_most (pos a) (negsuc b) = false
at_most (negsuc a) (pos b) = true
at_most (negsuc a) (negsuc b) = leb b a

unfoldable pub insert : ℤ → List ℤ → List ℤ
insert x [] = x ∷ []
insert x (y ∷ ys) = let rest = insert x ys in if at_most x y then x ∷ y ∷ ys else y ∷ rest

unfoldable pub sort : List ℤ → List ℤ
sort [] = []
sort (x ∷ xs) = insert x (sort xs)

-- Each is at most all that follow.
abbrev pub IsSorted : List ℤ → Type 0
IsSorted [] = Unit
IsSorted (x ∷ xs) = All (λ y. at_most x y ≡ true) xs × IsSorted xs

at_most-total : (x y : ℤ) → at_most x y ≡ false → at_most y x ≡ true
at_most-total (pos a) (pos b) h = ground arith
at_most-total (pos a) (negsuc b) h = refl
at_most-total (negsuc a) (pos b) h = cc
at_most-total (negsuc a) (negsuc b) h = ground arith

pub insert-perm : (x : ℤ) (ys : List ℤ) → Perm (insert x ys) (x ∷ ys)
unfolding insert
insert-perm x [] = Perm.refl (x ∷ [])
insert-perm x (y ∷ ys) = elim (Bool-cases (at_most x y)) [
  | inl e ↦ rw e (Perm.refl (x ∷ y ∷ ys))
  | inr e ↦ rw e (Perm.trans (Perm.cons y (insert-perm x ys)) (Perm.swap x y ys))
]

pub sort-perm : (xs : List ℤ) → Perm (sort xs) xs
unfolding sort
sort-perm [] = Perm.refl []
sort-perm (x ∷ xs) = Perm.trans (insert-perm x (sort xs)) (Perm.cons x (sort-perm xs))

pub at_most_trans : (x y z : ℤ) → at_most x y ≡ true → at_most y z ≡ true → at_most x z ≡ true
at_most_trans (pos a) (pos b) (pos c) h k = ground arith
at_most_trans (pos a) (pos b) (negsuc c) h k = k
at_most_trans (pos a) (negsuc b) z h k = cc
at_most_trans (negsuc a) y (pos c) h k = refl
at_most_trans (negsuc a) (pos b) (negsuc c) h k = cc
at_most_trans (negsuc a) (negsuc b) (negsuc c) h k = ground arith

at_most_all :
    (x y : ℤ) (zs : List ℤ)
    → at_most x y ≡ true
    → All (λ z. at_most y z ≡ true) zs
    → All (λ z. at_most x z ≡ true) zs
at_most_all x y [] h all = tt
at_most_all x y (z ∷ zs) h all = (at_most_trans x y z h all.0, at_most_all x y zs h all.1)

pub All-insert {ℓ} : (P : ℤ → Type ℓ) (x : ℤ) (ys : List ℤ) → P x → All P ys → All P (insert x ys)
unfolding insert
All-insert P x [] h all = (h, tt)
All-insert P x (y ∷ ys) h all = elim (Bool-cases (at_most x y)) [
  | inl e ↦ rw e (h, all)
  | inr e ↦ rw e (all.0, All-insert P x ys h all.1)
]

-- A property of all is one of all, sorted.
pub All-sort {ℓ} : (P : ℤ → Type ℓ) (xs : List ℤ) → All P xs → All P (sort xs)
unfolding sort
All-sort P [] all = tt
All-sort P (x ∷ xs) all = All-insert P x (sort xs) all.0 (All-sort P xs all.1)

insert-IsSorted : (x : ℤ) (ys : List ℤ) → IsSorted ys → IsSorted (insert x ys)
unfolding insert
insert-IsSorted x [] h = (tt, tt)
insert-IsSorted x (y ∷ ys) h = elim (Bool-cases (at_most x y)) [
  | inl e ↦ rw e ((e, at_most_all x y ys e h.0), h)
  | inr e ↦ rw e (
    All-insert (λ z. at_most y z ≡ true) x ys (at_most-total x y e) h.0,
    insert-IsSorted x ys h.1,
  )
]

pub sort-IsSorted : (xs : List ℤ) → IsSorted (sort xs)
unfolding sort
sort-IsSorted [] = tt
sort-IsSorted (x ∷ xs) = insert-IsSorted x (sort xs) (sort-IsSorted xs)

length-insert : (x : ℤ) (ys : List ℤ) → length (insert x ys) ≡ suc (length ys)
unfolding insert
length-insert x [] = refl
length-insert x (y ∷ ys) = elim (Bool-cases (at_most x y)) [
  | inl e ↦ rw e refl
  | inr e ↦ rw e (ap suc (length-insert x ys))
]

pub length-sort : (xs : List ℤ) → length (sort xs) ≡ length xs
unfolding sort
length-sort [] = refl
length-sort (x ∷ xs) = length-insert x (sort xs) ∙ ap suc (length-sort xs)

count-insert :
    (test : ℤ → Bool) (x : ℤ) (ys : List ℤ) → count test (insert x ys) ≡ count test (x ∷ ys)
unfolding insert
count-insert test x [] = refl
count-insert test x (y ∷ ys) = elim (Bool-cases (at_most x y)) [
  | inl e ↦ rw e refl
  | inr e ↦ rw e (omega (arith, count-insert test x ys))
]

pub count-sort : (test : ℤ → Bool) (xs : List ℤ) → count test (sort xs) ≡ count test xs
unfolding sort
count-sort test [] = refl
count-sort test (x ∷ xs) = omega (arith, count-insert test x (sort xs), count-sort test xs)

-- A number is among the sorted ones if it is among the given ones.
abbrev pub IsIn : ℤ → List ℤ → Type 0
IsIn x [] = ⊥
IsIn x (y ∷ ys) = (x ≡ y) ⊎ IsIn x ys

IsIn-insert : (x y : ℤ) (ys : List ℤ) → (x ≡ y) ⊎ IsIn x ys → IsIn x (insert y ys)
unfolding insert
IsIn-insert x y [] h = h
IsIn-insert x y (z ∷ ys) h = elim (Bool-cases (at_most y z)) [
  | inl e ↦ rw e h
  | inr e ↦ rw e (elim h [
    | inl same ↦ inr (IsIn-insert x y ys (inl same))
    | inr among ↦ elim among [
      | inl same ↦ inl same
      | inr later ↦ inr (IsIn-insert x y ys (inr later))
    ]
  ])
]

pub IsIn-sort : (x : ℤ) (ys : List ℤ) → IsIn x ys → IsIn x (sort ys)
unfolding sort
IsIn-sort x [] h = absurd h
IsIn-sort x (y ∷ ys) (inl same) = IsIn-insert x y (sort ys) (inl same)
IsIn-sort x (y ∷ ys) (inr later) = IsIn-insert x y (sort ys) (inr (IsIn-sort x ys later))
