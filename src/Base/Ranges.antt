-- ===== src/Base/Ranges.antt =====
-- Counted loops: the list of the indices that they run through.
use Prim.Native.Nat.{ℕ, zero, suc, ◌+◌, ◌≤◌, ◌<◌}
use mathlib.Core.Path.{◌≡◌, refl, ap, ◌∙◌}
use mathlib.Core.List.{List, [], ◌∷◌, map}
use native.Mathlib.Omega.{arith}
use selling_information.Base.Lists.{length, get_or, All}

-- The `n` numbers from `i` on.
abbrev pub indices : ℕ → ℕ → List ℕ
indices i zero = []
indices i (suc n) = i ∷ indices (i + 1) n

pub length-indices : (i n : ℕ) → length (indices i n) ≡ n
length-indices i zero = refl
length-indices i (suc n) = ap suc (length-indices (i + 1) n)

pub get_or-map-indices {ℓ} :
    {A : Type ℓ} (f : ℕ → A) (i n j : ℕ) (d : A)
    → j < n
    → get_or (map f (indices i n)) j d ≡ f (i + j)
get_or-map-indices f i zero j d h = elim h [ ]
get_or-map-indices f i (suc n) zero d h = ap f (omega arith)
get_or-map-indices f i (suc n) (suc j) d h =
    get_or-map-indices f (i + 1) n j d (omega arith) ∙ ap f (omega arith)

-- A property of every index, for a loop over them.
pub All-indices {ℓ} :
    (P : ℕ → Type ℓ) (i n : ℕ) → ((j : ℕ) → i ≤ j → j < i + n → P j) → All P (indices i n)
All-indices P i zero h = tt
All-indices P i (suc n) h = (
  h i (omega arith) (omega arith),
  All-indices P (i + 1) n (λ j p q. h j (omega arith) (omega arith)),
)

-- An entry of a table whose entry 0 stands apart.
pub get_or-tabulated {ℓ} :
    {A : Type ℓ} (f : ℕ → A) (first d : A) (k i : ℕ)
    → 1 ≤ i
    → i < 1 + k
    → get_or (first ∷ map f (indices 1 k)) i d ≡ f i
get_or-tabulated f first d k zero p q = absurd (omega arith)
get_or-tabulated f first d k (suc i) p q =
    get_or-map-indices f 1 k i d (omega arith) ∙ ap f (omega arith)

pub get_or-map {ℓ κ} :
    {A : Type ℓ} {B : Type κ} (f : A → B) (xs : List A) (i : ℕ) (a : A) (b : B)
    → i < length xs
    → get_or (map f xs) i b ≡ f (get_or xs i a)
get_or-map f [] i a b h = elim h [ ]
get_or-map f (x ∷ xs) zero a b h = refl
get_or-map f (x ∷ xs) (suc i) a b h = get_or-map f xs i a b (omega arith)

map-indices-suc {ℓ} :
    {A : Type ℓ} (f : ℕ → A) (i n : ℕ)
    → map f (indices (suc i) n) ≡ map (λ j. f (suc j)) (indices i n)
map-indices-suc f i zero = refl
map-indices-suc f i (suc n) =
    ap (λ rest. f (suc i) ∷ rest)
      (ap (λ j. map f (indices j n)) (omega arith) ∙ map-indices-suc f (i + 1) n)

-- A loop over the indices of a list is one over the list.
pub map-get_or-indices {ℓ κ} :
    {A : Type ℓ} {B : Type κ} (f : A → B) (xs : List A) (d : A)
    → map (λ i. f (get_or xs i d)) (indices 0 (length xs)) ≡ map f xs
map-get_or-indices f [] d = refl
map-get_or-indices f (x ∷ xs) d =
    ap (λ rest. f x ∷ rest)
      (map-indices-suc (λ i. f (get_or (x ∷ xs) i d)) 0 (length xs) ∙ map-get_or-indices f xs d)
