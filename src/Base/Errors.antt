-- ===== src/Base/Errors.antt =====
-- Results of code that may throw, and their do blocks.
use Prim.Native.String.{String}
use mathlib.Core.Path.{◌≡◌, refl}
use mathlib.Core.Logic.{◌⊎◌, inl, inr}
use mathlib.Core.Bool.{Bool, true, false}
use mathlib.Core.List.{List, [], ◌∷◌}
use selling_information.Base.Lists.{All}

-- The classes that the program throws. `protocol` is the class of protocol.h, `timed_protocol` and
-- `sanity` those of timed_commitment.h, `paillier` that of paillier.h, `standard` std::exception.
pub data Exception : Type 0 where
  protocol : String → Exception
  timed_protocol : String → Exception
  sanity : String → Exception
  paillier : String → Exception
  standard : Exception
  -- Integer::DivideByZero of Crypto++.
  divide_by_zero : Exception
  -- No exception of the program: a loop of the model has used up its fuel.
  out_of_fuel : Exception

pub data Result {ℓ} (A : Type ℓ) : Type ℓ where
  ok : A → Result A
  err : Exception → Result A

infixl 5 ◌>>=◌ ◌>>◌
abbrev pub ◌>>=◌ {ι κ} : {X : Type ι} {Y : Type κ} → Result X → (X → Result Y) → Result Y
ok x >>= next = next x
err thrown >>= next = err thrown

abbrev pub ◌>>◌ {κ} : {Y : Type κ} → Result (Unit {0}) → Result Y → Result Y
first >> second = first >>= λ done. second

-- `if (!b) throw e;`
abbrev pub guard : Bool → Exception → Result (Unit {0})
guard true thrown = ok tt
guard false thrown = err thrown

-- `for (i : is) body(i);` where the body may throw.
abbrev pub for_each {ℓ} : {A : Type ℓ} → List A → (A → Result (Unit {0})) → Result (Unit {0})
for_each [] body = ok tt
for_each (x ∷ xs) body = body x >> for_each xs body

-- A loop whose rounds all pass is passed.
pub for_each-ok {ℓ} :
    {A : Type ℓ} (xs : List A) (body : A → Result (Unit {0}))
    → All (λ x. body x ≡ ok tt) xs
    → for_each xs body ≡ ok tt
for_each-ok [] body h = refl
for_each-ok (x ∷ xs) body h = rw h.0 (for_each-ok xs body h.1)

-- Inversion of a bind that succeeds.
pub >>=-eq-ok {ι κ} :
    {X : Type ι} {Y : Type κ} (first : Result X) (next : X → Result Y) {y : Y}
    → (first >>= next) ≡ ok y
    → (x : X) × (first ≡ ok x) × (next x ≡ ok y)
>>=-eq-ok (ok x) next same = (x, refl, same)
>>=-eq-ok (err thrown) next same = cc

pub >>-eq-ok {ℓ} :
    {B : Type ℓ} (m : Result (Unit {0})) (k : Result B) {b : B}
    → (m >> k) ≡ ok b
    → (m ≡ ok tt) × (k ≡ ok b)
>>-eq-ok (ok tt) k h = (refl, h)
>>-eq-ok (err e) k h = cc

pub guard-eq-ok : (b : Bool) (e : Exception) {u : Unit {0}} → guard b e ≡ ok u → b ≡ true
guard-eq-ok true e h = refl
guard-eq-ok false e h = cc

pub for_each-All {ℓ} :
    {A : Type ℓ} (xs : List A) (body : A → Result (Unit {0}))
    → for_each xs body ≡ ok tt
    → All (λ x. body x ≡ ok tt) xs
for_each-All [] body h = tt
for_each-All (x ∷ xs) body h =
    let parts = >>-eq-ok (body x) (for_each xs body) h in (parts.0, for_each-All xs body parts.1)

pub Result-cases {ℓ} :
    {A : Type ℓ} (r : Result A) → ((a : A) × (r ≡ ok a)) ⊎ ((e : Exception) × (r ≡ err e))
Result-cases (ok a) = inl (a, refl)
Result-cases (err e) = inr (e, refl)
