-- ===== src/Base/Exec.antt =====
-- Methods that mutate an object and may throw: a result together with the state that is left.
use mathlib.Core.Bool.{Bool, true, false}
use mathlib.Core.Path.{◌≡◌, refl, ◌∙◌}
use mathlib.Core.List.{List, [], ◌∷◌}
use selling_information.Base.Errors.{Exception, Result, ok, err}

abbrev pub Exec {ℓ κ} : Type ℓ → Type κ → Type (ℓ ⊔ κ)
Exec S A = S → Result A × S

abbrev pub bind_result {ℓ κ ι} :
    {S : Type ℓ} {A : Type κ} {B : Type ι} → Result A → S → (A → Exec S B) → Result B × S
bind_result (ok a) s f = f a s
bind_result (err e) s f = (err e, s)

infixl 5 ◌>>=◌ ◌>>◌
abbrev pub ◌>>=◌ {ℓ κ ι} :
    {S : Type ℓ} {A : Type κ} {B : Type ι} → Exec S A → (A → Exec S B) → Exec S B
◌>>=◌ m f s = bind_result (m s).0 (m s).1 f

abbrev pub ◌>>◌ {ℓ κ} : {S : Type ℓ} {B : Type κ} → Exec S (Unit {0}) → Exec S B → Exec S B
◌>>◌ m k = m >>= λ _. k

abbrev pub return {ℓ κ} : {S : Type ℓ} {A : Type κ} → A → Exec S A
return a s = (ok a, s)

abbrev pub throw {ℓ κ} : {S : Type ℓ} {A : Type κ} → Exception → Exec S A
throw e s = (err e, s)

abbrev pub modify {ℓ} : {S : Type ℓ} → (S → S) → Exec S (Unit {0})
modify f s = (ok tt, f s)

abbrev pub gets {ℓ κ} : {S : Type ℓ} {A : Type κ} → (S → A) → Exec S A
gets f s = (ok (f s), s)

-- `if (!b) throw e;`
abbrev pub require {ℓ} : {S : Type ℓ} → Bool → Exception → Exec S (Unit {0})
require true e s = (ok tt, s)
require false e s = (err e, s)

-- A method of a part of the state.
abbrev pub zoom {ℓ κ ι} :
    {St : Type ℓ} {Part : Type κ} {A : Type ι}
    → (St → Part)
    → (Part → St → St)
    → Exec Part A
    → Exec St A
zoom get put method st = let after = method (get st) in (after.0, put after.1 st)

-- A call that may throw and changes nothing.
abbrev pub lift {ℓ κ} : {St : Type ℓ} {A : Type κ} → Result A → Exec St A
lift result st = (result, st)

ensures {ℓ κ ι υ} :
    {St : Type ℓ} {A : Type κ} {B : Type ι} (f : A → Exec St B) {y : B} (P : Result B × St → Type υ)
    → ((x : A) (st : St) → (f x st).0 ≡ ok y → P (f x st))
    → (r : Result A) (st : St) → (bind_result r st f).0 ≡ ok y
    → P (bind_result r st f)
ensures f P rest (ok x) st h = rest x st h
ensures f P rest (err e) st h = cc

-- What the rest of a sequence ensures where it throws nothing, the sequence ensures.
pub >>=-ensures {ℓ κ ι υ} :
    {St : Type ℓ} {A : Type κ} {B : Type ι} (m : Exec St A) (f : A → Exec St B) {y : B}
    (P : Result B × St → Type υ)
    → ((x : A) (st : St) → (f x st).0 ≡ ok y → P (f x st))
    → (st : St) → ((m >>= f) st).0 ≡ ok y
    → P ((m >>= f) st)
>>=-ensures m f P rest st h = ensures f P rest (m st).0 (m st).1 h

-- `for (i : is) body(i);` up to an exception.
abbrev pub each {ℓ κ} :
    {A : Type ℓ} {S : Type κ} → List A → (A → Exec S (Unit {0})) → Exec S (Unit {0})
each [] body s = (ok tt, s)
each (i ∷ is) body s = bind_result (body i s).0 (body i s).1 (λ u. each is body)

keeps {ℓ κ ι υ} :
    {St : Type ℓ} {A : Type κ} {B : Type ι} {C : Type υ} (g : St → C) (f : A → Exec St B)
    → ((x : A) (st : St) → g (f x st).1 ≡ g st)
    → (r : Result A) (st : St) → g (bind_result r st f).1 ≡ g st
keeps g f rest (ok x) st = rest x st
keeps g f rest (err e) st = refl

-- What both parts of a sequence leave as it was, the sequence does.
pub >>=-keeps {ℓ κ ι υ} :
    {St : Type ℓ} {A : Type κ} {B : Type ι} {C : Type υ} (g : St → C) (m : Exec St A)
    (f : A → Exec St B)
    → ((st : St) → g (m st).1 ≡ g st)
    → ((x : A) (st : St) → g (f x st).1 ≡ g st)
    → (st : St) → g ((m >>= f) st).1 ≡ g st
>>=-keeps g m f first rest st = keeps g f rest (m st).0 (m st).1 ∙ first st
