-- ===== src/CutAndChoose/Soundness.antt =====
-- cut_and_choose.h: what an accepting run shows.
use selling_information.Base.{
  Result-cases, ℕ, zero, suc, ◌+◌, ◌≡◌, refl, sym, ap, subst, ◌∙◌, ◌≢◌, inl, inr, Bool, true, false,
  List, [], ◌∷◌, Option, none, some, get_elem?, Exception, ◌==◌, ==_iff, Bool-cases, All, arith,
  Result, ok, err,
}
use selling_information.Base.Exec.{◌>>◌}
use selling_information.Protocol.{Protocol}
use selling_information.CutAndChoose.{
  Choice, run_all, open_all, cheat_if, cut_and_choose, cheat_at, verdict, forget,
}

err_ne_unit : {e : Exception} → ◌≡◌ {A = Result (Unit {0})} (err e) (ok tt) → ⊥
err_ne_unit h = cc

err_ne_ok : {e : Exception} {b : Bool} → ◌≡◌ {A = Result Bool} (err e) (ok b) → ⊥
err_ne_ok h = cc

false_ne_true : ◌≡◌ {A = Result Bool} (ok false) (ok true) → ⊥
false_ne_true h = ground arith

module _ {A B World : Type 0} (p : Protocol A B World) (verified : B → Bool) where
  -- Opening the instance from some world succeeds and the verifier's half is verified.
  abbrev pub Opens : A × B → Type 0
  Opens (a, b) =
      (world : World) × ((p.opening (a, b, world)).0 ≡ ok tt)
      × (verified (p.opening (a, b, world)).1.1 ≡ true)

  -- Before and after the second loop, from index i on: the chosen instance is as it was, every
  -- other is verified.
  abbrev pub Checked : ℕ → ℕ → List (A × B) → List (A × B) → Type 0
  Checked chosen i [] after = Unit {0}
  Checked chosen i (x ∷ before) [] = ⊥
  Checked chosen i (x ∷ before) (y ∷ after) =
      ((i ≡ chosen → y ≡ x) × (i ≢ chosen → verified y.1 ≡ true) × (i ≢ chosen → Opens x))
      × Checked chosen (i + 1) before after

  open_all-Checked :
      (chosen i : ℕ) (parties : List (A × B)) (world : World)
      → (open_all p verified chosen i parties world).0 ≡ ok true
      → Checked chosen i parties (open_all p verified chosen i parties world).1
  unfolding open_all
  open_all-Checked chosen i [] world h = tt
  open_all-Checked chosen i ((a, b) ∷ rest) world h = elim (Bool-cases (i == chosen)) [
    | inl skip ↦
        let same = (==_iff i chosen).0 skip in
        let later = open_all-Checked chosen (i + 1) rest world (rw (skip, open_all) at h) in
        rw (skip, open_all, Checked)
          ((λ _. refl, λ d. absurd (d same), λ d. absurd (d same)), later)
    | inr go ↦ elim (Result-cases (p.opening (a, b, world)).0) [
      | inr (e, threw) ↦ absurd (err_ne_ok (rw (go, threw, open_all) at h))
      | inl (u, opened) ↦ elim (Bool-cases (verified (p.opening (a, b, world)).1.1)) [
        | inr bad ↦ absurd (false_ne_true (rw (go, opened, bad, open_all) at h))
        | inl good ↦
            let later =
              open_all-Checked chosen (i + 1) rest (p.opening (a, b, world)).1.2
                (rw (go, opened, good, open_all) at h) in
            rw (go, opened, good, open_all, Checked)
              ((λ e. absurd (differs e go), λ _. good, λ _. (world, opened, good)), later)
      ]
    ]
  ]
    where
      differs : i ≡ chosen → (i == chosen) ≡ false → ⊥
      differs e d = ground arith

verdict_cases : (r : Result Bool) → forget r ≡ ok tt → verdict r ≡ true → r ≡ ok true
verdict_cases (ok true) f v = refl
verdict_cases (ok false) f v = cc
verdict_cases (err e) f v = cc

module _ {A B World : Type 0} (p : Protocol A B World) (verified : B → Bool)
    (cheat : A → Result A) where
  -- A run, with a cheating prover or not, that throws nothing and whose verdict is true has opened
  -- and verified every instance but the chosen one, as the prover had it after the first loop and
  -- the cheating, and has left the chosen one as it was then.
  pub cut_and_choose-Checked :
      (cheater : Option ℕ) (v : Choice A B World)
      → (cut_and_choose p verified cheat cheater v).0 ≡ ok tt
      → (cut_and_choose p verified cheat cheater v).1.res ≡ true
      → (parties : List (A × B)) × (cheat_if cheat cheater (run_all p verified v.parties v.world).1
          ≡ ok parties)
        × Checked p verified v.chosen 0 parties
            (cut_and_choose p verified cheat cheater v).1.parties
  unfolding cut_and_choose
  cut_and_choose-Checked cheater v h verdict_true =
      elim (Result-cases (run_all p verified v.parties v.world).0) [
        | inr (e, threw) ↦ absurd (err_ne_unit (rw (threw, cut_and_choose) at h))
        | inl (u, ran) ↦
            elim (Result-cases (cheat_if cheat cheater (run_all p verified v.parties v.world).1)) [
              | inr (e, threw) ↦ absurd (err_ne_unit (rw (ran, threw, cut_and_choose) at h))
              | inl (parties, cheated) ↦
                  let accepted =
                    verdict_cases
                      (open_all p verified v.chosen 0 parties
                        (run_all p verified v.parties v.world).2).0
                      (rw (ran, cheated, cut_and_choose) at h)
                      (rw (ran, cheated, cut_and_choose) at verdict_true) in
                  (
                    parties,
                    cheated,
                    rw (ran, cheated, cut_and_choose)
                        (open_all-Checked p verified v.chosen 0 parties
                          (run_all p verified v.parties v.world).2 accepted),
                  )
            ]
      ]

  module _ (Good : A × B → Type 0)
      (made : (a : A) (b : B) (world : World)
        → let after = (p.init >> p.exec) (a, b, world) in
          (after.0 ≡ ok tt) × Good (after.1.0, after.1.1))
      (opens : (a : A) (b : B) (world : World)
        → Good (a, b)
        → let after = p.opening (a, b, world) in
          (after.0 ≡ ok tt) × (verified after.1.1 ≡ true)) where
    pub run_all-Good :
        (parties : List (A × B)) (world : World)
        → ((run_all p verified parties world).0 ≡ ok tt)
          × All Good (run_all p verified parties world).1
    unfolding run_all
    run_all-Good [] world = (refl, tt)
    run_all-Good ((a, b) ∷ rest) world =
        let here = made a b world in
        let later = run_all-Good rest ((p.init >> p.exec) (a, b, world)).1.2 in
        rw (here.0, run_all) (later.0, (here.1, later.1))

    open_all-Good :
        (chosen i : ℕ) (parties : List (A × B)) (world : World)
        → All Good parties
        → (open_all p verified chosen i parties world).0 ≡ ok true
    unfolding open_all
    open_all-Good chosen i [] world h = refl
    open_all-Good chosen i ((a, b) ∷ rest) world h = elim (Bool-cases (i == chosen)) [
      | inl skip ↦ rw (skip, open_all) (open_all-Good chosen (i + 1) rest world h.1)
      | inr go ↦
          let here = opens a b world h.0 in
          rw (go, here.0, here.1, open_all)
            (open_all-Good chosen (i + 1) rest (p.opening (a, b, world)).1.2 h.1)
    ]

    -- A prover who does not cheat is accepted, where exec always leaves an instance that opens.
    pub cut_and_choose_honest :
        (v : Choice A B World)
        → ((cut_and_choose p verified cheat none v).0 ≡ ok tt)
          × ((cut_and_choose p verified cheat none v).1.res ≡ true)
    unfolding cut_and_choose cheat_if
    cut_and_choose_honest v =
        let ran = run_all-Good v.parties v.world in
        rw
          (
            ran.0,
            cut_and_choose,
            open_all-Good v.chosen 0 (run_all p verified v.parties v.world).1
                (run_all p verified v.parties v.world).2 ran.1,
          )
          (refl, refl)

some_inj {ℓ} : {A : Type ℓ} {x y : A} → some x ≡ some y → x ≡ y
some_inj e = cc

module _ {A B World : Type 0} (p : Protocol A B World) (verified : B → Bool) where
  pub Checked-Opens :
      (chosen i : ℕ) (before after : List (A × B)) (j : ℕ) {x : A × B}
      → Checked p verified chosen i before after
      → get_elem? before j ≡ some x
      → i + j ≢ chosen
      → Opens p verified x
  Checked-Opens chosen i [] after j c e d = cc
  Checked-Opens chosen i (y ∷ before) [] j c e d = absurd c
  Checked-Opens chosen i (y ∷ before) (z ∷ after) zero c e d =
      subst (Opens p verified) (some_inj e) (c.0.2 (λ q. d (omega arith)))
  Checked-Opens chosen i (y ∷ before) (z ∷ after) (suc j) c e d =
      Checked-Opens chosen (i + 1) before after j c.1 e (λ q. d (omega arith))

  -- What init and exec make of an instance.
  abbrev pub Made : A × B → A × B → Type 0
  Made x y =
      (w : World) × (y
        ≡ (((p.init >> p.exec) (x.0, x.1, w)).1.0, ((p.init >> p.exec) (x.0, x.1, w)).1.1))

  pub run_all-Made :
      (parties : List (A × B)) (world : World) (j : ℕ) {x : A × B}
      → get_elem? parties j ≡ some x
      → (run_all p verified parties world).0 ≡ ok tt
      → (y : A × B) × (get_elem? (run_all p verified parties world).1 j ≡ some y) × Made x y
  unfolding run_all
  run_all-Made [] world j e h = cc
  run_all-Made ((c, d) ∷ rest) world j {x} e h =
      elim (Result-cases ((p.init >> p.exec) (c, d, world)).0) [
        | inr (t, threw) ↦ absurd (err_ne_unit (rw (threw, run_all) at h))
        | inl (u, ran) ↦
            rw (ran, run_all)
              (here j e (λ i q.
                run_all-Made rest ((p.init >> p.exec) (c, d, world)).1.2 i q
                  (rw (ran, run_all) at h)))
      ]
    where
      first : A × B
      first = (((p.init >> p.exec) (c, d, world)).1.0, ((p.init >> p.exec) (c, d, world)).1.1)

      later : List (A × B)
      later = (run_all p verified rest ((p.init >> p.exec) (c, d, world)).1.2).1

      here :
          (i : ℕ)
          → get_elem? ((c, d) ∷ rest) i ≡ some x
          → ((k : ℕ)
              → get_elem? rest k ≡ some x
              → (y : A × B) × (get_elem? later k ≡ some y) × Made x y)
          → (y : A × B) × (get_elem? (first ∷ later) i ≡ some y) × Made x y
      here zero q ih = (first, refl, subst (λ z. Made z first) (some_inj q) (world, refl))
      here (suc k) q ih = ih k q

err_ne_list {ℓ} : {A : Type ℓ} {e : Exception} {a : A} → ◌≡◌ {A = Result A} (err e) (ok a) → ⊥
err_ne_list h = cc

ok_inj {ℓ} : {A : Type ℓ} {x y : A} → ok x ≡ ok y → x ≡ y
ok_inj e = cc

pub cheat_at-get_elem? :
    {A B : Type 0} (f : A → A) (j : ℕ) (parties : List (A × B)) {after : List (A × B)} {a : A}
    {b : B}
    → cheat_at (λ s. ok (f s)) j parties ≡ ok after
    → get_elem? parties j ≡ some (a, b)
    → get_elem? after j ≡ some (f a, b)
unfolding cheat_at
cheat_at-get_elem? f j [] h e = cc
cheat_at-get_elem? f zero ((c, d) ∷ rest) h e = ground arith
cheat_at-get_elem? f (suc j) ((c, d) ∷ rest) h e =
    elim (Result-cases (cheat_at (λ s. ok (f s)) j rest)) [
      | inr (t, threw) ↦ absurd (err_ne_list (rw (threw, cheat_at) at h))
      | inl (rest', cheated) ↦
          ap (λ l. get_elem? l (suc j)) (sym (ok_inj (rw (cheated, cheat_at) at h)))
          ∙ cheat_at-get_elem? f j rest cheated e
    ]
