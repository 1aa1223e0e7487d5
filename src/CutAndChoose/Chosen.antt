-- ===== src/CutAndChoose/Chosen.antt =====
-- cut_and_choose of cut_and_choose.h without cheating: the instance that is not opened.
use selling_information.Base.{
  ℕ, zero, suc, ◌+◌, ◌≡◌, inl, inr, refl, sym, ap, subst, ◌∙◌, Bool, true, List, [], ◌∷◌, none,
  some, get_elem?, Result, ok, err, Exception, Result-cases, arith,
}
use selling_information.CutAndChoose.{Choice, run_all, cut_and_choose, cheat_if}
use selling_information.CutAndChoose.Soundness.{Checked, cut_and_choose-Checked, Made, run_all-Made}
use selling_information.Protocol.{Protocol}

module _ {A B World : Type 0} (p : Protocol A B World) (verified : B → Bool) where
  -- The chosen instance is where it was.
  Checked-get_elem? :
      (chosen i : ℕ) (before after : List (A × B)) (j : ℕ) {x : A × B}
      → Checked p verified chosen i before after
      → get_elem? before j ≡ some x
      → i + j ≡ chosen
      → get_elem? after j ≡ some x
  Checked-get_elem? chosen i [] after j c e h = cc
  Checked-get_elem? chosen i (y ∷ before) [] j c e h = absurd c
  Checked-get_elem? chosen i (y ∷ before) (z ∷ after) zero c e h = ap some (c.0.0 (omega arith)) ∙ e
  Checked-get_elem? chosen i (y ∷ before) (z ∷ after) (suc j) c e h =
      Checked-get_elem? chosen (i + 1) before after j c.1 e (omega arith)

module _ {A B World : Type 0} (p : Protocol A B World) (verified : B → Bool)
    (cheat : A → Result A) where
  -- A run without cheating keeps the chosen index.
  pub cut_and_choose-chosen :
      (v : Choice A B World) → (cut_and_choose p verified cheat none v).1.chosen ≡ v.chosen
  unfolding cut_and_choose cheat_if
  cut_and_choose-chosen v = elim (Result-cases (run_all p verified v.parties v.world).0) [
    | inl ran ↦ rw (ran.1, cut_and_choose) refl
    | inr thrown ↦ rw (thrown.1, cut_and_choose) refl
  ]

  ran_ok :
      (v : Choice A B World)
      → (cut_and_choose p verified cheat none v).0 ≡ ok tt
      → (run_all p verified v.parties v.world).0 ≡ ok tt
  unfolding cut_and_choose
  ran_ok v h = elim (Result-cases (run_all p verified v.parties v.world).0) [
    | inl ran ↦ ran.1
    | inr thrown ↦ absurd (unlike (rw (thrown.1, cut_and_choose) at h))
  ]
    where
      unlike : {e : Exception} → ◌≡◌ {A = Result (Unit {0})} (err e) (ok tt) → ⊥
      unlike h = cc

  -- An instance of an accepted run: it was made by init and exec, every other was opened and verified.
  pub cut_and_choose-chosen_made :
      (v : Choice A B World) {x : A × B}
      → get_elem? v.parties v.chosen ≡ some x
      → (cut_and_choose p verified cheat none v).0 ≡ ok tt
      → (cut_and_choose p verified cheat none v).1.res ≡ true
      → (y : A × B) × (get_elem? (cut_and_choose p verified cheat none v).1.parties v.chosen
          ≡ some y)
        × Made p verified x y
        × Checked p verified v.chosen 0
            (run_all p verified v.parties v.world).1
            (cut_and_choose p verified cheat none v).1.parties
  unfolding cheat_if
  cut_and_choose-chosen_made v found h accepted =
      let checked = cut_and_choose-Checked p verified cheat none v h accepted in
      let same : checked.0 ≡ (run_all p verified v.parties v.world).1 = sym (ok_eq checked.1) in
      let left : Checked p verified v.chosen 0 (run_all p verified v.parties v.world).1
          (cut_and_choose p verified cheat none v).1.parties =
        subst
          (λ parties.
            Checked p verified v.chosen 0 parties
              (cut_and_choose p verified cheat none v).1.parties)
          same checked.2 in
      let made = run_all-Made p verified v.parties v.world v.chosen found (ran_ok v h) in
      (
        made.0,
        Checked-get_elem? p verified v.chosen 0 (run_all p verified v.parties v.world).1 _ v.chosen
            left made.1 (omega arith),
        made.2,
        left,
      )
    where
      ok_eq : {x y : List (A × B)} → ok x ≡ ok y → x ≡ y
      ok_eq e = cc
