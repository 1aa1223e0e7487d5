-- ===== src/CutAndChoose.antt =====
-- cut_and_choose/cut_and_choose.h. The vectors of the prover and of the verifier are always read at
-- one index, so that they are one list of pairs here; T is its length.
pub mod Soundness
pub mod Chosen
pub mod Sha
use selling_information.Base.{
  ℕ, suc, zero, ◌+◌, Bool, true, false, not, List, [], ◌∷◌, Option, none, some, ◌==◌, if◌then◌else◌,
  Result, ok, err,
}
use selling_information.Base.Exec.{Exec, ◌>>◌}
use selling_information.Protocol.{Protocol}

-- The chosen index is what getI returns, `res` the verifier's verdict.
pub record Choice (A B World : Type 0) : Type 0 where
  pub parties : List (A × B)
  pub chosen : ℕ
  pub res : Bool
  pub world : World

module _ {A B World : Type 0} (p : Protocol A B World) (verified : B → Bool) where
  -- The first loop: init and exec of every instance, up to an exception.
  unfoldable pub run_all : List (A × B) → World → Result (Unit {0}) × List (A × B) × World
  run_all [] world = (ok tt, [], world)
  run_all ((a, b) ∷ rest) world =
      let here = (p.init >> p.exec) (a, b, world) in
      let later = run_all rest here.1.2 in
      elim here.0 [
        | ok u ↦ (later.0, (here.1.0, here.1.1) ∷ later.1, later.2)
        | err e ↦ (err e, (here.1.0, here.1.1) ∷ rest, here.1.2)
      ]

  -- The second loop from index i on: every instance but the chosen one is opened, up to an
  -- exception or to one that is not verified. The result is the verdict.
  unfoldable pub open_all : ℕ → ℕ → List (A × B) → World → Result Bool × List (A × B) × World
  open_all chosen i [] world = (ok true, [], world)
  open_all chosen i ((a, b) ∷ rest) world =
      let skipped = open_all chosen (i + 1) rest world in
      let here = p.opening (a, b, world) in
      let later = open_all chosen (i + 1) rest here.1.2 in
      elim (i == chosen) [
        | true ↦ (skipped.0, (a, b) ∷ skipped.1, skipped.2)
        | false ↦ elim here.0 [
          | err e ↦ (err e, (here.1.0, here.1.1) ∷ rest, here.1.2)
          | ok u ↦ elim (verified here.1.1) [
            | false ↦ (ok false, (here.1.0, here.1.1) ∷ rest, here.1.2)
            | true ↦ (later.0, (here.1.0, here.1.1) ∷ later.1, later.2)
          ]
        ]
      ]

-- `p->v[cheat].cheat()`, which may throw.
unfoldable pub cheat_at : {A B : Type 0} → (A → Result A) → ℕ → List (A × B) → Result (List (A × B))
cheat_at cheat j [] = ok []
cheat_at cheat zero ((a, b) ∷ rest) = elim (cheat a) [ ok a' ↦ ok ((a', b) ∷ rest) | err e ↦ err e ]
cheat_at cheat (suc j) ((a, b) ∷ rest) = elim (cheat_at cheat j rest) [
  | ok rest' ↦ ok ((a, b) ∷ rest')
  | err e ↦ err e
]

-- `cheat != -1`.
unfoldable pub cheat_if :
    {A B : Type 0} → (A → Result A) → Option ℕ → List (A × B) → Result (List (A × B))
unfolding cheat_at
cheat_if cheat none parties = ok parties
cheat_if cheat (some j) parties = cheat_at cheat j parties

-- The verdict on a result of the second loop: an exception leaves the `true` set before the loop.
abbrev pub verdict : Result Bool → Bool
verdict (ok b) = b
verdict (err e) = true

abbrev pub forget : Result Bool → Result (Unit {0})
forget (ok b) = ok tt
forget (err e) = err e

module _ {A B World : Type 0} (p : Protocol A B World) (verified : B → Bool)
    (cheat : A → Result A) where
  unfoldable pub cut_and_choose : Option ℕ → Exec (Choice A B World) (Unit {0})
  cut_and_choose cheater v =
      let ran = run_all p verified v.parties v.world in
      elim ran.0 [
        | err e ↦ (err e, record v { parties = ran.1; world = ran.2 })
        | ok u ↦ elim (cheat_if cheat cheater ran.1) [
          | err e ↦ (err e, record v { parties = ran.1; world = ran.2 })
          | ok parties ↦
              let opened = open_all p verified v.chosen 0 parties ran.2 in
              (
                forget opened.0,
                record v { parties = opened.1; res = verdict opened.0; world = opened.2 },
              )
        ]
      ]
