-- ===== src/SellInformation/Choosing.antt =====
-- SellInformationProtocol::exec: the instance that both parties go on with.
use selling_information.Base.{
  ℕ, zero, suc, ◌-◌, ◌<◌, ◌≡◌, inl, inr, refl, sym, ap, ap₂, subst, ◌∙◌, Bool, true, List, some,
  get_elem?, replicate, Bool-cases, Option-cases, Result, ok, err, Exception, Result-cases,
  protocol, arith,
}
use selling_information.Base.Exec.{Exec}
use selling_information.Crypto.{NumberTheory, Encoding, Sha256, Rng}
use selling_information.Common.{t}
use selling_information.Curve.{Curve}
use selling_information.CutAndChoose.{Choice, run_all}
use selling_information.CutAndChoose.Chosen.{cut_and_choose-chosen, cut_and_choose-chosen_made}
use selling_information.CutAndChoose.Soundness.{Checked, Made}
use selling_information.Protocol.{Protocol}
use selling_information.SignatureKey.Parties.{SingleSeller, SingleBuyer, BitcoinClient}
use selling_information.SignatureKey.Running.{sell_protocol}
use selling_information.SellInformation.Buyer.{pick_r}
use selling_information.SellInformation.Opening.{State}
use selling_information.SellInformation.Running.{
  set_single, take_chosen, start_choice, cut, cut_keys, new_pair, make_keys,
}

replicate-get_elem? : {A : Type 0} (n j : ℕ) (a : A) → j < n → get_elem? (replicate n a) j ≡ some a
replicate-get_elem? zero j a h = absurd (omega arith)
replicate-get_elem? (suc n) zero a h = refl
replicate-get_elem? (suc n) (suc j) a h = replicate-get_elem? n j a (omega arith)

module _ {Point World : Type 0} where
  -- Where take_chosen throws nothing, the run threw nothing and its verdict is true, and an instance that is
  -- there becomes that of the parties.
  take_chosen-inv :
      (ran : Result (Unit {0}) × Choice (SingleSeller Point) (SingleBuyer Point) World)
      (st : State Point World)
      → (take_chosen ran st).0 ≡ ok tt
      → (ran.0 ≡ ok tt)
        × (ran.1.res ≡ true)
        × ((x : SingleSeller Point × SingleBuyer Point)
            → get_elem? ran.1.parties ran.1.chosen ≡ some x
            → (x.0 ≡ (take_chosen ran st).1.0.single_seller)
              × (x.1 ≡ (take_chosen ran st).1.1.single_buyer))
  unfolding take_chosen set_single
  take_chosen-inv (err e, choice) st h = cc
  take_chosen-inv (ok u, choice) st h = elim (Bool-cases choice.res) [
    | inl e ↦ (refl, e, λ x found. rw (e, found, take_chosen, set_single) (refl, refl))
    | inr e ↦ absurd (unlike (rw (e, take_chosen) at h))
  ]
    where
      unlike :
          ◌≡◌ {A = Result (Unit {0})}
            (err (protocol "Generating signatures and keys failed!"))
            (ok tt)
          → ⊥
      unlike h = cc

module _ {World : Type 0} (curve : Curve) (nt : NumberTheory) (primes : List ℕ) (rng : Rng World)
    (encoding : Encoding) (sha : Sha256) (client : BitcoinClient World) where
  abbrev sale : Protocol (SingleSeller curve.Point) (SingleBuyer curve.Point) World
  sale = sell_protocol curve nt primes rng encoding sha client

  abbrev has_verified : SingleBuyer curve.Point → Bool
  has_verified b = b.open_verified

  -- What the parties go on with: the instance at the buyer's index, as init and exec made it of the
  -- pair, while every other of the T instances was opened and verified.
  pub record IsChosen (pair : SingleSeller curve.Point × SingleBuyer curve.Point)
      (st : State curve.Point World) : Type 0 where
    pub before : List (SingleSeller curve.Point × SingleBuyer curve.Point)
    pub after : List (SingleSeller curve.Point × SingleBuyer curve.Point)
    pub others : Checked sale has_verified st.1.r 0 before after
    pub chosen : get_elem? after st.1.r ≡ some (st.0.single_seller, st.1.single_buyer)
    pub made : Made sale has_verified pair (st.0.single_seller, st.1.single_buyer)

  take_chosen-r :
      (ran : Result (Unit {0}) × Choice (SingleSeller curve.Point) (SingleBuyer curve.Point) World)
      (st : State curve.Point World)
      → (take_chosen ran st).1.1.r ≡ st.1.r
  unfolding take_chosen set_single
  take_chosen-r (err e, choice) st = refl
  take_chosen-r (ok u, choice) st = elim (Bool-cases choice.res) [
    | inr e ↦ rw (e, take_chosen) refl
    | inl e ↦ elim (Option-cases (get_elem? choice.parties choice.chosen)) [
      | inl gone ↦ rw (e, gone, take_chosen, set_single) refl
      | inr found ↦ rw (e, found.1, take_chosen, set_single) refl
    ]
  ]

  cut_keys-IsChosen :
      (pair : SingleSeller curve.Point × SingleBuyer curve.Point) (st : State curve.Point World)
      → st.1.r < t
      → (cut_keys curve nt primes rng encoding sha client pair st).0 ≡ ok tt
      → IsChosen pair (cut_keys curve nt primes rng encoding sha client pair st).1
  unfolding cut_keys
  cut_keys-IsChosen pair st below h =
      let ran = cut curve nt primes rng encoding sha client pair st in
      let inv = take_chosen-inv ran st h in
      let start = start_choice curve nt primes rng encoding sha client pair st in
      let cheat : SingleSeller curve.Point → Result (SingleSeller curve.Point) =
        λ s. err (protocol "Cheating not implemented!") in
      let made =
        cut_and_choose-chosen_made sale has_verified cheat start
          (replicate-get_elem? t st.1.r pair below) inv.0 inv.1 in
      let same = cut_and_choose-chosen sale has_verified cheat start in
      let taken = inv.2 made.0 (ap (get_elem? ran.1.parties) same ∙ made.1) in
      let kept = take_chosen-r ran st in
      let whole = ap₂ (λ a b. (a, b)) taken.0 taken.1 in
      record {
        before = (run_all sale has_verified start.parties start.world).1;
        after = ran.1.parties;
        others =
            subst
              (λ r.
                Checked sale has_verified r 0
                  (run_all sale has_verified start.parties start.world).1 ran.1.parties)
              (sym kept) made.3;
        chosen = ap (get_elem? ran.1.parties) kept ∙ made.1 ∙ ap some whole;
        made = subst (Made sale has_verified pair) whole made.2;
      }

  module _ (random_prime : ℕ → ℕ → World → ℕ × World)
      (prime_and_generator : ℕ → World → ℕ × World) where
    abbrev make : Exec (State curve.Point World) (Unit {0})
    make = make_keys curve nt primes rng encoding sha client random_prime prime_and_generator

    abbrev pairs : Exec World (SingleSeller curve.Point × SingleBuyer curve.Point)
    pairs = new_pair curve nt primes rng encoding sha client random_prime prime_and_generator

    make_keys-ok :
        (st : State curve.Point World) (pair : SingleSeller curve.Point × SingleBuyer curve.Point)
        → (pairs st.2).0 ≡ ok pair
        → let drawn = pick_r rng (st.1, (pairs st.2).1) in
          make st
          ≡ cut_keys curve nt primes rng encoding sha client pair (st.0, drawn.1.0, drawn.1.1)
    unfolding make_keys pick_r
    make_keys-ok st pair e = rw (e, make_keys) refl

    make_keys-err :
        (st : State curve.Point World) (e : Exception)
        → (pairs st.2).0 ≡ err e
        → (make st).0 ≡ err e
    unfolding make_keys
    make_keys-err st e h = rw (h, make_keys) refl

    -- If exec throws nothing up to setSingleBuyer, a pair was made by the constructors, and both
    -- parties go on with the instance at the buyer's r of the run of cut_and_choose on T copies of
    -- it: init and exec made that instance, and every other was opened and verified (IsChosen).
    pub make_keys-IsChosen :
        (st : State curve.Point World)
        → (make_keys curve nt primes rng encoding sha client random_prime prime_and_generator st).0
          ≡ ok tt
        → (pair : SingleSeller curve.Point × SingleBuyer curve.Point) × ((new_pair curve nt primes
              rng encoding sha client random_prime prime_and_generator st.2).0
            ≡ ok pair)
          × IsChosen pair
              (make_keys curve nt primes rng encoding sha client random_prime prime_and_generator
                st).1
    unfolding pick_r
    make_keys-IsChosen st h = elim (Result-cases (pairs st.2).0) [
      | inr thrown ↦ absurd (unlike (sym (make_keys-err st thrown.0 thrown.1) ∙ h))
      | inl built ↦
          let whole = make_keys-ok st built.0 built.1 in
          let drawn = pick_r rng (st.1, (pairs st.2).1) in
          let cut_ok =
            ap (λ (r : Result (Unit {0}) × State curve.Point World). r.0) (sym whole) ∙ h in
          (
            built.0,
            built.1,
            subst (IsChosen built.0)
                (ap (λ (r : Result (Unit {0}) × State curve.Point World). r.1) (sym whole))
                (cut_keys-IsChosen built.0 (st.0, drawn.1.0, drawn.1.1) (in_range (pairs st.2).1)
                  cut_ok),
          )
    ]
      where
        unlike : {e : Exception} → ◌≡◌ {A = Result (Unit {0})} (err e) (ok tt) → ⊥
        unlike h = cc

        in_range : (w : World) → (rng.randomize 0 (t - 1) w).0 < t
        in_range w = omega (arith, (rng.randomize-le 0 (t - 1) w (omega arith)).1)
