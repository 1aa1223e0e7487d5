-- ===== src/SellInformation/Redeemed.antt =====
-- sell_information.cpp: what a run of the thread of solve_time_lock that redeems the money leaves.
use selling_information.Base.{Bool, ap, ℕ, true, ◌≡◌, sym, subst, ◌∙◌, ok}
use selling_information.Base.Exec.{Exec}
use selling_information.Base.Int.{ℤ}
use selling_information.Aes.{Cipher}
use selling_information.Crypto.{NumberTheory, Encoding, Divisors, Sha256}
use selling_information.Curve.{Curve}
use selling_information.SellInformation.Parties.{Buyer, Payments}
use selling_information.SellInformation.Factoring.{kept}
use selling_information.SignatureKey.Parties.{SingleBuyer}
use selling_information.SellInformation.Payment.{solve_time_lock}
use selling_information.SellInformation.Waiting.{
  running, finished, Threads, start, Step, Reach, here, next, solve,
}

module _ {World : Type 0} (curve : Curve) (nt : NumberTheory) (encoding : Encoding)
    (payments : Payments World) (divisors : Divisors) (gcd_negative : ℕ → ℕ → ℤ) (cipher : Cipher)
    (sha : Sha256) where
  abbrev Sys : Type 0
  Sys = Threads curve.Point World

  -- The thread of solve_time_lock has run in the steps from the start to x, and its run, on what the buyer
  -- b of the start holds and in the world of that moment, has redeemed the money.
  pub record IsRedeemed (b : Buyer curve.Point) (w : World) (x : Threads curve.Point World)
      : Type 0 where
    pub moment : Threads curve.Point World
    pub before :
        Reach curve nt encoding payments divisors gcd_negative cipher sha (start b w) moment
    pub unsolved : moment.time_lock ≡ running
    pub redeems : (solve_time_lock curve encoding payments nt b moment.world).0 ≡ ok true
    pub after :
        Reach curve nt encoding payments divisors gcd_negative cipher sha
          (record moment {
            world = (solve_time_lock curve encoding payments nt b moment.world).1;
            time_lock = finished;
          })
          x

  -- solve_time_lock reads of the buyer only what is kept.
  solve_same :
      (b c : Buyer curve.Point)
      → kept b ≡ kept c
      → solve_time_lock curve encoding payments nt b ≡ solve_time_lock curve encoding payments nt c
  unfolding solve_time_lock
  solve_same b c e =
      ap
        (λ (k : ℕ × SingleBuyer curve.Point).
          solve_time_lock curve encoding payments nt (record c { single_buyer = k.1 }))
        e

  pub later :
      (b : Buyer curve.Point) (w : World) {x y : Sys}
      → Step curve nt encoding payments divisors gcd_negative cipher sha x y
      → IsRedeemed b w x
      → IsRedeemed b w y
  later b w st h = record {
    moment = h.moment;
    before = h.before;
    unsolved = h.unsolved;
    redeems = h.redeems;
    after = next h.after st;
  }

  -- The thread of solve_time_lock finishes.
  pub solved-IsRedeemed :
      (b : Buyer curve.Point) (w : World) (x y : Sys)
      → Reach curve nt encoding payments divisors gcd_negative cipher sha (start b w) x
      → kept x.buyer ≡ kept b
      → x.time_lock ≡ running
      → (solve curve nt encoding payments divisors gcd_negative cipher sha x).0 ≡ ok true
      → y ≡ record x {
        world = (solve curve nt encoding payments divisors gcd_negative cipher sha x).1;
        time_lock = finished;
      }
      → IsRedeemed b w y
  solved-IsRedeemed b w x y r same run ended e = record {
    moment = x;
    before = r;
    unsolved = run;
    redeems = ap (λ (f : Exec World Bool). (f x.world).0) (sym here_same) ∙ ended;
    after =
        subst
          (Reach curve nt encoding payments divisors gcd_negative cipher sha (record x {
            world = (solve_time_lock curve encoding payments nt b x.world).1;
            time_lock = finished;
          }))
          (ap (λ (f : Exec World Bool). record x { world = (f x.world).1; time_lock = finished })
              (sym here_same)
            ∙ sym e)
          here;
  }
    where
      here_same :
          solve_time_lock curve encoding payments nt x.buyer
          ≡ solve_time_lock curve encoding payments nt b
      here_same = solve_same x.buyer b same
