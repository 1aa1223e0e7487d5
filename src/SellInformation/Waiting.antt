-- ===== src/SellInformation/Waiting.antt =====
-- sell_information.cpp: wait_for_signature_or_time_lock and its two threads, as a step relation. A
-- method that a thread runs is one step, since the two methods write to different members of the
-- buyer. An exception that leaves a thread ends the program (std::terminate).
use selling_information.Base.{ℕ, Bool, true, false, ◌≡◌, ◌≢◌, ◌⊎◌, Result, ok, err, Exception}
use selling_information.Aes.{Cipher}
use selling_information.Crypto.{NumberTheory, Encoding, Divisors, Sha256}
use selling_information.Base.Int.{ℤ}
use selling_information.Curve.{Curve}
use selling_information.SellInformation.Parties.{Buyer, Payments}
use selling_information.SellInformation.Payment.{solve_time_lock, get_signature}

-- How far a thread has come. `asleep` is the endless loop of solve_time_lock.
pub data Progress : Type 0 where
  running : Progress
  finished : Progress
  asleep : Progress

-- The calling thread: in its loop, behind it, and after either join.
pub data Caller : Type 0 where
  waiting : Caller
  leaving : Caller
  got_signature : Caller
  got_refund : Caller
  terminated : Caller

pub record Threads (Point World : Type 0) : Type 0 where
  pub buyer : Buyer Point
  pub world : World
  pub time_lock : Progress
  pub signature : Progress
  pub caller : Caller

abbrev pub start : {Point World : Type 0} → Buyer Point → World → Threads Point World
start b world = record {
  buyer = b;
  world = world;
  time_lock = running;
  signature = running;
  caller = waiting;
}

module _ {World : Type 0} (curve : Curve) (nt : NumberTheory) (encoding : Encoding)
    (payments : Payments World) (divisors : Divisors) (gcd_negative : ℕ → ℕ → ℤ) (cipher : Cipher)
    (sha : Sha256) where
  abbrev pub solve : Threads curve.Point World → (Result Bool) × World
  solve x = solve_time_lock curve encoding payments nt x.buyer x.world

  abbrev pub sign : Threads curve.Point World → Result (Unit {0}) × (Buyer curve.Point × World)
  sign x = get_signature curve encoding payments divisors gcd_negative cipher sha (x.buyer, x.world)

  pub data Step (x y : Threads curve.Point World) : Type 0 where
    solved :
        x.caller ≢ terminated
        → x.time_lock ≡ running
        → (solve x).0 ≡ ok true
        → y ≡ record x { world = (solve x).1; time_lock = finished }
        → Step x y
    slept :
        x.caller ≢ terminated
        → x.time_lock ≡ running
        → (solve x).0 ≡ ok false
        → y ≡ record x { world = (solve x).1; time_lock = asleep }
        → Step x y
    solve_threw :
        (e : Exception)
        → x.caller ≢ terminated
        → x.time_lock ≡ running
        → (solve x).0 ≡ err e
        → y ≡ record x { world = (solve x).1; caller = terminated }
        → Step x y
    signed :
        x.caller ≢ terminated
        → x.signature ≡ running
        → (sign x).0 ≡ ok tt
        → y ≡ record x { buyer = (sign x).1.0; world = (sign x).1.1; signature = finished }
        → Step x y
    sign_threw :
        (e : Exception)
        → x.caller ≢ terminated
        → x.signature ≡ running
        → (sign x).0 ≡ err e
        → y ≡ record x { buyer = (sign x).1.0; world = (sign x).1.1; caller = terminated }
        → Step x y
    -- The loop ends.
    leave :
        x.caller ≡ waiting
        → (x.signature ≡ finished) ⊎ (x.time_lock ≡ finished)
        → y ≡ record x { caller = leaving }
        → Step x y
    -- get_signature is joined and solve_time_lock detached, or the other way round.
    join_signature :
        x.caller ≡ leaving
        → x.signature ≡ finished
        → y ≡ record x { caller = got_signature }
        → Step x y
    join_time_lock :
        x.caller ≡ leaving
        → x.signature ≢ finished
        → x.time_lock ≡ finished
        → y ≡ record x { caller = got_refund }
        → Step x y

  pub data Reach (x : Threads curve.Point World) : Threads curve.Point World → Type 0 where
    here : Reach x x
    next : {y z : Threads curve.Point World} → Reach x y → Step y z → Reach x z
