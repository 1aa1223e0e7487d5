-- ===== src/SellInformation/Ending.antt =====
-- sell_information.cpp: the wait can end as soon as one thread can finish.
use selling_information.Base.{ℕ, true, ◌≡◌, ◌≢◌, ◌⊎◌, inl, inr, refl, ok}
use selling_information.Base.Int.{ℤ}
use selling_information.Aes.{Cipher}
use selling_information.Crypto.{NumberTheory, Encoding, Divisors, Sha256}
use selling_information.Curve.{Curve}
use selling_information.SellInformation.Parties.{Payments}
use selling_information.SellInformation.Waiting.{
  Progress, running, finished, asleep, Caller, waiting, leaving, got_signature, got_refund,
  terminated, Threads, solved, signed, leave, join_signature, join_time_lock, Reach, here, next,
  solve, sign,
}

is_finished : (p : Progress) → (p ≡ finished) ⊎ (p ≢ finished)
is_finished running = inr (λ h. cc)
is_finished finished = inl refl
is_finished asleep = inr (λ h. cc)

module _ {World : Type 0} (curve : Curve) (nt : NumberTheory) (encoding : Encoding)
    (payments : Payments World) (divisors : Divisors) (gcd_negative : ℕ → ℕ → ℤ) (cipher : Cipher)
    (sha : Sha256) where
  -- The wait is over.
  abbrev pub HasReturned : Threads curve.Point World → Type 0
  HasReturned y = (y.caller ≡ got_signature) ⊎ (y.caller ≡ got_refund)

  -- Steps from x to a state in which the wait is over.
  abbrev pub CanReturn : Threads curve.Point World → Type 0
  CanReturn x =
      (y : Threads curve.Point World) × Reach curve nt encoding payments divisors gcd_negative
        cipher sha x y
      × HasReturned y

  join :
      (x : Threads curve.Point World) {z : Threads curve.Point World}
      → Reach curve nt encoding payments divisors gcd_negative cipher sha z x
      → x.caller ≡ leaving
      → (x.signature ≡ finished) ⊎ (x.time_lock ≡ finished)
      → CanReturn z
  join x r at flag = elim (is_finished x.signature) [
    | inl h ↦ (record x { caller = got_signature }, next r (join_signature at h refl), inl refl)
    | inr h ↦ elim flag [
      | inl e ↦ absurd (h e)
      | inr e ↦ (record x { caller = got_refund }, next r (join_time_lock at h e refl), inr refl)
    ]
  ]

  finish :
      (x : Threads curve.Point World) (c : Caller) {z : Threads curve.Point World}
      → Reach curve nt encoding payments divisors gcd_negative cipher sha z x
      → x.caller ≡ c
      → x.caller ≢ terminated
      → (x.signature ≡ finished) ⊎ (x.time_lock ≡ finished)
      → CanReturn z
  finish x waiting r at alive flag =
      join (record x { caller = leaving }) (next r (leave at flag refl)) refl flag
  finish x leaving r at alive flag = join x r at flag
  finish x got_signature r at alive flag = (x, r, inl at)
  finish x got_refund r at alive flag = (x, r, inr at)
  finish x terminated r at alive flag = absurd (alive at)

  -- From every state of the threads and the caller that is not the end of the program: if one of the
  -- two threads has finished, or that of solve_time_lock is running and its call would redeem the
  -- money now, or that of get_signature is running and its call would throw nothing now, there are
  -- steps from that state after which the wait is over.
  pub Reach-returns :
      (x : Threads curve.Point World)
      → x.caller ≢ terminated
      → (x.signature ≡ finished)
        ⊎ (x.time_lock ≡ finished)
        ⊎ ((x.time_lock ≡ running)
            × ((solve curve nt encoding payments divisors gcd_negative cipher sha x).0 ≡ ok true))
        ⊎ ((x.signature ≡ running)
            × ((sign curve nt encoding payments divisors gcd_negative cipher sha x).0 ≡ ok tt))
      → CanReturn x
  Reach-returns x alive (inl h) = finish x x.caller here refl alive (inl h)
  Reach-returns x alive (inr (inl h)) = finish x x.caller here refl alive (inr h)
  Reach-returns x alive (inr (inr (inl h))) =
      let y : Threads curve.Point World = record x {
        world = (solve curve nt encoding payments divisors gcd_negative cipher sha x).1;
        time_lock = finished;
      } in
      finish y x.caller (next here (solved alive h.0 h.1 refl)) refl alive (inr refl)
  Reach-returns x alive (inr (inr (inr h))) =
      let after = sign curve nt encoding payments divisors gcd_negative cipher sha x in
      let y : Threads curve.Point World = record x {
        buyer = after.1.0;
        world = after.1.1;
        signature = finished;
      } in
      finish y x.caller (next here (signed alive h.0 h.1 refl)) refl alive (inl refl)
