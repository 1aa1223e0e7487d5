-- ===== src/SellInformation/Outcome.antt =====
-- sell_information.cpp: how wait_for_signature_or_time_lock ends.
use selling_information.Base.{ap, ℕ, ◌*◌, ◌<◌, true, ◌≡◌, ◌⊎◌, inl, inr, refl, sym, subst, ◌∙◌}
use selling_information.Base.Int.{ℤ, pos}
use selling_information.Aes.{Cipher}
use selling_information.Crypto.{NumberTheory, Encoding, Divisors, Sha256}
use selling_information.Curve.{Curve}
use selling_information.SellInformation.Parties.{Buyer, Payments}
use selling_information.SellInformation.Buyer.{is_product}
use selling_information.SellInformation.Factoring.{kept, product_value}
use selling_information.SignatureKey.Parties.{SingleBuyer}
use selling_information.SellInformation.Fetching.{get_signature-Tested}
use selling_information.SellInformation.Waiting.{
  running, finished, leaving, got_signature, got_refund, Threads, start, Step, solved, slept,
  solve_threw, signed, sign_threw, leave, join_signature, join_time_lock, Reach, here, next, sign,
}
use selling_information.SellInformation.Redeemed.{IsRedeemed, later, solved-IsRedeemed}

module _ {World : Type 0} (curve : Curve) (nt : NumberTheory) (encoding : Encoding)
    (payments : Payments World) (divisors : Divisors) (gcd_negative : ℕ → ℕ → ℤ) (cipher : Cipher)
    (sha : Sha256) where
  abbrev Sys : Type 0
  Sys = Threads curve.Point World

  -- The money was redeemed on the way to x.
  abbrev pub Redeemed : Buyer curve.Point → World → Sys → Type 0
  Redeemed = IsRedeemed curve nt encoding payments divisors gcd_negative cipher sha

  -- What the flags and the place of the caller stand for.
  pub record IsConsistent (b : Buyer curve.Point) (w : World) (x : Threads curve.Point World)
      : Type 0 where
    pub same : kept x.buyer ≡ kept b
    pub factored :
        x.signature ≡ finished → is_product divisors gcd_negative x.buyer.p x.buyer.q b.n ≡ true
    pub redeemed : x.time_lock ≡ finished → Redeemed b w x
    pub leaves : x.caller ≡ leaving → (x.signature ≡ finished) ⊎ (x.time_lock ≡ finished)
    pub by_signature : x.caller ≡ got_signature → x.signature ≡ finished
    pub by_time_lock : x.caller ≡ got_refund → x.time_lock ≡ finished

  start-IsConsistent : (b : Buyer curve.Point) (w : World) → IsConsistent b w (start b w)
  start-IsConsistent b w = record {
    same = refl;
    factored = λ h. cc;
    redeemed = λ h. cc;
    leaves = λ h. cc;
    by_signature = λ h. cc;
    by_time_lock = λ h. cc;
  }

  Step-IsConsistent :
      (b : Buyer curve.Point) (w : World) {x y : Sys}
      → Reach curve nt encoding payments divisors gcd_negative cipher sha (start b w) x
      → Step curve nt encoding payments divisors gcd_negative cipher sha x y
      → IsConsistent b w x
      → IsConsistent b w y
  Step-IsConsistent b w {x} {y} r (solved alive run ended e) c =
      subst (IsConsistent b w) (sym e) (record {
        same = c.same;
        factored = c.factored;
        redeemed = λ h. subst (Redeemed b w) e (
            solved-IsRedeemed curve nt encoding payments divisors gcd_negative cipher sha b w x y r
              c.same run ended e);
        leaves = λ h. inr refl;
        by_signature = c.by_signature;
        by_time_lock = λ h. refl;
      })
  Step-IsConsistent b w {x} {y} r (slept alive run ended e) c =
      subst (IsConsistent b w) (sym e) (record {
        same = c.same;
        factored = c.factored;
        redeemed = λ h. cc;
        leaves = λ h. elim (c.leaves h) [ inl s ↦ inl s | inr l ↦ absurd (unlike (sym run ∙ l)) ];
        by_signature = c.by_signature;
        by_time_lock = λ h. absurd (unlike (sym run ∙ c.by_time_lock h));
      })
    where
      unlike : running ≡ finished → ⊥
      unlike h = cc
  Step-IsConsistent b w {x} {y} r (solve_threw thrown alive run ended e) c =
      subst (IsConsistent b w) (sym e) (record {
        same = c.same;
        factored = c.factored;
        redeemed = λ h. subst (Redeemed b w) e (
            later curve nt encoding payments divisors gcd_negative cipher sha b w
              (solve_threw thrown alive run ended e) (c.redeemed h));
        leaves = λ h. cc;
        by_signature = λ h. cc;
        by_time_lock = λ h. cc;
      })
  Step-IsConsistent b w {x} {y} r (signed alive run ended e) c =
      let tested =
        get_signature-Tested curve encoding payments divisors gcd_negative cipher sha
          (x.buyer, x.world) in
      subst (IsConsistent b w) (sym e) (record {
        same = tested.0 ∙ c.same;
        factored = λ h.
            subst
              (λ m.
                is_product divisors gcd_negative
                  (sign curve nt encoding payments divisors gcd_negative cipher sha x).1.0.p
                  (sign curve nt encoding payments divisors gcd_negative cipher sha x).1.0.q m
                ≡ true)
              (ap (λ (k : ℕ × SingleBuyer curve.Point). k.0) (tested.0 ∙ c.same)) (tested.1 ended);
        redeemed = λ h. subst (Redeemed b w) e (
            later curve nt encoding payments divisors gcd_negative cipher sha b w
              (signed alive run ended e) (c.redeemed h));
        leaves = λ h. inl refl;
        by_signature = λ h. refl;
        by_time_lock = c.by_time_lock;
      })
  Step-IsConsistent b w {x} {y} r (sign_threw thrown alive run ended e) c =
      let tested =
        get_signature-Tested curve encoding payments divisors gcd_negative cipher sha
          (x.buyer, x.world) in
      subst (IsConsistent b w) (sym e) (record {
        same = tested.0 ∙ c.same;
        factored = λ h. absurd (unlike (sym run ∙ h));
        redeemed = λ h. subst (Redeemed b w) e (
            later curve nt encoding payments divisors gcd_negative cipher sha b w
              (sign_threw thrown alive run ended e) (c.redeemed h));
        leaves = λ h. cc;
        by_signature = λ h. cc;
        by_time_lock = λ h. cc;
      })
    where
      unlike : running ≡ finished → ⊥
      unlike h = cc
  Step-IsConsistent b w {x} {y} r (leave at flag e) c = subst (IsConsistent b w) (sym e) (record {
    same = c.same;
    factored = c.factored;
    redeemed = λ h. subst (Redeemed b w) e (
        later curve nt encoding payments divisors gcd_negative cipher sha b w (leave at flag e)
          (c.redeemed h));
    leaves = λ h. flag;
    by_signature = λ h. cc;
    by_time_lock = λ h. cc;
  })
  Step-IsConsistent b w {x} {y} r (join_signature at flag e) c =
      subst (IsConsistent b w) (sym e) (record {
        same = c.same;
        factored = c.factored;
        redeemed = λ h. subst (Redeemed b w) e (
            later curve nt encoding payments divisors gcd_negative cipher sha b w
              (join_signature at flag e) (c.redeemed h));
        leaves = λ h. cc;
        by_signature = λ h. flag;
        by_time_lock = λ h. cc;
      })
  Step-IsConsistent b w {x} {y} r (join_time_lock at other flag e) c =
      subst (IsConsistent b w) (sym e) (record {
        same = c.same;
        factored = c.factored;
        redeemed = λ h. subst (Redeemed b w) e (
            later curve nt encoding payments divisors gcd_negative cipher sha b w
              (join_time_lock at other flag e) (c.redeemed h));
        leaves = λ h. cc;
        by_signature = λ h. cc;
        by_time_lock = λ h. flag;
      })

  Reach-IsConsistent :
      {b : Buyer curve.Point} {w : World} {x : Sys}
      → Reach curve nt encoding payments divisors gcd_negative cipher sha (start b w) x
      → IsConsistent b w x
  Reach-IsConsistent {b} {w} here = start-IsConsistent b w
  Reach-IsConsistent {b} {w} (next r st) = Step-IsConsistent b w r st (Reach-IsConsistent r)

  -- In every order in which the two threads and the caller take their steps, for a buyer whose n is
  -- positive: if the wait ends by the signature, the product of the buyer's p and q is the n that it
  -- started with, and p is not negative.
  pub Reach-got_signature :
      (b : Buyer curve.Point) (w : World) (x : Threads curve.Point World)
      → 0 < b.n
      → Reach curve nt encoding payments divisors gcd_negative cipher sha (start b w) x
      → x.caller ≡ got_signature
      → (p : ℕ) × (x.buyer.p ≡ pos p) × (p * x.buyer.q ≡ b.n)
  Reach-got_signature b w x positive r h =
      let c = Reach-IsConsistent r in
      product_value divisors gcd_negative cipher encoding x.buyer.p x.buyer.q b.n positive
        (c.factored (c.by_signature h))

  -- In every order in which the two threads and the caller take their steps: if the wait ends by the time
  -- lock, then on the way from the start to that end the thread of solve_time_lock has run, while its
  -- flag was not set, and its call has redeemed the money. The call is that on the buyer of the start,
  -- whatever get_signature wrote before it; the steps to the end go on from the state with the flag
  -- set, and the world, that it leaves.
  pub Reach-got_refund :
      (b : Buyer curve.Point) (w : World) (x : Threads curve.Point World)
      → Reach curve nt encoding payments divisors gcd_negative cipher sha (start b w) x
      → x.caller ≡ got_refund
      → Redeemed b w x
  Reach-got_refund b w x r h = let c = Reach-IsConsistent r in c.redeemed (c.by_time_lock h)
