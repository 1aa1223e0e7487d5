-- ===== src/SellInformation/Fetching.antt =====
-- sell_information.cpp: what get_signature leaves.
use selling_information.Base.{
  ℕ, Bool, true, false, List, ◌≡◌, refl, Result, ok, Exception, protocol,
}
use selling_information.Base.Exec.{Exec, >>=-ensures, >>=-keeps, require, ◌>>=◌, ◌>>◌}
use selling_information.Aes.{Cipher}
use selling_information.Crypto.{Encoding, Divisors, Sha256}
use selling_information.Base.Int.{ℤ}
use selling_information.Curve.{Curve}
use selling_information.SellInformation.Parties.{Buyer, Payments}
use selling_information.SellInformation.Buyer.{is_product}
use selling_information.SellInformation.Factoring.{kept, factorise-is_product}
use selling_information.SignatureKey.Parties.{SingleBuyer}
use selling_information.SellInformation.Payment.{
  with_world, use_signature, fetch_signature, get_signature,
}
use selling_information.SharedSignature.Verification.{encode_signature}

module _ {World : Type 0} (curve : Curve) (encoding : Encoding) (payments : Payments World)
    (divisors : Divisors) (gcd_negative : ℕ → ℕ → ℤ) (cipher : Cipher) (sha : Sha256) where
  abbrev pub Tested : Result (Unit {0}) × (Buyer curve.Point × World) → Type 0
  Tested after = is_product divisors gcd_negative after.1.0.p after.1.0.q after.1.0.n ≡ true

  abbrev kept_of : Buyer curve.Point × World → ℕ × SingleBuyer curve.Point
  kept_of st = kept st.0

  -- Where the steps of get_signature throw nothing, the test of factorise passed, and n and the single buyer
  -- are kept.
  use_signature-Tested :
      (found : List ℕ × List ℕ) (st : Buyer curve.Point × World)
      → let after =
          use_signature curve encoding payments divisors gcd_negative cipher sha found st in
        (kept_of after.1 ≡ kept_of st) × (after.0 ≡ ok tt → Tested after)
  unfolding use_signature
  use_signature-Tested found st =
      factorise-is_product divisors gcd_negative cipher encoding sha (record (st.0) {
        signature = encode_signature encoding (encoding.decode found.0) (encoding.decode found.1);
      })

  abbrev fetched : List ℕ → Exec (Buyer curve.Point × World) (Unit {0})
  fetched address =
      with_world curve encoding payments (payments.get_signature address)
      >>= use_signature curve encoding payments divisors gcd_negative cipher sha

  abbrev after_wait : List ℕ → Bool → Exec (Buyer curve.Point × World) (Unit {0})
  after_wait address arrived =
      require arrived (protocol "wait for transaction by output failed") >> fetched address

  require-keeps :
      (b : Bool) (e : Exception) (st : Buyer curve.Point × World)
      → kept_of (require b e st).1 ≡ kept_of st
  require-keeps true e st = refl
  require-keeps false e st = refl

  fetch_signature-Tested :
      (address : List ℕ) (st : Buyer curve.Point × World)
      → let after =
          fetch_signature curve encoding payments divisors gcd_negative cipher sha address st in
        (kept_of after.1 ≡ kept_of st) × (after.0 ≡ ok tt → Tested after)
  unfolding fetch_signature
  fetch_signature-Tested address st = (
    >>=-keeps kept_of waited (after_wait address) (λ st. refl)
        (λ arrived.
          >>=-keeps kept_of (require arrived (protocol "wait for transaction by output failed"))
            (λ u. fetched address) (require-keeps arrived _)
            (λ u.
              >>=-keeps kept_of got
                (use_signature curve encoding payments divisors gcd_negative cipher sha)
                (λ st. refl) (λ found st. (use_signature-Tested found st).0)))
        st,
    >>=-ensures waited (after_wait address) Tested
        (λ arrived.
          >>=-ensures (require arrived (protocol "wait for transaction by output failed"))
            (λ u. fetched address) Tested
            (λ u.
              >>=-ensures got
                (use_signature curve encoding payments divisors gcd_negative cipher sha) Tested
                (λ found st. (use_signature-Tested found st).1)))
        st,
  )
    where
      waited : Exec (Buyer curve.Point × World) Bool
      waited =
          with_world curve encoding payments (payments.wait_for_transaction_by_output address 1)

      got : Exec (Buyer curve.Point × World) (List ℕ × List ℕ)
      got = with_world curve encoding payments (payments.get_signature address)

  pub get_signature-Tested :
      (st : Buyer curve.Point × World)
      → let after = get_signature curve encoding payments divisors gcd_negative cipher sha st in
        (kept_of after.1 ≡ kept_of st) × (after.0 ≡ ok tt → Tested after)
  unfolding get_signature
  get_signature-Tested st = (
    >>=-keeps kept_of (with_world curve encoding payments payments.connect)
        (λ u st.
          fetch_signature curve encoding payments divisors gcd_negative cipher sha
            st.0.single_buyer.seller_address st)
        (λ st. refl) (λ u st. (fetch_signature-Tested st.0.single_buyer.seller_address st).0) st,
    >>=-ensures (with_world curve encoding payments payments.connect)
        (λ u st.
          fetch_signature curve encoding payments divisors gcd_negative cipher sha
            st.0.single_buyer.seller_address st)
        Tested (λ u st. (fetch_signature-Tested st.0.single_buyer.seller_address st).1) st,
  )
