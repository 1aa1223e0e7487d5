-- ===== src/Tests/Signed.antt =====
-- The theorem on a wait that ends by the signature, with a service that grants all and a buyer who was
-- shown the encryptions of two roots.
use selling_information.Base.{ℕ, ◌*◌, ◌≡◌, inl, inr, refl, [], ◌∷◌, ok, Result, arith}
use selling_information.Base.Int.{pos}
use selling_information.SharedSignature.Verification.{encode_signature}
use selling_information.SignatureKey.Keys.{gen_keys}
use selling_information.SellInformation.Parties.{Buyer, new_buyer}
use selling_information.SellInformation.Buyer.{factorise}
use selling_information.SellInformation.Recovering.{IsProper, factorise-primes}
use selling_information.SellInformation.Payment.{use_signature, fetch_signature, get_signature}
use selling_information.SellInformation.Waiting.{
  running, finished, got_signature, Threads, start, signed, leave, join_signature, Reach, here,
  next,
}
use selling_information.SellInformation.Outcome.{Reach-got_signature}
use selling_information.Aes.{aes_dec}
use selling_information.Common.{concatenate, to_bytes}
use selling_information.Tests.Reference.{number_theory, encoding, sha, toy_digest, decode}
use selling_information.Tests.Residues.{seven_IsPrime, eleven_IsPrime}
use selling_information.Tests.Euclid.{divisors}
use selling_information.Tests.Signing.{small_curve}
use selling_information.Tests.Encryption.{toy_cipher}
use selling_information.Tests.Information.{no_gcd, shown, opened_buyer}
use selling_information.Tests.Waiting.{generous}

-- The buyer with the signature that the service gives.
abbrev signed_buyer : Buyer ℕ
signed_buyer = record opened_buyer {
  signature = encode_signature encoding (encoding.decode []) (encoding.decode []);
}

proper :
    IsProper toy_cipher encoding 77
      (toy_digest (concatenate signed_buyer.signature (to_bytes encoding 0)))
      (shown 9)
      (shown 2)
unfolding aes_dec toy_cipher toy_digest decode
proper = record {
  r1_bytes = 9 ∷ [];
  r2_bytes = 2 ∷ [];
  opened = refl;
  dec1 = refl;
  dec2 = refl;
  lt1 = omega arith;
  lt2 = omega arith;
  same = refl;
  different = λ e. omega (arith, e);
  sum = λ e. omega (arith, e);
}

factorises : (factorise divisors no_gcd toy_cipher encoding sha signed_buyer).0 ≡ ok tt
unfolding new_buyer gen_keys
factorises =
    (factorise-primes divisors no_gcd toy_cipher encoding sha signed_buyer 7 11 8 seven_IsPrime
      eleven_IsPrime refl refl
      (
        inr proper,
        (
          inl refl,
          (
            inl refl,
            (inl refl, (inl refl, (inl refl, (inl refl, (inl refl, (inl refl, (inl refl, tt))))))),
          ),
        ),
      )
      (inl refl)).0

abbrev signs : Result (Unit {0}) × (Buyer ℕ × ℕ)
signs =
    get_signature (small_curve 1) encoding generous divisors no_gcd toy_cipher sha (opened_buyer, 0)

signs-ok : signs.0 ≡ ok tt
unfolding get_signature fetch_signature use_signature generous
signs-ok = factorises

-- The signature comes before the time lock is solved.
abbrev fetched : Threads ℕ ℕ
fetched = record {
  buyer = signs.1.0;
  world = signs.1.1;
  time_lock = running;
  signature = finished;
  caller = got_signature;
}

Reach-fetched :
    Reach
      (small_curve 1)
      number_theory
      encoding
      generous
      divisors
      no_gcd
      toy_cipher
      sha
      (start opened_buyer 0)
      fetched
Reach-fetched =
    next (next (next here (signed (λ h. cc) refl signs-ok refl)) (leave refl (inl refl) refl))
      (join_signature refl refl refl)

Reach-got_signature_example :
    (p : ℕ) × (fetched.buyer.p ≡ pos p) × (p * fetched.buyer.q ≡ opened_buyer.n)
unfolding new_buyer
Reach-got_signature_example =
    Reach-got_signature (small_curve 1) number_theory encoding generous divisors no_gcd toy_cipher
      sha opened_buyer 0 fetched (omega arith) Reach-fetched refl
