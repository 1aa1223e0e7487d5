-- ===== src/Tests/Waiting.antt =====
-- The theorems on the two threads of wait_for_signature_or_time_lock, with a service that grants all.
use selling_information.Base.{
  ℕ, ◌*◌, ◌%◌, ◌≡◌, inl, inr, refl, ap, sym, Bool, true, false, List, [], ◌∷◌, ok, arith,
}
use selling_information.Base.Exec.{return, ◌>>◌}
use selling_information.Base.Int.{pos}
use selling_information.BitUtils.{integer_to_bits}
use selling_information.Common.{integer2string}
use selling_information.TimedCommitment.Parties.{Commitment}
use selling_information.TimedCommitment.Parties as TimedParties
use selling_information.TimedCommitment.Sealing.{made, made-IsSealed, IsSealed}
use selling_information.SignatureKey.Parties.{SingleBuyer, new_single_buyer}
use selling_information.SellInformation.Parties.{Buyer, Payments, new_buyer}
use selling_information.SellInformation.Payment.{solve_time_lock}
use selling_information.SellInformation.Redeeming.{solve_time_lock_lem}
use selling_information.SellInformation.Waiting.{
  running, finished, got_refund, Threads, start, solved, leave, join_time_lock, Reach, here, next,
}
use selling_information.SellInformation.Redeemed.{IsRedeemed}
use selling_information.SellInformation.Outcome.{Reach-got_refund}
use selling_information.SellInformation.Ending.{CanReturn, Reach-returns}
use selling_information.Tests.Reference.{number_theory, encoding, sha, encoded_size, encode}
use selling_information.Tests.Euclid.{divisors}
use selling_information.Tests.Signing.{small_curve, holder}
use selling_information.Tests.Timed.{small_commiter}
use selling_information.Tests.Encryption.{toy_cipher}
use selling_information.Tests.Information.{no_gcd}

unfoldable pub generous : Payments ℕ
generous = record {
  connect = return tt;
  verify_transaction = λ t x y v. return true;
  wait_for_transaction = λ t d. return true;
  wait_for_transaction_by_output = λ a d. return true;
  broadcast_transaction = λ t. return true;
  redeem_transaction = λ t sk x y. return true;
  get_signature = λ a. return ([], []);
}

-- The bits of the secret 1, and a commitment to them with 2 ^ 4 squarings.
abbrev one_bits : List Bool
one_bits = true ∷ false ∷ false ∷ false ∷ false ∷ false ∷ false ∷ false ∷ []

abbrev one_commitment : Commitment
one_commitment = made number_theory 4 one_bits 2 2 small_commiter

one_IsSealed : IsSealed number_theory one_bits one_commitment
one_IsSealed =
    made-IsSealed number_theory 4 one_bits 2 2 30 small_commiter (omega arith) (omega arith)
      (omega arith) refl (omega arith) (omega arith)

abbrev single : SingleBuyer ℕ
single = record (new_single_buyer holder) {
  timed_commitment_receiver = record TimedParties.new_receiver { commitment = one_commitment };
}

abbrev payer : Buyer ℕ
payer = new_buyer single 77 5

one_encoded : integer_to_bits encoding (pos 1) ≡ ok one_bits
unfolding integer_to_bits encoded_size encode
one_encoded = refl

solve_time_lock_lem_example :
    (solve_time_lock (small_curve 1) encoding generous number_theory payer 0
      ≡ (generous.connect
            >> generous.redeem_transaction payer.single_buyer.t1
                (integer2string encoding (1 * 2 % 3))
                (integer2string encoding
                  ((small_curve 1).x_of payer.single_buyer.shared_signature_b.q))
                (integer2string encoding
                  ((small_curve 1).y_of payer.single_buyer.shared_signature_b.q)))
          0)
    × ((small_curve 1).multiply (1 * 2 % 3) (small_curve 1).generator
        ≡ payer.single_buyer.shared_signature_b.q)
unfolding new_buyer new_single_buyer
solve_time_lock_lem_example =
    solve_time_lock_lem (small_curve 1) number_theory encoding generous payer 1 one_bits 0
      one_encoded one_IsSealed (omega arith) (omega arith) refl

-- The time lock is solved before a signature comes.
abbrev ended : Threads ℕ ℕ
ended = record {
  buyer = payer;
  world = 0;
  time_lock = finished;
  signature = running;
  caller = got_refund;
}

redeems : solve_time_lock (small_curve 1) encoding generous number_theory payer 0 ≡ (ok true, 0)
unfolding generous new_buyer new_single_buyer
redeems =
    (solve_time_lock_lem (small_curve 1) number_theory encoding generous payer 1 one_bits 0
      one_encoded one_IsSealed (omega arith) (omega arith) refl).0

Reach-ended :
    Reach
      (small_curve 1)
      number_theory
      encoding
      generous
      divisors
      no_gcd
      toy_cipher
      sha
      (start payer 0)
      ended
Reach-ended =
    next
      (next (next here (solved (λ h. cc) refl (ap (λ r. r.0) redeems) refl))
        (leave refl (inr refl) refl))
      (join_time_lock refl (λ h. cc) refl
        (ap (λ w. record ended { world = w }) (ap (λ r. r.1) (sym redeems))))

Reach-got_refund_example :
    IsRedeemed
      (small_curve 1)
      number_theory
      encoding
      generous
      divisors
      no_gcd
      toy_cipher
      sha
      payer
      0
      ended
Reach-got_refund_example =
    Reach-got_refund (small_curve 1) number_theory encoding generous divisors no_gcd toy_cipher sha
      payer 0 ended Reach-ended refl

Reach-returns_example :
    CanReturn
      (small_curve 1)
      number_theory
      encoding
      generous
      divisors
      no_gcd
      toy_cipher
      sha
      (start payer 0)
Reach-returns_example =
    Reach-returns (small_curve 1) number_theory encoding generous divisors no_gcd toy_cipher sha
      (start payer 0) (λ h. cc) (inr (inr (inl (refl, ap (λ r. r.0) redeems))))
