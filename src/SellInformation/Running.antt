-- ===== src/SellInformation/Running.antt =====
-- SellInformationProtocol of sell_information.cpp: init, and exec up to its last line, the wait of the
-- buyer. open does nothing. Logging is left out.
use selling_information.Base.{
  ℕ, false, List, Option, none, some, get_elem?, replicate, ◌==◌, Result, ok, err, protocol,
}
use selling_information.Base.Exec.{Exec, lift, zoom, modify, gets, return, require, ◌>>=◌, ◌>>◌}
use selling_information.Aes.{Cipher}
use selling_information.Common.{t}
use selling_information.Crypto.{NumberTheory, Encoding, Sha256, Rng, Residues}
use selling_information.Curve.{Curve}
use selling_information.CutAndChoose.{Choice, cut_and_choose}
use selling_information.Paillier as Paillier
use selling_information.SharedSignature.Parties as Shared
use selling_information.SignatureKey.Parties.{
  SingleSeller, SingleBuyer, BitcoinClient, new_single_seller, new_single_buyer,
}
use selling_information.SignatureKey.Running.{sell_protocol}
use selling_information.SellInformation.Parties.{
  Seller, Buyer, Payments, get_n, accept_squares, set_single_seller, set_single_buyer,
}
use selling_information.SellInformation.Seller.{
  find_roots, encrypt_roots, setup_commit, accept_subset,
}
use selling_information.SellInformation.Buyer.{
  gen_squares, pick_r, pick_subset, get_subset_indices, get_subset_values,
}
use selling_information.SellInformation.Indices.{check_indices}
use selling_information.SellInformation.Opening.{State, commit_roots, open_values, open_rest}
use selling_information.SellInformation.Payment.{accept_t1, accept_payment, make_payment}

unfoldable pub init : {Point World : Type 0} → Exec (State Point World) (Unit {0})
init = do
  st ← gets (λ st. st)
  require (get_n st.0 == st.1.n) (protocol "Not matching n")
  require (st.0.price == st.1.price) (protocol "Not matching price")

module _ {Point World : Type 0} where
  -- A method of one party and of the world.
  abbrev pub on_seller : {A : Type 0} → Exec (Seller Point × World) A → Exec (State Point World) A
  on_seller = zoom (λ st. (st.0, st.2)) (λ part st. (part.0, st.1, part.1))

  abbrev pub on_buyer : {A : Type 0} → Exec (Buyer Point × World) A → Exec (State Point World) A
  on_buyer = zoom (λ st. (st.1, st.2)) (λ part st. (st.0, part.0, part.1))

  -- setSingleSeller and setSingleBuyer with the chosen instance, which is one of the T.
  unfoldable pub set_single :
      Option (SingleSeller Point × SingleBuyer Point) → Exec (State Point World) (Unit {0})
  set_single none = return tt
  set_single (some chosen) =
      modify (λ st. (set_single_seller chosen.0 st.0, set_single_buyer chosen.1 st.1, st.2))

  -- What exec does with the run of cut_and_choose.
  unfoldable pub take_chosen :
      Result (Unit {0}) × Choice (SingleSeller Point) (SingleBuyer Point) World
      → Exec (State Point World) (Unit {0})
  take_chosen ran = do
    modify (λ st. (st.0, st.1, ran.1.world))
    lift ran.0
    require ran.1.res (protocol "Generating signatures and keys failed!")
    set_single (get_elem? ran.1.parties ran.1.chosen)

module _ {World : Type 0} (curve : Curve) (nt : NumberTheory) (primes : List ℕ) (rng : Rng World)
    (encoding : Encoding) (sha : Sha256) (client : BitcoinClient World) where
  -- The verifier's `res` is set by cut_and_choose.
  abbrev pub start_choice :
      SingleSeller curve.Point × SingleBuyer curve.Point
      → State curve.Point World
      → Choice (SingleSeller curve.Point) (SingleBuyer curve.Point) World
  start_choice pair st = record {
    parties = replicate t pair;
    chosen = st.1.r;
    res = false;
    world = st.2;
  }

  abbrev pub cut :
      SingleSeller curve.Point × SingleBuyer curve.Point
      → State curve.Point World
      → Result (Unit {0}) × Choice (SingleSeller curve.Point) (SingleBuyer curve.Point) World
  cut pair st =
      cut_and_choose (sell_protocol curve nt primes rng encoding sha client) (λ b. b.open_verified)
        (λ s. err (protocol "Cheating not implemented!")) none (start_choice pair st)

  -- exec from the vectors to setSingleBuyer.
  unfoldable pub cut_keys :
      SingleSeller curve.Point × SingleBuyer curve.Point → Exec (State curve.Point World) (Unit {0})
  cut_keys pair st = take_chosen (cut pair st) st

  module _ (random_prime : ℕ → ℕ → World → ℕ × World)
      (prime_and_generator : ℕ → World → ℕ × World) where
    -- One SingleSeller and one SingleBuyer.
    unfoldable pub new_pair : Exec World (SingleSeller curve.Point × SingleBuyer curve.Point)
    new_pair = do
      s ← λ w. let made = Shared.new_s curve nt random_prime w in (ok made.0, made.1)
      paillier_n ← lift (Paillier.get_n s.paillier_key)
      paillier_g ← lift (Paillier.get_g s.paillier_key)
      b ← lift (Shared.new_b curve paillier_n paillier_g)
      single_seller ← new_single_seller client prime_and_generator s
      return (single_seller, new_single_buyer b)

    -- exec up to setSingleBuyer.
    unfoldable pub make_keys : Exec (State curve.Point World) (Unit {0})
    make_keys = do
      pair ← zoom (λ st. st.2) (λ w st. (st.0, st.1, w)) new_pair
      on_buyer (pick_r rng)
      cut_keys pair

  module _ (residues : Residues) (cipher : Cipher) (negative : ℕ → List ℕ) where
    -- exec from genSquares to the commitments.
    unfoldable pub commit_squares : Exec (State curve.Point World) (Unit {0})
    commit_squares = do
      on_buyer (gen_squares rng)
      modify (λ st. (accept_squares st.1.y st.0, st.1, st.2))
      on_seller (find_roots residues rng)
      s ← gets (λ st. st.0)
      encrypted ← lift (encrypt_roots cipher encoding negative s)
      modify (λ st. (setup_commit encrypted, st.1, st.2))
      commit_roots sha rng

    -- exec from pickSubset to the last opening.
    unfoldable pub open_subset : Exec (State curve.Point World) (Unit {0})
    open_subset = do
      on_buyer (pick_subset rng)
      st ← gets (λ st. st)
      let indices = get_subset_indices st.1
      lift (check_indices indices)
      commitment_indices ← lift (accept_subset st.0 indices (get_subset_values st.1))
      open_values sha cipher encoding indices commitment_indices
      open_rest sha indices

  -- exec from make_payment to accept_payment.
  unfoldable pub pay : Payments World → Exec (State curve.Point World) (Unit {0})
  pay payments = do
    on_buyer (make_payment curve encoding payments)
    b ← gets (λ st. st.1)
    on_seller (accept_t1 curve encoding payments b.single_buyer.t1)
    on_seller (accept_payment curve encoding payments)

  -- exec up to wait_for_signature_or_time_lock.
  unfoldable pub exec :
      (ℕ → ℕ → World → ℕ × World)
      → (ℕ → World → ℕ × World)
      → Residues
      → Cipher
      → (ℕ → List ℕ)
      → Payments World
      → Exec (State curve.Point World) (Unit {0})
  exec random_prime prime_and_generator residues cipher negative payments = do
    make_keys random_prime prime_and_generator
    commit_squares residues cipher negative
    open_subset residues cipher negative
    pay payments
