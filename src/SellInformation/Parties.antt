-- ===== src/SellInformation/Parties.antt =====
-- sell_information.h: the classes Seller and Buyer, their constructors and setters. What a constructor
-- leaves unset is 0 or empty.
use selling_information.Base.{ℕ, ◌*◌, Bool, List, [], replicate}
use selling_information.Base.Exec.{Exec}
use selling_information.Base.Int.{ℤ, pos}
use selling_information.Common.{l}
use selling_information.Crypto.{NumberTheory}
use selling_information.SquareRoot.{SquareRoot, new_square_root}
use selling_information.SignatureKey.Parties.{SingleSeller, SingleBuyer}
use selling_information.ShaCommitment as Sha

-- BitcoinUtilsClient: the calls that the sale makes, each of which may throw. `connect` is the
-- constructor BaseParty(9092).
pub record Payments (World : Type 0) : Type 0 where
  pub connect : Exec World (Unit {0})
  pub verify_transaction : List ℕ → List ℕ → List ℕ → ℕ → Exec World Bool
  pub wait_for_transaction : List ℕ → ℕ → Exec World Bool
  pub wait_for_transaction_by_output : List ℕ → ℕ → Exec World Bool
  pub broadcast_transaction : List ℕ → Exec World Bool
  pub redeem_transaction : List ℕ → List ℕ → List ℕ → List ℕ → Exec World Bool
  -- The bytes of r and of s.
  pub get_signature : List ℕ → Exec World (List ℕ × List ℕ)

pub record Seller (Point : Type 0) : Type 0 where
  pub p : ℕ
  pub q : ℕ
  pub n : ℕ
  pub price : ℕ
  pub cheat : Bool
  pub square_root : SquareRoot
  pub y : List ℕ
  pub r1 : List ℤ
  pub r2 : List ℤ
  pub c1 : List (List ℕ)
  pub c2 : List (List ℕ)
  pub t1 : List ℕ
  pub single_seller : SingleSeller Point
  pub d1 : List Sha.Sender
  pub d2 : List Sha.Sender

pub record Buyer (Point : Type 0) : Type 0 where
  pub n : ℕ
  pub price : ℕ
  pub x : List ℕ
  pub y : List ℕ
  pub r : ℕ
  pub indices : List ℕ
  pub signature : List ℕ
  pub p : ℤ
  pub q : ℕ
  pub single_buyer : SingleBuyer Point
  pub d1 : List Sha.Receiver
  pub d2 : List Sha.Receiver

-- The member that SingleSeller() makes is an argument.
unfoldable pub new_seller :
    {Point : Type 0} → NumberTheory → SingleSeller Point → ℕ → ℕ → ℕ → Bool → Seller Point
new_seller nt single_seller p q price cheat = record {
  p = p;
  q = q;
  n = p * q;
  price = price;
  cheat = cheat;
  square_root = new_square_root nt p q;
  y = replicate l 0;
  r1 = replicate l (pos 0);
  r2 = replicate l (pos 0);
  c1 = replicate l [];
  c2 = replicate l [];
  t1 = [];
  single_seller = single_seller;
  d1 = replicate l Sha.new_sender;
  d2 = replicate l Sha.new_sender;
}

-- The member that SingleBuyer() makes is an argument.
unfoldable pub new_buyer : {Point : Type 0} → SingleBuyer Point → ℕ → ℕ → Buyer Point
new_buyer single_buyer n price = record {
  n = n;
  price = price;
  x = replicate l 0;
  y = replicate l 0;
  r = 0;
  indices = [];
  signature = [];
  p = pos 0;
  q = 0;
  single_buyer = single_buyer;
  d1 = replicate l Sha.new_receiver;
  d2 = replicate l Sha.new_receiver;
}

-- Seller::get_n.
abbrev pub get_n : {Point : Type 0} → Seller Point → ℕ
get_n s = s.p * s.q

abbrev pub accept_squares : {Point : Type 0} → List ℕ → Seller Point → Seller Point
accept_squares y s = record s { y = y }

abbrev pub set_single_seller : {Point : Type 0} → SingleSeller Point → Seller Point → Seller Point
set_single_seller single s = record s { single_seller = single }

abbrev pub set_single_buyer : {Point : Type 0} → SingleBuyer Point → Buyer Point → Buyer Point
set_single_buyer single b = record b { single_buyer = single }
