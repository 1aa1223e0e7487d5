-- ===== src/Tests/Timed.antt =====
-- The theorems on timed_commitment/ at small numbers.
use selling_information.Base.{
  ℕ, ◌-◌, ◌%◌, ◌^◌, ◌≤◌, ◌≡◌, refl, Bool, true, false, List, [], ◌∷◌, replicate, length, arith, ok,
  err, timed_protocol, leb, if◌then◌else◌,
}
use selling_information.TimedCommitment.Numbers.{exp, find_order, get_g, b_bound}
use selling_information.TimedCommitment.Parties.{
  Commitment, Commiter, Receiver, blank_commitment, new_receiver,
}
use selling_information.TimedCommitment.Receiving.{force_open, force_open_smart}
use selling_information.TimedCommitment.Protocol.{zk_rounds, commit, open_commitment}
use selling_information.TimedCommitment.Exponent.{exp_lem, get_g_lem, prime_product}
use selling_information.TimedCommitment.Sealing.{made, made-IsSealed}
use selling_information.TimedCommitment.Proving.{IsReady}
use selling_information.TimedCommitment.Session.{IsSetUp, zk_rounds-IsReady, commit-open}
use selling_information.TimedCommitment.Order.{IsPeriod, find_order-IsPeriod}
use selling_information.Tests.Reference.{number_theory, encoding, sha, rng}

-- A table whose first number is above the bound: h itself is g.
abbrev pub table : List ℕ
table = replicate 129 131

abbrev pub small_commiter : Commiter
small_commiter = record {
  p = 7;
  q = 11;
  n = 77;
  phi = 60;
  commitment = blank_commitment;
  order = 0;
  commits = [];
  alpha = [];
}

abbrev pub message : List Bool
message = true ∷ false ∷ []

small_IsSetUp : IsSetUp table rng 2 message small_commiter 0
small_IsSetUp = record {
  modulus = refl;
  totient = refl;
  p_large = omega arith;
  q_large = omega arith;
  table = omega arith;
  rounds = omega arith;
  fits = omega arith;
  euler = refl;
  not_one = omega arith;
}

commit-open_example :
    (made : Commitment) × (c' : Commiter) × (r' : Receiver) × (world' : ℕ) × (commit number_theory
        table rng encoding sha 2 message
        (small_commiter, new_receiver, 0)
      ≡ ok (made, c', r', world'))
    × (open_commitment number_theory table c' r' ≡ ok message)
    × (force_open number_theory r' ≡ ok message)
    × (length message ≤ 2 ^ (2 - 1) → force_open_smart number_theory r' ≡ ok message)
commit-open_example =
    commit-open number_theory table rng encoding sha 2 message small_commiter 0 small_IsSetUp
      new_receiver

find_order-IsPeriod_example :
    (o : ℕ) × (find_order number_theory 7 11 2 ≡ ok o) × IsPeriod 77 2 60 o
find_order-IsPeriod_example =
    find_order-IsPeriod number_theory 7 11 2 (omega arith) (omega arith) refl

exp_lem_example : exp 3 13 ≡ 3 ^ 13
exp_lem_example = exp_lem 3 13

-- Primes below the bound, and numbers above it.
abbrev primes_table : List ℕ
primes_table = 2 ∷ 3 ∷ 5 ∷ replicate 127 131

get_g_lem_example : get_g number_theory primes_table 77 2 ≡ (
    if leb (length primes_table) b_bound
    then err (timed_protocol "not enough primes")
    else ok (2 ^ prime_product primes_table % 77))
get_g_lem_example = get_g_lem number_theory primes_table 77 2 (omega arith)

abbrev pub small_commitment : Commitment
small_commitment = made number_theory 2 message 2 2 small_commiter

abbrev pub holder : Commiter
holder = record small_commiter { commitment = small_commitment; order = 30 }

abbrev pub verifier : Receiver
verifier = record new_receiver { commitment = small_commitment }

small_IsReady : IsReady number_theory message holder verifier
small_IsReady = record {
  sealed =
      made-IsSealed number_theory 2 message 2 2 30 small_commiter (omega arith) (omega arith)
        (omega arith) refl (omega arith) (omega arith);
  same = refl;
  modulus = refl;
  period = refl;
  order_lt = omega arith;
}

zk_rounds-IsReady_example :
    (c' : Commiter) × (r' : Receiver) × (world' : ℕ) × (zk_rounds number_theory table rng encoding
        sha 3
        (holder, verifier, 4)
      ≡ ok (c', r', world'))
    × IsReady number_theory message c' r'
    × (c'.commitment ≡ holder.commitment)
    × (c'.phi ≡ holder.phi)
zk_rounds-IsReady_example =
    zk_rounds-IsReady number_theory table rng encoding sha 3 message holder verifier 4 small_IsReady
