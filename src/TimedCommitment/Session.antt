-- ===== src/TimedCommitment/Session.antt =====
-- timed_commitment.cpp: a whole session of honest parties, from commit to each of the openings.
use selling_information.Base.{
  ℕ, zero, suc, ◌-◌, ◌*◌, ◌%◌, ◌^◌, ◌≤◌, ◌<◌, ◌≡◌, refl, sym, ap, subst, ◌∙◌, ◌≢◌, Bool, true,
  false, ◌&&◌, List, [], ◌∷◌, length, get_or, ◌==◌, ==_iff, ==_refl, arith, ok,
}
use selling_information.Modular.{pow_right_comm, pow_congr, one-pow, pow-mod, pow-one, pow-two}
use selling_information.Crypto.{NumberTheory, Rng, Encoding, Sha256}
use selling_information.TimedCommitment.Numbers.{b_bound, find_order}
use selling_information.TimedCommitment.Exponent.{prime_product, get_g_lem}
use selling_information.TimedCommitment.Order.{IsPeriod, find_order-IsPeriod}
use selling_information.TimedCommitment.Parties.{Commitment, Commiter, Receiver, is_binary}
use selling_information.TimedCommitment.Commiting.{commiter_commit}
use selling_information.TimedCommitment.Receiving.{accept_commitment, force_open, force_open_smart}
use selling_information.TimedCommitment.Protocol.{zk_rounds, commit, open_commitment}
use selling_information.TimedCommitment.Sealing.{IsSealed, made, made-IsSealed, seal_lem}
use selling_information.TimedCommitment.Opening.{
  short, force_open_lem, force_open_smart_lem, receiver_open_lem,
}
use selling_information.TimedCommitment.Proving.{IsReady}
use selling_information.TimedCommitment.Round.{zk_round-IsReady}
use native.Mathlib.Nat.{mod-eq_of_lt, mod-lt}

is_binary_lem : (m : List Bool) → is_binary m ≡ true
unfolding is_binary
is_binary_lem [] = refl
is_binary_lem (true ∷ m) = is_binary_lem m
is_binary_lem (false ∷ m) = is_binary_lem m

-- The conditions on what the parties start from. `drawn` is the h that commit draws.
pub record IsSetUp {World : Type 0} (primes : List ℕ) (rng : Rng World) (k : ℕ) (m : List Bool)
    (c : Commiter) (world : World) : Type 0 where
  pub modulus : c.n ≡ c.p * c.q
  pub totient : c.phi ≡ (c.p - 1) * (c.q - 1)
  pub p_large : 6 ≤ c.p
  pub q_large : 6 ≤ c.q
  pub table : b_bound < length primes
  pub rounds : 1 ≤ k
  pub fits : length m ≤ 2 ^ k
  -- Euler's theorem at the h that commit draws.
  pub euler : (rng.randomize 2 (c.n - 1) world).0 ^ c.phi % c.n ≡ 1
  pub not_one : (rng.randomize 2 (c.n - 1) world).0 ^ prime_product primes % c.n ≢ 1

module _ {World : Type 0} (nt : NumberTheory) (primes : List ℕ) (rng : Rng World) (enc : Encoding)
    (sha : Sha256) where
  -- Where the committer and the receiver hold one commitment that is sealed to m, and the
  -- committer knows a period above 1 of its g (IsReady), any number of rounds zk_1 to zk_5 ends
  -- with no exception, leaves them so again, and changes neither the commitment nor phi.
  pub zk_rounds-IsReady :
      (rounds : ℕ) (m : List Bool) (c : Commiter) (r : Receiver) (world : World)
      → IsReady nt m c r
      → (c' : Commiter) × (r' : Receiver) × (world' : World) × (zk_rounds nt primes rng enc sha
            rounds
            (c, r, world)
          ≡ ok (c', r', world'))
        × IsReady nt m c' r'
        × (c'.commitment ≡ c.commitment)
        × (c'.phi ≡ c.phi)
  unfolding zk_rounds
  zk_rounds-IsReady zero m c r world ready = (c, r, world, refl, ready, refl, refl)
  zk_rounds-IsReady (suc rounds) m c r world ready =
      let (c1, r1, w1, ran1, ready1, same1, phi1) =
        zk_round-IsReady nt primes rng enc sha m c r world ready in
      let (c2, r2, w2, ran2, ready2, same2, phi2) = zk_rounds-IsReady rounds m c1 r1 w1 ready1 in
      (c2, r2, w2, rw ran1 ran2, ready2, same2 ∙ same1, phi2 ∙ phi1)

  module _ (k : ℕ) (m : List Bool) (c : Commiter) (world : World)
      (set_up : IsSetUp primes rng k m c world) where
    abbrev drawn_h : ℕ
    drawn_h = (rng.randomize 2 (c.n - 1) world).0

    abbrev drawn_g : ℕ
    drawn_g = drawn_h ^ prime_product primes % c.n

    n_lt : 1 < c.n
    n_lt = rw set_up.modulus (grind (arith, set_up.p_large, set_up.q_large))

    phi_lt : 1 < c.phi
    phi_lt = rw set_up.totient (grind (arith, set_up.p_large, set_up.q_large))

    g_one : drawn_g ^ c.phi % c.n ≡ 1
    g_one =
        pow-mod (drawn_h ^ prime_product primes) c.phi c.n
        ∙ ap (λ y. y % c.n) (pow_right_comm drawn_h (prime_product primes) c.phi)
        ∙ pow_congr (drawn_h ^ c.phi) 1 (prime_product primes) c.n
            (set_up.euler ∙ sym (mod-eq_of_lt n_lt))
        ∙ ap (λ y. y % c.n) (one-pow (prime_product primes))
        ∙ mod-eq_of_lt n_lt

    g_lt : drawn_g < c.n
    g_lt = mod-lt _ (omega (arith, n_lt))

    found :
        (o : ℕ) × (find_order nt c.p c.q drawn_g ≡ ok o)
        × IsPeriod (c.p * c.q) drawn_g ((c.p - 1) * (c.q - 1)) o
    found = find_order-IsPeriod nt c.p c.q drawn_g set_up.p_large set_up.q_large (
        ap (λ n. drawn_g ^ ((c.p - 1) * (c.q - 1)) % n) (sym set_up.modulus)
        ∙ ap (λ e. drawn_g ^ e % c.n) (sym set_up.totient)
        ∙ g_one)

    period : drawn_g ^ found.0 % c.n ≡ 1
    period = ap (λ n. drawn_g ^ found.0 % n) set_up.modulus ∙ found.2.2

    order_lt : 1 < found.0
    order_lt = at_least_two found.0 found.2.0 (λ e. set_up.not_one (is_one e))
      where
        is_one : found.0 ≡ 1 → drawn_g ≡ 1
        is_one e =
            sym (mod-eq_of_lt g_lt)
            ∙ ap (λ y. y % c.n) (sym (pow-one drawn_g))
            ∙ ap (λ o. drawn_g ^ o % c.n) (sym e)
            ∙ period

        at_least_two : (o : ℕ) → 0 < o → o ≢ 1 → 1 < o
        at_least_two o p q = omega arith

    abbrev committed : Commitment
    committed = made nt k m drawn_h drawn_g c

    committed-IsSealed : IsSealed nt m committed
    committed-IsSealed =
        made-IsSealed nt k m drawn_h drawn_g found.0 c n_lt g_lt phi_lt g_one set_up.rounds
          set_up.fits

    abbrev holder : Commiter
    holder = record c { commitment = committed; order = found.0 }

    -- Commiter::commit ends with no exception.
    commiter_commit_lem :
        commiter_commit nt primes rng k m c world
        ≡ ok (committed, holder, (rng.randomize 2 (c.n - 1) world).1)
    unfolding commiter_commit
    commiter_commit_lem = rw (
      is_binary_lem m,
      get_g_lem nt primes c.n (rng.randomize 2 (c.n - 1) world).0 n_lt,
      short primes set_up.table,
      found.1,
      seal_lem nt k m drawn_h drawn_g found.0 c n_lt g_lt phi_lt g_one set_up.rounds set_up.fits,
    )

    checked :
        (get_or committed.w 0 0 == drawn_g * drawn_g % c.n && get_or committed.w k 0 == committed.u)
        ≡ true
    checked = rw (
      (==_iff (get_or committed.w 0 0) (drawn_g * drawn_g % c.n)).1
          (committed-IsSealed.entries 0 (omega arith) ∙ ap (λ y. y % c.n) (pow-two drawn_g)),
      (==_iff (get_or committed.w k 0) committed.u).1
          (committed-IsSealed.entries k (omega arith) ∙ sym committed-IsSealed.last),
    )

    -- So does Receiver::accept_commitment.
    accept_commitment_lem :
        (r : Receiver)
        → accept_commitment nt primes committed r ≡ ok (record r { commitment = committed })
    unfolding accept_commitment
    accept_commitment_lem r = rw (
      get_g_lem nt primes c.n drawn_h n_lt,
      short primes set_up.table,
      ==_refl drawn_g,
      (==_iff _ _).1 committed-IsSealed.width,
      checked,
    )

    ready : (r : Receiver) → IsReady nt m holder (record r { commitment = committed })
    ready r = record {
      sealed = committed-IsSealed;
      same = refl;
      modulus = refl;
      period = period;
      order_lt = order_lt;
    }

    -- Under IsSetUp (n = p * q and phi = (p - 1) * (q - 1) with p and q at least 6, more than 128
    -- primes in the table, 1 <= K, at most 2 ^ K message bits, and a drawn h that is 1 to the phi
    -- and whose g is not 1) commit ends with no exception, whatever the receiver was. After it
    -- open_commitment and force_open return the message, and so does force_open_smart if the
    -- message has at most 2 ^ (K - 1) bits.
    pub commit-open :
        (r : Receiver)
        → (made : Commitment) × (c' : Commiter) × (r' : Receiver) × (world' : World) × (commit nt
              primes rng enc sha k m
              (c, r, world)
            ≡ ok (made, c', r', world'))
          × (open_commitment nt primes c' r' ≡ ok m)
          × (force_open nt r' ≡ ok m)
          × (length m ≤ 2 ^ (k - 1) → force_open_smart nt r' ≡ ok m)
    unfolding commit open_commitment
    commit-open r =
        let accepted : Receiver = record r { commitment = committed } in
        let (c', r', world', ran, after, kept, phi_kept) =
          zk_rounds-IsReady 10 m holder accepted (rng.randomize 2 (c.n - 1) world).1 (ready r) in
        let held : r'.commitment ≡ committed = after.same ∙ kept in
        (
          committed,
          c',
          r',
          world',
          rw (commiter_commit_lem, accept_commitment_lem r, ran),
          receiver_open_lem nt m committed committed-IsSealed primes set_up.table c' r' kept held
              (after.modulus ∙ ap (λ x. x.n) kept) (subst (λ x. 1 < x) (sym phi_kept) phi_lt)
              (ap (λ e. drawn_h ^ e % c.n) phi_kept ∙ set_up.euler) refl,
          force_open_lem nt m committed committed-IsSealed r' held,
          λ small.
              force_open_smart_lem nt m committed committed-IsSealed r' held set_up.rounds small,
        )
