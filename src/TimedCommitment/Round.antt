-- ===== src/TimedCommitment/Round.antt =====
-- timed_commitment.cpp: the rounds zk_1 to zk_5 pass for a sealed commitment.
use selling_information.Base.{
  ℕ, zero, suc, ◌+◌, ◌-◌, ◌≤◌, ◌<◌, ◌≡◌, refl, sym, ap, ◌∙◌, Bool, true, List, ◌∷◌, map, length,
  get_or, get_or-map, indices, length-indices, length-map, All-indices, ◌==◌, ==_iff, arith, Result,
  ok, guard, timed_protocol, for_each-ok,
}
use selling_information.Crypto.{NumberTheory, Rng, Encoding, Sha256}
use selling_information.RegularCommitment.{regular_commit, regular_verify}
use selling_information.RegularCommitment.Binding.{regular_verify-regular_commit}
use selling_information.TimedCommitment.Numbers.{r_bound}
use selling_information.TimedCommitment.Parties.{Commiter, Receiver, draws, blank_regular}
use selling_information.TimedCommitment.Commiting.{response, announce, zk_2, zk_4}
use selling_information.TimedCommitment.Receiving.{zk_1, zk_3, zk_5}
use selling_information.TimedCommitment.Protocol.{zk_round}
use selling_information.TimedCommitment.Proving.{IsReady, check_response-ok}

pub length-draws :
    {World : Type 0} (draw : World → ℕ × World) (n : ℕ) (world : World)
    → length (draws draw n world).0 ≡ n
unfolding draws
length-draws draw zero world = refl
length-draws draw (suc n) world = ap suc (length-draws draw n (draw world).1)

sized : (n k : ℕ) → n ≡ k → (suc n == k + 1) ≡ true
sized n k e = (==_iff _ _).1 (omega arith)

module _ (nt : NumberTheory) (enc : Encoding) (sha : Sha256) where
  -- Each commitment that zk_1 makes verifies in zk_4.
  verified :
      (xs : List ℕ) (first i : ℕ)
      → 1 ≤ i
      → i < 1 + length xs
      → regular_verify enc sha
          (get_or (blank_regular ∷ map (regular_commit enc sha) xs) i blank_regular)
          (get_or (first ∷ xs) i 0)
        ≡ true
  verified xs first zero p q = absurd (omega arith)
  verified xs first (suc i) p q =
      rw (get_or-map (regular_commit enc sha) xs i 0 blank_regular (omega arith))
        (regular_verify-regular_commit enc sha (get_or xs i 0))

  zk_4_lem :
      (c : Commiter) (xs : List ℕ) (first : ℕ)
      → c.commits ≡ blank_regular ∷ map (regular_commit enc sha) xs
      → length xs ≡ c.commitment.k
      → zk_4 nt enc sha (first ∷ xs) c
        ≡ ok (0 ∷ map (response nt c (first ∷ xs)) (indices 1 c.commitment.k))
  unfolding zk_4
  zk_4_lem c xs first made len = rw (
    sized (length xs) c.commitment.k len,
    for_each-ok (indices 1 c.commitment.k) body (All-indices _ 1 c.commitment.k passes),
  )
    where
      body : ℕ → Result (Unit {0})
      body i =
          guard
            (regular_verify enc sha (get_or c.commits i blank_regular) (get_or (first ∷ xs) i 0))
            (timed_protocol "regular commit didn't verify")

      passes : (i : ℕ) → 1 ≤ i → i < 1 + c.commitment.k → body i ≡ ok tt
      passes i p q = rw (made, verified xs first i p (omega (arith, len)))

  zk_5_lem :
      (m : List Bool) (c : Commiter) (r : Receiver)
      → IsReady nt m c r
      → r.zw ≡ announce nt c c.alpha
      → zk_5 nt (0 ∷ map (response nt c r.commit_values) (indices 1 c.commitment.k)) r ≡ ok tt
  unfolding zk_5
  zk_5_lem m c r ready told = rw (
    ready.same,
    told,
    sized (length (map (response nt c r.commit_values) (indices 1 c.commitment.k))) c.commitment.k
        (length-map _ _ ∙ length-indices 1 c.commitment.k),
    for_each-ok (indices 1 c.commitment.k) _ (
        All-indices _ 1 c.commitment.k
          λ i p q. check_response-ok nt m c r ready i p q r.commit_values),
  )

length-announce :
    (nt : NumberTheory) (c : Commiter) (alpha : List ℕ)
    → (length (announce nt c alpha).0 ≡ c.commitment.k + 1)
      × (length (announce nt c alpha).1 ≡ c.commitment.k + 1)
unfolding announce
length-announce nt c alpha =
    let size : length (indices 1 c.commitment.k) ≡ c.commitment.k =
      length-indices 1 c.commitment.k in
    (
      omega (
        arith,
        length-map (λ i. nt.a_exp_b_mod_c c.commitment.g (get_or alpha i 0) c.n)
            (indices 1 c.commitment.k),
        size,
      ),
      omega (
        arith,
        length-map (λ i. nt.a_exp_b_mod_c (get_or c.commitment.w (i - 1) 0) (get_or alpha i 0) c.n)
            (indices 1 c.commitment.k),
        size,
      ),
    )

zk_3_lem :
    (zw : List ℕ × List ℕ) (r : Receiver)
    → length zw.0 ≡ r.commitment.k + 1
    → length zw.1 ≡ r.commitment.k + 1
    → zk_3 zw r ≡ ok (r.commit_values, record r { zw = zw })
unfolding zk_3
zk_3_lem zw r p q = rw ((==_iff _ _).1 p, (==_iff _ _).1 q)

module _ {World : Type 0} (nt : NumberTheory) (primes : List ℕ) (rng : Rng World) (enc : Encoding)
    (sha : Sha256) where
  -- A round of honest parties ends with no exception and leaves them ready for the next.
  pub zk_round-IsReady :
      (m : List Bool) (c : Commiter) (r : Receiver) (world : World)
      → IsReady nt m c r
      → (c' : Commiter) × (r' : Receiver) × (world' : World) × (zk_round nt primes rng enc sha
            (c, r, world)
          ≡ ok (c', r', world'))
        × IsReady nt m c' r'
        × (c'.commitment ≡ c.commitment)
        × (c'.phi ≡ c.phi)
  unfolding zk_round zk_1 zk_2 announce
  zk_round-IsReady m c r world ready = (c', r', drawn2.1, ran, ready', refl, refl)
    where
      k : ℕ
      k = c.commitment.k

      drawn1 : List ℕ × World
      drawn1 = draws (rng.randomize 0 r_bound) r.commitment.k world

      len1 : length drawn1.0 ≡ k
      len1 = length-draws _ r.commitment.k world ∙ ap (λ x. x.k) ready.same

      drawn2 : List ℕ × World
      drawn2 = draws (rng.randomize 0 (c.order - 1)) c.commitment.k drawn1.1

      c' : Commiter
      c' = record c {
        commits = blank_regular ∷ map (regular_commit enc sha) drawn1.0;
        alpha = get_or c.alpha 0 0 ∷ drawn2.0;
      }

      told : Receiver
      told = record r { commit_values = get_or r.commit_values 0 0 ∷ drawn1.0 }

      r' : Receiver
      r' = record told { zw = announce nt c c'.alpha }

      ready' : IsReady nt m c' r'
      ready' = record {
        sealed = ready.sealed;
        same = ready.same;
        modulus = ready.modulus;
        period = ready.period;
        order_lt = ready.order_lt;
      }

      sizes :
          (length (announce nt c c'.alpha).0 ≡ c.commitment.k + 1)
          × (length (announce nt c c'.alpha).1 ≡ c.commitment.k + 1)
      sizes = length-announce nt c c'.alpha

      ran : zk_round nt primes rng enc sha (c, r, world) ≡ ok (c', r', drawn2.1)
      ran =
          rw
            (sized (length (map (regular_commit enc sha) drawn1.0)) k
              (length-map _ drawn1.0 ∙ len1))
            (rw (
              zk_3_lem (announce nt c c'.alpha) told (sizes.0 ∙ ap (λ x. x.k + 1) (sym ready.same))
                  (sizes.1 ∙ ap (λ x. x.k + 1) (sym ready.same)),
              zk_4_lem nt enc sha c' drawn1.0 (get_or r.commit_values 0 0) refl len1,
              zk_5_lem nt enc sha m c' r' ready' refl,
            ))
