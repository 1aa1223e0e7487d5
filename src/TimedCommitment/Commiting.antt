-- ===== src/TimedCommitment/Commiting.antt =====
-- The methods of Commiter in timed_commitment.cpp. `Integer::Power2(K) - l` is a number for l up to
-- 2 ^ K, and the methods are read for such l.
use selling_information.Base.{
  ℕ, ◌+◌, ◌-◌, ◌*◌, ◌%◌, ◌^◌, Bool, ◌&&◌, List, ◌∷◌, map, ◌==◌, length, get_or, indices, Result, ok,
  guard, for_each, timed_protocol, sanity,
}
use selling_information.Base.Errors.{◌>>=◌, ◌>>◌}
use selling_information.Crypto.{NumberTheory, Rng, Encoding, Sha256}
use selling_information.RegularCommitment.{RegularCommitment, regular_verify}
use selling_information.TimedCommitment.Numbers.{get_g, find_order}
use selling_information.TimedCommitment.Parties.{
  Commitment, Commiter, blank_regular, is_binary, draws, mask, powers,
}

module _ (nt : NumberTheory) where
  open nt use {a_times_b_mod_c, a_exp_b_mod_c}

  -- Commiter::commit from the second line of arithmetic on: h, g and the order are found.
  unfoldable pub seal : ℕ → List Bool → ℕ → ℕ → ℕ → Commiter → Result (Commitment × Commiter)
  seal k m h g order c = do
    let l = length m
    let a0 = a_exp_b_mod_c 2 (2 ^ k - l) c.phi
    let a = a_exp_b_mod_c 2 (2 ^ k) c.phi
    let masked = mask nt c.n (a_exp_b_mod_c g a0 c.n) m
    let u = masked.1
    guard (u == a_exp_b_mod_c g a c.n) (sanity "u != g ** a")
    let w = powers nt k c.n g c.phi
    guard
        (get_or w 0 0 == g * g % c.n && (get_or w 1 0 == g * g * g * g % c.n && get_or w k 0 == u))
        (sanity "invalid W")
    let made : Commitment = record {
      k = k;
      n = c.n;
      h = h;
      g = g;
      u = u;
      s = masked.0;
      w = w;
      l = l;
    }
    ok (made, record c { commitment = made; order = order })

  -- The response to the challenge `i`.
  unfoldable pub response : Commiter → List ℕ → ℕ → ℕ
  response c commit_values i =
      (a_times_b_mod_c (get_or commit_values i 0) (a_exp_b_mod_c 2 (2 ^ (i - 1)) c.order) c.order
        + get_or c.alpha i 0)
      % c.order

  unfoldable pub commiter_open : Commiter → ℕ
  commiter_open c =
      a_exp_b_mod_c c.commitment.h (a_exp_b_mod_c 2 (2 ^ c.commitment.k - c.commitment.l) c.phi) c.n

  -- z and w of zk_2 for the drawn alpha.
  unfoldable pub announce : Commiter → List ℕ → List ℕ × List ℕ
  announce c alpha = (
    0 ∷ map (λ i. a_exp_b_mod_c c.commitment.g (get_or alpha i 0) c.n) (indices 1 c.commitment.k),
    0
        ∷ map (λ i. a_exp_b_mod_c (get_or c.commitment.w (i - 1) 0) (get_or alpha i 0) c.n)
            (indices 1 c.commitment.k),
  )

module _ {World : Type 0} (nt : NumberTheory) (primes : List ℕ) (rng : Rng World) where
  unfoldable pub commiter_commit :
      ℕ → List Bool → Commiter → World → Result (Commitment × Commiter × World)
  commiter_commit k m c world = do
    guard (is_binary m) (sanity "not binary m")
    let drawn = rng.randomize 2 (c.n - 1) world
    let h = drawn.0
    g ← get_g nt primes c.n h
    order ← find_order nt c.p c.q g
    made ← seal nt k m h g order c
    ok (made.0, made.1, drawn.1)

  -- An entry of alpha that the loop does not draw keeps its value.
  unfoldable pub zk_2 :
      List RegularCommitment → Commiter → World → Result ((List ℕ × List ℕ) × Commiter × World)
  zk_2 commits c world = do
    guard (length commits == c.commitment.k + 1) (timed_protocol "ERR zk_2 commits size")
    let drawn = draws (rng.randomize 0 (c.order - 1)) c.commitment.k world
    let alpha = get_or c.alpha 0 0 ∷ drawn.0
    ok (announce nt c alpha, record c { commits = commits; alpha = alpha }, drawn.1)

module _ (nt : NumberTheory) (enc : Encoding) (sha : Sha256) where
  unfoldable pub zk_4 : List ℕ → Commiter → Result (List ℕ)
  zk_4 commit_values c = do
    guard (length commit_values == c.commitment.k + 1) (timed_protocol "invalid commit_values size")
    for_each (indices 1 c.commitment.k) (λ i.
        guard (regular_verify enc sha (get_or c.commits i blank_regular) (get_or commit_values i 0))
          (timed_protocol "regular commit didn't verify"))
    ok (0 ∷ map (response nt c commit_values) (indices 1 c.commitment.k))
