-- ===== src/TimedCommitment/Receiving.antt =====
-- The methods of Receiver in timed_commitment.cpp. A loop that counts up to `Integer::Power2(K) - l`
-- runs no round where l is larger, as `-` on ℕ has it.
use selling_information.Base.{
  ℕ, ◌+◌, ◌-◌, ◌*◌, ◌%◌, ◌^◌, Bool, ◌&&◌, List, ◌∷◌, map, ◌==◌, length, get_or, indices, Result, ok,
  guard, for_each, timed_protocol, sanity,
}
use selling_information.Base.Errors.{◌>>=◌, ◌>>◌}
use selling_information.Crypto.{NumberTheory, Rng, Encoding, Sha256}
use selling_information.RegularCommitment.{RegularCommitment, regular_commit}
use selling_information.TimedCommitment.Numbers.{r_bound, get_g}
use selling_information.TimedCommitment.Parties.{
  Commitment, Receiver, blank_regular, draws, unmask, square_times,
}

module _ (nt : NumberTheory) where
  open nt use {a_times_b_mod_c, a_exp_b_mod_c, inverse_mod}

  -- The two checks of zk_5 for `i`.
  unfoldable pub check_response :
      Commitment → List ℕ → List ℕ × List ℕ → List ℕ → ℕ → Result (Unit {0})
  check_response c commit_values zw y i = do
    let zi =
        a_times_b_mod_c (a_exp_b_mod_c c.g (get_or y i 0) c.n)
          (a_exp_b_mod_c (inverse_mod (get_or c.w (i - 1) 0) c.n) (get_or commit_values i 0) c.n)
          c.n
    guard (zi == get_or zw.0 i 0) (timed_protocol "zi verification failed")
    let wi =
        a_times_b_mod_c (a_exp_b_mod_c (get_or c.w (i - 1) 0) (get_or y i 0) c.n)
          (a_exp_b_mod_c (inverse_mod (get_or c.w i 0) c.n) (get_or commit_values i 0) c.n) c.n
    guard (wi == get_or zw.1 i 0) (timed_protocol "wi verification failed")

  unfoldable pub zk_5 : List ℕ → Receiver → Result (Unit {0})
  zk_5 y r = do
    guard (length y == r.commitment.k + 1) (timed_protocol "y size != K+1")
    for_each (indices 1 r.commitment.k) (check_response r.commitment r.commit_values r.zw y)

  unfoldable pub decode : ℕ → Commitment → Result (List Bool)
  decode v c = do
    let res = unmask nt c.n c.s c.l 0 v
    guard (res.1 == c.u) (sanity "v != com.u")
    ok res.0

  -- The end that open, force_open and force_open_smart share.
  unfoldable pub check_and_decode : ℕ → Commitment → Result (List Bool)
  check_and_decode v c = do
    let u = a_exp_b_mod_c v (2 ^ c.l) c.n
    guard (u == c.u) (timed_protocol "u != com.u")
    decode v c

  unfoldable pub force_open : Receiver → Result (List Bool)
  force_open r =
      let c = r.commitment in check_and_decode (square_times nt c.n (2 ^ c.k - c.l) c.g) c

  unfoldable pub force_open_smart : Receiver → Result (List Bool)
  force_open_smart r =
      let c = r.commitment in
      check_and_decode (square_times nt c.n (2 ^ (c.k - 1) - c.l) (get_or c.w (c.k - 1) 0)) c

module _ (nt : NumberTheory) (primes : List ℕ) where
  unfoldable pub receiver_open : ℕ → Receiver → Result (List Bool)
  receiver_open vp r = do v ← get_g nt primes r.commitment.n vp; check_and_decode nt v r.commitment

  unfoldable pub accept_commitment : Commitment → Receiver → Result Receiver
  accept_commitment c r = do
    g ← get_g nt primes c.n c.h
    guard (c.g == g) (timed_protocol "g != get_g")
    guard (length c.w == c.k + 1) (timed_protocol "W.size() != K+1")
    guard (get_or c.w 0 0 == c.g * c.g % c.n && get_or c.w c.k 0 == c.u)
        (timed_protocol "invalid W")
    ok (record r { commitment = c })

module _ {World : Type 0} (rng : Rng World) (enc : Encoding) (sha : Sha256) where
  -- An entry of commit_values that the loop does not draw keeps its value.
  unfoldable pub zk_1 : Receiver → World → List RegularCommitment × Receiver × World
  zk_1 r world =
      let drawn = draws (rng.randomize 0 r_bound) r.commitment.k world in
      (
        blank_regular ∷ map (regular_commit enc sha) drawn.0,
        record r { commit_values = get_or r.commit_values 0 0 ∷ drawn.0 },
        drawn.1,
      )

unfoldable pub zk_3 : List ℕ × List ℕ → Receiver → Result (List ℕ × Receiver)
zk_3 zw r = do
  guard (length zw.0 == r.commitment.k + 1 && length zw.1 == r.commitment.k + 1)
      (timed_protocol "invalid zw size")
  ok (r.commit_values, record r { zw = zw })
