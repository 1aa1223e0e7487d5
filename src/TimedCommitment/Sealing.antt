-- ===== src/TimedCommitment/Sealing.antt =====
-- timed_commitment.cpp: what Commiter::commit makes.
use selling_information.Base.{
  ℕ, ◌+◌, ◌-◌, ◌*◌, ◌%◌, ◌^◌, ◌≤◌, ◌<◌, ◌≡◌, refl, ap, ◌∙◌, Bool, true, ◌&&◌, List, length, get_or,
  ◌==◌, ==_iff, ==_refl, length-indices, length-map, arith, ok,
}
use selling_information.Modular.{pow-two, pow_four}
use selling_information.Crypto.{NumberTheory}
use selling_information.TimedCommitment.Parties.{Commitment, Commiter, mask, powers}
use selling_information.TimedCommitment.Commiting.{seal}
use selling_information.TimedCommitment.Loops.{mask-last, get_or-powers, exp-reduced, pow-pow-two}

-- What a commitment to m is: W holds the powers of g to 2 ^ (2 ^ i), the last of them is u, and S is
-- m under the low bits of the l squarings before u.
pub record IsSealed (nt : NumberTheory) (m : List Bool) (c : Commitment) : Type 0 where
  pub modulus : 1 < c.n
  pub reduced : c.g < c.n
  pub size : c.l ≡ length m
  pub fits : c.l ≤ 2 ^ c.k
  pub width : length c.w ≡ c.k + 1
  pub entries : (i : ℕ) → i ≤ c.k → get_or c.w i 0 ≡ c.g ^ (2 ^ (2 ^ i)) % c.n
  pub last : c.u ≡ c.g ^ (2 ^ (2 ^ c.k)) % c.n
  pub masked : c.s ≡ (mask nt c.n (c.g ^ (2 ^ (2 ^ c.k - c.l)) % c.n) m).0

module _ (nt : NumberTheory) where
  abbrev pub made : ℕ → List Bool → ℕ → ℕ → Commiter → Commitment
  made k m h g c = record {
    k = k;
    n = c.n;
    h = h;
    g = g;
    u = g ^ (2 ^ (2 ^ k)) % c.n;
    s = (mask nt c.n (g ^ (2 ^ (2 ^ k - length m)) % c.n) m).0;
    w = powers nt k c.n g c.phi;
    l = length m;
  }

  -- The conditions that the program's numbers meet: c has its modulus and phi, g is 1 to the phi,
  -- and the message is not longer than the number of squarings.
  module _ (k : ℕ) (m : List Bool) (h g order : ℕ) (c : Commiter) (hn : 1 < c.n) (hg : g < c.n)
      (hphi : 1 < c.phi) (one : g ^ c.phi % c.n ≡ 1) (hk : 1 ≤ k) (hl : length m ≤ 2 ^ k) where
    pub made-IsSealed : IsSealed nt m (made k m h g c)
    unfolding powers
    made-IsSealed = record {
      modulus = hn;
      reduced = hg;
      size = refl;
      fits = hl;
      width = length-map _ _ ∙ length-indices 0 (k + 1);
      entries = λ i le. get_or-powers nt c.n hn k g c.phi i hphi one le;
      last = refl;
      masked = refl;
    }

    last_u : (mask nt c.n (g ^ (2 ^ (2 ^ k - length m)) % c.n) m).1 ≡ g ^ (2 ^ (2 ^ k)) % c.n
    last_u =
        mask-last nt c.n hn m (g ^ (2 ^ (2 ^ k - length m)))
        ∙ ap (λ y. y % c.n)
            (pow-pow-two g (2 ^ k - length m) (length m) ∙ ap (λ y. g ^ (2 ^ y)) (omega arith))

    entry :
        (i e : ℕ)
        → i ≤ k
        → g ^ (2 ^ (2 ^ i)) ≡ e
        → (get_or (powers nt k c.n g c.phi) i 0 == e % c.n) ≡ true
    entry i e le h = (==_iff _ _).1 (made-IsSealed.entries i le ∙ ap (λ y. y % c.n) h)

    checks :
        (get_or (powers nt k c.n g c.phi) 0 0 == g * g % c.n
          && (get_or (powers nt k c.n g c.phi) 1 0 == g * g * g * g % c.n
              && get_or (powers nt k c.n g c.phi) k 0 == g ^ (2 ^ (2 ^ k)) % c.n))
        ≡ true
    checks = rw (
      entry 0 (g * g) (omega arith) (pow-two g),
      entry 1 (g * g * g * g) hk (pow_four g),
      entry k _ (omega arith) refl,
    )

    -- For numbers that meet the section's conditions commit passes its own sanity checks, and what
    -- it makes is `made`.
    pub seal_lem :
        seal nt k m h g order c
        ≡ ok (made k m h g c, record c { commitment = made k m h g c; order = order })
    unfolding seal
    seal_lem = rw (
      exp-reduced nt c.n hn g (2 ^ k - length m) c.phi hphi one,
      exp-reduced nt c.n hn g (2 ^ k) c.phi hphi one,
      last_u,
      ==_refl (g ^ (2 ^ (2 ^ k)) % c.n),
      checks,
    )
