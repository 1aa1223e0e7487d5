-- ===== src/TimedCommitment/Parties.antt =====
-- timed_commitment.h: Commitment, Commiter and Receiver, and the small steps of their methods. A
-- method returns the object that it leaves; one that throws leaves none.
use selling_information.Base.{
  ℕ, zero, suc, ◌+◌, ◌-◌, ◌*◌, ◌%◌, ◌^◌, Bool, true, false, xor, ◌&&◌, ◌||◌, List, [], ◌∷◌, map,
  ◌==◌, get_or, replicate, indices, Result, ok,
}
use selling_information.Base.Errors.{◌>>=◌}
use selling_information.Crypto.{NumberTheory}
use selling_information.RegularCommitment.{RegularCommitment, commitment_size}
use selling_information.TimedCommitment.Numbers.{bits, gen_prime}

pub record Commitment : Type 0 where
  pub k : ℕ
  pub n : ℕ
  pub h : ℕ
  pub g : ℕ
  pub u : ℕ
  pub s : List Bool
  pub w : List ℕ
  pub l : ℕ

pub record Commiter : Type 0 where
  pub p : ℕ
  pub q : ℕ
  pub n : ℕ
  pub phi : ℕ
  pub commitment : Commitment
  pub order : ℕ
  pub commits : List RegularCommitment
  pub alpha : List ℕ

pub record Receiver : Type 0 where
  pub commitment : Commitment
  pub commit_values : List ℕ
  pub zw : List ℕ × List ℕ

abbrev pub blank_commitment : Commitment
blank_commitment = record { k = 0; n = 0; h = 0; g = 0; u = 0; s = []; w = []; l = 0 }

abbrev pub blank_regular : RegularCommitment
blank_regular = record { digest = replicate commitment_size 0 }

abbrev pub new_receiver : Receiver
new_receiver = record { commitment = blank_commitment; commit_values = []; zw = ([], []) }

-- The constructor of Commiter.
unfoldable pub new_commiter :
    {World : Type 0} → (ℕ → World → ℕ × World) → World → Result (Commiter × World)
unfolding gen_prime
new_commiter prime_and_generator world = do
  drawn_p ← gen_prime prime_and_generator bits world
  drawn_q ← gen_prime prime_and_generator bits drawn_p.1
  let p = drawn_p.0
  let q = drawn_q.0
  ok (
    record {
      p = p;
      q = q;
      n = p * q;
      phi = (p - 1) * (q - 1);
      commitment = blank_commitment;
      order = 0;
      commits = [];
      alpha = [];
    },
    drawn_q.1,
  )

abbrev pub bit_value : Bool → ℕ
bit_value true = 1
bit_value false = 0

-- The sanity check on the message.
unfoldable pub is_binary : List Bool → Bool
is_binary [] = true
is_binary (b ∷ m) = (bit_value b == 0 || bit_value b == 1) && is_binary m

-- Integer::GetBit(0).
abbrev pub bit0 : ℕ → Bool
bit0 u = u % 2 == 1

-- `n` draws in a row.
unfoldable pub draws : {World : Type 0} → (World → ℕ × World) → ℕ → World → List ℕ × World
draws draw zero world = ([], world)
draws draw (suc n) world =
    let first = draw world in let rest = draws draw n first.1 in (first.0 ∷ rest.0, rest.1)

module _ (nt : NumberTheory) where
  open nt use {a_times_b_mod_c, a_exp_b_mod_c}

  -- The masking loop of commit: the bits S and the last u.
  unfoldable pub mask : ℕ → ℕ → List Bool → List Bool × ℕ
  mask n u [] = ([], u)
  mask n u (b ∷ m) =
      let rest = mask n (a_times_b_mod_c u u n) m in (xor b (bit0 u) ∷ rest.0, rest.1)

  -- The loop of decode, from `i` on with `rounds` left: the bits and the last v.
  unfoldable pub unmask : ℕ → List Bool → ℕ → ℕ → ℕ → List Bool × ℕ
  unmask n s zero i v = ([], v)
  unmask n s (suc rounds) i v =
      let rest = unmask n s rounds (i + 1) (a_times_b_mod_c v v n) in
      (xor (get_or s i false) (bit0 v) ∷ rest.0, rest.1)

  -- The list W of commit.
  unfoldable pub powers : ℕ → ℕ → ℕ → ℕ → List ℕ
  powers k n g phi = map (λ i. a_exp_b_mod_c g (a_exp_b_mod_c 2 (2 ^ i) phi) n) (indices 0 (k + 1))

  -- `rounds` times v = v * v % n.
  unfoldable pub square_times : ℕ → ℕ → ℕ → ℕ
  square_times n zero v = v
  square_times n (suc rounds) v = square_times n rounds (a_times_b_mod_c v v n)
