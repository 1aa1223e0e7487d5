-- ===== src/ShaCommitment.antt =====
-- sha_commitment/sha_commitment.h and sha_commitment.cpp: a commitment by the SHA-256 digest of the
-- message followed by a random seed.
pub mod Opening
use selling_information.Base.{
  ℕ, Bool, true, false, List, [], ◌∷◌, list_eq, replicate, ◌==◌, if◌then◌else◌, protocol,
}
use selling_information.Base.Exec.{Exec, return, throw, modify, gets, require, ◌>>=◌, ◌>>◌}
use selling_information.Common.{concatenate}
use selling_information.Crypto.{Sha256, Rng}
use selling_information.Protocol.{Protocol}

abbrev pub n : ℕ
n = 32

abbrev pub com_size : ℕ
com_size = 32

pub record Sender : Type 0 where
  pub m : List ℕ
  pub seed : List ℕ
  pub commitment : List ℕ

pub record Receiver : Type 0 where
  pub open_verified : Bool
  pub m : List ℕ
  pub seed : List ℕ
  pub commitment : List ℕ

abbrev pub new_sender : Sender
new_sender = record { m = []; seed = replicate n 0; commitment = replicate com_size 0 }

abbrev pub new_receiver : Receiver
new_receiver = record {
  open_verified = false;
  m = [];
  seed = replicate n 0;
  commitment = replicate com_size 0;
}

-- `*m.begin() = !(*m.begin())`, for a message that is not empty.
pub flip_first : List ℕ → List ℕ
flip_first [] = []
flip_first (b ∷ rest) = (if b == 0 then 1 else 0) ∷ rest

unfoldable pub cheat : Sender → Sender
unfolding flip_first
cheat s = record s { m = flip_first s.m }

module _ (sha : Sha256) where
  unfoldable pub compute_sha : List ℕ → List ℕ → List ℕ
  unfolding concatenate
  compute_sha msg seed = sha.digest (concatenate msg seed)

  -- The receiver's half of ShaCommitment::open, before it throws or not.
  unfoldable pub receive : Sender → Receiver → Receiver
  unfolding compute_sha
  receive s r = record r {
    m = s.m;
    seed = s.seed;
    open_verified = list_eq r.commitment (compute_sha s.m s.seed);
  }

  module _ {World : Type 0} (rng : Rng World) where
    unfoldable pub sha_exec : Exec (Sender × Receiver × World) (Unit {0})
    unfolding compute_sha
    sha_exec = modify λ s.
        let drawn = rng.generate_block n s.2 in
        let digest = compute_sha s.0.m drawn.0 in
        (
          record (s.0) { seed = drawn.0; commitment = digest },
          record (s.1) { commitment = digest },
          drawn.1,
        )

  unfoldable pub sha_open : {World : Type 0} → Exec (Sender × Receiver × World) (Unit {0})
  unfolding receive
  sha_open = do
    modify (λ s. (s.0, receive s.0 s.1, s.2))
    verified ← gets (λ s. s.1.open_verified)
    require verified (protocol "sha commitment open failed")

unfoldable pub sha_commitment :
    {World : Type 0} → Sha256 → Rng World → Protocol Sender Receiver World
sha_commitment sha rng = record {
  init = return tt;
  exec = sha_exec sha rng;
  opening = sha_open sha;
}
