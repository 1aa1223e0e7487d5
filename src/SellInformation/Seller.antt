-- ===== src/SellInformation/Seller.antt =====
-- sell_information.cpp: the methods of Seller that make and check roots. Logging is left out, and a
-- loop that throws leaves the fields it fills as they were.
use selling_information.Base.{
  ℕ, ◌*◌, ◌/◌, ◌%◌, Bool, false, List, [], ◌∷◌, ◌==◌, ltb, get_or, if◌then◌else◌, Result, ok, err,
  guard, protocol,
}
use selling_information.Base.Errors.{◌>>=◌, ◌>>◌}
use selling_information.Base.Exec.{Exec}
use selling_information.Base.Int.{ℤ, pos, negsuc}
use selling_information.Aes.{Cipher, aes_enc}
use selling_information.Common.{to_bytes}
use selling_information.Crypto.{Encoding, Residues, Rng}
use selling_information.SquareRoot.{SquareRoot, all_square_roots}
use selling_information.SignatureKey.Parties.{assign_all}
use selling_information.SellInformation.Parties.{Seller}
use selling_information.ShaCommitment as Sha

-- One round of findRoots: the first two roots, swapped if the bit is 1.
module _ {World : Type 0} (residues : Residues) (rng : Rng World) where
  unfoldable pub find_root : SquareRoot → ℕ → World → Result (ℤ × ℤ) × World
  find_root root y world = elim (all_square_roots residues root y) [
    | err e ↦ (err e, world)
    | ok roots ↦
        let bit = rng.generate_bit world in
        let r1 = get_or roots 0 (pos 0) in
        let r2 = get_or roots 1 (pos 0) in (ok (if bit.0 then (r2, r1) else (r1, r2)), bit.1)
  ]

  -- The loop of findRoots over y.
  unfoldable pub find_loop : SquareRoot → List ℕ → World → Result (List ℤ × List ℤ) × World
  find_loop root [] world = (ok ([], []), world)
  find_loop root (y ∷ ys) world =
      let here = find_root root y world in
      let later = find_loop root ys here.1 in
      elim here.0 [
        | err e ↦ (err e, here.1)
        | ok r ↦ elim later.0 [
          | err e ↦ (err e, later.1)
          | ok rs ↦ (ok (r.0 ∷ rs.0, r.1 ∷ rs.1), later.1)
        ]
      ]

  unfoldable pub find_roots : {Point : Type 0} → Exec (Seller Point × World) (Unit {0})
  find_roots (s, world) =
      let found = find_loop s.square_root s.y world in
      elim found.0 [
        | err e ↦ (err e, (s, found.1))
        | ok rs ↦ (ok tt, (record s { r1 = rs.0; r2 = rs.1 }, found.1))
      ]

-- to_bytes of any Integer: `negative` is what Encode writes for one below 0.
unfoldable pub root_bytes : Encoding → (ℕ → List ℕ) → ℤ → List ℕ
root_bytes encoding negative (pos x) = to_bytes encoding x
root_bytes encoding negative (negsuc x) = negative x

module _ (cipher : Cipher) (encoding : Encoding) (negative : ℕ → List ℕ) where
  -- The loop of encryptRoots over the commitments to keys, r1 and r2.
  unfoldable pub encrypt_loop :
      List Sha.Sender → List ℤ → List ℤ → Result (List (List ℕ) × List (List ℕ))
  encrypt_loop [] rs1 rs2 = ok ([], [])
  encrypt_loop (k ∷ ks) [] rs2 = ok ([], [])
  encrypt_loop (k ∷ ks) (r1 ∷ rs1) [] = ok ([], [])
  encrypt_loop (k ∷ ks) (r1 ∷ rs1) (r2 ∷ rs2) = do
    c1 ← aes_enc cipher k.m (root_bytes encoding negative r1)
    c2 ← aes_enc cipher k.m (root_bytes encoding negative r2)
    rest ← encrypt_loop ks rs1 rs2
    ok (c1 ∷ rest.0, c2 ∷ rest.1)

  unfoldable pub encrypt_roots : {Point : Type 0} → Seller Point → Result (Seller Point)
  encrypt_roots s = do
    made ← encrypt_loop s.single_seller.keys_commits s.r1 s.r2
    ok (record s { c1 = made.0; c2 = made.1 })

-- `val == r` for a val that is not negative.
abbrev pub is_value : ℤ → ℕ → Bool
is_value (pos r) val = val == r
is_value (negsuc r) val = false

module _ {Point : Type 0} where
  unfoldable pub setup_commit : Seller Point → Seller Point
  setup_commit s = record s { d1 = assign_all s.d1 s.c1; d2 = assign_all s.d2 s.c2 }

  -- One round of acceptSubset. 5 is the index of no commitment.
  unfoldable pub accept_value : Seller Point → ℕ → ℕ → Result ℕ
  accept_value s ind val = do
    guard (ltb val (s.n / 2)) (protocol "xi >= n/2")
    guard (val * val % s.n == get_or s.y ind 0) (protocol "xi is not a square root of yi")
    ok (
        if is_value (get_or s.r2 ind (pos 0)) val
        then 2
        else if is_value (get_or s.r1 ind (pos 0)) val
        then 1
        else 5)

  -- The values come from the buyer's x, and are not negative.
  unfoldable pub accept_subset : Seller Point → List ℕ → List ℕ → Result (List ℕ)
  accept_subset s [] values = ok []
  accept_subset s (ind ∷ indices) [] = ok []
  accept_subset s (ind ∷ indices) (val ∷ values) = do
    here ← accept_value s ind val
    rest ← accept_subset s indices values
    ok (here ∷ rest)
