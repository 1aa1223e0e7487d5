-- ===== src/SignatureKey/Checking.antt =====
-- signature_key.cpp: what verifyKeys accepts.
use selling_information.Base.{
  ℕ, ◌≡◌, ◌≢◌, refl, sym, ap, ap₂, ◌∙◌, ◌⊎◌, inl, inr, true, false, ◌&&◌, List, [], ◌∷◌, map,
  length, All, ◌==◌, list_eq, list_eq→eq, list_eq_refl, Bool-cases, indices, length-indices,
  length-map, All-indices, arith, ok, err, protocol,
}
use selling_information.Crypto.{Encoding, Sha256}
use selling_information.Curve.{Curve}
use selling_information.Common.{l, concatenate, to_bytes}
use selling_information.ShaCommitment as Sha
use selling_information.SignatureKey.Keys.{starts, check_keys, gen_keys}
use selling_information.SignatureKey.Parties.{SingleBuyer, verify_keys}

abbrev pub HasDigestSize : List ℕ → Type 0
HasDigestSize m = length m ≡ 32

starts-eq : (m key : List ℕ) → length m ≡ length key → starts m key ≡ list_eq m key
unfolding starts list_eq
starts-eq [] [] h = refl
starts-eq [] (d ∷ key) h = absurd (omega arith)
starts-eq (c ∷ m) [] h = absurd (omega arith)
starts-eq (c ∷ m) (d ∷ key) h = ap (λ b. c == d && b) (starts-eq m key (omega arith))

-- The loop over keys of the full size decides equality.
check_keys_lem :
    (messages keys : List (List ℕ))
    → length messages ≡ length keys
    → All HasDigestSize messages
    → All HasDigestSize keys
    → ((messages ≡ keys) × (check_keys messages keys ≡ ok tt))
      ⊎ ((messages ≢ keys) × (check_keys messages keys ≡ err (protocol "Invalid key")))
unfolding check_keys
check_keys_lem [] [] h a b = inl (refl, refl)
check_keys_lem [] (key ∷ keys) h a b = absurd (omega arith)
check_keys_lem (m ∷ messages) [] h a b = absurd (omega arith)
check_keys_lem (m ∷ messages) (key ∷ keys) h a b = elim (Bool-cases (list_eq m key)) [
  | inr e ↦ inr ((λ q. differ q e), rw (starts-eq m key (a.0 ∙ sym b.0), e) refl)
  | inl e ↦ elim (check_keys_lem messages keys (omega arith) a.1 b.1) [
    | inl (same, passed) ↦
        inl (ap₂ ◌∷◌ (list_eq→eq m key e) same, rw (starts-eq m key (a.0 ∙ sym b.0), e) passed)
    | inr (other, failed) ↦
        inr ((λ q. other (tails q)), rw (starts-eq m key (a.0 ∙ sym b.0), e) failed)
  ]
]
  where
    tails : (m ∷ messages) ≡ (key ∷ keys) → messages ≡ keys
    tails q = cc

    differ : (m ∷ messages) ≡ (key ∷ keys) → list_eq m key ≡ false → ⊥
    differ q e = unequal (sym e ∙ ap (list_eq m) (heads (sym q)) ∙ list_eq_refl m)
      where
        unequal : false ≡ true → ⊥
        unequal f = cc

        heads : (key ∷ keys) ≡ (m ∷ messages) → key ≡ m
        heads f = cc

starts_refl : (m : List ℕ) → starts m m ≡ true
starts_refl m = starts-eq m m refl ∙ list_eq_refl m

pub check_keys_refl : (keys : List (List ℕ)) → check_keys keys keys ≡ ok tt
unfolding check_keys
check_keys_refl [] = refl
check_keys_refl (key ∷ keys) = rw (starts_refl key) (check_keys_refl keys)

All-map :
    {A B : Type 0} (P : B → Type 0) (f : A → B) (xs : List A)
    → All (λ x. P (f x)) xs
    → All P (map f xs)
All-map P f [] h = tt
All-map P f (x ∷ xs) h = (h.0, All-map P f xs h.1)

module _ (curve : Curve) (encoding : Encoding) (sha : Sha256) where
  abbrev expected_key : List ℕ → ℕ → List ℕ
  expected_key signature i = sha.digest (concatenate signature (to_bytes encoding i))

  pub gen_keys-sizes :
      (signature : List ℕ)
      → (length (gen_keys encoding sha signature) ≡ l)
        × All HasDigestSize (gen_keys encoding sha signature)
  unfolding gen_keys
  gen_keys-sizes signature = (
    length-map (expected_key signature) (indices 0 l) ∙ length-indices 0 l,
    All-map HasDigestSize (expected_key signature) (indices 0 l) (
        All-indices (λ i. HasDigestSize (expected_key signature i)) 0 l
          λ i p q. sha.length-digest (concatenate signature (to_bytes encoding i))),
  )

  -- For a buyer with L opened keys of 32 bytes each, verifyKeys succeeds if they are the keys made of
  -- the opened signature, and throws ProtocolException otherwise.
  pub verify_keys_lem :
      (b : SingleBuyer curve.Point)
      → length b.keys_commits ≡ l
      → All (λ (r : Sha.Receiver). HasDigestSize r.m) b.keys_commits
      → let messages = map (λ (r : Sha.Receiver). r.m) b.keys_commits in
        let keys = gen_keys encoding sha b.signature_commit.m in
        ((messages ≡ keys) × (verify_keys curve encoding sha b ≡ ok tt))
        ⊎ ((messages ≢ keys) × (verify_keys curve encoding sha b ≡ err (protocol "Invalid key")))
  unfolding verify_keys
  verify_keys_lem b h sizes =
      let made = gen_keys-sizes b.signature_commit.m in
      check_keys_lem (map (λ (r : Sha.Receiver). r.m) b.keys_commits)
        (gen_keys encoding sha b.signature_commit.m) (length-map _ b.keys_commits ∙ h ∙ sym made.0)
        (All-map HasDigestSize (λ (r : Sha.Receiver). r.m) b.keys_commits sizes) made.1

  empty_passes :
      (rs : List Sha.Receiver) (keys : List (List ℕ))
      → All (λ (r : Sha.Receiver). r.m ≡ []) rs
      → check_keys (map (λ (r : Sha.Receiver). r.m) rs) keys ≡ ok tt
  unfolding check_keys starts
  empty_passes [] keys h = refl
  empty_passes (r ∷ rs) [] h = refl
  empty_passes (r ∷ rs) (key ∷ keys) h = rw (h.0, starts) (empty_passes rs keys h.1)

  -- Keys that were opened as empty messages pass verifyKeys, whatever the signature.
  pub verify_keys_empty :
      (b : SingleBuyer curve.Point)
      → All (λ (r : Sha.Receiver). r.m ≡ []) b.keys_commits
      → verify_keys curve encoding sha b ≡ ok tt
  unfolding verify_keys
  verify_keys_empty b h = empty_passes b.keys_commits (gen_keys encoding sha b.signature_commit.m) h
