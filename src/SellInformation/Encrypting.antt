-- ===== src/SellInformation/Encrypting.antt =====
-- sell_information.cpp: what encryptRoots and setupCommit leave at each index.
use selling_information.Base.{
  ℕ, zero, suc, ◌<◌, ◌≡◌, refl, ap, ◌∙◌, subst, sym, List, [], ◌∷◌, length, get_or, All, Result, ok,
  arith,
}
use selling_information.Base.Int.{ℤ, pos}
use selling_information.Aes.{Cipher, aes_enc, aes_dec-aes_enc}
use selling_information.Crypto.{Encoding}
use selling_information.ShaCommitment.{Sender, new_sender}
use selling_information.SignatureKey.Parties.{assign_all}
use selling_information.SellInformation.Parties.{Buyer}
use selling_information.SellInformation.Seller.{root_bytes, encrypt_loop}
use selling_information.SellInformation.Buyer.{verify_root}
use selling_information.SellInformation.Verifying.{verify_root-aes_enc}

pub assign_all-get_or :
    (ss : List Sender) (ms : List (List ℕ)) (i : ℕ)
    → length ms ≡ length ss
    → i < length ss
    → (get_or (assign_all ss ms) i new_sender).m ≡ get_or ms i []
unfolding assign_all
assign_all-get_or [] ms i size lt = absurd (omega arith)
assign_all-get_or (s ∷ ss) [] i size lt = absurd (omega arith)
assign_all-get_or (s ∷ ss) (m ∷ ms) zero size lt = refl
assign_all-get_or (s ∷ ss) (m ∷ ms) (suc i) size lt =
    assign_all-get_or ss ms i (omega arith) (omega arith)

module _ (cipher : Cipher) (encoding : Encoding) (negative : ℕ → List ℕ) where
  abbrev pub IsEncrypted : Sender → ℤ → List ℕ → Type 0
  IsEncrypted k r c = aes_enc cipher k.m (root_bytes encoding negative r) ≡ ok c

  abbrev pub AreEncrypted : List Sender → List ℤ → List (List ℕ) → Type 0
  AreEncrypted ks rs cs =
      (length cs ≡ length ks)
      × ((i : ℕ)
          → i < length ks
          → IsEncrypted (get_or ks i new_sender) (get_or rs i (pos 0)) (get_or cs i []))

  encrypted : (k : Sender) (r : ℤ) → length k.m ≡ 32 → (c : List ℕ) × IsEncrypted k r c
  encrypted k r size =
      let made = (aes_dec-aes_enc cipher k.m (root_bytes encoding negative r) []).0 size in
      (made.0, made.1)

  AreEncrypted-cons :
      (k : Sender) (ks : List Sender) (r : ℤ) (rs : List ℤ) (c : List ℕ) (cs : List (List ℕ))
      → IsEncrypted k r c
      → AreEncrypted ks rs cs
      → AreEncrypted (k ∷ ks) (r ∷ rs) (c ∷ cs)
  AreEncrypted-cons k ks r rs c cs here later = (ap suc later.0, λ i. at i)
    where
      at :
          (i : ℕ)
          → i < length (k ∷ ks)
          → IsEncrypted
              (get_or (k ∷ ks) i new_sender)
              (get_or (r ∷ rs) i (pos 0))
              (get_or (c ∷ cs) i [])
      at zero lt = here
      at (suc i) lt = later.1 i (omega arith)

  -- With keys of 32 bytes the loop throws nothing.
  pub encrypt_loop-ok :
      (ks : List Sender) (rs1 rs2 : List ℤ)
      → All (λ (k : Sender). length k.m ≡ 32) ks
      → length rs1 ≡ length ks
      → length rs2 ≡ length ks
      → (c : List (List ℕ) × List (List ℕ)) × (encrypt_loop cipher encoding negative ks rs1 rs2
          ≡ ok c)
        × AreEncrypted ks rs1 c.0
        × AreEncrypted ks rs2 c.1
  unfolding encrypt_loop
  encrypt_loop-ok [] rs1 rs2 sizes s1 s2 =
      (([], []), refl, (refl, λ i lt. absurd (omega arith)), (refl, λ i lt. absurd (omega arith)))
  encrypt_loop-ok (k ∷ ks) [] rs2 sizes s1 s2 = absurd (omega arith)
  encrypt_loop-ok (k ∷ ks) (r1 ∷ rs1) [] sizes s1 s2 = absurd (omega arith)
  encrypt_loop-ok (k ∷ ks) (r1 ∷ rs1) (r2 ∷ rs2) sizes s1 s2 =
      let c1 = encrypted k r1 sizes.0 in
      let c2 = encrypted k r2 sizes.0 in
      let later = encrypt_loop-ok ks rs1 rs2 sizes.1 (omega arith) (omega arith) in
      (
        (c1.0 ∷ later.0.0, c2.0 ∷ later.0.1),
        rw (c1.1, c2.1, later.1) refl,
        AreEncrypted-cons k ks r1 rs1 c1.0 later.0.0 c1.1 later.2,
        AreEncrypted-cons k ks r2 rs2 c2.0 later.0.1 c2.1 later.3,
      )

  -- The encryption of the buyer's number passes verifyRoot.
  pub IsEncrypted-verify_root :
      {Point : Type 0} (b : Buyer Point) (ind x : ℕ) (k : Sender) (r : ℤ) (c : List ℕ)
      → length k.m ≡ 32
      → pos x ≡ r
      → get_or b.x ind 0 ≡ x
      → IsEncrypted k r c
      → verify_root cipher encoding b ind k.m c ≡ ok tt
  IsEncrypted-verify_root b ind x k r c size e number enc =
      let made = verify_root-aes_enc cipher encoding negative b ind x k.m size in
      subst (λ c. verify_root cipher encoding b ind k.m c ≡ ok tt)
        (ok_eq (sym made.1 ∙ ap (λ r. aes_enc cipher k.m (root_bytes encoding negative r)) e ∙ enc))
        (made.2 number)
    where
      ok_eq : {a b : List ℕ} → ◌≡◌ {A = Result (List ℕ)} (ok a) (ok b) → a ≡ b
      ok_eq h = cc
