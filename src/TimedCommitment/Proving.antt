-- ===== src/TimedCommitment/Proving.antt =====
-- timed_commitment.cpp: the checks of zk_5 for one index.
use selling_information.Base.{
  ℕ, suc, ◌+◌, ◌-◌, ◌*◌, ◌%◌, ◌^◌, ◌≤◌, ◌<◌, ◌≡◌, sym, ap, ◌∙◌, Bool, List, ◌∷◌, map, get_or,
  get_or-tabulated, indices, ◌==◌, ==_iff, arith, ok, String, guard, timed_protocol,
}
use selling_information.Modular.{
  pow-add, pow-mul, pow_right_comm, pow_congr, one-pow, mul-mod, pow-mod,
}
use selling_information.Crypto.{NumberTheory}
use selling_information.TimedCommitment.Parties.{Commiter, Receiver}
use selling_information.TimedCommitment.Commiting.{response, announce}
use selling_information.TimedCommitment.Receiving.{check_response}
use selling_information.TimedCommitment.Sealing.{IsSealed}
use selling_information.TimedCommitment.Response.{reply_lem}
use native.Mathlib.Nat.{mod-eq_of_lt, pow-succ'}

-- Both parties hold the commitment, and the committer knows a period of g.
pub record IsReady (nt : NumberTheory) (m : List Bool) (c : Commiter) (r : Receiver) : Type 0 where
  pub sealed : IsSealed nt m c.commitment
  pub same : r.commitment ≡ c.commitment
  pub modulus : c.n ≡ c.commitment.n
  pub period : c.commitment.g ^ c.order % c.n ≡ 1
  pub order_lt : 1 < c.order

pub guard_same :
    (x y : ℕ) (message : String) → x ≡ y → guard (x == y) (timed_protocol message) ≡ ok tt
guard_same x y message e = rw ((==_iff x y).1 e)

suc_pred : (k : ℕ) → 1 ≤ k → k ≡ suc (k - 1)
suc_pred k h = omega arith

-- A power of an element with a period has an inverse.
inverse_of_period :
    (g order e n : ℕ)
    → 1 < n
    → 1 < order
    → g ^ order % n ≡ 1
    → (g ^ e % n) * (g ^ (e * (order - 1)) % n) % n ≡ 1
inverse_of_period g order e n lt ho one =
    sym (mul-mod (g ^ e) (g ^ (e * (order - 1))) n)
    ∙ ap (λ y. y % n)
        (sym (pow-add g e (e * (order - 1))) ∙ ap (λ y. g ^ y) whole ∙ pow-mul g order e)
    ∙ pow_congr (g ^ order) 1 e n (one ∙ sym (mod-eq_of_lt lt))
    ∙ ap (λ y. y % n) (one-pow e)
    ∙ mod-eq_of_lt lt
  where
    whole : e + e * (order - 1) ≡ order * e
    whole = omega (arith, ap (λ (t : ℕ). t * e) (suc_pred order (omega arith)))

module _ (nt : NumberTheory) (m : List Bool) (c : Commiter) (r : Receiver)
    (ready : IsReady nt m c r) (i : ℕ) (p : 1 ≤ i) (q : i < 1 + c.commitment.k) where
  abbrev com_n : ℕ
  com_n = c.commitment.n

  abbrev power : ℕ → ℕ
  power j = c.commitment.g ^ (2 ^ (2 ^ j))

  period : c.commitment.g ^ c.order % com_n ≡ 1
  period = ap (λ n. c.commitment.g ^ c.order % n) (sym ready.modulus) ∙ ready.period

  entry : (j : ℕ) → j ≤ c.commitment.k → get_or c.commitment.w j 0 ≡ power j % com_n
  entry j le = ready.sealed.entries j le

  inverse :
      (j : ℕ)
      → j ≤ c.commitment.k
      → get_or c.commitment.w j 0 * (c.commitment.g ^ (2 ^ (2 ^ j) * (c.order - 1)) % com_n) % com_n
        ≡ 1
  inverse j le = rw (entry j le) (
      inverse_of_period c.commitment.g c.order (2 ^ (2 ^ j)) com_n ready.sealed.modulus
        ready.order_lt period)

  next_power : power i ≡ power (i - 1) ^ (2 ^ (2 ^ (i - 1)))
  next_power =
      ap (λ y. c.commitment.g ^ y) (ap (λ y. 2 ^ y) twice ∙ pow-add 2 (2 ^ (i - 1)) (2 ^ (i - 1)))
      ∙ pow-mul c.commitment.g (2 ^ (2 ^ (i - 1))) (2 ^ (2 ^ (i - 1)))
    where
      twice : 2 ^ i ≡ 2 ^ (i - 1) + 2 ^ (i - 1)
      twice = ap (λ j. 2 ^ j) (suc_pred i p) ∙ pow-succ' 2 (i - 1) ∙ omega arith

  entry_period : get_or c.commitment.w (i - 1) 0 ^ c.order % com_n ≡ 1
  entry_period = rw (entry (i - 1) (omega arith)) (
      pow-mod (power (i - 1)) c.order com_n
      ∙ ap (λ y. y % com_n) (pow_right_comm c.commitment.g (2 ^ (2 ^ (i - 1))) c.order)
      ∙ pow_congr (c.commitment.g ^ c.order) 1 (2 ^ (2 ^ (i - 1))) com_n
          (period ∙ sym (mod-eq_of_lt ready.sealed.modulus))
      ∙ ap (λ y. y % com_n) (one-pow (2 ^ (2 ^ (i - 1))))
      ∙ mod-eq_of_lt ready.sealed.modulus)

  next_entry :
      get_or c.commitment.w i 0 ≡ get_or c.commitment.w (i - 1) 0 ^ (2 ^ (2 ^ (i - 1))) % com_n
  next_entry =
      rw (entry i (omega arith), entry (i - 1) (omega arith))
        (ap (λ y. y % com_n) next_power ∙ sym (pow-mod (power (i - 1)) (2 ^ (2 ^ (i - 1))) com_n))

  -- The checks of zk_5 for one index pass on what zk_2 announced and zk_4 answered.
  pub check_response-ok :
      (cv : List ℕ)
      → check_response nt c.commitment cv
          (announce nt c c.alpha)
          (0 ∷ map (response nt c cv) (indices 1 c.commitment.k))
          i
        ≡ ok tt
  unfolding check_response announce response
  check_response-ok cv = rw (
    get_or-tabulated {A = ℕ} (response nt c cv) 0 0 c.commitment.k i p q,
    get_or-tabulated {A = ℕ} (λ j. nt.a_exp_b_mod_c c.commitment.g (get_or c.alpha j 0) c.n) 0 0
        c.commitment.k i p q,
    get_or-tabulated {A = ℕ}
        (λ j. nt.a_exp_b_mod_c (get_or c.commitment.w (j - 1) 0) (get_or c.alpha j 0) c.n) 0 0
        c.commitment.k i p q,
    ready.modulus,
    guard_same _ _ "zi verification failed" (
        reply_lem nt com_n c.order ready.sealed.modulus ready.order_lt c.commitment.g
          (get_or cv i 0) (2 ^ (i - 1)) (get_or c.alpha i 0) (get_or c.commitment.w (i - 1) 0) _
          period (entry (i - 1) (omega arith)) (inverse (i - 1) (omega arith))),
    guard_same _ _ "wi verification failed" (
        reply_lem nt com_n c.order ready.sealed.modulus ready.order_lt
          (get_or c.commitment.w (i - 1) 0) (get_or cv i 0) (2 ^ (i - 1)) (get_or c.alpha i 0)
          (get_or c.commitment.w i 0) _ entry_period next_entry (inverse i (omega arith))),
  )
