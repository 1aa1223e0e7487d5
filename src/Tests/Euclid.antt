-- ===== src/Tests/Euclid.antt =====
-- Euclid's algorithm, for the tests.
use selling_information.Base.{
  ℕ, zero, suc, ◌%◌, ◌<◌, ◌∣◌, ◌≡◌, inl, inr, subst, sym, false, Bool-cases, ◌==◌, ==_iff,
  if◌then◌else◌, arith,
}
use selling_information.Crypto.{Divisors}
use native.Mathlib.Nat.{mod-lt, dvd_refl, dvd-zero, dvd-mod_iff}

-- The remainders are below the fuel.
unfoldable pub euclid : ℕ → ℕ → ℕ → ℕ
euclid zero a b = a
euclid (suc fuel) a b = let rest = euclid fuel b (a % b) in if b == 0 then a else rest

pub dvd-euclid : (d fuel a b : ℕ) → d ∣ a → d ∣ b → d ∣ euclid fuel a b
unfolding euclid
dvd-euclid d zero a b ha hb = ha
dvd-euclid d (suc fuel) a b ha hb = elim (Bool-cases (b == 0)) [
  | inl e ↦ rw e ha
  | inr e ↦ rw e (dvd-euclid d fuel b (a % b) hb ((dvd-mod_iff d hb).1 ha))
]

pub euclid-dvd : (fuel a b : ℕ) → b < fuel → (euclid fuel a b ∣ a) × (euclid fuel a b ∣ b)
unfolding euclid
euclid-dvd zero a b h = absurd (omega arith)
euclid-dvd (suc fuel) a b h = elim (Bool-cases (b == 0)) [
  | inl e ↦ rw e (dvd_refl a, subst (λ c. a ∣ c) (sym ((==_iff b 0).0 e)) (dvd-zero a))
  | inr e ↦
      let rest = euclid-dvd fuel b (a % b) (below e) in
      rw e ((dvd-mod_iff (euclid fuel b (a % b)) rest.0).0 rest.1, rest.0)
]
  where
    below : (b == 0) ≡ false → a % b < fuel
    below e = omega (arith, h, mod-lt a {m = b} (ground arith))

abbrev pub divisors : Divisors
divisors = record {
  gcd = λ a b. euclid (suc b) a b;
  gcd-dvd_left = λ a b. (euclid-dvd (suc b) a b (omega arith)).0;
  gcd-dvd_right = λ a b. (euclid-dvd (suc b) a b (omega arith)).1;
  dvd-gcd = λ d a b ha hb. dvd-euclid d (suc b) a b ha hb;
}
