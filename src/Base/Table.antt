-- ===== src/Base/Table.antt =====
-- Finite checks: a test that holds of every byte, or of every list of Booleans of one length.
use Prim.Native.Nat.{ℕ, zero, suc, ◌<◌}
use mathlib.Core.Path.{◌≡◌}
use mathlib.Core.Bool.{Bool, true, false, ◌&&◌}
use mathlib.Core.List.{List, [], ◌∷◌}
use native.Mathlib.Omega.{arith}
use selling_information.Base.Lists.{length}

-- Whether `test` is true of each of the first `count` numbers.
unfoldable pub all_below : ℕ → (ℕ → Bool) → Bool
all_below zero test = true
all_below (suc count) test = test count && all_below count test

pub all_below_sound :
    (count : ℕ) (test : ℕ → Bool) (c : ℕ) → all_below count test ≡ true → c < count → test c ≡ true
unfolding all_below
all_below_sound zero test c passed below = absurd (omega arith)
all_below_sound (suc count) test c passed below = ground (arith, all_below_sound count test c)

unfoldable pub all_lists : ℕ → (List Bool → Bool) → Bool
all_lists zero p = p []
all_lists (suc n) p = all_lists n (λ l. p (true ∷ l)) && all_lists n (λ l. p (false ∷ l))

pub all_lists_sound :
    (n : ℕ) (p : List Bool → Bool) (l : List Bool)
    → all_lists n p ≡ true
    → length l ≡ n
    → p l ≡ true
unfolding all_lists
all_lists_sound zero p [] h e = h
all_lists_sound zero p (b ∷ l) h e = absurd (omega arith)
all_lists_sound (suc n) p [] h e = absurd (omega arith)
all_lists_sound (suc n) p (true ∷ l) h e =
    all_lists_sound n (λ k. p (true ∷ k)) l (ground arith) (omega arith)
all_lists_sound (suc n) p (false ∷ l) h e =
    all_lists_sound n (λ k. p (false ∷ k)) l (ground arith) (omega arith)
