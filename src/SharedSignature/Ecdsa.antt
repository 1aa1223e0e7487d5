-- ===== src/SharedSignature/Ecdsa.antt =====
-- The arithmetic of an ECDSA signature whose key is ds * db and whose nonce is ks * kb.
use selling_information.Base.{ℕ, ◌+◌, ◌*◌, ◌%◌, ◌<◌, ◌≡◌, refl, sym, ap, ◌∙◌, ◌≡⟨◌⟩◌, ◌∎, arith}
use selling_information.Modular.{mul_congr, add_congr, unit_cancel, mod-mul-mod}
use native.Mathlib.Nat.{mul_assoc, mul-mod_right, mod-mod}

-- s answers z and r: times the nonce it is z + r * ds * db.
pub answer_lem :
    (n ks ksi kb kbi z r ds db a t m s : ℕ)
    → 1 < n
    → ks * ksi % n ≡ 1
    → kb * kbi % n ≡ 1
    → a % n ≡ kbi * z % n
    → t % n ≡ kbi * r * db % n
    → m % n ≡ (a + ds * t) % n
    → s % n ≡ ksi * m % n
    → s * (ks * kb) % n ≡ (z + r * (ds * db)) % n
answer_lem n ks ksi kb kbi z r ds db a t m s lt hs hb ha ht hm answer =
    s * (ks * kb) % n
    ≡⟨ mul_congr s (ksi * m) (ks * kb) (ks * kb) n answer refl
      ∙ ap (λ x. x % n) (regroup ksi m ks kb) ⟩
      ks * ksi * (kb * m) % n
    ≡⟨ unit_cancel ks ksi (kb * m) n lt hs ⟩ kb * m % n
    ≡⟨ mul_congr kb kb m (a + ds * t) n refl hm ∙ ap (λ x. x % n) (spread kb a ds t) ⟩
      (kb * a + ds * (kb * t)) % n
    ≡⟨ add_congr (kb * a) z (ds * (kb * t)) (ds * (r * db)) n first
        (mul_congr ds ds (kb * t) (r * db) n refl second)
      ∙ ap (λ x. x % n) (collect z ds r db) ⟩
      (z + r * (ds * db)) % n ∎
  where
    regroup : (w x y v : ℕ) → w * x * (y * v) ≡ y * w * (v * x)
    regroup w x y v = omega arith

    spread : (w x y v : ℕ) → w * (x + y * v) ≡ w * x + y * (w * v)
    spread w x y v = omega arith

    collect : (w x y v : ℕ) → w + x * (y * v) ≡ w + y * (x * v)
    collect w x y v = omega arith

    first : kb * a % n ≡ z % n
    first =
        mul_congr kb kb a (kbi * z) n refl ha
        ∙ ap (λ x. x % n) (sym (mul_assoc kb kbi z))
        ∙ unit_cancel kb kbi z n lt hb

    second : kb * t % n ≡ r * db % n
    second =
        mul_congr kb kb t (kbi * r * db) n refl ht
        ∙ ap (λ x. x % n) (ap (λ x. kb * x) (mul_assoc kbi r db) ∙ sym (mul_assoc kb kbi (r * db)))
        ∙ unit_cancel kb kbi (r * db) n lt hb

-- The exponent of the point that verify computes, for w the inverse of s.
pub exponent_lem : (n z r d w : ℕ) → (z * w % n + r * w % n * d) % n ≡ w * (z + r * d) % n
exponent_lem n z r d w =
    add_congr (z * w % n) (z * w) (r * w % n * d) (r * w * d) n (mod-mod (z * w) n)
      (mod-mul-mod (r * w) d n)
    ∙ ap (λ x. x % n) (collect z r d w)
  where
    collect : (z r d w : ℕ) → z * w + r * w * d ≡ w * (z + r * d)
    collect z r d w = omega arith

-- For s that answers, it is the nonce.
pub same_exponent :
    (n s w nonce sum : ℕ)
    → 1 < n
    → s * w % n ≡ 1
    → s * nonce % n ≡ sum % n
    → w * sum % n ≡ nonce % n
same_exponent n s w nonce sum lt hw answer =
    mul_congr w w sum (s * nonce) n refl (sym answer)
    ∙ ap (λ x. x % n) (regroup w s nonce)
    ∙ unit_cancel s w nonce n lt hw
  where
    regroup : (x y v : ℕ) → x * (y * v) ≡ y * x * v
    regroup x y v = omega arith

-- For the number s that makes n with one that answers, it is the opposite of the nonce.
pub opposite_exponent :
    (n s other w nonce sum : ℕ)
    → 1 < n
    → s + other ≡ n
    → s * w % n ≡ 1
    → other * nonce % n ≡ sum % n
    → (w * sum + nonce) % n ≡ 0
opposite_exponent n s other w nonce sum lt whole hw answer =
    add_congr (w * sum) (w * (other * nonce)) nonce (s * w * nonce) n
      (mul_congr w w sum (other * nonce) n refl (sym answer)) (sym (unit_cancel s w nonce n lt hw))
    ∙ ap (λ x. x % n) (collect w other nonce s ∙ ap (λ x. x * (w * nonce)) whole)
    ∙ mul-mod_right n (w * nonce)
  where
    collect : (x y v u : ℕ) → x * (y * v) + u * x * v ≡ (u + y) * (x * v)
    collect x y v u = omega arith
