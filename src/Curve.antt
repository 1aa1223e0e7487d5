-- ===== src/Curve.antt =====
-- The group of common::ec_parameters() in common/common.cpp: secp256k1 of Crypto++, with what the
-- code relies on. `order` is prime, which is stated as the inverses modulo it.
use selling_information.Base.{ℕ, ◌+◌, ◌*◌, ◌%◌, ◌<◌, ◌≡◌, ◌≢◌, ◌↔◌, Bool, true}

pub record Curve : Type 1 where
  pub Point : Type 0
  -- GetCurve().Identity() and GetSubgroupGenerator().
  pub identity : Point
  pub generator : Point
  -- GetGroupOrder(), its BitCount() and its ByteCount().
  pub order : ℕ
  pub order_bits : ℕ
  pub order_bytes : ℕ
  -- Add and Multiply, the members x and y and operator==.
  pub add : Point → Point → Point
  pub multiply : ℕ → Point → Point
  pub x_of : Point → ℕ
  pub y_of : Point → ℕ
  pub same : Point → Point → Bool
  pub same_iff : (a b : Point) → (same a b ≡ true) ↔ (a ≡ b)
  pub multiply-zero : (a : Point) → multiply 0 a ≡ identity
  pub multiply-add : (j k : ℕ) (a : Point) → multiply (j + k) a ≡ add (multiply j a) (multiply k a)
  pub multiply-multiply : (j k : ℕ) (a : Point) → multiply j (multiply k a) ≡ multiply (j * k) a
  pub multiply-order : multiply order generator ≡ identity
  pub multiply-eq-identity : (k : ℕ) → multiply k generator ≡ identity → k % order ≡ 0
  pub x_of-opposite : (a b : Point) → add a b ≡ identity → x_of a ≡ x_of b
  pub order_lt : 1 < order
  pub invertible : (k : ℕ) → k % order ≢ 0 → (j : ℕ) × (k * j % order ≡ 1)
