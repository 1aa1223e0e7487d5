-- ===== src/SharedSignature/Session.antt =====
-- SharedSignature::exec and open of honest parties, from the state that init leaves.
use selling_information.Base.{
  ℕ, ◌+◌, ◌-◌, ◌*◌, ◌%◌, ◌≤◌, ◌<◌, ◌≡◌, ◌≢◌, ◌⊎◌, refl, sym, ap, subst, ◌∙◌, arith, Bool, true,
  false, take, length, ◌==◌, ==_iff, if◌then◌else◌, Result, ok, err, protocol,
}
use selling_information.Modular.{mul_congr, mul-mod-mod}
use selling_information.Crypto.{NumberTheory, Encoding, Rng}
use selling_information.Curve.{Curve}
use selling_information.Paillier.{Paillier}
use selling_information.Paillier.Homomorphism.{Encrypts}
use selling_information.Paillier.Decryption.{dec_lem, enc-Encrypts}
use selling_information.SharedSignature.Group.{positive, mod-ne-zero, mul-mod-ne-zero}
use selling_information.SharedSignature.Verification.{verify}
use selling_information.SharedSignature.Parties.{
  S, B, draw_ks, draw_kb, start_sig, cont_sig, check_sig, finish_sig,
}
use selling_information.SharedSignature.Running.{exec, opening}
use selling_information.SharedSignature.Ecdsa.{answer_lem}
use selling_information.SharedSignature.Blinding.{order_le, plain, blind_lem}
use selling_information.SharedSignature.Signing.{low, low_cases, check_sig_lem}
use selling_information.SharedSignature.Draws.{IsPrepared, drawn_ks, drawn_kb, last_world, nonce_x}
use native.Mathlib.Nat.{mod-eq_of_lt, mod-lt, mod-mod, zero-mod, add-mul-mod_self_left, mul_comm}

module _ {World : Type 0} (curve : Curve) (nt : NumberTheory) (rng : Rng World)
    (encoding : Encoding) (s : S curve.Point) (b : B curve.Point) (p q : ℕ) (world : World)
    (ready : IsPrepared curve rng encoding s b p q world) where
  open curve use {generator, order, multiply, x_of}

  abbrev k : Paillier
  k = s.paillier_key

  abbrev ks : ℕ
  ks = (drawn_ks curve rng world).0

  abbrev kb : ℕ
  kb = (drawn_kb curve rng k.n world).0

  abbrev x : ℕ
  x = nonce_x curve rng k.n world

  abbrev r : ℕ
  r = x % order

  abbrev z : ℕ
  z = encoding.decode (take curve.order_bytes s.data_bytes)

  drawn_bounds :
      (w : World)
      → (1 ≤ (rng.randomize 1 (order - 1) w).0) × ((rng.randomize 1 (order - 1) w).0 < order)
  drawn_bounds w =
      let facts = rng.randomize-le 1 (order - 1) w (omega (arith, curve.order_lt)) in
      (facts.0, omega (arith, facts.1, curve.order_lt))

  inverse_lem : (i : ℕ) → 1 ≤ i → i < order → i * nt.inverse_mod i order % order ≡ 1
  inverse_lem i pos_i lt_i =
      let (j, one) = curve.invertible i (mod-ne-zero curve i pos_i lt_i) in
      nt.inverse_mod_lem i j order curve.order_lt one

  signer : ℕ → S curve.Point
  signer c = record s { ks = ks; k_s = multiply ks generator; cs = c }

  start_sig_lem :
      (c : ℕ) × (start_sig curve nt rng encoding (s, world)
        ≡ (ok tt, (signer c, (rng.randomize 1 k.n (drawn_ks curve rng world).1).1)))
      × Encrypts k s.ds c
  unfolding start_sig draw_ks signer
  start_sig_lem =
      let (c, made, holds) =
        enc-Encrypts k p q ready.key nt rng s.ds (drawn_ks curve rng world).1
          (omega
            (arith, ready.shared.ds_lt, order_le nt rng k p q ready.key curve encoding ready.size))
          ready.unit_cs in
      (c, rw (made, start_sig) refl, holds)

  -- B with kb, K and r set.
  holder : B curve.Point
  holder = record b {
    kb = kb;
    k = multiply kb (multiply ks generator);
    r = x_of (multiply kb (multiply ks generator)) % order;
  }

  holder-r : holder.r ≡ r
  unfolding holder
  holder-r = ap (λ a. x_of a % order) (curve.multiply-multiply kb ks generator)

  blinded : ℕ → ℕ
  blinded cs =
      plain nt rng k p q ready.key curve encoding ready.size holder b.data_bytes cs s.ds
        (drawn_kb curve rng k.n world).1

  cont_sig_lem :
      (cs : ℕ)
      → Encrypts k s.ds cs
      → (c : ℕ) × (cont_sig curve nt rng encoding
            (multiply ks generator)
            cs
            b.data_bytes
            (b, (rng.randomize 1 k.n (drawn_ks curve rng world).1).1)
          ≡ (
            ok tt,
            (record holder { cb = c }, (rng.randomize 1 k.n (last_world curve rng k.n world)).1),
          ))
        × Encrypts k (blinded cs) c
        × (blinded cs < k.n)
  unfolding cont_sig draw_kb holder blinded
  cont_sig_lem cs holds =
      let (c, ran, inside, small) =
        blind_lem nt rng k p q ready.key curve encoding ready.size holder b.data_bytes cs s.ds
          (drawn_kb curve rng k.n world).1 ready.public (ap length ready.agreed ∙ ready.hashed)
          ready.shared.ds_lt holds ready.unit_c1 ready.unit_last in
      (c, rw (r_test, ran) refl, inside, small)
    where
      r_test : (x_of (multiply kb (multiply ks generator)) % order == 0) ≡ false
      r_test = ap (λ i. i == 0) holder-r ∙ positive_test r ready.r_pos
        where
          positive_test : (i : ℕ) → 1 ≤ i → (i == 0) ≡ false
          positive_test i h = ground arith

  -- The number s before it is made the lower of s and n - s.
  first_s : ℕ → ℕ
  first_s cs = nt.a_times_b_mod_c (nt.inverse_mod ks order) (blinded cs % order) order

  nonce : ℕ
  nonce = kb * ks

  times-mod : (i j : ℕ) → nt.a_times_b_mod_c i j order % order ≡ i * j % order
  times-mod i j =
      ap (λ y. y % order) (nt.times_lem i j order curve.order_lt) ∙ mod-mod (i * j) order

  noise-mod : (y u : ℕ) → (y + u * order) % order ≡ y % order
  noise-mod y u = ap (λ i. i % order) (omega arith) ∙ add-mul-mod_self_left y order u

  first_s-answers : (cs : ℕ) → first_s cs * nonce % order ≡ (z + r * (s.ds * b.db)) % order
  unfolding first_s nonce blinded holder
  first_s-answers cs =
      ap (λ i. first_s cs * i % order) (mul_comm kb ks)
      ∙ answer_lem order ks (nt.inverse_mod ks order) kb (nt.inverse_mod kb order) z r s.ds b.db a t
          (blinded cs) (first_s cs) curve.order_lt
          (inverse_lem ks (drawn_bounds world).0 (drawn_bounds world).1)
          (inverse_lem kb bounds_kb.0 bounds_kb.1)
          (times-mod inverse (encoding.decode (take curve.order_bytes b.data_bytes))
            ∙ ap (λ m. inverse * encoding.decode (take curve.order_bytes m) % order) ready.agreed)
          (times-mod (nt.a_times_b_mod_c inverse holder.r order) b.db
            ∙ mul_congr (nt.a_times_b_mod_c inverse holder.r order) (inverse * r) b.db b.db order
                (times-mod inverse holder.r ∙ ap (λ i. inverse * i % order) holder-r) refl)
          (noise-mod (a + s.ds * t) _)
          (times-mod (nt.inverse_mod ks order) (blinded cs % order)
            ∙ mul-mod-mod (nt.inverse_mod ks order) (blinded cs) order)
    where
      inverse : ℕ
      inverse = nt.inverse_mod kb order

      bounds_kb : (1 ≤ kb) × (kb < order)
      bounds_kb = drawn_bounds (rng.randomize 1 k.n (drawn_ks curve rng world).1).1

      a : ℕ
      a =
          nt.a_times_b_mod_c (nt.inverse_mod kb order)
            (encoding.decode (take curve.order_bytes b.data_bytes)) order

      t : ℕ
      t =
          nt.a_times_b_mod_c (nt.a_times_b_mod_c (nt.inverse_mod kb order) holder.r order) b.db
            order

  first_s-lt : (cs : ℕ) → first_s cs < order
  unfolding first_s
  first_s-lt cs =
      subst (λ i. i < order) (sym (nt.times_lem _ _ order curve.order_lt))
        (mod-lt _ (positive curve))

  first_s-pos : (cs : ℕ) → 1 ≤ first_s cs
  first_s-pos cs =
      not_zero (first_s cs)
        (λ e. ready.s_pos (sym (first_s-answers cs) ∙ ap (λ i. i * nonce % order) e ∙ zero))
    where
      zero : 0 * nonce % order ≡ 0
      zero = ap (λ i. i % order) (omega arith) ∙ zero-mod order

      not_zero : (i : ℕ) → i ≢ 0 → 1 ≤ i
      not_zero i h = ground arith

  -- What S holds at the end.
  final : ℕ → S curve.Point
  final cs = record (signer cs) { r = holder.r; s = low order (first_s cs) }

  abbrev outcome : Result (Unit {0})
  outcome = if x == r then ok tt else err (protocol "Invalid signature generated!")

  finish_sig_lem :
      (cs c : ℕ)
      → Encrypts k (blinded cs) c
      → blinded cs < k.n
      → (verify nt curve encoding s.q s.data_bytes holder.r (low order (first_s cs)) ≡ ok (x == r))
        × (finish_sig curve nt encoding holder.r c (signer cs) ≡ (outcome, final cs))
  unfolding finish_sig signer final first_s nonce
  finish_sig_lem cs c holds small = (
    checked.0 ∙ ap (λ i. ok (x == i)) holder-r,
    rw (dec_lem k p q ready.key nt (blinded cs) c holds ∙ ap ok (mod-eq_of_lt small)) (
        checked.1
        ∙ ap
            (λ i.
              ((if x == i then ok tt else err (protocol "Invalid signature generated!")), final cs))
            holder-r),
  )
    where
      key_unit : s.ds * b.db % order ≢ 0
      key_unit =
          mul-mod-ne-zero curve s.ds b.db
            (mod-ne-zero curve s.ds ready.shared.ds_pos ready.shared.ds_lt)
            (mod-ne-zero curve b.db ready.shared.db_pos ready.shared.db_lt)

      checked :
          let st : S curve.Point = record (final cs) { s = first_s cs } in
          (verify nt curve encoding st.q st.data_bytes st.r (low order st.s) ≡ ok (x == st.r))
          × (check_sig curve nt encoding st ≡ (
            (if x == st.r then ok tt else err (protocol "Invalid signature generated!")),
            record st { s = low order st.s },
          ))
      checked =
          check_sig_lem nt curve encoding (record (final cs) { s = first_s cs }) (s.ds * b.db) nonce
            ready.shared.key_s key_unit ready.hashed (subst (λ i. 1 ≤ i) (sym holder-r) ready.r_pos)
            (subst (λ i. i < order) (sym holder-r) (mod-lt x (positive curve))) (first_s-pos cs)
            (first_s-lt cs)
            (first_s-answers cs ∙ ap (λ i. (z + i * (s.ds * b.db)) % order) (sym holder-r))

  ran :
      (cs c : ℕ) × (exec curve nt rng encoding (s, b, world) ≡ (
        outcome,
        (
          final cs,
          record holder { cb = c },
          (rng.randomize 1 k.n (last_world curve rng k.n world)).1,
        ),
      ))
      × (verify nt curve encoding s.q s.data_bytes holder.r (low order (first_s cs)) ≡ ok (x == r))
  unfolding exec signer
  ran =
      let (cs, started, holds) = start_sig_lem in
      let (c, continued, inside, small) = cont_sig_lem cs holds in
      let finished = finish_sig_lem cs c inside small in
      (cs, c, rw (started, continued, finished.1) refl, finished.0)

  verified_by_b :
      (r' s' : ℕ) {verdict : Result Bool}
      → verify nt curve encoding s.q s.data_bytes r' s' ≡ verdict
      → verify nt curve encoding b.q b.data_bytes r' s' ≡ verdict
  verified_by_b r' s' h = rw (ready.shared.key_b, ready.agreed) h

  -- Under IsPrepared (both parties hold one key as init leaves it and one hash of 32 bytes, S has a
  -- whole Paillier key whose n is above 2 * order ^ 4 and B its public part, the drawn factors are
  -- units, and neither r nor s is 0), if the x coordinate of the point K is below the order, exec
  -- throws nothing and open throws nothing, and B has the signature verified. The signature's r is
  -- that x coordinate, and its s is positive and not above n - s.
  pub exec-opening :
      x < order
      → let after = exec curve nt rng encoding (s, b, world) in
        let opened = opening curve nt rng encoding after.1 in
        (after.0 ≡ ok tt)
        × (opened.0 ≡ ok tt)
        × (opened.1.1.open_verified ≡ true)
        × (after.1.0.r ≡ x)
        × (1 ≤ after.1.0.s)
        × (after.1.0.s ≤ order - after.1.0.s)
  unfolding opening final holder
  exec-opening lt =
      let (cs, c, executed, accepted) = ran in
      rw (executed, verified_by_b holder.r (low order (first_s cs)) accepted, same)
        (refl, refl, refl, holder-r ∙ mod-eq_of_lt lt, (bounds cs).1, (bounds cs).3)
    where
      same : (x == r) ≡ true
      same = (==_iff x r).1 (sym (mod-eq_of_lt lt))

      bounds :
          (cs : ℕ)
          → ((low order (first_s cs) ≡ first_s cs) ⊎ (low order (first_s cs) + first_s cs ≡ order))
            × (1 ≤ low order (first_s cs))
            × (low order (first_s cs) < order)
            × (low order (first_s cs) ≤ order - low order (first_s cs))
      bounds cs = low_cases order (first_s cs) (first_s-pos cs) (first_s-lt cs)

  -- Under IsPrepared (both parties hold one key as init leaves it and one hash of 32 bytes, S has a
  -- whole Paillier key whose n is above 2 * order ^ 4 and B its public part, the drawn factors are
  -- units, and neither r nor s is 0), if the x coordinate of the point K is not below the order, exec
  -- throws ProtocolException: verify compares that coordinate with r, which is its remainder.
  pub exec-refused :
      order ≤ x
      → (exec curve nt rng encoding (s, b, world)).0 ≡ err (protocol "Invalid signature generated!")
  exec-refused le = let (cs, c, executed, accepted) = ran in rw (executed, differ) refl
    where
      differ : (x == r) ≡ false
      differ = unequal x r (omega (arith, mod-lt x (positive curve)))
        where
          unequal : (i j : ℕ) → j < i → (i == j) ≡ false
          unequal i j h = ground arith
