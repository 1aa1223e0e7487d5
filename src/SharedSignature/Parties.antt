-- ===== src/SharedSignature/Parties.antt =====
-- The classes S and B of shared_sig.h and shared_sig.cpp. What a constructor leaves unset is 0, a
-- point the identity.
use selling_information.Base.{
  ℕ, ◌+◌, ◌-◌, ◌*◌, ◌%◌, Bool, false, not, List, [], ◌==◌, ltb, leb, length, if◌then◌else◌, Result,
  ok, err, protocol,
}
use selling_information.Base.Int.{pos}
use selling_information.Base.Exec.{Exec, lift, modify, gets, require, ◌>>=◌, ◌>>◌}
use selling_information.Crypto.{NumberTheory, Encoding, Rng}
use selling_information.Curve.{Curve}
use selling_information.Paillier.{Paillier, new_paillier, public_paillier, get_n, get_n2, enc, dec}
use selling_information.SharedSignature.Verification.{hash_m_to_int, encode_signature, verify}

pub record S (Point : Type 0) : Type 0 where
  pub data_bytes : List ℕ
  pub ds : ℕ
  pub ks : ℕ
  pub q_s : Point
  pub q_b : Point
  pub q : Point
  pub k_s : Point
  pub paillier_key : Paillier
  pub cs : ℕ
  pub r : ℕ
  pub s : ℕ

pub record B (Point : Type 0) : Type 0 where
  pub db : ℕ
  pub kb : ℕ
  pub q_s : Point
  pub q_b : Point
  pub q : Point
  pub paillier_key : Paillier
  pub k : Point
  pub r : ℕ
  pub cb : ℕ
  pub data_bytes : List ℕ
  pub open_verified : Bool

module _ (curve : Curve) where
  -- A short paillier is only printed by S(), so that nothing is thrown.
  unfoldable pub new_s :
      {World : Type 0} → NumberTheory → (ℕ → ℕ → World → ℕ × World) → World → S curve.Point × World
  new_s nt random_prime world =
      let key = new_paillier nt random_prime (2 * curve.order_bits + 3) world in
      (
        record {
          data_bytes = [];
          ds = 0;
          ks = 0;
          q_s = curve.identity;
          q_b = curve.identity;
          q = curve.identity;
          k_s = curve.identity;
          paillier_key = key.0;
          cs = 0;
          r = 0;
          s = 0;
        },
        key.1,
      )

  -- B(paillier_n, paillier_g).
  unfoldable pub new_b : ℕ → ℕ → Result (B curve.Point)
  new_b paillier_n paillier_g =
      let key = public_paillier paillier_n paillier_g in
      let made : B curve.Point = record {
        db = 0;
        kb = 0;
        q_s = curve.identity;
        q_b = curve.identity;
        q = curve.identity;
        paillier_key = key;
        k = curve.identity;
        r = 0;
        cb = 0;
        data_bytes = [];
        open_verified = false;
      } in
      elim (get_n key) [
        | err e ↦ err e
        | ok n ↦
            if leb n (2 * curve.order * curve.order * curve.order * curve.order)
            then err (protocol "too short paillier")
            else ok made
      ]

  -- set_data of both, and S::get_signature.
  unfoldable pub set_data_s : List ℕ → S curve.Point → S curve.Point
  set_data_s bytes s = record s { data_bytes = bytes }

  unfoldable pub set_data_b : List ℕ → B curve.Point → B curve.Point
  set_data_b bytes b = record b { data_bytes = bytes }

  unfoldable pub get_signature : Encoding → S curve.Point → List ℕ
  get_signature encoding s = encode_signature encoding s.r s.s

  unfoldable pub finish_init_s : curve.Point → S curve.Point → S curve.Point
  finish_init_s q_b s = record s { q_b = q_b; q = curve.multiply s.ds q_b }

  unfoldable pub finish_init_b : curve.Point → B curve.Point → B curve.Point
  finish_init_b q_s b = record b { q_s = q_s; q = curve.multiply b.db q_s }

  module _ {World : Type 0} (rng : Rng World) where
    unfoldable pub start_init_s : S curve.Point → World → S curve.Point × World
    start_init_s s world =
        let drawn = rng.randomize 1 (curve.order - 1) world in
        (record s { ds = drawn.0; q_s = curve.multiply drawn.0 curve.generator }, drawn.1)

    unfoldable pub start_init_b : B curve.Point → World → B curve.Point × World
    start_init_b b world =
        let drawn = rng.randomize 1 (curve.order - 1) world in
        (record b { db = drawn.0; q_b = curve.multiply drawn.0 curve.generator }, drawn.1)

    -- S::cheat.
    unfoldable pub cheat : S curve.Point → World → S curve.Point × World
    cheat s world =
        let drawn_r = rng.randomize 1 curve.order world in
        let drawn_s = rng.randomize 1 curve.order drawn_r.1 in
        (record s { r = drawn_r.0; s = drawn_s.0 }, drawn_s.1)

    -- The first two lines of start_sig, and of cont_sig with the line of r.
    unfoldable pub draw_ks : S curve.Point × World → S curve.Point × World
    draw_ks (s, world) =
        let drawn = rng.randomize 1 (curve.order - 1) world in
        (record s { ks = drawn.0; k_s = curve.multiply drawn.0 curve.generator }, drawn.1)

    unfoldable pub draw_kb : curve.Point → B curve.Point × World → B curve.Point × World
    draw_kb k_s (b, world) =
        let drawn = rng.randomize 1 (curve.order - 1) world in
        let k = curve.multiply drawn.0 k_s in
        (record b { kb = drawn.0; k = k; r = curve.x_of k % curve.order }, drawn.1)

  module _ {World : Type 0} (nt : NumberTheory) (rng : Rng World) (encoding : Encoding) where
    open nt use {a_times_b_mod_c, a_exp_b_mod_c, inverse_mod}

    unfoldable pub start_sig : Exec (S curve.Point × World) (Unit {0})
    start_sig start =
        let first = draw_ks rng start in
        elim (enc nt rng first.0.paillier_key (pos first.0.ds) first.1) [
          | err e ↦ (err e, first)
          | ok made ↦ (ok tt, (record (first.0) { cs = made.0 }, made.1))
        ]

    -- `paillier.enc(m)` in a method of B.
    unfoldable pub encrypt : ℕ → Exec (B curve.Point × World) ℕ
    encrypt m (b, world) = elim (enc nt rng b.paillier_key (pos m) world) [
      | err e ↦ (err e, (b, world))
      | ok made ↦ (ok made.0, (b, made.1))
    ]

    -- cont_sig after the test of r: the argument is the object with kb and r set.
    unfoldable pub blind : ℕ → List ℕ → B curve.Point → Exec (B curve.Point × World) (Unit {0})
    blind cs m b = do
      hi ← lift (hash_m_to_int encoding m curve.order_bytes)
      c1 ← encrypt (a_times_b_mod_c (inverse_mod b.kb curve.order) hi curve.order)
      n2 ← lift (get_n2 b.paillier_key)
      let t =
          a_times_b_mod_c (a_times_b_mod_c (inverse_mod b.kb curve.order) b.r curve.order) b.db
            curve.order
      let c2 = a_times_b_mod_c c1 (a_exp_b_mod_c cs t n2) n2
      let after : B curve.Point × World → ℕ × World =
          λ st. rng.randomize 0 (curve.order * curve.order - 1) st.1
      u ← gets (λ st. (after st).0)
      modify (λ st. (st.0, (after st).1))
      last ← encrypt (u * curve.order)
      modify (λ st. (record (st.0) { cb = a_times_b_mod_c c2 last n2 }, st.1))

    unfoldable pub cont_sig : curve.Point → ℕ → List ℕ → Exec (B curve.Point × World) (Unit {0})
    cont_sig k_s cs m = do
      modify (draw_kb rng k_s)
      b ← gets (λ st. st.0)
      require (not (b.r == 0)) (protocol "r == 0")
      blind cs m b

  module _ (nt : NumberTheory) (encoding : Encoding) where
    open nt use {a_times_b_mod_c, inverse_mod}

    -- get_data_length of S.
    abbrev pub nonempty : List ℕ → Bool
    nonempty m = not (length m == 0)

    -- finish_sig from the test of s on.
    unfoldable pub check_sig : Exec (S curve.Point) (Unit {0})
    check_sig = do
      s ← gets (λ st. st.s)
      require (not (s == 0)) (protocol "ERR s==0 restart protocol")
      modify (λ st. if ltb (curve.order - s) s then record st { s = curve.order - s } else st)
      st ← gets (λ st. st)
      require (nonempty st.data_bytes) (protocol "Data is empty!")
      result ← lift (verify nt curve encoding st.q st.data_bytes st.r st.s)
      require result (protocol "Invalid signature generated!")

    unfoldable pub finish_sig : ℕ → ℕ → Exec (S curve.Point) (Unit {0})
    finish_sig r cb = do
      modify (λ st. record st { r = r })
      st ← gets (λ st. st)
      m ← lift (dec nt st.paillier_key (pos cb))
      modify (λ st. record st {
        s = a_times_b_mod_c (inverse_mod st.ks curve.order) (m % curve.order) curve.order;
      })
      check_sig
