-- ===== src/SharedSignature/Running.antt =====
-- The class SharedSignature of shared_sig.cpp, an instance of protocol.h.
use selling_information.Base.{protocol}
use selling_information.Base.Exec.{Exec, lift, modify, gets, require, ◌>>=◌, ◌>>◌}
use selling_information.Crypto.{NumberTheory, Encoding, Rng}
use selling_information.Curve.{Curve}
use selling_information.Protocol.{Protocol}
use selling_information.SharedSignature.Verification.{verify}
use selling_information.SharedSignature.Parties.{
  S, B, start_init_s, start_init_b, finish_init_s, finish_init_b, start_sig, cont_sig, finish_sig,
}

-- A method of one party, as a step of both.
abbrev pub on_s :
    {X Y World : Type 0} → Exec (X × World) (Unit {0}) → Exec (X × Y × World) (Unit {0})
on_s method (s, b, world) = let after = method (s, world) in (after.0, (after.1.0, b, after.1.1))

abbrev pub on_b :
    {X Y World : Type 0} → Exec (Y × World) (Unit {0}) → Exec (X × Y × World) (Unit {0})
on_b method (s, b, world) = let after = method (b, world) in (after.0, (s, after.1.0, after.1.1))

abbrev pub without_world : {X World : Type 0} → Exec X (Unit {0}) → Exec (X × World) (Unit {0})
without_world method (s, world) = let after = method s in (after.0, (after.1, world))

module _ {World : Type 0} (curve : Curve) (nt : NumberTheory) (rng : Rng World)
    (encoding : Encoding) where
  unfoldable pub init : Exec (S curve.Point × B curve.Point × World) (Unit {0})
  init = do
    on_s (modify λ st. start_init_s curve rng st.0 st.1)
    on_b (modify λ st. start_init_b curve rng st.0 st.1)
    modify (λ st. (finish_init_s curve st.1.q_b st.0, st.1, st.2))
    modify (λ st. (st.0, finish_init_b curve st.0.q_s st.1, st.2))
    st ← gets (λ st. st)
    require (curve.same st.0.q st.1.q) (protocol "Mismatching Q")

  unfoldable pub exec : Exec (S curve.Point × B curve.Point × World) (Unit {0})
  exec = do
    on_s (start_sig curve nt rng encoding)
    first ← gets (λ st. st)
    on_b (cont_sig curve nt rng encoding first.0.k_s first.0.cs first.1.data_bytes)
    second ← gets (λ st. st)
    on_s (without_world (finish_sig curve nt encoding second.1.r second.1.cb))

  unfoldable pub opening : Exec (S curve.Point × B curve.Point × World) (Unit {0})
  opening = do
    st ← gets (λ st. st)
    result ← lift (verify nt curve encoding st.1.q st.1.data_bytes st.0.r st.0.s)
    modify (λ st. (st.0, record (st.1) { open_verified = result }, st.2))

  unfoldable pub shared_signature : Protocol (S curve.Point) (B curve.Point) World
  shared_signature = record { init = init; exec = exec; opening = opening }
