-- ===== src/Protocol.antt =====
-- protocol.h: the interface of a two-party protocol. Each function runs both parties, `World` is
-- what they draw from and talk to.
use selling_information.Base.Exec.{Exec}

pub record Protocol (A B World : Type 0) : Type 0 where
  pub init : Exec (A × B × World) (Unit {0})
  pub exec : Exec (A × B × World) (Unit {0})
  -- Protocol::open.
  pub opening : Exec (A × B × World) (Unit {0})
