-- ===== src/Transport.antt =====
-- sdk/python/src/usmp/transport/base.py: the operations of a transport that a session calls, over the
-- transport's own state. What `read_frame` brings is an input of the session (`Session.Receive`).
pub mod Registry
use usmp.Prelude.{ℕ, Bool, Bytes}
use usmp.Errors.{Result}
use usmp.Types.{PacketType}

pub record Transport (T : Type 0) : Type 0 where
  pub is_reliable : Bool
  pub write_frame : PacketType → Bytes → ℕ → T → Result (Unit {0}) × T
  pub set_session_keys : Bytes → Bytes → T → T
  pub confirm_authenticated : ℕ → T → T
  pub close : T → T
