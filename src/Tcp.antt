-- ===== src/Tcp.antt =====
-- `TCPTransport` of sdk/python/src/usmp/transport/tcp.py with `write_frame` of _frame.py. The writer of
-- asyncio is a parameter.
pub mod Frames
pub mod Session
pub mod Delivery
pub mod Opening
pub mod Message
use usmp.Prelude.{ℕ, true, Bytes}
use usmp.Errors.{Result, ok, err}
use usmp.Types.{PacketType, usmp_version}
use usmp.Frame.{encode_frame}
use usmp.Transport.{Transport}

-- `asyncio.StreamWriter`, on its own state: `write`, `drain` and `close`.
pub record StreamWriter (W : Type 0) : Type 0 where
  pub write : Bytes → W → W
  pub drain : W → Result (Unit {0}) × W
  pub close : W → W

module _ {W : Type 0} (writer : StreamWriter W) where
  abbrev pub write_data : Result Bytes → W → Result (Unit {0}) × W
  write_data (ok data_bytes) w = writer.drain (writer.write data_bytes w)
  write_data (err e) w = (err e, w)

  -- `write_frame`.
  unfoldable pub write_frame : PacketType → Bytes → ℕ → W → Result (Unit {0}) × W
  write_frame type payload seq w = write_data (encode_frame type payload seq usmp_version) w

  -- The transport of a session: keys and confirmations are for UDP only.
  abbrev pub tcp_transport : Transport W
  tcp_transport = record {
    is_reliable = true;
    write_frame = write_frame;
    set_session_keys = λ tx_key rx_key w. w;
    confirm_authenticated = λ seq w. w;
    close = writer.close;
  }
