-- ===== src/Tests/Streams.antt =====
-- A client and a server over TCP at a concrete input.
use usmp.Prelude.{
  ◌≡◌, ◌≤◌, ◌*◌, refl, false, none, [], ◌∷◌, Bytes, AreBytes, length, replicate, arith,
}
use usmp.Prelude.Dict.{get}
use usmp.Errors.{ok, err, handshake_error}
use usmp.Types.{usmp_max_data_len, usmp_max_frames}
use usmp.Crypto.{derive_session_keys}
use usmp.Handshake.Limiter.{is_locked}
use usmp.Client.{Client}
use usmp.Tcp.Message.{Exchange, message_arrives_tcp}
use usmp.Tests.{toy, toy_laws, pipe, pipe_keeps}

abbrev idle : Client Bytes
idle = record {
  psk = replicate 16 1;
  device_id = replicate 6 2;
  session = none;
  has_transport = false;
  closed = [];
}

abbrev nonce : Bytes
nonce = replicate 32 3

abbrev session_id : Bytes
session_id = replicate 16 4

abbrev seven : Bytes
seven = replicate 32 7

derived :
    derive_session_keys toy (8 ∷ []) (replicate 32 9) nonce (replicate 32 9) (replicate 32 9)
    ≡ ok (seven, seven)
unfolding derive_session_keys
derived = refl

unlocked : is_locked (49 ∷ []) 9 [] ≡ false
unfolding is_locked get
unlocked = refl

abbrev text : Bytes
text = replicate 460 65

idle_long : 16 ≤ length idle.psk
idle_long = omega arith

idle_bytes : AreBytes idle.device_id
idle_bytes = omega arith

nonce-AreBytes : AreBytes nonce
nonce-AreBytes = omega arith

session_id-AreBytes : AreBytes session_id
session_id-AreBytes = omega arith

text-AreBytes : AreBytes text
text-AreBytes = omega arith

text_fits : length text ≤ usmp_max_data_len * usmp_max_frames
text_fits = omega arith

message_arrives_tcp_example :
    Exchange toy toy_laws nonce session_id
      (8 ∷ [])
      (6 ∷ [])
      pipe
      (λ w. w)
      pipe_keeps
      pipe
      (λ w. w)
      pipe_keeps
      idle
      idle_long
      refl
      refl
      refl
      (seven, seven)
      derived
      idle_bytes
      nonce-AreBytes
      session_id-AreBytes
      (49 ∷ [])
      9
      9
      []
      unlocked
      text
      text-AreBytes
      text_fits
      (err handshake_error)
      1
      []
      []
message_arrives_tcp_example =
    message_arrives_tcp toy toy_laws nonce session_id (8 ∷ []) (6 ∷ []) pipe (λ w. w) pipe_keeps
      pipe (λ w. w) pipe_keeps idle idle_long refl refl refl (seven, seven) derived idle_bytes
      nonce-AreBytes session_id-AreBytes (49 ∷ []) 9 9 [] unlocked text text-AreBytes text_fits
      (err handshake_error) 1 [] [] refl refl
