-- ===== src/Tests/Handshakes.antt =====
-- The theorems on the handshake and its limiter at concrete inputs.
use usmp.Prelude.{
  ◌⊎◌, drop, true, ◌+◌, ◌*◌, ◌^◌, ◌-◌, ◌≤◌, ◌≡◌, min, refl, false, [], ◌∷◌, Bytes, length, take,
  replicate, ltb, arith,
}
use usmp.Prelude.Dict.{bytes_key, get, delete}
use usmp.Errors.{Result, ok, err, handshake_error}
use usmp.Types.{Frame, SessionInfo}
use usmp.Crypto.{derive_session_keys}
use usmp.Session.Delivery.Frame.{Sent, outbox, Matched}
use usmp.Handshake.{
  Hello, psk_bytes, open_hello, client_hmac, server_handshake, client_handshake, server_hmac,
  open_challenge,
}
use usmp.Handshake.Limiter.{Table, Failures, fails_of, second, record_failed_handshake, is_locked}
use usmp.Handshake.Limiter.Bound.{record_failed_handshake_bound}
use usmp.Handshake.Limiter.Lockout.{record_failed_handshake_locks}
use usmp.Handshake.Agreement.{handshake_agrees}
use usmp.Handshake.Agreement.Steps.{
  frame_of, hello_sent, challenge_sent, ack_sent, ok_sent, session_data, server_succeeds,
  client_succeeds,
}
use usmp.Handshake.Authentication.{server_authenticates}
use usmp.Handshake.Authentication.Client.{client_authenticates}
use usmp.Tests.{toy, toy_laws}

abbrev psk : Bytes
psk = replicate 16 1

abbrev device : Bytes
device = replicate 6 2

abbrev nonce : Bytes
nonce = replicate 32 3

abbrev session_id : Bytes
session_id = replicate 16 4

abbrev address : Bytes
address = 49 ∷ []

abbrev seven : Bytes
seven = replicate 32 7

abbrev failures_1028 : Failures
failures_1028 = record { fails = 1028; lockout_until = 5; last_attempt = 4 }

-- An address that has failed 6 times, and one that has failed 1028 times.
abbrev table : Table
table =
    (address, record { fails = 6; lockout_until = 5; last_attempt = 4 })
    ∷ (50 ∷ [], failures_1028)
    ∷ []

toy_derived :
    derive_session_keys toy (8 ∷ []) (replicate 32 9) nonce (replicate 32 9) (replicate 32 9)
    ≡ ok (seven, seven)
unfolding derive_session_keys
toy_derived = refl

unlocked : is_locked address 9 table ≡ false
unfolding is_locked get
unlocked = refl

failed_six : fails_of (get bytes_key address table) ≡ 6
unfolding get
failed_six = refl

record_failed_handshake_bound_example : length (record_failed_handshake address 9 table).1 ≤ 1000
record_failed_handshake_bound_example = record_failed_handshake_bound address 9 table (omega arith)

record_failed_handshake_locks_example :
    is_locked address 20 (record_failed_handshake address 9 table).1
    ≡ ltb 20 (9 + min 60 (2 ^ (fails_of (get bytes_key address table) - 4)) * second)
record_failed_handshake_locks_example =
    record_failed_handshake_locks address 9 20 table (omega (arith, failed_six))
      (omega (arith, failed_six))

abbrev hello_frame : Sent
hello_frame = hello_sent toy toy_laws psk device nonce session_id (8 ∷ []) (6 ∷ [])

abbrev ack_frame : Sent
ack_frame = ack_sent toy toy_laws psk device nonce session_id (8 ∷ []) (6 ∷ [])

abbrev challenge_frame : Sent
challenge_frame = challenge_sent toy toy_laws psk device nonce session_id (8 ∷ []) (6 ∷ [])

abbrev ok_frame : Sent
ok_frame = ok_sent toy toy_laws psk device nonce session_id (8 ∷ []) (6 ∷ [])

handshake_agrees_example :
    (info_s : SessionInfo) × (info_c : SessionInfo) × (server_handshake toy outbox address 9 9
        (psk_bytes psk)
        (6 ∷ [])
        nonce
        session_id
        (ok (frame_of hello_frame))
        (ok (frame_of ack_frame))
        (table, [])
      ≡ (ok info_s, (delete bytes_key address table, challenge_frame ∷ ok_frame ∷ [])))
    × (client_handshake toy outbox psk device
          (8 ∷ [])
          (ok (frame_of challenge_frame))
          (ok (frame_of ok_frame))
          (err handshake_error)
          []
        ≡ (ok info_c, hello_frame ∷ ack_frame ∷ []))
    × Matched true info_c info_s
    × Matched true info_s info_c
handshake_agrees_example =
    handshake_agrees toy toy_laws psk device nonce session_id (8 ∷ []) (6 ∷ []) address 9 9 table
      (err handshake_error) (seven, seven) (omega arith) refl refl refl toy_derived unlocked

abbrev server_info_of : SessionInfo
server_info_of =
    session_data toy toy_laws psk device nonce session_id (8 ∷ []) (6 ∷ []) (omega arith) refl refl
      refl (seven, seven) toy_derived seven seven

server_authenticates_example :
    (is_locked address 9 table ≡ false)
    × (h : Hello) × (f : Frame) × (open_hello (psk_bytes psk) (ok (frame_of hello_frame)) ≡ ok h)
    × (◌≡◌ {A = Result Frame} (ok (frame_of ack_frame)) (ok f))
    × (client_hmac toy h.psk nonce h.device_id h.pub_c (replicate 32 9) ≡ take 32 f.payload)
server_authenticates_example =
    server_authenticates toy outbox address 9 9 (psk_bytes psk) (6 ∷ []) nonce session_id
      (ok (frame_of hello_frame)) (ok (frame_of ack_frame)) (table, []) server_info_of
      (delete bytes_key address table, challenge_frame ∷ ok_frame ∷ [])
      (server_succeeds toy toy_laws psk device nonce session_id (8 ∷ []) (6 ∷ []) (omega arith) refl
        refl refl (seven, seven) toy_derived address 9 9 table unlocked)

abbrev client_info_of : SessionInfo
client_info_of =
    session_data toy toy_laws psk device nonce session_id (8 ∷ []) (6 ∷ []) (omega arith) refl refl
      refl (seven, seven) toy_derived seven seven

client_authenticates_example :
    (16 ≤ length psk)
    × (asked : Frame) × (f : Frame) × (n : Bytes) × (pub_s : Bytes) × ((◌≡◌ {A = Result Frame}
            (ok (frame_of challenge_frame))
            (ok asked)
          × ◌≡◌ {A = Result Frame} (ok (frame_of ok_frame)) (ok f))
        ⊎ (◌≡◌ {A = Result Frame} (ok (frame_of ok_frame)) (ok asked)
            × ◌≡◌ {A = Result Frame} (err handshake_error) (ok f)))
    × (open_challenge toy outbox asked ≡ ok (n, pub_s))
    × (client_info_of.session_id ≡ take 16 f.payload)
    × (server_hmac toy psk n client_info_of.session_id (replicate 32 9) pub_s
        ≡ take 32 (drop 16 f.payload))
client_authenticates_example =
    client_authenticates toy outbox psk device (8 ∷ []) (ok (frame_of challenge_frame))
      (ok (frame_of ok_frame)) (err handshake_error) [] (hello_frame ∷ ack_frame ∷ [])
      client_info_of
      (client_succeeds toy toy_laws psk device nonce session_id (8 ∷ []) (6 ∷ []) (omega arith) refl
        refl refl (seven, seven) toy_derived (err handshake_error))
