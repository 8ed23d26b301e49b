-- ===== src/Tests/Sessions.antt =====
-- The theorems on sessions at concrete inputs.
use usmp.Prelude.{
  ◌+◌, ◌++◌, ◌≡◌, refl, true, false, none, some, List, [], ◌∷◌, Bytes, leb, ◌||◌, arith, replicate,
}
use usmp.Errors.{Result, ok}
use usmp.Types.{ping, rekey as rekey_packet, data_packet, Frame}
use usmp.Frame.RoundTrip.{sent_frame}
use usmp.Session.Receive.{
  Arrival, again, returned, empty_assembly, recv_turn, opened, open_frame, accept_frame,
  handle_frame, handle_data, append_chunk, absorb, recv, recv_loop, recv_result, resume,
}
use usmp.Session.Total.{send_ends}
use usmp.Session.Rekey.{IsPaired, rekey_sent, rekey_pairs}
use usmp.Session.Window.Calls.{changes}
use usmp.Session.Window.Replay.{recv_turn_once}
use usmp.Struct.{pack_u8, pack_u16, pack_u32}
use usmp.Crypto.{build_aad, decrypt, encrypt}
use usmp.Session.{
  Session, send, rekey, frame_nonce, send_ping, send_encrypted_locked, seal_frame, send_sealed,
  write_sealed,
}
use usmp.Session.Window.{mark_seen, is_replay}
use usmp.Session.Window.Tracks.{contains}
use usmp.Session.Window.History.{accept_all, accept_all_once, accept_all_refuses}
use usmp.Session.Nonce.{
  Call, send_call, rekey_call, ping_call, bye_call, recv_call, run_call, run_calls,
  nonces_used_once,
}
use usmp.Session.Nonce.Record.{Recorded, recording, IsDistinct, AreDistinct}
use usmp.Session.Delivery.{Message, recv-send}
use usmp.Session.Delivery.Datagram.{SharesKey, Datagram, recv-send_datagram}
use usmp.Session.Delivery.Frame.{Sent, Matched, outbox, arrival}
use usmp.Tests.{toy, toy_laws, client_info, server_info, session_of, null_transport}

-- A message of two frames, and an empty one.
abbrev text : Bytes
text = replicate 460 65

abbrev client : Session (List Sent)
client = session_of client_info []

abbrev server : Session Unit
server = session_of server_info tt

client_server : Matched true client_info server_info
client_server = record {
  key = refl;
  session = refl;
  suite = refl;
  seq = refl;
  key_size = refl;
  id_size = refl;
}

recv-send_example : Message toy toy_laws (null_transport true) true refl 9 text 1 client server
recv-send_example =
    recv-send toy toy_laws (null_transport true) true refl 9 text 1 client server client_server
      (omega arith) (omega arith)

abbrev recorded : Session (Recorded Unit)
recorded = session_of client_info (record { current = []; past = []; inner = tt })

abbrev calls : List Call
calls =
    send_call text
    ∷ ping_call
    ∷ rekey_call (replicate 32 8)
    ∷ recv_call none 0
        (record { frame = ok (sent_frame ping 0 []); read_at = 1; handled_at = 1 } ∷ [])
    ∷ send_call []
    ∷ bye_call
    ∷ []

nonces_used_once_example :
    IsDistinct (run_calls toy (null_transport true) calls recorded).transport.current
    × AreDistinct (run_calls toy (null_transport true) calls recorded).transport.past
nonces_used_once_example = nonces_used_once toy (null_transport true) calls recorded refl refl refl

accept_all_once_example :
    IsDistinct (accept_all (0 ∷ 5 ∷ 3 ∷ 5 ∷ 90 ∷ 3 ∷ 60 ∷ 60 ∷ []) (server_info, [])).1
accept_all_once_example =
    accept_all_once (0 ∷ 5 ∷ 3 ∷ 5 ∷ 90 ∷ 3 ∷ 60 ∷ 60 ∷ []) server_info refl refl

accept_all_refuses_example :
    let (now, accepted) = accept_all (0 ∷ 5 ∷ 3 ∷ 90 ∷ []) (server_info, []) in
    is_replay 60 now ≡ (leb (60 + 64) now.rx_seq || contains 60 accepted)
accept_all_refuses_example = accept_all_refuses (0 ∷ 5 ∷ 3 ∷ 90 ∷ []) 60 server_info refl refl

send_ends_example :
    (end : Result (Unit {0}) × Session Unit) × (send toy
        (null_transport false)
        text
        (session_of client_info tt)
      ≡ some end)
send_ends_example = send_ends toy (null_transport false) text (session_of client_info tt)

paired : IsPaired client_info server_info
paired = record {
  there = client_server;
  back = record {
    key = refl;
    session = refl;
    suite = refl;
    seq = refl;
    key_size = refl;
    id_size = refl;
  };
}

rekey_pairs_example :
    (payload : Bytes) × (s' : Session (List Sent)) × (r' : Session Unit) × (rekey toy outbox
        (replicate 32 8)
        client
      ≡ (ok tt, s'))
    × (s'.transport ≡ rekey_sent payload 0 ∷ [])
    × (recv_turn toy
          (null_transport true)
          (ok (sent_frame rekey_packet 0 payload))
          (arrival 9 (rekey_sent payload 0))
          (empty_assembly 1)
          server
        ≡ again (empty_assembly 1) r')
    × IsPaired s'.info r'.info
rekey_pairs_example =
    rekey_pairs toy toy_laws (null_transport true) refl (replicate 32 8) 9 (empty_assembly 1) client
      server refl paired (omega arith) refl

-- A frame sealed for the server, over UDP.
abbrev datagram : Frame
datagram = sent_frame data_packet 3 (3 ∷ 0 ∷ 0 ∷ 0 ∷ replicate 8 3 ++ 104 ∷ 105 ∷ replicate 16 0)

abbrev datagram_read : Arrival
datagram_read = record { frame = ok datagram; read_at = 5; handled_at = 5 }

abbrev recorded_server : Session (Recorded Unit)
recorded_server = session_of server_info (record { current = []; past = []; inner = tt })

abbrev server_after : Session (Recorded Unit)
server_after = record recorded_server { info = mark_seen 3 server_info; last_recv = 5 }

datagram_returned :
    recv_turn toy
      (recording (null_transport false))
      (ok datagram)
      datagram_read
      (empty_assembly 1)
      recorded_server
    ≡ returned (104 ∷ 105 ∷ []) server_after
unfolding recv_turn is_replay opened open_frame frame_nonce pack_u32 decrypt build_aad pack_u16
    pack_u8 accept_frame handle_frame handle_data append_chunk absorb
datagram_returned = refl

-- A newer frame, and what a program does before the first one comes again.
abbrev newer_read : Arrival
newer_read = record {
  frame = ok (sent_frame data_packet 5 (5 ∷ 0 ∷ 0 ∷ 0 ∷ replicate 8 3 ++ 104 ∷ replicate 16 0));
  read_at = 6;
  handled_at = 6;
}

abbrev calls_between : List Call
calls_between = recv_call none 6 (newer_read ∷ []) ∷ ping_call ∷ []

keys_kept :
    changes (run_calls toy (null_transport false) calls_between server_after) ≡ changes server_after
unfolding run_calls run_call recv recv_loop recv_result resume recv_turn is_replay mark_seen opened
    open_frame frame_nonce pack_u32 decrypt build_aad pack_u16 pack_u8 accept_frame handle_frame
    handle_data append_chunk absorb send_ping send_encrypted_locked seal_frame send_sealed
    write_sealed encrypt
keys_kept = refl

recv_turn_once_example :
    recv_turn toy
      (recording (null_transport false))
      (ok datagram)
      datagram_read
      (empty_assembly 7)
      (run_calls toy (null_transport false) calls_between server_after)
    ≡ again (empty_assembly 7) (run_calls toy (null_transport false) calls_between server_after)
recv_turn_once_example =
    recv_turn_once toy (null_transport false) refl datagram datagram_read datagram_read
      (empty_assembly 1) (empty_assembly 7) calls_between recorded_server server_after
      (104 ∷ 105 ∷ []) datagram_returned keys_kept

-- A sender at frame 7, and a receiver that has frame 9 and none of those before.
abbrev late_sender : Session (List Sent)
late_sender = session_of (record client_info { tx_seq = 7 }) []

abbrev early_receiver : Session Unit
early_receiver = session_of (record server_info { rx_seq = 9; rx_window_bitmap = 1 }) tt

late_shares : SharesKey late_sender.info early_receiver.info
late_shares = record { key = refl; session = refl; suite = refl; key_size = refl; id_size = refl }

not_yet_seen : is_replay 7 early_receiver.info ≡ false
unfolding is_replay
not_yet_seen = refl

recv-send_datagram_example :
    Datagram toy (null_transport false) refl toy_laws (65 ∷ []) 9 late_sender early_receiver
recv-send_datagram_example =
    recv-send_datagram toy (null_transport false) refl toy_laws (65 ∷ []) 9 late_sender
      early_receiver late_shares (omega arith) (omega arith) not_yet_seen
