-- ===== src/Session/Nonce.antt =====
-- The sequence numbers that a session uses under each pair of keys, over any calls.
pub mod Record
pub mod Steps
use usmp.Prelude.{ℕ, ◌≡◌, true, Option, none, some, List, [], ◌∷◌, Bytes, arith}
use usmp.Errors.{Result}
use usmp.Crypto.Backend.{Primitives}
use usmp.Transport.{Transport}
use usmp.Session.{Session, send, send_ping, rekey, bye}
use usmp.Session.Receive.{Arrival, recv}
use usmp.Session.Window.Tracks.{contains}
use Record.{Recorded, recording, IsDistinct, AreDistinct, IsNonceSafe}
use Steps.{state_after, send-safe, ping-safe, rekey-safe, bye-safe, recv-safe}

-- The calls that a program makes of a session, with what happens meanwhile.
pub data Call : Type 0 where
  send_call rekey_call : Bytes → Call
  ping_call bye_call : Call
  recv_call : Option ℕ → ℕ → List Arrival → Call

module _ (P : Primitives) {T : Type 0} (tr : Transport T) where
  -- A call on a session over a recorded transport; an exception leaves the state that it had made.
  unfoldable pub run_call : Call → Session (Recorded T) → Session (Recorded T)
  run_call (send_call bytes) s = state_after P tr (send P (recording tr) bytes s) s
  run_call (rekey_call salt) s = (rekey P (recording tr) salt s).1
  run_call ping_call s = (send_ping P (recording tr) s).1
  run_call bye_call s = (bye P (recording tr) s).1
  run_call (recv_call timeout start xs) s = (recv P (recording tr) timeout start xs s).1

  unfoldable pub run_calls : List Call → Session (Recorded T) → Session (Recorded T)
  run_calls [] s = s
  run_calls (c ∷ cs) s = run_calls cs (run_call c s)

  run_call-safe : (c : Call) (s : Session (Recorded T)) → IsNonceSafe s → IsNonceSafe (run_call c s)
  unfolding run_call
  run_call-safe (send_call bytes) s v = send-safe P tr bytes s v
  run_call-safe (rekey_call salt) s v = rekey-safe P tr salt s v
  run_call-safe ping_call s v = ping-safe P tr s v
  run_call-safe bye_call s v = bye-safe P tr s v
  run_call-safe (recv_call timeout start xs) s v = recv-safe P tr timeout start xs s v

  run_calls-safe :
      (cs : List Call) (s : Session (Recorded T)) → IsNonceSafe s → IsNonceSafe (run_calls cs s)
  unfolding run_calls
  run_calls-safe [] s v = v
  run_calls-safe (c ∷ cs) s v = run_calls-safe cs (run_call c s) (run_call-safe c s v)

  -- From a new session, after any calls of `send`, `ping`, `rekey`, `bye` and `recv`, with any
  -- arrivals and any transport, the sequence numbers handed to the transport under the present keys
  -- are distinct, and so are those under each earlier pair of keys.
  pub nonces_used_once :
      (cs : List Call) (s : Session (Recorded T))
      → s.info.tx_seq ≡ 0
      → s.transport.current ≡ []
      → s.transport.past ≡ []
      → IsDistinct (run_calls cs s).transport.current × AreDistinct (run_calls cs s).transport.past
  nonces_used_once cs s hs hc hp =
      let start : IsNonceSafe s = record {
        bounded = omega arith;
        distinct = rw hc tt;
        earlier = rw hp tt;
        spent = λ x h. let h' : contains x [] ≡ true = rw hc at h in cc;
      } in
      let v : IsNonceSafe (run_calls cs s) = run_calls-safe cs s start in (v.distinct, v.earlier)
