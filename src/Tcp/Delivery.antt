-- ===== src/Tcp/Delivery.antt =====
-- A message from one end of a TCP connection to the other, as bytes: `send` over the writer of one
-- `TCPTransport` and `recv` over the reader of another (sdk/python/src/usmp/transport/tcp.py).
use mathlib.Core.List.{append_assoc, append-nil}
use usmp.Prelude.{
  ℕ, zero, suc, ◌+◌, ◌*◌, ◌≤◌, ◌<◌, ◌≡◌, ◌∙◌, refl, sym, ap, true, Bool, Option, none, some, List,
  [], ◌∷◌, ◌++◌, Bytes, AreBytes, length, arith,
}
use usmp.Errors.{Result, ok}
use usmp.Types.{Frame, usmp_max_data_len, usmp_max_frames}
use usmp.Frame.{StreamReader, stream_readexactly, read_frame}
use usmp.Frame.Wire.{frame_bytes}
use usmp.Frame.Stream.{read-frame_bytes}
use usmp.Crypto.Backend.{Primitives, PrimitiveLaws}
use usmp.Session.{Session, max_seq, send}
use usmp.Session.Receive.{Arrival, recv}
use usmp.Session.Delivery.{Message, recv-send}
use usmp.Session.Delivery.Chunks.{arrivals}
use usmp.Session.Delivery.Frame.{Sent, Matched}
use usmp.Tcp.{StreamWriter, tcp_transport}
use usmp.Tcp.Frames.{KeepsBytes, AreInRange, all_bytes}
use usmp.Tcp.Session.{SameEnd, over, send-Same}

module _ (now : ℕ) where
  -- A return of `TCPTransport.read_frame`, and those after it; a read that waits is the last.
  abbrev then_arrive :
      Option (Result Frame × StreamReader) → (StreamReader → List Arrival) → List Arrival
  then_arrive none next = []
  then_arrive (some (f, r)) next = record { frame = f; read_at = now; handled_at = now } ∷ next r

  -- What the first `count` calls of `read_frame` bring from the stream.
  unfoldable pub stream_arrivals : ℕ → StreamReader → List Arrival
  stream_arrivals zero r = []
  stream_arrivals (suc count) r =
      then_arrive (read_frame stream_readexactly true r) (stream_arrivals count)

  stream_arrivals-eq :
      (frames : List Sent) (more : ℕ) (rest : Bytes) (eof : Bool)
      → AreInRange frames
      → stream_arrivals
          (length frames + more)
          (record { buffer = all_bytes frames ++ rest; eof = eof })
        ≡ arrivals now frames ++ stream_arrivals more (record { buffer = rest; eof = eof })
  unfolding stream_arrivals
  stream_arrivals-eq [] more rest eof fit = let e : 0 + more ≡ more = omega arith in rw e refl
  stream_arrivals-eq (f ∷ frames) more rest eof (hl, hs, hb, later) =
      let e : length (f ∷ frames) + more ≡ suc (length frames + more) = omega arith in
      rw
        (
          e,
          append_assoc (frame_bytes f.type f.seq f.payload) (all_bytes frames) rest,
          read-frame_bytes f.type f.seq f.payload (all_bytes frames ++ rest) true eof hs hl,
          stream_arrivals-eq frames more rest eof later,
        )
        refl

-- The session before its transport has written anything.
abbrev fresh : {W : Type 0} → Session W → Session (List Sent)
fresh s = record {
  info = s.info;
  recv_timeout = s.recv_timeout;
  last_recv = s.last_recv;
  closed = s.closed;
  transport = [];
}

module _ (P : Primitives) (laws : PrimitiveLaws P) {W R : Type 0} (writer : StreamWriter W)
    (peer : StreamWriter R) (written : W → Bytes) (keeps : KeepsBytes writer written) (now : ℕ)
    (bytes : Bytes) (start : ℕ) (s : Session W) (r : Session R) where
  -- What a message becomes on the connection.
  pub record TcpMessage : Type 0 where
    pub sent : Bytes
    pub count : ℕ
    pub sender : Session W
    pub receiver : Session R
    pub sends : send P (tcp_transport writer) bytes s ≡ some (ok tt, sender)
    pub wrote : written sender.transport ≡ written s.transport ++ sent
    pub receives :
        (timeout : Option ℕ) (more : ℕ) (rest : Bytes) (eof : Bool)
        → recv P
            (tcp_transport peer)
            timeout
            start
            (stream_arrivals now (count + more) (record { buffer = sent ++ rest; eof = eof }))
            r
          ≡ (some (ok bytes), receiver)
    pub matched : Matched true sender.info receiver.info

  TcpMessage-of :
      (m : Message P laws (tcp_transport peer) true refl now bytes start (fresh s) r)
      → SameEnd P laws writer written keeps
          (written s.transport)
          (some (ok tt, m.sender))
          (send P (tcp_transport writer) bytes s)
      → TcpMessage
  TcpMessage-of m (t, e, f) =
      let all : m.frames ≡ m.sender.transport = sym m.wrote in
      record {
        sent = all_bytes m.frames;
        count = length m.frames;
        sender = over P laws writer written keeps (written s.transport) m.sender t;
        receiver = m.receiver;
        sends = e;
        wrote = f.wrote ∙ ap (λ l. written s.transport ++ all_bytes l) (sym all);
        receives = λ timeout more rest eof.
            rw (stream_arrivals-eq now m.frames more rest eof (rw all f.range))
              (m.receives timeout (stream_arrivals now more (record { buffer = rest; eof = eof })));
        matched = m.matched;
      }

  -- When the keys, session ids, cipher suites and next sequence numbers of two sessions over TCP
  -- match and have the right sizes, four sequence numbers are to spare, and the sender's writer
  -- keeps all that is written, then `send` of at most 1808 bytes succeeds, and `recv` of the frames
  -- that `read_frame` finds in the bytes that it wrote returns the message, whatever bytes follow
  -- them and however often `read_frame` is called; and the sessions match again.
  pub recv-send_tcp :
      Matched true s.info r.info
      → AreBytes s.info.session_id
      → AreBytes bytes
      → length bytes ≤ usmp_max_data_len * usmp_max_frames
      → s.info.tx_seq + usmp_max_frames < max_seq
      → TcpMessage
  recv-send_tcp matched id_bytes are_bytes fits room =
      let m : Message P laws (tcp_transport peer) true refl now bytes start (fresh s) r =
        recv-send P laws (tcp_transport peer) true refl now bytes start (fresh s) r matched fits
          room in
      TcpMessage-of m (
        rw (m.sends) at (
          send-Same P laws writer written keeps (written s.transport) bytes (fresh s) s.transport
            are_bytes
            (record {
              wrote = sym (append-nil (written s.transport));
              range = tt;
              sized = record { key = matched.key_size; id = matched.id_size; id_bytes = id_bytes };
              bound = omega arith;
            })))
