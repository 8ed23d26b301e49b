-- ===== src/Tcp/Frames.antt =====
-- Frames written to a TCP connection, and the frames read from it.
use mathlib.Core.List.{append_assoc, append-nil}
use usmp.Prelude.{
  ℕ, zero, suc, ◌^◌, ◌≤◌, ◌<◌, ◌≡◌, ◌∙◌, refl, sym, ap, Bool, Option, none, some, List, [], ◌∷◌,
  ◌++◌, Bytes, AreBytes, length,
}
use usmp.Errors.{Result, ok, err}
use usmp.Types.{Frame, usmp_max_payload}
use usmp.Frame.{StreamReader, stream_readexactly, read_frame}
use usmp.Frame.Wire.{frame_bytes, encode_frame-eq}
use usmp.Frame.RoundTrip.{sent_frame}
use usmp.Frame.Stream.{read-frame_bytes}
use usmp.Session.Delivery.Frame.{Sent}
use usmp.Tcp.{StreamWriter, write_data, write_frame}

-- The documented behaviour of a writer whose connection stays up: all bytes go out, in order.
pub record KeepsBytes {W : Type 0} (writer : StreamWriter W) (written : W → Bytes) : Type 0 where
  pub write :
      (data_bytes : Bytes) (w : W) → written (writer.write data_bytes w) ≡ written w ++ data_bytes
  pub drain : (w : W) → (writer.drain w).0 ≡ ok tt
  pub drained : (w : W) → written (writer.drain w).1 ≡ written w

-- The frames that fit.
abbrev pub AreInRange : List Sent → Type 0
AreInRange [] = Unit
AreInRange (f ∷ rest) =
    (length f.payload ≤ usmp_max_payload) × (f.seq < 2 ^ 32) × AreBytes f.payload × AreInRange rest

abbrev then_write :
    {W : Type 0} → Result (Unit {0}) × W → (W → Result (Unit {0}) × W) → Result (Unit {0}) × W
then_write (ok u, w) next = next w
then_write (err e, w) next = (err e, w)

-- One frame after the other, until one is not written.
unfoldable pub write_all : {W : Type 0} → StreamWriter W → List Sent → W → Result (Unit {0}) × W
write_all writer [] w = (ok tt, w)
write_all writer (f ∷ rest) w =
    then_write (write_frame writer f.type f.payload f.seq w) (write_all writer rest)

abbrev pub sent_frames : List Sent → List Frame
sent_frames [] = []
sent_frames (f ∷ rest) = sent_frame f.type f.seq f.payload ∷ sent_frames rest

abbrev pub all_bytes : List Sent → Bytes
all_bytes [] = []
all_bytes (f ∷ rest) = frame_bytes f.type f.seq f.payload ++ all_bytes rest

abbrev with_first : Frame → Option (List Frame × StreamReader) → Option (List Frame × StreamReader)
with_first f none = none
with_first f (some (fs, r)) = some (f ∷ fs, r)

abbrev read_more :
    Option (Result Frame × StreamReader)
    → (StreamReader → Option (List Frame × StreamReader))
    → Option (List Frame × StreamReader)
read_more none next = none
read_more (some (err e, r)) next = none
read_more (some (ok f, r)) next = with_first f (next r)

-- `n` frames read one after the other; `none` if a read raises or still waits.
unfoldable pub read_all : ℕ → Bool → StreamReader → Option (List Frame × StreamReader)
read_all zero verify_crc r = some ([], r)
read_all (suc n) verify_crc r =
    read_more (read_frame stream_readexactly verify_crc r) (read_all n verify_crc)

module _ {W : Type 0} (writer : StreamWriter W) (written : W → Bytes)
    (keeps : KeepsBytes writer written) where
  pub write_data-ok :
      (data_bytes : Bytes) (w : W)
      → (write_data writer (ok data_bytes) w).0 ≡ ok tt
        × (written (write_data writer (ok data_bytes) w).1 ≡ written w ++ data_bytes)
  write_data-ok data_bytes w = (
    keeps.drain (writer.write data_bytes w),
    keeps.drained (writer.write data_bytes w) ∙ keeps.write data_bytes w,
  )

  then_write-ok :
      (r : Result (Unit {0}) × W) (next : W → Result (Unit {0}) × W)
      → r.0 ≡ ok tt
      → then_write r next ≡ next r.1
  then_write-ok (ok u, w) next h = refl
  then_write-ok (err e, w) next h = cc

  write_all-ok :
      (frames : List Sent) (w : W)
      → AreInRange frames
      → ((write_all writer frames w).0 ≡ ok tt)
        × (written (write_all writer frames w).1 ≡ written w ++ all_bytes frames)
  unfolding write_all write_frame
  write_all-ok [] w fit = (refl, sym (append-nil (written w)))
  write_all-ok (f ∷ rest) w fit =
      let (hl, hs, hb, later) = fit in
      let encoded : Bytes = frame_bytes f.type f.seq f.payload in
      let (sent, kept) = write_data-ok encoded w in
      let w1 : W = (write_data writer (ok encoded) w).1 in
      let (rest_sent, rest_kept) = write_all-ok rest w1 later in
      let step : write_all writer (f ∷ rest) w ≡ write_all writer rest w1 =
        rw (encode_frame-eq f.type f.payload f.seq hl hs hb)
          (then_write-ok (write_data writer (ok encoded) w) (write_all writer rest) sent) in
      (
        ap (λ r. r.0) step ∙ rest_sent,
        ap (λ r. written r.1) step
            ∙ rest_kept
            ∙ ap (λ b. b ++ all_bytes rest) kept
            ∙ append_assoc (written w) encoded (all_bytes rest),
      )

pub read_all-bytes :
    (frames : List Sent) (rest : Bytes) (verify_crc eof : Bool)
    → AreInRange frames
    → read_all (length frames) verify_crc (record { buffer = all_bytes frames ++ rest; eof = eof })
      ≡ some (sent_frames frames, record { buffer = rest; eof = eof })
unfolding read_all
read_all-bytes [] rest verify_crc eof fit = refl
read_all-bytes (f ∷ frames) rest verify_crc eof fit =
    let (hl, hs, hb, later) = fit in
    rw
      (
        append_assoc (frame_bytes f.type f.seq f.payload) (all_bytes frames) rest,
        read-frame_bytes f.type f.seq f.payload (all_bytes frames ++ rest) verify_crc eof hs hl,
        read_all-bytes frames rest verify_crc eof later,
      )
      refl

-- Over a writer that keeps all that is written and has nothing written yet, any frames in range are
-- written without an exception, and `read_frame`, called as often on the bytes of the connection,
-- whatever follows them, returns just these frames in order and leaves what follows.
pub tcp_frames :
    {W : Type 0} (writer : StreamWriter W) (written : W → Bytes) (frames : List Sent) (w : W)
    (rest : Bytes) (verify_crc eof : Bool)
    → KeepsBytes writer written
    → AreInRange frames
    → written w ≡ []
    → ((write_all writer frames w).0 ≡ ok tt)
      × (read_all
            (length frames)
            verify_crc
            (record { buffer = written (write_all writer frames w).1 ++ rest; eof = eof })
          ≡ some (sent_frames frames, record { buffer = rest; eof = eof }))
tcp_frames writer written frames w rest verify_crc eof keeps fit empty =
    let (sent, kept) = write_all-ok writer written keeps frames w fit in
    let all : written (write_all writer frames w).1 ≡ all_bytes frames =
      kept ∙ ap (λ b. b ++ all_bytes frames) empty in
    (sent, rw all (read_all-bytes frames rest verify_crc eof fit))
