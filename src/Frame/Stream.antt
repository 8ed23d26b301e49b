-- ===== src/Frame/Stream.antt =====
-- Reading frames off a TCP stream, whatever pieces the bytes come in.
use usmp.Prelude.{
  suc, ◌-◌, length-take, Bool-cases, inl, inr, lt_of_ltb, le_of_ltb, ℕ, ◌+◌, ◌^◌, ◌≤◌, ◌<◌, ◌≡◌,
  refl, Bool, false, none, some, [], ◌∷◌, ◌++◌, Bytes, length, take, arith, ltb, ltb_of_lt,
  ltb_of_le, length-append, take-append, drop-append,
}
use mathlib.Core.List.{append-nil}
use usmp.Errors.{ok}
use usmp.Types.{PacketType, usmp_max_payload, usmp_header_size}
use usmp.Struct.Laws.{u16_digits}
use usmp.Frame.{stream_readexactly, read_frame, read_rest, read_payload, decode_frame}
use usmp.Frame.Wire.{header_bytes, sum_bytes, frame_crc, frame_bytes}
use usmp.Frame.RoundTrip.{sent_frame, decode-frame_bytes}

pub readexactly-available :
    (n : ℕ) (first rest : Bytes) (eof : Bool)
    → length first ≡ n
    → stream_readexactly n (record { buffer = first ++ rest; eof = eof })
      ≡ some (ok first, record { buffer = rest; eof = eof })
unfolding stream_readexactly
readexactly-available n first rest eof h = rw (
  length-append first rest,
  ltb_of_le (length first + length rest) n (omega arith),
  take-append first rest n h,
  drop-append first rest n h,
)

-- `readexactly(length) if length > 0 else b""` reads the payload either way.
payload-available :
    (payload rest : Bytes) (eof : Bool)
    → read_payload stream_readexactly
        (length payload)
        (record { buffer = payload ++ rest; eof = eof })
      ≡ some (ok payload, record { buffer = rest; eof = eof })
unfolding read_payload
payload-available [] rest eof = refl
payload-available (x ∷ xs) rest eof =
    rw (ltb_of_lt 0 (length (x ∷ xs)) (omega arith))
      (readexactly-available (length (x ∷ xs)) (x ∷ xs) rest eof refl)

module _ (t : PacketType) (seq : ℕ) (payload rest : Bytes) (verify eof : Bool) (hs : seq < 2 ^ 32)
    (hl : length payload ≤ usmp_max_payload) where
  abbrev head : Bytes
  head = header_bytes t seq (length payload) ++ sum_bytes (frame_crc t seq payload)

  read_header :
      stream_readexactly usmp_header_size
        (record { buffer = frame_bytes t seq payload ++ rest; eof = eof })
      ≡ some (ok head, record { buffer = payload ++ rest; eof = eof })
  read_header = readexactly-available 12 head (payload ++ rest) eof refl

  read_body :
      read_rest stream_readexactly head verify (record { buffer = payload ++ rest; eof = eof })
      ≡ some (decode_frame (frame_bytes t seq payload) verify, record { buffer = rest; eof = eof })
  unfolding read_rest
  read_body = rw (
    u16_digits (length payload),
    ltb_of_le usmp_max_payload (length payload) hl,
    payload-available payload rest eof,
  )

  decoded : decode_frame (frame_bytes t seq payload) verify ≡ ok (sent_frame t seq payload)
  decoded = rw append-nil at (decode-frame_bytes t seq payload hs hl [] verify)

-- `read_frame` takes a frame with a payload of at most 480 bytes and a 32-bit sequence number off
-- the front of a TCP stream and consumes exactly its bytes.
pub read-frame_bytes :
    (t : PacketType) (seq : ℕ) (payload rest : Bytes) (verify eof : Bool)
    → seq < 2 ^ 32
    → length payload ≤ usmp_max_payload
    → read_frame stream_readexactly verify
        (record { buffer = frame_bytes t seq payload ++ rest; eof = eof })
      ≡ some (ok (sent_frame t seq payload), record { buffer = rest; eof = eof })
unfolding read_frame
read-frame_bytes t seq payload rest verify eof hs hl = rw (
  read_header t seq payload rest verify eof hs hl,
  read_frame,
  read_body t seq payload rest verify eof hs hl,
  decoded t seq payload rest verify eof hs hl,
)

module _ (t : PacketType) (seq : ℕ) (payload : Bytes) (verify : Bool)
    (hl : length payload ≤ usmp_max_payload) where
  waits_for_header :
      (n : ℕ)
      → n < usmp_header_size
      → read_frame stream_readexactly verify
          (record { buffer = take n (frame_bytes t seq payload); eof = false })
        ≡ none
  unfolding read_frame stream_readexactly
  waits_for_header n h = rw (
    ltb_of_lt (length (take n (frame_bytes t seq payload))) usmp_header_size
        (omega (arith, length-take {0} n (frame_bytes t seq payload))),
    read_frame,
  )

  waits_for_payload :
      (n : ℕ)
      → n < length payload
      → read_rest stream_readexactly
          (header_bytes t seq (length payload) ++ sum_bytes (frame_crc t seq payload))
          verify
          (record { buffer = take n payload; eof = false })
        ≡ none
  unfolding read_rest stream_readexactly
  waits_for_payload n h = rw (
    u16_digits (length payload),
    ltb_of_le usmp_max_payload (length payload) hl,
    ltb_of_lt 0 (length payload) (omega arith),
    ltb_of_lt (length (take n payload)) (length payload) (omega (arith, length-take {0} n payload)),
  )

  waits_after_header :
      (n : ℕ)
      → n < length payload
      → read_frame stream_readexactly verify (record {
        buffer =
            take
              (suc (suc (suc (suc (suc (suc (suc (suc (suc (suc (suc (suc n))))))))))))
              (frame_bytes t seq payload);
        eof = false;
      })
        ≡ none
  unfolding read_frame
  waits_after_header n h = rw (
    readexactly-available 12
        (header_bytes t seq (length payload) ++ sum_bytes (frame_crc t seq payload))
        (take n payload) false refl,
    read_frame,
    waits_for_payload n h,
  )

-- While a byte of a frame with a payload of at most 480 bytes is missing on an open stream,
-- `read_frame` waits: it neither returns nor raises.
pub read_frame_waits :
    (t : PacketType) (seq : ℕ) (payload : Bytes) (verify : Bool) (n : ℕ)
    → length payload ≤ usmp_max_payload
    → n < length (frame_bytes t seq payload)
    → read_frame stream_readexactly verify
        (record { buffer = take n (frame_bytes t seq payload); eof = false })
      ≡ none
read_frame_waits t seq payload verify n hl h = elim (Bool-cases (ltb n usmp_header_size)) [
  | inl short ↦ waits_for_header t seq payload verify hl n (lt_of_ltb _ _ short)
  | inr long ↦
      let twelve : n
          ≡ suc (suc (suc (suc (suc (suc (suc (suc (suc (suc (suc (suc (n - 12)))))))))))) =
        omega (arith, le_of_ltb n usmp_header_size long) in
      rw twelve (
        waits_after_header t seq payload verify hl (n - 12)
          (omega (arith, le_of_ltb n usmp_header_size long)))
]
