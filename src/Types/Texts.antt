-- ===== src/Types/Texts.antt =====
-- The texts that sdk/python/src/usmp/types.py makes: `USMPFrame.type_name` and `__str__`, and the
-- identifiers of `SessionInfo` in hexadecimal.
use usmp.Prelude.{
  ℕ, zero, suc, ◌+◌, ◌-◌, ◌/◌, ◌%◌, ◌<◌, ◌≡◌, refl, ap, [], ◌∷◌, ◌++◌, Bytes, AreBytes, length,
  replicate, ltb, if◌then◌else◌, arith,
}
use usmp.Prelude.Texts.{codes}
use usmp.Errors.{Result, ok, err}
use usmp.Types.{
  PacketType, packet_type, type_int, hello, challenge, hello_ack, session_ok, data_packet,
  data_frag, ping, pong, rekey, error, bye, hello_retry, Frame, SessionInfo,
}
use usmp.Types.Laws.{packet_type-type_int}
use usmp.Udp.Listener.Decimal.{decimal}

-- `PacketType(n).name`.
abbrev name_of : PacketType → Bytes
name_of hello = codes "HELLO"
name_of challenge = codes "CHALLENGE"
name_of hello_ack = codes "HELLO_ACK"
name_of session_ok = codes "SESSION_OK"
name_of data_packet = codes "DATA"
name_of ping = codes "PING"
name_of pong = codes "PONG"
name_of bye = codes "BYE"
name_of data_frag = codes "DATA_FRAG"
name_of hello_retry = codes "HELLO_RETRY"
name_of rekey = codes "REKEY"
name_of error = codes "ERROR"

abbrev upper_digit : ℕ → ℕ
upper_digit n = if ltb n 10 then 48 + n else 55 + n

-- The hexadecimal digits of `n` before those that are there, `fuel` of them at most.
unfoldable upper_before : ℕ → ℕ → Bytes → Bytes
upper_before zero n rest = rest
upper_before (suc fuel) n rest =
    let digits = upper_before fuel (n / 16) (upper_digit (n % 16) ∷ rest) in
    if ltb n 16 then upper_digit n ∷ rest else digits

-- `f"{n:02X}"` and `f"{n:04X}"`, for a number under 16 ^ 16.
unfoldable upper_hex : ℕ → ℕ → Bytes
upper_hex width n =
    let digits = upper_before 16 n [] in replicate (width - length digits) 48 ++ digits

-- The text of a number as `type_name` gives it: the member's name, or the number when there is none.
unfoldable name_or_number : ℕ → Result PacketType → Bytes
name_or_number n (ok t) = name_of t
name_or_number n (err e) = codes "UNKNOWN(0x" ++ upper_hex 2 n ++ codes ")"

-- `USMPFrame.type_name`.
unfoldable type_name : Frame → Bytes
type_name frame = name_or_number (type_int frame.type) (packet_type (type_int frame.type))

-- A digit of `bytes.hex()`.
unfoldable hex_digit : ℕ → ℕ
hex_digit n = if ltb n 10 then 48 + n else 87 + n

-- `bytes.hex()`.
unfoldable hex : Bytes → Bytes
hex [] = []
hex (b ∷ bs) = hex_digit (b / 16) ∷ hex_digit (b % 16) ∷ hex bs

-- `bytes.hex(":")` from the second byte on.
unfoldable colon_hex : Bytes → Bytes
colon_hex [] = []
colon_hex (b ∷ bs) = 0x3a ∷ hex_digit (b / 16) ∷ hex_digit (b % 16) ∷ colon_hex bs

-- `bytes.hex(":")`.
unfoldable hex_with_colons : Bytes → Bytes
hex_with_colons [] = []
hex_with_colons (b ∷ bs) = hex_digit (b / 16) ∷ hex_digit (b % 16) ∷ colon_hex bs

-- `USMPFrame.__str__`.
unfoldable frame_text : Frame → Bytes
frame_text frame =
    codes "USMPFrame(type="
    ++ type_name frame
    ++ codes ", seq="
    ++ decimal frame.seq
    ++ codes ", version="
    ++ decimal frame.version
    ++ codes ", length="
    ++ decimal frame.length
    ++ codes ", crc=0x"
    ++ upper_hex 4 frame.crc
    ++ codes ", payload="
    ++ hex frame.payload
    ++ codes ")"

unfoldable device_id_str : SessionInfo → Bytes
device_id_str info = hex_with_colons info.device_id

unfoldable session_id_str : SessionInfo → Bytes
session_id_str info = hex info.session_id

-- Every frame has a type with a name: the text `UNKNOWN` is for numbers that are no member.
type_name_lem : (frame : Frame) → type_name frame ≡ name_of frame.type
unfolding type_name name_or_number
type_name_lem frame = ap (name_or_number (type_int frame.type)) (packet_type-type_int frame.type)

hex_digit-eq : (a b : ℕ) → a < 16 → b < 16 → hex_digit a ≡ hex_digit b → a ≡ b
unfolding hex_digit
hex_digit-eq a b ha hb h = ground arith

-- Two digits determine a byte.
byte-eq :
    (a b : ℕ)
    → a < 256
    → b < 256
    → hex_digit (a / 16) ≡ hex_digit (b / 16)
    → hex_digit (a % 16) ≡ hex_digit (b % 16)
    → a ≡ b
byte-eq a b ha hb high low =
    let tens : a / 16 ≡ b / 16 = hex_digit-eq (a / 16) (b / 16) (omega arith) (omega arith) high in
    let ones : a % 16 ≡ b % 16 = hex_digit-eq (a % 16) (b % 16) (omega arith) (omega arith) low in
    omega arith

hex-eq : (xs ys : Bytes) → AreBytes xs → AreBytes ys → hex xs ≡ hex ys → xs ≡ ys
unfolding hex
hex-eq [] [] hx hy h = refl
hex-eq [] (y ∷ ys) hx hy h = cc
hex-eq (x ∷ xs) [] hx hy h = cc
hex-eq (x ∷ xs) (y ∷ ys) hx hy h =
    let high : hex_digit (x / 16) ≡ hex_digit (y / 16) = cc in
    let low : hex_digit (x % 16) ≡ hex_digit (y % 16) = cc in
    let same : x ≡ y = byte-eq x y hx.0 hy.0 high low in
    let after : hex xs ≡ hex ys = cc in let rest : xs ≡ ys = hex-eq xs ys hx.1 hy.1 after in cc

colon_hex-eq : (xs ys : Bytes) → AreBytes xs → AreBytes ys → colon_hex xs ≡ colon_hex ys → xs ≡ ys
unfolding colon_hex
colon_hex-eq [] [] hx hy h = refl
colon_hex-eq [] (y ∷ ys) hx hy h = cc
colon_hex-eq (x ∷ xs) [] hx hy h = cc
colon_hex-eq (x ∷ xs) (y ∷ ys) hx hy h =
    let high : hex_digit (x / 16) ≡ hex_digit (y / 16) = cc in
    let low : hex_digit (x % 16) ≡ hex_digit (y % 16) = cc in
    let same : x ≡ y = byte-eq x y hx.0 hy.0 high low in
    let after : colon_hex xs ≡ colon_hex ys = cc in
    let rest : xs ≡ ys = colon_hex-eq xs ys hx.1 hy.1 after in cc

hex_with_colons-eq :
    (xs ys : Bytes) → AreBytes xs → AreBytes ys → hex_with_colons xs ≡ hex_with_colons ys → xs ≡ ys
unfolding hex_with_colons
hex_with_colons-eq [] [] hx hy h = refl
hex_with_colons-eq [] (y ∷ ys) hx hy h = cc
hex_with_colons-eq (x ∷ xs) [] hx hy h = cc
hex_with_colons-eq (x ∷ xs) (y ∷ ys) hx hy h =
    let high : hex_digit (x / 16) ≡ hex_digit (y / 16) = cc in
    let low : hex_digit (x % 16) ≡ hex_digit (y % 16) = cc in
    let same : x ≡ y = byte-eq x y hx.0 hy.0 high low in
    let after : colon_hex xs ≡ colon_hex ys = cc in
    let rest : xs ≡ ys = colon_hex-eq xs ys hx.1 hy.1 after in cc

-- Sessions whose texts agree have the same device and the same identifier.
identifiers_lem :
    (a b : SessionInfo)
    → AreBytes a.device_id
    → AreBytes b.device_id
    → AreBytes a.session_id
    → AreBytes b.session_id
    → device_id_str a ≡ device_id_str b
    → session_id_str a ≡ session_id_str b
    → (a.device_id ≡ b.device_id) × (a.session_id ≡ b.session_id)
unfolding device_id_str session_id_str
identifiers_lem a b device_a device_b session_a session_b devices sessions = (
  hex_with_colons-eq a.device_id b.device_id device_a device_b devices,
  hex-eq a.session_id b.session_id session_a session_b sessions,
)
