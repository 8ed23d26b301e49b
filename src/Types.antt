-- ===== src/Types.antt =====
-- sdk/python/src/usmp/types.py: packet types, cipher suites, constants, frames and session data.
pub mod Laws
pub mod Texts
use usmp.Prelude.{Bool, ℕ, ◌-◌, ◌≡◌, refl, not, Bytes, length, arith, ◌==◌, if◌then◌else◌}
use usmp.Errors.{value_error, Result, ok, err, ◌>>◌, raise_if}

pub data PacketType : Type 0 where
  hello challenge hello_ack session_ok data_packet ping pong bye : PacketType
  data_frag hello_retry rekey error : PacketType

-- `int(type_)`.
abbrev pub type_int : PacketType → ℕ
type_int hello = 0x01
type_int challenge = 0x02
type_int hello_ack = 0x03
type_int session_ok = 0x04
type_int data_packet = 0x05
type_int ping = 0x06
type_int pong = 0x07
type_int bye = 0x08
type_int data_frag = 0x09
type_int hello_retry = 0x0a
type_int rekey = 0x0b
type_int error = 0xff

-- `a == b` on packet types, which compare as integers.
abbrev pub same_type : PacketType → PacketType → Bool
same_type a b = type_int a == type_int b

-- `PacketType(n)`, which raises `ValueError` for a number that no member has.
unfoldable pub packet_type : ℕ → Result PacketType
packet_type n =
    if n == 0x01
    then ok hello
    else if n == 0x02
    then ok challenge
    else if n == 0x03
    then ok hello_ack
    else if n == 0x04
    then ok session_ok
    else if n == 0x05
    then ok data_packet
    else if n == 0x06
    then ok ping
    else if n == 0x07
    then ok pong
    else if n == 0x08
    then ok bye
    else if n == 0x09
    then ok data_frag
    else if n == 0x0a
    then ok hello_retry
    else if n == 0x0b
    then ok rekey
    else if n == 0xff
    then ok error
    else err value_error

abbrev pub usmp_magic : ℕ
usmp_magic = 0xabcd

abbrev pub usmp_version : ℕ
usmp_version = 0x02

abbrev pub usmp_header_size : ℕ
usmp_header_size = 12

abbrev pub usmp_max_payload : ℕ
usmp_max_payload = 480

abbrev pub usmp_max_frames : ℕ
usmp_max_frames = 4

abbrev pub usmp_tag_len : ℕ
usmp_tag_len = 16

abbrev pub usmp_nonce_len : ℕ
usmp_nonce_len = 32

abbrev pub usmp_device_id_len : ℕ
usmp_device_id_len = 6

abbrev pub usmp_pub_key_len : ℕ
usmp_pub_key_len = 32

abbrev pub usmp_hmac_len : ℕ
usmp_hmac_len = 32

abbrev pub usmp_session_id_len : ℕ
usmp_session_id_len = 16

abbrev pub usmp_session_key_len : ℕ
usmp_session_key_len = 32

abbrev pub usmp_gcm_nonce_len : ℕ
usmp_gcm_nonce_len = 12

abbrev pub usmp_max_data_len : ℕ
usmp_max_data_len = usmp_max_payload - usmp_tag_len - usmp_gcm_nonce_len

-- `USMPFrame`.
pub record Frame : Type 0 where
  pub magic : ℕ
  pub version : ℕ
  pub type : PacketType
  pub seq : ℕ
  pub length : ℕ
  pub crc : ℕ
  pub payload : Bytes

pub data CipherSuite : Type 0 where
  aes256_gcm chacha20_poly1305 : CipherSuite

pub record SessionInfo : Type 0 where
  pub device_id : Bytes
  pub session_id : Bytes
  pub tx_key : Bytes
  pub rx_key : Bytes
  pub tx_seq : ℕ
  pub rx_seq : ℕ
  pub rx_window_bitmap : ℕ
  pub cipher_suite : CipherSuite

-- `SessionInfo(device_id, session_id, tx_key, rx_key)`, with the checks of `__post_init__`.
unfoldable pub session_info : Bytes → Bytes → Bytes → Bytes → Result SessionInfo
session_info device_id session_id tx_key rx_key = do
  raise_if (not (length device_id == usmp_device_id_len)) value_error
  raise_if (not (length session_id == usmp_session_id_len)) value_error
  raise_if (not (length tx_key == usmp_session_key_len)) value_error
  raise_if (not (length rx_key == usmp_session_key_len)) value_error
  ok (record {
    device_id = device_id;
    session_id = session_id;
    tx_key = tx_key;
    rx_key = rx_key;
    tx_seq = 0;
    rx_seq = 0;
    rx_window_bitmap = 0;
    cipher_suite = aes256_gcm;
  })
