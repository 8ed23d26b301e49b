-- ===== src/Types/Laws.antt =====
-- Packet type numbers.
use usmp.Prelude.{ℕ, ◌<◌, ◌≡◌, refl, arith}
use usmp.Errors.{ok}
use usmp.Types.{PacketType, hello, type_int, packet_type}

pub packet_type-type_int : (t : PacketType) → packet_type (type_int t) ≡ ok t
unfolding packet_type
packet_type-type_int hello = refl
packet_type-type_int t = refl

pub type_int-packet_type : (n : ℕ) {t : PacketType} → packet_type n ≡ ok t → type_int t ≡ n
unfolding packet_type
type_int-packet_type n h = ground arith

pub type_int-lt : (t : PacketType) → type_int t < 256
type_int-lt hello = omega arith
type_int-lt t = omega arith
