-- ===== src/Handshake/Limiter/Key.antt =====
-- The key of a peer in the table of failures: what `server_handshake` of
-- sdk/python/src/usmp/_handshake.py makes of `get_extra_info("peername")`.
use usmp.Prelude.{ℕ, ◌^◌, ◌<◌, ◌≡◌, [], ◌∷◌, ◌++◌, Bytes}
use usmp.Prelude.Texts.{codes}
use usmp.Udp.Listener.Decimal.{decimal, decimal-eq}

-- The name of a peer: nothing, a tuple with its host in front, or another value as its text. A value that
-- is not a tuple is false when its text is empty.
pub data PeerName : Type 0 where
  no_name : PeerName
  address : Bytes → ℕ → PeerName
  named : Bytes → PeerName

-- `limiter_key`, where `id` is that of the writer below the transport.
unfoldable pub limiter_key : ℕ → PeerName → Bytes
limiter_key id (address host port) = host
limiter_key id (named (c ∷ text)) = c ∷ text
limiter_key id (named []) = codes "conn_" ++ decimal id
limiter_key id no_name = codes "conn_" ++ decimal id

-- Connections of peers without a name have a key each, so one does not lock another out.
pub limiter_key_lem :
    (a b : ℕ) → a < 10 ^ 20 → b < 10 ^ 20 → limiter_key a no_name ≡ limiter_key b no_name → a ≡ b
unfolding limiter_key
limiter_key_lem a b ha hb h = decimal-eq a b ha hb cc
