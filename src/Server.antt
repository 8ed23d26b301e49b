-- ===== src/Server.antt =====
-- sdk/python/src/usmp/_server.py: the checks of the constructor, the TCP connection counts, how a
-- connection's failure is handled, and the watchdog.
pub mod Counts
pub mod Admission
pub mod Cookie
pub mod Connections
pub mod Udp
pub mod Watchdog
use usmp.Prelude.{
  ℕ, zero, suc, ◌+◌, ◌-◌, ◌*◌, ◌/◌, Bool, true, false, not, ◌&&◌, ◌||◌, Option, none, some, List,
  [], ◌∷◌, Bytes, length, ltb, leb, ◌==◌, if◌then◌else◌,
}
use usmp.Prelude.Dict.{bytes_key, is_in, get, put, delete}
use usmp.Errors.{Error, Result, ok, err, raise_if, ◌>>◌, value_error, is_handshake_error}
use usmp.Handshake.{Psk, psk_bytes, psk_table, psk_function}
use usmp.Handshake.Limiter.{Table, record_failed_handshake}

pub record Limits : Type 0 where
  pub max_connections : ℕ
  pub max_connections_per_ip : ℕ

-- The `psk` argument of the constructor.
pub data ServerPsk : Type 0 where
  key_bytes : Bytes → ServerPsk
  key_table : List (Bytes × Bytes) → ServerPsk
  key_function : (Bytes → Result (Option Bytes)) → ServerPsk

-- `not psk`.
abbrev pub is_empty_psk : ServerPsk → Bool
is_empty_psk (key_bytes psk) = length psk == 0
is_empty_psk (key_table table) = length table == 0
is_empty_psk (key_function f) = false

-- `for dev_id, val in psk.items()`.
unfoldable pub check_table : List (Bytes × Bytes) → Result (Unit {0})
check_table [] = ok tt
check_table ((dev_id, val) ∷ rest) = raise_if (ltb (length val) 16) value_error >> check_table rest

abbrev pub check_lengths : ServerPsk → Result (Unit {0})
check_lengths (key_bytes psk) = raise_if (ltb (length psk) 16) value_error
check_lengths (key_table table) = check_table table
check_lengths (key_function f) = ok tt

unfoldable pub check_psk : ServerPsk → Result (Unit {0})
check_psk psk = raise_if (is_empty_psk psk) value_error >> check_lengths psk

-- `self._psk`, as `server_handshake` takes it.
abbrev pub psk_of : ServerPsk → Psk
psk_of (key_bytes psk) = psk_bytes psk
psk_of (key_table table) = psk_table (λ device_id. get bytes_key device_id table)
psk_of (key_function f) = psk_function f

-- A dictionary from addresses to numbers.
abbrev pub Counts : Type 0
Counts = List (Bytes × ℕ)

abbrev or_zero : Option ℕ → ℕ
or_zero none = 0
or_zero (some n) = n

-- `counts.get(ip, 0)`.
abbrev pub value_of : Bytes → Counts → ℕ
value_of ip counts = or_zero (get bytes_key ip counts)

-- `sum(counts.values())`.
abbrev pub total : Counts → ℕ
total [] = 0
total ((ip, n) ∷ rest) = n + total rest

-- The two limits on a new TCP connection; `none` is a refusal.
unfoldable pub tcp_admit : Limits → Bytes → Counts → Option Counts
tcp_admit limits ip counts =
    if leb limits.max_connections (total counts)
    then none
    else if leb limits.max_connections_per_ip (value_of ip counts)
    then none
    else some (put bytes_key ip (value_of ip counts + 1) counts)

-- `counts[ip] -= 1`, and the entry goes when nothing is left.
unfoldable pub release : Bytes → Counts → Counts
release ip counts =
    let lowered = put bytes_key ip (value_of ip counts - 1) counts in
    if not (is_in bytes_key ip counts)
    then counts
    else if leb (value_of ip counts - 1) 0
    then delete bytes_key ip lowered
    else lowered

-- The `except` clauses of `_on_transport_connect`: only a timeout touches the table of failures. It may
-- be that of the handshake or one that the session's handler lets through.
abbrev pub is_timeout : Error → Bool
is_timeout Error.usmp_timeout_error = true
is_timeout Error.builtin_timeout_error = true
is_timeout e = false

unfoldable pub connection_failed : Bytes → ℕ → Error → Table → Result (Unit {0}) × Table
connection_failed limiter_key now e table =
    if is_handshake_error e
    then (ok tt, table)
    else if is_timeout e
    then record_failed_handshake limiter_key now table
    else (ok tt, table)

-- The test of a turn of `_watchdog`.
unfoldable pub is_idle : ℕ → ℕ → ℕ → Bool
is_idle session_timeout last_recv now = ltb session_timeout (now - last_recv)

-- `_on_timeout`: none, or a callback that begins at a time and ends, by an exception or not, at a later
-- one, if it ends.
abbrev pub OnTimeout : Type 0
OnTimeout = Option (ℕ → Option ℕ)

-- What a watchdog has done: it still watches, it waits for a callback that does not end, or it has
-- closed the transport at a time.
pub data Watch : Type 0 where
  watches waits : Watch
  closes : ℕ → Watch

abbrev pub ended : Option ℕ → Watch
ended none = waits
ended (some now) = closes now

-- From the timeout on: the callback if there is one, and then the close.
abbrev pub expire : OnTimeout → ℕ → Watch
expire none now = closes now
expire (some callback) now = ended (callback now)

-- A turn: how long after `session_timeout / 2` the sleep ends, and the time of the session's last frame
-- then.
pub record Wake : Type 0 where
  pub late : ℕ
  pub last_recv : ℕ

-- The turns of `_watchdog` from the time `start` on.
unfoldable pub watchdog : OnTimeout → ℕ → ℕ → List Wake → Watch
watchdog on_timeout session_timeout start [] = watches
watchdog on_timeout session_timeout start (w ∷ rest) =
    let now = start + session_timeout / 2 + w.late in
    let later = watchdog on_timeout session_timeout now rest in
    if is_idle session_timeout w.last_recv now then expire on_timeout now else later
