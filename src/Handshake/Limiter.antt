-- ===== src/Handshake/Limiter.antt =====
-- The table of failed handshakes of sdk/python/src/usmp/_handshake.py. A key is the text of an address,
-- times are whole nanoseconds, and 0 is no lockout.
pub mod Bound
pub mod Lockout
pub mod Key
use usmp.Prelude.{
  ℕ, ◌+◌, ◌-◌, ◌*◌, ◌^◌, min, Bool, true, false, not, ◌&&◌, ◌||◌, Option, none, some, List, [], ◌∷◌,
  ◌++◌, Bytes, bytes_eq, length, ltb, leb, if◌then◌else◌,
}
use usmp.Prelude.Dict.{bytes_key, is_present, get, put, delete}
use usmp.Errors.{Result, ok, err, overflow_error, handshake_error, raise_if}

-- `(fail_count, lockout_until, last_attempt_time)`.
pub record Failures : Type 0 where
  pub fails : ℕ
  pub lockout_until : ℕ
  pub last_attempt : ℕ

-- The dictionary, in the order of insertion.
abbrev pub Table : Type 0
Table = List (Bytes × Failures)

abbrev pub second : ℕ
second = 1_000_000_000

-- `min(keys, key=last_attempt_time)`: the first of the oldest ones.
unfoldable pub oldest : Bytes × Failures → Table → Bytes × Failures
oldest best [] = best
oldest (k, v) ((l, w) ∷ rest) =
    oldest (if ltb w.last_attempt v.last_attempt then (l, w) else (k, v)) rest

unfoldable pub delete_oldest : Table → Table
delete_oldest [] = []
delete_oldest (entry ∷ rest) = delete bytes_key (oldest entry rest).0 (entry ∷ rest)

-- The entries that the last lines of `record_failed_handshake` delete.
abbrev pub is_expired : ℕ → Failures → Bool
is_expired now v =
    ltb (600 * second) (now - v.last_attempt) || (ltb 0 v.lockout_until && ltb v.lockout_until now)

unfoldable pub prune : ℕ → Table → Table
prune now [] = []
prune now ((k, v) ∷ rest) =
    let kept = prune now rest in if is_expired now v then kept else (k, v) ∷ kept

abbrev pub fails_of : Option Failures → ℕ
fails_of none = 0
fails_of (some v) = v.fails

-- `now + min(60.0, 2.0 ** (fails - 5))`: a float power of 2 past `2.0 ** 1023` raises `OverflowError`.
unfoldable pub lockout_until : ℕ → ℕ → Result ℕ
lockout_until fails now =
    if ltb fails 5
    then ok 0
    else if ltb 1023 (fails - 5)
    then err overflow_error
    else ok (now + min 60 (2 ^ (fails - 5)) * second)

-- `if len(_failed_handshakes) >= 1000 and limiter_key not in _failed_handshakes`.
unfoldable pub make_room : Bytes → Table → Table
make_room key table =
    if leb 1000 (length table) && not (is_present (get bytes_key key table))
    then delete_oldest table
    else table

abbrev pub note_failure : Bytes → ℕ → ℕ → Result ℕ → Table → Result (Unit {0}) × Table
note_failure key fails now (err e) table = (err e, table)
note_failure key fails now (ok until) table = (
  ok tt,
  prune now (
      put bytes_key key (record { fails = fails; lockout_until = until; last_attempt = now })
        (make_room key table)),
)

unfoldable pub record_failed_handshake : Bytes → ℕ → Table → Result (Unit {0}) × Table
record_failed_handshake key now table =
    let fails = fails_of (get bytes_key key table) + 1 in
    note_failure key fails now (lockout_until fails now) table

abbrev pub is_locked_entry : Option Failures → ℕ → Bool
is_locked_entry none now = false
is_locked_entry (some v) now = ltb now v.lockout_until

-- The test that `server_handshake` begins with.
unfoldable pub is_locked : Bytes → ℕ → Table → Bool
is_locked key now table = is_locked_entry (get bytes_key key table) now
