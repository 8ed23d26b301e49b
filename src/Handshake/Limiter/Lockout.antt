-- ===== src/Handshake/Limiter/Lockout.antt =====
-- How long a failed handshake locks its address out.
use usmp.Prelude.{
  ℕ, ◌+◌, ◌-◌, ◌*◌, ◌^◌, ◌≤◌, ◌<◌, ◌≡◌, refl, min, false, some, List, [], ◌∷◌, Bytes, ltb,
  ltb_of_le, ltb_of_lt, arith,
}
use native.Mathlib.Nat.{one-le-pow}
use usmp.Prelude.Dict.{bytes_key, get, put, get-put}
use usmp.Errors.{err, overflow_error}
use usmp.Handshake.Limiter.{
  Failures, Table, get, put, prune, is_expired, fails_of, second, lockout_until, make_room,
  record_failed_handshake, is_locked,
}

get-prune :
    (key : Bytes) (now : ℕ) (v : Failures) (table : Table)
    → get bytes_key key table ≡ some v
    → is_expired now v ≡ false
    → get bytes_key key (prune now table) ≡ some v
unfolding get prune
get-prune key now v [] h fresh = h
get-prune key now v ((k, w) ∷ rest) h fresh = ground (arith, get-prune key now v rest)

pow_pos : (n : ℕ) → 0 < 2 ^ n
pow_pos n = one-le-pow n 2 (omega arith)

-- After a failure that is at least the fifth and at most the 1028th in a row, the address is locked
-- out for 2 to the power of the number of earlier failures less 4 seconds, and at most for 60.
pub record_failed_handshake_locks :
    (key : Bytes) (now later : ℕ) (table : Table)
    → 4 ≤ fails_of (get bytes_key key table)
    → fails_of (get bytes_key key table) < 1028
    → is_locked key later (record_failed_handshake key now table).1
      ≡ ltb later (now + min 60 (2 ^ (fails_of (get bytes_key key table) - 4)) * second)
unfolding record_failed_handshake is_locked lockout_until
record_failed_handshake_locks key now later table many few =
    let fails : ℕ = fails_of (get bytes_key key table) + 1 in
    let until : ℕ = now + min 60 (2 ^ (fails - 5)) * second in
    let five : fails - 5 ≡ fails_of (get bytes_key key table) - 4 = omega arith in
    let v : Failures = record { fails = fails; lockout_until = until; last_attempt = now } in
    let found : get bytes_key key (prune now (put bytes_key key v (make_room key table))) ≡ some v =
      get-prune key now v (put bytes_key key v (make_room key table))
        (get-put bytes_key key v (make_room key table)) (ground arith) in
    rw (ltb_of_le fails 5 (omega arith), ltb_of_le 1023 (fails - 5) (omega arith), found, five) refl

-- From 1028 failures in a row on, the power of 2 overflows.
overflow :
    (key : Bytes) (now : ℕ) (table : Table)
    → 1028 ≤ fails_of (get bytes_key key table)
    → record_failed_handshake key now table ≡ (err overflow_error, table)
unfolding record_failed_handshake lockout_until
overflow key now table h =
    rw
      (
        ltb_of_le (fails_of (get bytes_key key table) + 1) 5 (omega arith),
        ltb_of_lt 1023 (fails_of (get bytes_key key table) + 1 - 5) (omega arith),
      )
      refl

-- The failures of an address at several times, one after the other.
unfoldable pub fail_at : Bytes → List ℕ → Table → Table
fail_at key [] table = table
fail_at key (now ∷ times) table = fail_at key times (record_failed_handshake key now table).1

fail_at-same :
    (key : Bytes) (times : List ℕ) (table : Table)
    → 1028 ≤ fails_of (get bytes_key key table)
    → fail_at key times table ≡ table
unfolding fail_at
fail_at-same key [] table h = refl
fail_at-same key (now ∷ times) table h =
    rw (overflow key now table h) (fail_at-same key times table h)

-- Of an address with 1028 failures or more in a row, any further failures, however many and
-- whenever, leave it locked only until the end of the lockout that it has already, and the next one
-- raises `OverflowError`.
pub record_failed_handshake_overflow :
    (key : Bytes) (times : List ℕ) (later : ℕ) (table : Table) (v : Failures)
    → get bytes_key key table ≡ some v
    → 1028 ≤ v.fails
    → (is_locked key later (fail_at key times table) ≡ ltb later v.lockout_until)
      × ((record_failed_handshake key later (fail_at key times table)).0 ≡ err overflow_error)
unfolding is_locked
record_failed_handshake_overflow key times later table v found many =
    let many' : 1028 ≤ fails_of (get bytes_key key table) = rw found many in
    (
      rw (fail_at-same key times table many', found) refl,
      rw (fail_at-same key times table many', overflow key later table many') refl,
    )
