-- ===== src/Handshake/Limiter/Bound.antt =====
-- The size of the limiter's table.
use usmp.Prelude.{
  ℕ, ◌+◌, ◌≤◌, ◌<◌, ◌≡◌, true, [], ◌∷◌, Bytes, length, ltb, arith, Bool-cases, inl, inr,
}
use usmp.Prelude.Dict.{bytes_key, is_in, get, put, length-put, length-put_old, length-delete_old}
use usmp.Prelude.Dict.Keys.{AreIn, AreIn-cons, is_in_head, AreIn-refl}
use usmp.Errors.{Result, ok, err}
use usmp.Handshake.Limiter.{
  Failures, Table, oldest, delete_oldest, prune, fails_of, lockout_until, make_room, note_failure,
  record_failed_handshake,
}

prune_length : (now : ℕ) (table : Table) → length (prune now table) ≤ length table
unfolding prune
prune_length now [] = omega arith
prune_length now ((k, v) ∷ rest) = ground (arith, prune_length now rest)

oldest-is_in :
    (k : Bytes) (v : Failures) (rest table : Table)
    → is_in bytes_key k table ≡ true
    → AreIn bytes_key rest table
    → is_in bytes_key (oldest (k, v) rest).0 table ≡ true
unfolding oldest
oldest-is_in k v [] table h all = h
oldest-is_in k v ((l, w) ∷ rest) table h all =
    elim (Bool-cases (ltb w.last_attempt v.last_attempt)) [
      | inl earlier ↦ rw earlier (oldest-is_in l w rest table all.0 all.1)
      | inr later ↦ rw later (oldest-is_in k v rest table h all.1)
    ]

delete_oldest_length :
    (table : Table) → 0 < length table → length (delete_oldest table) + 1 ≡ length table
unfolding delete_oldest
delete_oldest_length [] h = absurd (omega arith)
delete_oldest_length ((k, v) ∷ rest) h =
    length-delete_old bytes_key (oldest (k, v) rest).0 ((k, v) ∷ rest) (
      oldest-is_in k v rest ((k, v) ∷ rest) (is_in_head bytes_key k v rest)
        (AreIn-cons bytes_key rest k v rest (AreIn-refl bytes_key rest)))

made_room :
    (key : Bytes) (v : Failures) (table : Table)
    → length table ≤ 1000
    → length (put bytes_key key v (make_room key table)) ≤ 1000
unfolding make_room
made_room key v table h = ground (
  arith,
  length-put_old bytes_key key v table,
  length-put bytes_key key v table,
  length-put bytes_key key v (delete_oldest table),
  delete_oldest_length table,
)

note_failure_bound :
    (key : Bytes) (fails now : ℕ) (until : Result ℕ) (table : Table)
    → length table ≤ 1000
    → length (note_failure key fails now until table).1 ≤ 1000
note_failure_bound key fails now (err e) table h = h
note_failure_bound key fails now (ok until) table h =
    let v : Failures = record { fails = fails; lockout_until = until; last_attempt = now } in
    omega
      (arith, prune_length now (put bytes_key key v (make_room key table)), made_room key v table h)

-- A failed handshake leaves at most 1000 addresses in a table that had at most 1000.
pub record_failed_handshake_bound :
    (key : Bytes) (now : ℕ) (table : Table)
    → length table ≤ 1000
    → length (record_failed_handshake key now table).1 ≤ 1000
unfolding record_failed_handshake
record_failed_handshake_bound key now table h =
    let fails : ℕ = fails_of (get bytes_key key table) + 1 in
    note_failure_bound key fails now (lockout_until fails now) table h
