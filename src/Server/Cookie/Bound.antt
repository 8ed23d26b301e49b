-- ===== src/Server/Cookie/Bound.antt =====
-- How many buckets of cookies there are.
use usmp.Prelude.{
  ℕ, ◌+◌, ◌-◌, ◌≤◌, ◌<◌, ◌≡◌, refl, ap, true, [], ◌∷◌, Bytes, length, ltb, leb, arith, Bool-cases,
  inl, inr, lt_of_ltb, Option-cases,
}
use usmp.Prelude.Dict.{bytes_key, is_in, get, put, length-put, length-put_old, length-delete_old}
use usmp.Prelude.Dict.Keys.{AreIn, AreIn-refl}
use usmp.Server.Cookie.{
  Bucket, Buckets, refilled, bucket_or_full, token, active, insert_by_last, sorted_by_last, evict,
  bound_memory, allow_udp_cookie,
}

active_length : (now : ℕ) (buckets : Buckets) → length (active now buckets) ≤ length buckets
unfolding active
active_length now [] = omega arith
active_length now ((k, v) ∷ rest) = ground (arith, active_length now rest)

insert-AreIn :
    (k : Bytes) (v : Bucket) (xs table : Buckets)
    → is_in bytes_key k table ≡ true
    → AreIn bytes_key xs table
    → AreIn bytes_key (insert_by_last (k, v) xs) table
unfolding insert_by_last
insert-AreIn k v [] table h all = (h, tt)
insert-AreIn k v ((l, w) ∷ rest) table h all = elim (Bool-cases (leb v.last w.last)) [
  | inl e ↦ rw e (h, all)
  | inr e ↦ rw e (all.0, insert-AreIn k v rest table h all.1)
]

sorted-AreIn :
    (xs table : Buckets) → AreIn bytes_key xs table → AreIn bytes_key (sorted_by_last xs) table
unfolding sorted_by_last
sorted-AreIn [] table all = tt
sorted-AreIn ((k, v) ∷ rest) table all =
    insert-AreIn k v (sorted_by_last rest) table all.0 (sorted-AreIn rest table all.1)

insert-length : (x : Bytes × Bucket) (xs : Buckets) → length (insert_by_last x xs) ≡ length xs + 1
unfolding insert_by_last
insert-length x [] = refl
insert-length (k, v) ((l, w) ∷ rest) = ground (arith, insert-length (k, v) rest)

sorted-length : (xs : Buckets) → length (sorted_by_last xs) ≡ length xs
unfolding sorted_by_last
sorted-length [] = refl
sorted-length (x ∷ rest) = omega (arith, insert-length x (sorted_by_last rest), sorted-length rest)

evict_one :
    (oldest table : Buckets)
    → 0 < length oldest
    → AreIn bytes_key oldest table
    → length (evict 1 oldest table) + 1 ≡ length table
unfolding evict
evict_one [] table h all = absurd (omega arith)
evict_one ((k, v) ∷ rest) table h all = length-delete_old bytes_key k table all.0

evict_last :
    (left : Buckets)
    → length left ≤ 1001
    → 1000 < length left
    → length (evict (length left - 1000) (sorted_by_last left) left) ≤ 1000
evict_last left h more =
    let one : length left - 1000 ≡ 1 = omega arith in
    rw one (
      omega (
        arith,
        evict_one (sorted_by_last left) left (omega (arith, sorted-length left))
            (sorted-AreIn left left (AreIn-refl bytes_key left)),
      ))

bound_memory_length :
    (now : ℕ) (buckets : Buckets) → length buckets ≤ 1001 → length (bound_memory now buckets) ≤ 1000
unfolding bound_memory
bound_memory_length now buckets h =
    ground (arith, active_length now buckets, evict_last (active now buckets))

-- A fresh address has tokens.
fresh_tokens :
    (ip : Bytes) (now : ℕ) (buckets : Buckets)
    → ltb (refilled (bucket_or_full (get bytes_key ip buckets) now) now) token ≡ true
    → is_in bytes_key ip buckets ≡ true
fresh_tokens ip now buckets h = elim (Option-cases (get bytes_key ip buckets)) [
  | inl e ↦ absurd (
      omega (
        arith,
        lt_of_ltb (refilled (bucket_or_full (get bytes_key ip buckets) now) now) token h,
        ap (λ o. refilled (bucket_or_full o now) now) e,
      ))
  | inr (b, e) ↦ rw e refl
]

-- A request for a cookie leaves at most 1000 buckets where there were at most 1000.
pub allow_udp_cookie_bound :
    (ip : Bytes) (now : ℕ) (buckets : Buckets)
    → length buckets ≤ 1000
    → length (allow_udp_cookie ip now buckets).1 ≤ 1000
unfolding allow_udp_cookie
allow_udp_cookie_bound ip now buckets h =
    let tokens : ℕ = refilled (bucket_or_full (get bytes_key ip buckets) now) now in
    elim (Bool-cases (ltb tokens token)) [
      | inl e ↦ rw e (
          omega (
            arith,
            length-put_old bytes_key ip (record { tokens = tokens; last = now }) buckets
                (fresh_tokens ip now buckets e),
            h,
          ))
      | inr e ↦
          let left : Bucket = record { tokens = tokens - token; last = now } in
          rw e (
            bound_memory_length now (put bytes_key ip left buckets)
              (omega (arith, length-put bytes_key ip left buckets, h)))
    ]
