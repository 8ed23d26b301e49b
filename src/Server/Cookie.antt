-- ===== src/Server/Cookie.antt =====
-- `_allow_udp_cookie` of sdk/python/src/usmp/_server.py. Times are whole nanoseconds, and a token is
-- 200,000,000 parts, so that 5 tokens a second are one part a nanosecond.
pub mod Bound
pub mod Rate
use usmp.Prelude.{
  ℕ, zero, suc, ◌+◌, ◌-◌, ◌*◌, min, Bool, true, false, not, Option, none, some, List, [], ◌∷◌,
  Bytes, length, ltb, leb, if◌then◌else◌,
}
use usmp.Prelude.Dict.{bytes_key, get, put, delete}

abbrev pub token : ℕ
token = 200_000_000

-- `capacity`.
abbrev pub capacity : ℕ
capacity = 10 * token

-- `(tokens, last)`.
pub record Bucket : Type 0 where
  pub tokens : ℕ
  pub last : ℕ

abbrev pub Buckets : Type 0
Buckets = List (Bytes × Bucket)

-- `min(capacity, tokens + (now - last) * refill_per_sec)`.
abbrev pub refilled : Bucket → ℕ → ℕ
refilled b now = min capacity (b.tokens + (now - b.last))

-- `.get(ip, (capacity, now))`.
abbrev pub bucket_or_full : Option Bucket → ℕ → Bucket
bucket_or_full none now = record { tokens = capacity; last = now }
bucket_or_full (some b) now = b

-- The buckets that are not full again.
unfoldable pub active : ℕ → Buckets → Buckets
active now [] = []
active now ((k, v) ∷ rest) =
    let kept = active now rest in if ltb (refilled v now) capacity then (k, v) ∷ kept else kept

-- `sorted(buckets, key=last)`, which is stable.
unfoldable pub insert_by_last : Bytes × Bucket → Buckets → Buckets
insert_by_last x [] = x ∷ []
insert_by_last (k, v) ((l, w) ∷ rest) =
    let inserted = insert_by_last (k, v) rest in
    if leb v.last w.last then (k, v) ∷ (l, w) ∷ rest else (l, w) ∷ inserted

unfoldable pub sorted_by_last : Buckets → Buckets
sorted_by_last [] = []
sorted_by_last (x ∷ rest) = insert_by_last x (sorted_by_last rest)

-- `for k in oldest[:n]: del ...`.
unfoldable pub evict : ℕ → Buckets → Buckets → Buckets
evict zero oldest buckets = buckets
evict (suc n) [] buckets = buckets
evict (suc n) ((k, v) ∷ oldest) buckets = evict n oldest (delete bytes_key k buckets)

unfoldable pub bound_memory : ℕ → Buckets → Buckets
bound_memory now buckets =
    if not (ltb 1000 (length buckets))
    then buckets
    else let left = active now buckets in
      if ltb 1000 (length left) then evict (length left - 1000) (sorted_by_last left) left else left

unfoldable pub allow_udp_cookie : Bytes → ℕ → Buckets → Bool × Buckets
allow_udp_cookie ip now buckets =
    let tokens = refilled (bucket_or_full (get bytes_key ip buckets) now) now in
    if ltb tokens token
    then (false, put bytes_key ip (record { tokens = tokens; last = now }) buckets)
    else (
      true,
      bound_memory now (put bytes_key ip (record { tokens = tokens - token; last = now }) buckets),
    )
