-- ===== src/Server/Cookie/Rate.antt =====
-- How many cookies one address gets, among the requests of all of them.
use usmp.Prelude.{
  ℕ, ◌+◌, ◌-◌, ◌*◌, ◌≤◌, ◌<◌, ◌≡◌, refl, ap, Bool, true, Option, none, some, List, [], ◌∷◌, Bytes,
  bytes_eq, length, ltb, arith, Bool-cases, inl, inr, le_of_ltb, ltb_of_le, if◌then◌else◌,
}
use usmp.Prelude.Dict.{bytes_key, get, put, get-put, get-put_ne, length-put}
use usmp.Server.Cookie.{
  Bucket, Buckets, refilled, bucket_or_full, token, capacity, bound_memory, allow_udp_cookie,
}

-- The requests, each an address and a time.
abbrev pub Calls : Type 0
Calls = List (Bytes × ℕ)

-- The times do not go back.
abbrev pub IsTimed : ℕ → Calls → Type 0
IsTimed start [] = Unit
IsTimed start ((ip, now) ∷ rest) = (start ≤ now) × IsTimed now rest

abbrev pub end_time : ℕ → Calls → ℕ
end_time start [] = start
end_time start ((ip, now) ∷ rest) = end_time now rest

abbrev granted : Bytes → Bytes → Bool → ℕ
granted ip caller allowed = if bytes_eq ip caller then (if allowed then 1 else 0) else 0

-- The cookies that an address gets.
unfoldable pub cookies_of : Bytes → Calls → Buckets → ℕ
cookies_of ip [] buckets = 0
cookies_of ip ((caller, now) ∷ rest) buckets =
    let (allowed, next) = allow_udp_cookie caller now buckets in
    granted ip caller allowed + cookies_of ip rest next

-- Every request finds fewer than 1000 buckets, so that none is forgotten.
unfoldable pub IsRoomy : Calls → Buckets → Type 0
IsRoomy [] buckets = Unit
IsRoomy ((caller, now) ∷ rest) buckets =
    (length buckets < 1000) × IsRoomy rest (allow_udp_cookie caller now buckets).1

-- The tokens that an address would have.
abbrev tokens_at : Bytes → ℕ → Buckets → ℕ
tokens_at ip now buckets = refilled (bucket_or_full (get bytes_key ip buckets) now) now

later_tokens :
    (o : Option Bucket) (now later : ℕ)
    → now ≤ later
    → refilled (bucket_or_full o later) later ≤ refilled (bucket_or_full o now) now + (later - now)
later_tokens none now later h = omega arith
later_tokens (some b) now later h = omega arith

bound_memory_small :
    (now : ℕ) (buckets : Buckets) → length buckets ≤ 1000 → bound_memory now buckets ≡ buckets
unfolding bound_memory
bound_memory_small now buckets h = rw (ltb_of_le 1000 (length buckets) h) refl

tokens-put :
    (ip caller : Bytes) (now : ℕ) (b : Bucket) (buckets : Buckets)
    → tokens_at ip now (put bytes_key caller b buckets)
      ≡ (if bytes_eq ip caller then refilled b now else tokens_at ip now buckets)
tokens-put ip caller now b buckets = elim (Bool-cases (bytes_eq ip caller)) [
  | inl e ↦ rw (e, bytes_key.eq_of_same ip caller e, get-put bytes_key caller b buckets) refl
  | inr e ↦ rw (e, get-put_ne bytes_key ip caller b buckets e) refl
]

-- One request spends what it grants.
call_spends :
    (ip caller : Bytes) (now : ℕ) (buckets : Buckets)
    → length buckets < 1000
    → granted ip caller (allow_udp_cookie caller now buckets).0 * token
        + tokens_at ip now (allow_udp_cookie caller now buckets).1
      ≤ tokens_at ip now buckets
unfolding allow_udp_cookie
call_spends ip caller now buckets h =
    let tokens : ℕ = tokens_at caller now buckets in
    let same : bytes_eq ip caller ≡ true → tokens_at ip now buckets ≡ tokens =
      λ e. ap (λ k. tokens_at k now buckets) (bytes_key.eq_of_same ip caller e) in
    elim (Bool-cases (ltb tokens token)) [
      | inl e ↦
          let b : Bucket = record { tokens = tokens; last = now } in
          rw (e, tokens-put ip caller now b buckets) (ground (arith, same))
      | inr e ↦
          let b : Bucket = record { tokens = tokens - token; last = now } in
          rw
            (
              e,
              bound_memory_small now (put bytes_key caller b buckets)
                  (omega (arith, h, length-put bytes_key caller b buckets)),
              tokens-put ip caller now b buckets,
            )
            (ground (arith, same, le_of_ltb tokens token e))
    ]

end_after : (start : ℕ) (calls : Calls) → IsTimed start calls → start ≤ end_time start calls
end_after start [] timed = omega arith
end_after start ((ip, now) ∷ rest) timed = omega (arith, timed.0, end_after now rest timed.1)

cookies_spend :
    (ip : Bytes) (start : ℕ) (calls : Calls) (buckets : Buckets)
    → IsTimed start calls
    → IsRoomy calls buckets
    → cookies_of ip calls buckets * token
      ≤ tokens_at ip start buckets + (end_time start calls - start)
unfolding cookies_of IsRoomy
cookies_spend ip start [] buckets timed roomy = omega arith
cookies_spend ip start ((caller, now) ∷ rest) buckets timed roomy =
    let next : Buckets = (allow_udp_cookie caller now buckets).1 in
    omega (
      arith,
      cookies_spend ip now rest next timed.1 roomy.1,
      call_spends ip caller now buckets roomy.0,
      later_tokens (get bytes_key ip buckets) start now timed.0,
      timed.0,
      end_after now rest timed.1,
    )

-- As long as fewer than 1000 addresses have buckets, the cookies that one address gets from
-- requests at times that do not go back are at most 10 and another 5 for each second that passes,
-- whatever the other addresses request.
pub cookie_rate :
    (ip : Bytes) (start : ℕ) (calls : Calls) (buckets : Buckets)
    → IsTimed start calls
    → IsRoomy calls buckets
    → cookies_of ip calls buckets * token ≤ capacity + (end_time start calls - start)
cookie_rate ip start calls buckets timed roomy =
    omega (arith, cookies_spend ip start calls buckets timed roomy)
