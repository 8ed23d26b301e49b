-- ===== src/Server/Watchdog.antt =====
-- When the watchdog of a session finds that it is silent.
use usmp.Prelude.{
  ℕ, ◌+◌, ◌-◌, ◌/◌, ◌≤◌, ◌<◌, ◌≡◌, ◌∙◌, ◌≢◌, refl, false, Option, none, some, List, [], ◌∷◌, ◌++◌,
  ltb, arith, Bool-cases, inl, inr, lt_of_ltb, le_of_ltb,
}
use usmp.Server.{OnTimeout, watches, expire, ended, Wake, is_idle, watchdog}

-- The time after some turns.
unfoldable pub time_after : ℕ → ℕ → List Wake → ℕ
time_after session_timeout start [] = start
time_after session_timeout start (w ∷ rest) =
    time_after session_timeout (start + session_timeout / 2 + w.late) rest

-- No frame has come since `last_recv`, and no sleep takes longer than it should by more than `delay`.
abbrev pub AreSilent : ℕ → ℕ → List Wake → Type 0
AreSilent last_recv delay [] = Unit
AreSilent last_recv delay (w ∷ rest) =
    (w.last_recv ≡ last_recv) × (w.late ≤ delay) × AreSilent last_recv delay rest

ended-watches : (t : Option ℕ) → ended t ≢ watches
ended-watches none h = cc
ended-watches (some t) h = cc

expire-watches : (on_timeout : OnTimeout) (now : ℕ) → expire on_timeout now ≢ watches
expire-watches none now h = cc
expire-watches (some callback) now h = ended-watches (callback now) h

module _ (on_timeout : OnTimeout) (session_timeout : ℕ) where
  -- Turns that go on watching.
  watchdog-append :
      (start : ℕ) (before after : List Wake)
      → watchdog on_timeout session_timeout start before ≡ watches
      → watchdog on_timeout session_timeout start (before ++ after)
        ≡ watchdog on_timeout session_timeout (time_after session_timeout start before) after
  unfolding watchdog time_after
  watchdog-append start [] after h = refl
  watchdog-append start (w ∷ before) after h =
      let now : ℕ = start + session_timeout / 2 + w.late in
      elim (Bool-cases (is_idle session_timeout w.last_recv now)) [
        | inl idle ↦ absurd (expire-watches on_timeout now (rw idle at h))
        | inr alive ↦
            let rest : watchdog on_timeout session_timeout now before ≡ watches = rw alive at h in
            rw alive (watchdog-append now before after rest)
      ]

  -- A silence from `last_recv` on.
  silence :
      (last_recv delay start : ℕ) (silent : List Wake)
      → last_recv ≤ start
      → start ≤ last_recv + session_timeout
      → AreSilent last_recv delay silent
      → last_recv + session_timeout < time_after session_timeout start silent
      → (t : ℕ) × (watchdog on_timeout session_timeout start silent ≡ expire on_timeout t)
        × (last_recv + session_timeout < t)
        × (t ≤ last_recv + session_timeout + session_timeout / 2 + delay)
  unfolding watchdog is_idle time_after
  silence last_recv delay start [] old fresh none_came long = absurd (omega arith)
  silence last_recv delay start (w ∷ rest) old fresh (same, soon, none_came) long =
      let now : ℕ = start + session_timeout / 2 + w.late in
      elim (Bool-cases (ltb session_timeout (now - last_recv))) [
        | inl idle ↦ (
          now,
          rw (same, idle) refl,
          omega (arith, lt_of_ltb session_timeout (now - last_recv) idle),
          omega arith,
        )
        | inr alive ↦
            let (t, expires, after, before) =
              silence last_recv delay now rest (omega arith)
                (omega (arith, le_of_ltb session_timeout (now - last_recv) alive)) none_came long in
            let alive' : ltb session_timeout (now - w.last_recv) ≡ false = rw same alive in
            (t, rw alive' expires, after, before)
      ]

  -- When a watchdog goes on watching in its first turns, and from then on finds that no frame has
  -- come since one at most a timeout ago, in turns that last until the timeout is over and of which
  -- none sleeps more than `delay` too long, it finds the session silent after the timeout and at
  -- most half of it and `delay` later; it then closes the transport if it has no callback, and
  -- otherwise when the callback has ended, if it ends.
  pub watchdog_silent :
      (start last_recv delay : ℕ) (before silent : List Wake)
      → watchdog on_timeout session_timeout start before ≡ watches
      → last_recv ≤ time_after session_timeout start before
      → time_after session_timeout start before ≤ last_recv + session_timeout
      → AreSilent last_recv delay silent
      → last_recv + session_timeout
        < time_after session_timeout (time_after session_timeout start before) silent
      → (t : ℕ) × (watchdog on_timeout session_timeout start (before ++ silent)
          ≡ expire on_timeout t)
        × (last_recv + session_timeout < t)
        × (t ≤ last_recv + session_timeout + session_timeout / 2 + delay)
  watchdog_silent start last_recv delay before silent alive old fresh none_came long =
      let (t, expires, after, soon) =
        silence last_recv delay (time_after session_timeout start before) silent old fresh none_came
          long in
      (t, watchdog-append start before silent alive ∙ expires, after, soon)
