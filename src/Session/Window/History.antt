-- ===== src/Session/Window/History.antt =====
-- The replay window over the life of a session: `accept_all` runs the two tests and the update of
-- `recv` over the sequence numbers of the frames that decrypt.
use usmp.Prelude.{ℕ, ◌+◌, ◌≡◌, ◌||◌, List, [], ◌∷◌, leb, if◌then◌else◌, arith, Bool-cases, inl, inr}
use usmp.Types.{SessionInfo}
use usmp.Session.Window.{is_replay, mark_seen}
use usmp.Session.Window.Tracks.{contains, Tracks, is_replay-eq, mark_seen-Tracks, fresh-Tracks}
use usmp.Session.Nonce.Record.{IsDistinct}

-- A frame that decrypts: refused by the window, or accepted and noted.
unfoldable pub accept_seq : ℕ → SessionInfo × List ℕ → SessionInfo × List ℕ
accept_seq seq (info, accepted) =
    if is_replay seq info then (info, accepted) else (mark_seen seq info, seq ∷ accepted)

unfoldable pub accept_all : List ℕ → SessionInfo × List ℕ → SessionInfo × List ℕ
accept_all [] state = state
accept_all (seq ∷ seqs) state = accept_all seqs (accept_seq seq state)

record IsTracked (state : SessionInfo × List ℕ) : Type 0 where
  tracks : Tracks state.0 state.1
  distinct : IsDistinct state.1

accept_seq-IsTracked :
    (seq : ℕ) (state : SessionInfo × List ℕ) → IsTracked state → IsTracked (accept_seq seq state)
unfolding accept_seq
accept_seq-IsTracked seq (info, accepted) v = elim (Bool-cases (is_replay seq info)) [
  | inl refused ↦ rw refused v
  | inr fresh ↦ rw fresh (record {
    tracks = mark_seen-Tracks info accepted seq v.tracks;
    distinct = (ground (arith, fresh, is_replay-eq info accepted seq v.tracks), v.distinct);
  })
]

accept_all-IsTracked :
    (seqs : List ℕ) (state : SessionInfo × List ℕ)
    → IsTracked state
    → IsTracked (accept_all seqs state)
unfolding accept_all
accept_all-IsTracked [] state v = v
accept_all-IsTracked (seq ∷ seqs) state v =
    accept_all-IsTracked seqs (accept_seq seq state) (accept_seq-IsTracked seq state v)

-- From a new session, whatever sequence numbers arrive in whatever order, the window's tests and
-- its update accept none of them twice.
pub accept_all_once :
    (seqs : List ℕ) (info : SessionInfo)
    → info.rx_seq ≡ 0
    → info.rx_window_bitmap ≡ 0
    → IsDistinct (accept_all seqs (info, [])).1
accept_all_once seqs info hs hb =
    (accept_all-IsTracked seqs (info, [])
      (record { tracks = fresh-Tracks info hs hb; distinct = tt })).distinct

-- After any arrivals at a new session, the window refuses a number exactly when it is 64 or more
-- below the highest one accepted, or was accepted before.
pub accept_all_refuses :
    (seqs : List ℕ) (seq : ℕ) (info : SessionInfo)
    → info.rx_seq ≡ 0
    → info.rx_window_bitmap ≡ 0
    → let (now, accepted) = accept_all seqs (info, []) in
      is_replay seq now ≡ (leb (seq + 64) now.rx_seq || contains seq accepted)
accept_all_refuses seqs seq info hs hb =
    let (now, accepted) = accept_all seqs (info, []) in
    is_replay-eq now accepted seq
      (accept_all-IsTracked seqs (info, [])
        (record { tracks = fresh-Tracks info hs hb; distinct = tt })).tracks
