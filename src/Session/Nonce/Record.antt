-- ===== src/Session/Nonce/Record.antt =====
-- A transport that also notes the sequence number of each frame it is given, key by key.
use usmp.Prelude.{ℕ, ◌≤◌, ◌<◌, ◌≡◌, ◌⊎◌, true, false, List, [], ◌∷◌}
use usmp.Transport.{Transport}
use usmp.Session.{Session, max_seq}
use usmp.Session.Window.Tracks.{contains}

-- The numbers used under the present key, those under each earlier key, and the transport itself.
pub record Recorded (T : Type 0) : Type 0 where
  pub current : List ℕ
  pub past : List (List ℕ)
  pub inner : T

abbrev pub recording : {T : Type 0} → Transport T → Transport (Recorded T)
recording tr = record {
  is_reliable = tr.is_reliable;
  write_frame = λ type payload seq r.
      let (result, t) = tr.write_frame type payload seq r.inner in
      (result, record r { current = seq ∷ r.current; inner = t });
  set_session_keys = λ tx rx r. record {
    current = [];
    past = r.current ∷ r.past;
    inner = tr.set_session_keys tx rx r.inner;
  };
  confirm_authenticated = λ seq r. record r { inner = tr.confirm_authenticated seq r.inner };
  close = λ r. record r { inner = tr.close r.inner };
}

abbrev pub IsDistinct : List ℕ → Type 0
IsDistinct [] = Unit
IsDistinct (x ∷ xs) = (contains x xs ≡ false) × IsDistinct xs

abbrev pub AreDistinct : List (List ℕ) → Type 0
AreDistinct [] = Unit
AreDistinct (l ∷ ls) = IsDistinct l × AreDistinct ls

-- Every number used is below the next one, but for the last of all, which only a BYE takes.
pub record IsNonceSafe {T : Type 0} (s : Session (Recorded T)) : Type 0 where
  pub bounded : s.info.tx_seq ≤ max_seq
  pub distinct : IsDistinct s.transport.current
  pub earlier : AreDistinct s.transport.past
  pub spent :
      (x : ℕ)
      → contains x s.transport.current ≡ true
      → (x < s.info.tx_seq) ⊎ ((x ≡ max_seq) × (s.closed ≡ true))
