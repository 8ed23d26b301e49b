-- ===== src/Session/Total.antt =====
-- The fuel of `send`.
use usmp.Prelude.{
  ℕ, zero, suc, ◌+◌, ◌-◌, ◌*◌, ◌≤◌, ◌<◌, ◌≡◌, refl, Bool, true, false, ◌||◌, Option, some, Bytes,
  length, min, take, drop, length-take, length-drop, ltb, ◌==◌, arith, Bool-cases, inl, inr,
}
use usmp.Errors.{Result, ok, err}
use usmp.Types.{usmp_max_data_len, usmp_max_frames}
use usmp.Crypto.Backend.{Primitives}
use usmp.Transport.{Transport}
use usmp.Session.{Session, after_chunk, send_loop, send}

module _ (P : Primitives) {T : Type 0} (tr : Transport T) where
  -- How a loop ends.
  abbrev Ends : Option (Result (Unit {0}) × Session T) → Type 0
  Ends r = (end : Result (Unit {0}) × Session T) × (r ≡ some end)

  after_chunk-Ends :
      (is_empty : Bool) (loop : Session T → Option (Result (Unit {0}) × Session T))
      (sent : Result (Unit {0}) × Session T)
      → (is_empty ≡ false → (s : Session T) → Ends (loop s))
      → Ends (after_chunk P tr is_empty loop sent)
  unfolding after_chunk
  after_chunk-Ends true loop (ok u, s) h = ((ok tt, s), refl)
  after_chunk-Ends false loop (ok u, s) h = h refl s
  after_chunk-Ends is_empty loop (err e, s) h = ((err e, s), refl)

  send_loop-Ends :
      (fuel : ℕ) (bytes : Bytes) (offset : ℕ) (s : Session T)
      → length bytes + 1 ≤ offset + fuel
      → 0 < fuel
      → Ends (send_loop P tr fuel bytes offset s)
  unfolding send_loop
  send_loop-Ends zero bytes offset s h pos = absurd (omega arith)
  send_loop-Ends (suc fuel) bytes offset s h pos =
      let chunk : Bytes = take usmp_max_data_len (drop offset bytes) in
      let size : length chunk ≡ min usmp_max_data_len (length bytes - offset) = omega (
        arith,
        length-take {0} usmp_max_data_len (drop offset bytes),
        length-drop {0} offset bytes,
      ) in
      elim (Bool-cases (ltb offset (length bytes) || (length bytes == 0))) [
        | inl entered ↦ rw entered (
            after_chunk-Ends (length bytes == 0) (send_loop P tr fuel bytes (offset + length chunk))
              _
              (λ some_left s'.
                send_loop-Ends fuel bytes (offset + length chunk) s' (ground (arith, size))
                  (ground arith)))
        | inr left ↦ rw left ((ok tt, s), refl)
      ]

  -- `send` of any bytes, over any transport, returns or raises: its fuel does not run out.
  pub send_ends :
      (bytes : Bytes) (s : Session T)
      → (end : Result (Unit {0}) × Session T) × (send P tr bytes s ≡ some end)
  unfolding send
  send_ends bytes s = elim (Bool-cases (ltb (usmp_max_data_len * usmp_max_frames) (length bytes))) [
    | inl large ↦ rw large (_, refl)
    | inr fits ↦ rw fits (send_loop-Ends (length bytes + 2) bytes 0 s (omega arith) (omega arith))
  ]
