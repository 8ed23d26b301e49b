-- ===== src/Session/Rekey.antt =====
-- A rekey, from the initiator's `rekey` to the turn in which its peer's `recv` takes the REKEY frame.
use usmp.Prelude.{
  ℕ, ◌<◌, ◌≡◌, sym, refl, true, false, List, [], ◌∷◌, ◌++◌, Bytes, length, ltb, not, if_false,
  ==_refl, leb_of_lt, arith,
}
use usmp.Errors.{ok}
use usmp.Types.{rekey as rekey_packet, SessionInfo}
use usmp.Frame.RoundTrip.{sent_frame}
use usmp.Crypto.Agreement.{derive_rekey_keys-crossed, derive_rekey_keys-length}
use usmp.Crypto.Backend.{Primitives, PrimitiveLaws}
use usmp.Transport.{Transport}
use usmp.Session.{Session, max_seq, rotate_keys, after_rekey, rekey}
use usmp.Session.Receive.{
  Assembly, again, recv_turn, open_frame, opened, accept_frame, handle_frame, handle_rekey, absorb,
}
use usmp.Session.Delivery.Frame.{
  Sent, outbox, Matched, Sealing, seal-open, send-step, after_sent, after_read, arrival,
  Matched-next,
}

-- Each end's next frame is the one that the other end waits for.
pub record IsPaired (s r : SessionInfo) : Type 0 where
  pub there : Matched true s r
  pub back : Matched true r s

-- The frame of a rekey.
abbrev pub rekey_sent : Bytes → ℕ → Sent
rekey_sent payload seq = record { type = rekey_packet; payload = payload; seq = seq }

module _ (P : Primitives) (laws : PrimitiveLaws P) {R : Type 0} (tr : Transport R)
    (reliable : tr.is_reliable ≡ true) where
  rotated_transport :
      (salt : Bytes) (s : Session (List Sent))
      → (rotate_keys P outbox true salt s).transport ≡ s.transport
  unfolding rotate_keys
  rotated_transport salt s = refl

  rotated-IsPaired :
      (salt : Bytes) (s : Session (List Sent)) (r : Session R)
      → s.info.tx_key ≡ r.info.rx_key
      → s.info.rx_key ≡ r.info.tx_key
      → Matched true s.info r.info
      → IsPaired (rotate_keys P outbox true salt s).info (rotate_keys P tr false salt r).info
  unfolding rotate_keys
  rotated-IsPaired salt s r there back m =
      let crossed =
        derive_rekey_keys-crossed P s.info.tx_key s.info.rx_key s.info.session_id salt in
      let sizes =
        derive_rekey_keys-length P laws s.info.tx_key s.info.rx_key s.info.session_id salt in
      record {
        there = record {
          key = cc (crossed.0, there, back, m.session);
          session = m.session;
          suite = m.suite;
          seq = refl;
          key_size = sizes.0;
          id_size = m.id_size;
        };
        back = record {
          key = cc (crossed.1, there, back, m.session);
          session = sym m.session;
          suite = sym m.suite;
          seq = refl;
          key_size = cc (crossed.1, sizes.1, there, back, m.session);
          id_size = cc (m.session, m.id_size);
        };
      }

  rekey_turn :
      (payload salt : Bytes) (seq now : ℕ) (a : Assembly) (r : Session R)
      → open_frame P (sent_frame rekey_packet seq payload) r.info ≡ ok salt
      → seq ≡ r.info.rx_seq
      → seq < max_seq
      → length salt ≡ 32
      → a.assembled_payload ≡ []
      → recv_turn P tr
          (ok (sent_frame rekey_packet seq payload))
          (arrival now (rekey_sent payload seq))
          a
          r
        ≡ again a (rotate_keys P tr false salt (after_read tr true seq now r))
  unfolding recv_turn opened accept_frame handle_frame handle_rekey absorb
  rekey_turn payload salt seq now a r opens expected room size unread =
      let none_held : ltb 0 (length a.assembled_payload) ≡ false = rw unread refl in
      simp reliable (
        rw (opens, leb_of_lt max_seq seq room, expected, ==_refl r.info.rx_seq, none_held, size)
          (if_false (not tr.is_reliable) _ _ (rw reliable refl)))

  -- With 32 bytes of salt, between paired sessions of which the peer's is over a reliable
  -- transport, and with a sequence number to spare, `rekey` succeeds and writes one frame; the
  -- peer's `recv` takes it between two messages and goes on; and the sessions are paired again.
  pub rekey_pairs :
      (salt : Bytes) (now : ℕ) (a : Assembly) (s : Session (List Sent)) (r : Session R)
      → length salt ≡ 32
      → IsPaired s.info r.info
      → s.info.tx_seq < max_seq
      → a.assembled_payload ≡ []
      → (payload : Bytes) × (s' : Session (List Sent)) × (r' : Session R) × (rekey P outbox salt s
          ≡ (ok tt, s'))
        × (s'.transport ≡ s.transport ++ rekey_sent payload s.info.tx_seq ∷ [])
        × (recv_turn P tr
              (ok (sent_frame rekey_packet s.info.tx_seq payload))
              (arrival now (rekey_sent payload s.info.tx_seq))
              a
              r
            ≡ again a r')
        × IsPaired s'.info r'.info
  unfolding rekey after_rekey
  rekey_pairs salt now a s r size v room unread =
      let e : Sealing P laws rekey_packet salt s.info r.info =
        seal-open P laws true rekey_packet salt s.info r.info v.there room (omega arith) in
      let sent : Session (List Sent) = after_sent rekey_packet e.payload s in
      (
        e.payload,
        rotate_keys P outbox true salt sent,
        rotate_keys P tr false salt (after_read tr true s.info.tx_seq now r),
        rw (send-step P rekey_packet salt e.payload s e.sealed room) refl,
        rotated_transport salt sent,
        rekey_turn e.payload salt s.info.tx_seq now a r e.opens v.there.seq room size unread,
        rotated-IsPaired salt sent (after_read tr true s.info.tx_seq now r) v.there.key
            (sym v.back.key) (Matched-next tr true now s.info r v.there),
      )
