-- ===== src/CryptoBox/Messages/Untouched.antt =====
-- The transactional step of `decryptFrom`, and the responder that cannot send yet
-- (client/src/cryptobox.cpp).
use bachelor_s_thesis.Base.{
  ◌≡◌, refl, inl, inr, ◌↔◌, Option, Option-cases, Bool-cases, ◌⊎◌, not, ◌&&◌, if◌then◌else◌,
  bytes_beq_iff, true, false, none, some, arith, Bytes, Text, is_empty, bytes_eq, ◌==◌,
}
use bachelor_s_thesis.Base.HashMap
use bachelor_s_thesis.Base.HashMap.{HashMap}
use bachelor_s_thesis.Platform.{Platform}
use bachelor_s_thesis.Ratchet.Session.{RatchetSession, send}
use bachelor_s_thesis.CryptoBox.State.{CryptoBox}
use bachelor_s_thesis.CryptoBox.Sessions.{session_for, bootstrap_session}
use bachelor_s_thesis.CryptoBox.Messages.{
  WireFrame, with_session, not_ready, encrypt_for, decrypt_from,
}
use bachelor_s_thesis.CryptoBox.Messages.Exchange.{session_for-recorded}

abbrev pub made_session : Option (RatchetSession × CryptoBox) → Option RatchetSession
made_session none = none
made_session (some (s, box)) = some s

known_lem :
    (peer other : Text) (m : HashMap Text RatchetSession) (made : Option RatchetSession)
    (s : RatchetSession)
    → HashMap.lookup peer m ≡ some s
    → HashMap.lookup other m
      ≡ (if peer == other && not (HashMap.contains other m) then made else HashMap.lookup other m)
known_lem peer other m made s h = ground (arith, bytes_beq_iff peer other)

unknown_lem :
    (peer other : Text) (m : HashMap Text RatchetSession)
    → HashMap.lookup peer m ≡ none
    → HashMap.lookup other m
      ≡ (if peer == other && not (HashMap.contains other m) then none else HashMap.lookup other m)
unknown_lem peer other m h = ground (arith, bytes_beq_iff peer other)

new_lem :
    (peer other : Text) (m : HashMap Text RatchetSession) (s : RatchetSession)
    → HashMap.lookup peer m ≡ none
    → HashMap.lookup other (HashMap.insert peer s m)
      ≡ (if peer == other && not (HashMap.contains other m) then some s else HashMap.lookup other m)
new_lem peer other m s h =
    ground (arith, bytes_beq_iff peer other, HashMap.lookup-insert peer other s m)

module _ (p : Platform) where
  session_for-new :
      (box : CryptoBox) (peer : Text) (fresh : Bytes)
      → HashMap.lookup peer box.sessions ≡ none
      → (session_for p box peer fresh ≡ none)
        ⊎ ((s : RatchetSession) × (session_for p box peer fresh
              ≡ some (s, with_session box peer s)))
  unfolding session_for
  session_for-new box peer fresh h = elim (Option-cases (HashMap.lookup peer box.peer_identity)) [
    | inl e ↦ inl (rw (h, e, session_for) refl)
    | inr (key, e) ↦ elim (Bool-cases (is_empty box.private_key)) [
      | inl bare ↦ inl (rw (h, e, bare, session_for) refl)
      | inr full ↦ inr (bootstrap_session p box key fresh, rw (h, e, full, session_for) refl)
    ]
  ]

  decrypt_from-none :
      (box : CryptoBox) (peer : Text) (w : WireFrame) (fresh fresh_dh : Bytes)
      → session_for p box peer fresh ≡ none
      → decrypt_from p box peer w fresh fresh_dh ≡ (box, none)
  unfolding decrypt_from
  decrypt_from-none box peer w fresh fresh_dh h = rw (h, decrypt_from) refl

  decrypt_from-shut :
      (box box' : CryptoBox) (peer : Text) (w : WireFrame) (fresh fresh_dh : Bytes)
      (s : RatchetSession)
      → session_for p box peer fresh ≡ some (s, box')
      → (decrypt_from p box peer w fresh fresh_dh).1 ≡ none
      → (decrypt_from p box peer w fresh fresh_dh).0 ≡ box'
  unfolding decrypt_from
  decrypt_from-shut box box' peer w fresh fresh_dh s h e = ground (arith, h)

  -- A frame that does not open, stale, replayed or forged, changes nothing but the table of
  -- sessions, and no session that is recorded, banked keys included: only a sender without a
  -- session is recorded with the one that is made for it, where one can be made.
  pub decrypt_from_untouched :
      (box : CryptoBox) (peer other : Text) (w : WireFrame) (fresh fresh_dh : Bytes)
      → (decrypt_from p box peer w fresh fresh_dh).1 ≡ none
      → let after = (decrypt_from p box peer w fresh fresh_dh).0 in
        (record after { sessions = box.sessions } ≡ box)
        × (HashMap.lookup other after.sessions ≡ (
            if peer == other && not (HashMap.contains other box.sessions)
            then made_session (session_for p box peer fresh)
            else HashMap.lookup other box.sessions))
  unfolding decrypt_from
  decrypt_from_untouched box peer other w fresh fresh_dh e =
      elim (Option-cases (HashMap.lookup peer box.sessions)) [
        | inr (s, h) ↦
            let kept =
              decrypt_from-shut box box peer w fresh fresh_dh s
                (session_for-recorded p box peer fresh s h) e in
            rw kept (refl, known_lem peer other box.sessions _ s h)
        | inl h ↦ elim (session_for-new box peer fresh h) [
          | inl stays ↦
              rw (decrypt_from-none box peer w fresh fresh_dh stays, stays)
                (refl, unknown_lem peer other box.sessions h)
          | inr (s, makes) ↦
              let after =
                decrypt_from-shut box (with_session box peer s) peer w fresh fresh_dh s makes e in
              rw (after, makes) (refl, new_lem peer other box.sessions s h)
        ]
      ]

  -- Whatever arrives from a peer with a session, the sessions with all others stay.
  pub decrypt_from_others :
      (box : CryptoBox) (peer other : Text) (w : WireFrame) (fresh fresh_dh : Bytes)
      (s : RatchetSession)
      → HashMap.lookup peer box.sessions ≡ some s
      → (peer == other) ≡ false
      → HashMap.lookup other (decrypt_from p box peer w fresh fresh_dh).0.sessions
        ≡ HashMap.lookup other box.sessions
  unfolding decrypt_from
  decrypt_from_others box peer other w fresh fresh_dh s h ne =
      grind (arith, session_for-recorded p box peer fresh s h, HashMap.lookup-insert)

  -- A session without a sending chain, and no other, makes the client say that it is not ready, at
  -- which nothing is changed.
  pub encrypt_for_waits :
      (box : CryptoBox) (peer text : Text) (fresh nonce : Bytes) (s : RatchetSession)
      → HashMap.lookup peer box.sessions ≡ some s
      → (encrypt_for p box peer text fresh nonce ≡ (box, not_ready)) ↔ (is_empty s.cks ≡ true)
  unfolding encrypt_for send
  encrypt_for_waits box peer text fresh nonce s h =
      ground (arith, session_for-recorded p box peer fresh s h)
