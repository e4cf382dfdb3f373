-- ===== src/CryptoBox/Messages/Exchange.antt =====
-- From `encryptFor` at one client to `decryptFrom` at the other (client/src/cryptobox.cpp).
use bachelor_s_thesis.Base.{◌+◌, ◌^◌, ◌≤◌, ◌<◌, ◌≡◌, none, some, [], arith, Bytes, Text, bytes_eq}
use bachelor_s_thesis.Base.HashMap
use bachelor_s_thesis.Platform.{Platform, IsLawful}
use bachelor_s_thesis.Ratchet.Primitives.{skip_key}
use bachelor_s_thesis.Ratchet.Skipped.{max_skip}
use bachelor_s_thesis.Ratchet.Session.{RatchetSession, Frame, send, receive}
use bachelor_s_thesis.Ratchet.Delivery.{Follows, receive-send}
use bachelor_s_thesis.Ratchet.Turns.{Turned, Fresh, receive_first}
use bachelor_s_thesis.CryptoBox.State.{CryptoBox}
use bachelor_s_thesis.CryptoBox.Sessions.{session_for}
use bachelor_s_thesis.CryptoBox.Messages.{
  WireFrame, sealed, with_session, to_wire, encrypt_for, decrypt_from, local_seal, local_open,
  local_key,
}

module _ (p : Platform) where
  pub session_for-recorded :
      (box : CryptoBox) (peer : Text) (fresh : Bytes) (s : RatchetSession)
      → HashMap.lookup peer box.sessions ≡ some s
      → session_for p box peer fresh ≡ some (s, box)
  unfolding session_for
  session_for-recorded box peer fresh s h = rw (h, session_for)

  encrypt_for-sent :
      (box : CryptoBox) (peer text : Text) (fresh nonce : Bytes) (s s' : RatchetSession) (f : Frame)
      → HashMap.lookup peer box.sessions ≡ some s
      → send p s (p.to_utf8 text) nonce ≡ some (f, s')
      → encrypt_for p box peer text fresh nonce ≡ (with_session box peer s', sealed (to_wire p f))
  unfolding encrypt_for
  encrypt_for-sent box peer text fresh nonce s s' f h e =
      rw (session_for-recorded box peer fresh s h, encrypt_for) (rw (e, encrypt_for))

module _ (p : Platform) (law : IsLawful p) where
  decrypt_from-received :
      (box : CryptoBox) (peer text : Text) (fresh fresh_dh : Bytes) (r r' : RatchetSession)
      (f : Frame)
      → HashMap.lookup peer box.sessions ≡ some r
      → receive p r f.cipher f.dh f.pn f.n f.nonce f.ct fresh_dh ≡ some (p.to_utf8 text, r')
      → decrypt_from p box peer (to_wire p f) fresh fresh_dh ≡ (with_session box peer r', some text)
  unfolding decrypt_from to_wire
  decrypt_from-received box peer text fresh fresh_dh r r' f h e =
      rw (session_for-recorded p box peer fresh r h, decrypt_from)
        (rw (law.from_hex-to_hex f.dh, law.from_hex-to_hex f.nonce, law.from_hex-to_hex f.ct)
          (rw e (rw (law.from_utf8-to_utf8 text))))

  -- The first message over a fresh pair of sessions: the sender seals it, the receiver reads the
  -- text that was sent, and the sessions that both record afterwards are in step, with the
  -- receiver's own turn prepared for the way back.
  pub decrypt-encrypt_first :
      (a b : CryptoBox) (a_name b_name text : Text) (fresh nonce fresh' fresh_dh : Bytes)
      (s r : RatchetSession)
      → HashMap.lookup b_name a.sessions ≡ some s
      → HashMap.lookup a_name b.sessions ≡ some r
      → Fresh p s r
      → (w : WireFrame) × (s' r' : RatchetSession) × (encrypt_for p a b_name text fresh nonce
          ≡ (with_session a b_name s', sealed w))
        × (decrypt_from p b a_name w fresh' fresh_dh ≡ (with_session b a_name r', some text))
        × Follows p s' r'
        × Turned p r' s'
  decrypt-encrypt_first a b a_name b_name text fresh nonce fresh' fresh_dh s r h k new =
      let (f, s', r', sends, opens, next, back) =
        receive_first p law s r (p.to_utf8 text) nonce fresh_dh new in
      (
        to_wire p f,
        s',
        r',
        encrypt_for-sent p a b_name text fresh nonce s s' f h sends,
        decrypt_from-received b a_name text fresh' fresh_dh r r' f k opens,
        next,
        back,
      )

  -- Every later message of the same direction, up to 1000 lost ones before it: the receiver reads
  -- the text that was sent, and the recorded sessions are in step again.
  pub decrypt-encrypt :
      (a b : CryptoBox) (a_name b_name text : Text) (fresh nonce fresh' fresh_dh : Bytes)
      (s r : RatchetSession)
      → HashMap.lookup b_name a.sessions ≡ some s
      → HashMap.lookup a_name b.sessions ≡ some r
      → Follows p s r
      → s.ns ≤ r.nr + max_skip
      → s.ns + max_skip + 1 < 2 ^ 32
      → HashMap.lookup (skip_key s.dhs_pub s.ns) r.skipped ≡ none
      → (w : WireFrame) × (s' r' : RatchetSession) × (encrypt_for p a b_name text fresh nonce
          ≡ (with_session a b_name s', sealed w))
        × (decrypt_from p b a_name w fresh' fresh_dh ≡ (with_session b a_name r', some text))
        × Follows p s' r'
        × (r'.nr ≡ s'.ns)
  decrypt-encrypt a b a_name b_name text fresh nonce fresh' fresh_dh s r h k f gap range unbanked =
      let (g, s', r', sends, opens, next, place) =
        receive-send p law s r (p.to_utf8 text) nonce fresh_dh f gap range unbanked in
      (
        to_wire p g,
        s',
        r',
        encrypt_for-sent p a b_name text fresh nonce s s' g h sends,
        decrypt_from-received b a_name text fresh' fresh_dh r r' g k opens,
        next,
        place,
      )

  -- What was sealed for the local history opens again.
  pub local_open-seal :
      (box : CryptoBox) (text nonce_hex ct_hex : Text) (nonce : Bytes)
      → local_seal p box text nonce ≡ some (nonce_hex, ct_hex)
      → local_open p box nonce_hex ct_hex ≡ text
  unfolding local_seal local_open
  local_open-seal box text nonce_hex ct_hex nonce h =
      let ct = p.xchacha_encrypt (local_key p box) nonce (p.to_utf8 text) [] in
      ground (
        arith,
        law.from_hex-to_hex nonce,
        law.from_hex-to_hex ct,
        law.xchacha_open (local_key p box) nonce (p.to_utf8 text) [],
        law.from_utf8-to_utf8 text,
      )
