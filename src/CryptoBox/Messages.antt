-- ===== src/CryptoBox/Messages.antt =====
-- `encryptFor`, `decryptFrom`, `localSeal` and `localOpen` of client/src/cryptobox.cpp.
pub mod Exchange
pub mod Untouched
use bachelor_s_thesis.Base.{
  ℕ, Bool, true, false, not, Option, none, some, [], Bytes, Text, is_empty, if◌then◌else◌, ◌>>=◌,
  ◌>>◌, guard, ◌==◌, bytes_eq,
}
use bachelor_s_thesis.Base.HashMap
use bachelor_s_thesis.Platform.{Platform}
use bachelor_s_thesis.Hkdf.{hkdf}
use bachelor_s_thesis.Ratchet.Primitives.{local_info}
use bachelor_s_thesis.Ratchet.Session.{RatchetSession, Frame, send, receive}
use bachelor_s_thesis.CryptoBox.State.{CryptoBox}
use bachelor_s_thesis.CryptoBox.Sessions.{session_for}

-- A frame in the form of the wire.
pub record WireFrame : Type 0 where
  pub cipher : Text
  pub dh_hex : Text
  pub pn : ℕ
  pub n : ℕ
  pub nonce_hex : Text
  pub ct_hex : Text

-- What `encryptFor` reports: false, false with `notReady`, or the out-parameters.
pub data Encrypted : Type 0 where
  failed not_ready : Encrypted
  sealed : WireFrame → Encrypted

abbrev pub with_session : CryptoBox → Text → RatchetSession → CryptoBox
with_session box peer s = record box { sessions = HashMap.insert peer s box.sessions }

module _ (p : Platform) where
  open p use {to_utf8, from_utf8, to_hex, from_hex, xchacha_encrypt, xchacha_decrypt}

  -- A cipher tag is Latin-1, so its text has the same code units.
  unfoldable pub to_wire : Frame → WireFrame
  to_wire f = record {
    cipher = f.cipher;
    dh_hex = to_hex f.dh;
    pn = f.pn;
    n = f.n;
    nonce_hex = to_hex f.nonce;
    ct_hex = to_hex f.ct;
  }

  -- `fresh` is for a session that has to be made, `nonce` for the message.
  unfoldable pub encrypt_for : CryptoBox → Text → Text → Bytes → Bytes → CryptoBox × Encrypted
  encrypt_for box peer plaintext fresh nonce = elim (session_for p box peer fresh) [
    | none ↦ (box, failed)
    | some (s, box') ↦ elim (send p s (to_utf8 plaintext) nonce) [
      | none ↦ (box', not_ready)
      | some (frame, s') ↦ (with_session box' peer s', sealed (to_wire frame))
    ]
  ]

  -- None is the signal `decryptionFailed`, with an empty text.
  unfoldable pub decrypt_from :
      CryptoBox → Text → WireFrame → Bytes → Bytes → CryptoBox × Option Text
  decrypt_from box peer w fresh fresh_dh = elim (session_for p box peer fresh) [
    | none ↦ (box, none)
    | some (s, box') ↦
        elim (receive p s w.cipher (from_hex w.dh_hex) w.pn w.n (from_hex w.nonce_hex)
          (from_hex w.ct_hex) fresh_dh) [
            | none ↦ (box', none)
            | some (pt, s') ↦ (with_session box' peer s', some (from_utf8 pt))
          ]
  ]

  unfoldable pub local_key : CryptoBox → Bytes
  local_key box = hkdf p none box.private_key local_info 32

  -- (nonce in hex, ciphertext in hex)
  unfoldable pub local_seal : CryptoBox → Text → Bytes → Option (Text × Text)
  local_seal box plaintext nonce = do
    guard (not (is_empty box.private_key))
    some (to_hex nonce, to_hex (xchacha_encrypt (local_key box) nonce (to_utf8 plaintext) []))

  -- Empty where it does not open.
  unfoldable pub local_open : CryptoBox → Text → Text → Text
  local_open box nonce_hex ct_hex =
      if is_empty box.private_key
      then []
      else elim (xchacha_decrypt (local_key box) (from_hex nonce_hex) (from_hex ct_hex) []) [
        | none ↦ []
        | some pt ↦ from_utf8 pt
      ]
