-- ===== src/CryptoBox/Sessions/KeyChange.antt =====
-- `ensureSharedKey` of client/src/cryptobox.cpp: what a new identity key of a peer does.
use bachelor_s_thesis.Base.{
  ◌≡◌, ◌≢◌, false, ◌&&◌, none, some, arith, Text, length, bytes_eq, ◌==◌, if◌then◌else◌,
}
use bachelor_s_thesis.Base.HashMap
use bachelor_s_thesis.Platform.{Platform}
use bachelor_s_thesis.CryptoBox.State.{CryptoBox}
use bachelor_s_thesis.CryptoBox.Sessions.{differs, ensure_shared_key}

module _ (p : Platform) where
  -- A key of 32 bytes is recorded, whatever was known before, and no other peer's key changes.
  pub ensure_shared_key_records :
      (box : CryptoBox) (peer other hex : Text)
      → length (p.from_hex hex) ≡ 32
      → HashMap.lookup other (ensure_shared_key p box peer hex).0.peer_identity
        ≡ (if peer == other then some (p.from_hex hex) else HashMap.lookup other box.peer_identity)
  unfolding ensure_shared_key
  ensure_shared_key_records box peer other hex h =
      ground (arith, HashMap.lookup-insert peer other (p.from_hex hex) box.peer_identity)

  -- A key of 32 bytes that differs from the recorded one drops that peer's session; a first or an
  -- unchanged key does not, and no other peer's session is touched.
  pub ensure_shared_key_drops :
      (box : CryptoBox) (peer other hex : Text)
      → length (p.from_hex hex) ≡ 32
      → HashMap.lookup other (ensure_shared_key p box peer hex).0.sessions ≡ (
          if (peer == other) && differs (HashMap.lookup peer box.peer_identity) (p.from_hex hex)
          then none
          else HashMap.lookup other box.sessions)
  unfolding ensure_shared_key
  ensure_shared_key_drops box peer other hex h =
      ground (arith, HashMap.lookup-remove peer other box.sessions)

  pub ensure_shared_key_reports :
      (box : CryptoBox) (peer hex : Text)
      → length (p.from_hex hex) ≡ 32
      → (ensure_shared_key p box peer hex).1
        ≡ differs (HashMap.lookup peer box.peer_identity) (p.from_hex hex)
  unfolding ensure_shared_key
  ensure_shared_key_reports box peer hex h = ground arith

  pub ensure_shared_key_refuses :
      (box : CryptoBox) (peer hex : Text)
      → length (p.from_hex hex) ≢ 32
      → ensure_shared_key p box peer hex ≡ (box, false)
  unfolding ensure_shared_key
  ensure_shared_key_refuses box peer hex h = ground arith
