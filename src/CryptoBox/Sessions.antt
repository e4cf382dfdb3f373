-- ===== src/CryptoBox/Sessions.antt =====
-- Peer identities, the legacy bootstrap and the table of ratchet sessions of `CryptoBox`.
pub mod Roles
pub mod KeyChange
pub mod Bootstrap
use bachelor_s_thesis.Base.{
  ℕ, Bool, true, false, not, ◌&&◌, ◌||◌, Option, none, some, [], ◌∷◌, Bytes, Text, length, is_empty,
  nat_beq, ◌==◌, bytes_eq, if◌then◌else◌, ◌>>=◌, ◌>>◌, guard,
}
use bachelor_s_thesis.Base.HashMap
use bachelor_s_thesis.Base.HashMap.{HashMap}
use bachelor_s_thesis.Platform.{Platform}
use bachelor_s_thesis.Ratchet.Primitives.{bootstrap_sk, dh_fn, kdf_rk, gen_keypair}
use bachelor_s_thesis.Ratchet.Session.{RatchetSession, fresh_session}
use bachelor_s_thesis.CryptoBox.State.{CryptoBox, memcmp_lt}

-- Whether a recorded key differs from the new one; false where none is recorded.
abbrev pub differs : Option Bytes → Bytes → Bool
differs none pub_key = false
differs (some old) pub_key = not (old == pub_key)

module _ (p : Platform) where
  open p use {scalarmult_base, from_hex, to_hex}

  -- True is a key change, at which the session was dropped.
  unfoldable pub ensure_shared_key : CryptoBox → Text → Text → CryptoBox × Bool
  ensure_shared_key box peer peer_pub_hex =
      let pub_key = from_hex peer_pub_hex in
      let known = record box { peer_identity = HashMap.insert peer pub_key box.peer_identity } in
      if not (nat_beq (length pub_key) 32)
      then (box, false)
      else if differs (HashMap.lookup peer box.peer_identity) pub_key
      then (record known { sessions = HashMap.remove peer box.sessions }, true)
      else (known, false)

  unfoldable pub set_peer_identity : CryptoBox → Text → Text → CryptoBox × Bool
  set_peer_identity box peer peer_pub_hex =
      let pub_key = from_hex peer_pub_hex in
      if nat_beq (length pub_key) 32
      then (record box { peer_identity = HashMap.insert peer pub_key box.peer_identity }, true)
      else (box, false)

  unfoldable pub peer_identity_hex : CryptoBox → Text → Text
  peer_identity_hex box peer = elim (HashMap.lookup peer box.peer_identity) [
    | none ↦ []
    | some pub_key ↦ to_hex pub_key
  ]

  unfoldable pub shared_secret_with : CryptoBox → Text → Bytes
  shared_secret_with box peer_pub_hex =
      let pub_key = from_hex peer_pub_hex in
      if is_empty box.private_key || not (nat_beq (length pub_key) 32)
      then []
      else bootstrap_sk p box.private_key pub_key

  -- The session of the legacy bootstrap: the smaller identity key is the initiator.
  unfoldable pub bootstrap_session : CryptoBox → Bytes → Bytes → RatchetSession
  bootstrap_session box peer_pub fresh =
      let sk = bootstrap_sk p box.private_key peer_pub in
      let (priv, pub_key) = gen_keypair p fresh in
      let (rk, cks) = kdf_rk p sk (dh_fn p priv peer_pub) in
      if memcmp_lt 32 box.public_key peer_pub
      then record fresh_session {
        dhs_priv = priv;
        dhs_pub = pub_key;
        dhr_pub = peer_pub;
        rk = rk;
        cks = cks;
        have_dhr = true;
      }
      else record fresh_session {
        dhs_priv = box.private_key;
        dhs_pub = box.public_key;
        rk = sk;
        have_dhr = false;
      }

  -- The session with a peer, made and recorded if there is none yet.
  unfoldable pub session_for : CryptoBox → Text → Bytes → Option (RatchetSession × CryptoBox)
  session_for box peer fresh = elim (HashMap.lookup peer box.sessions) [
    | some s ↦ some (s, box)
    | none ↦ do
      peer_pub ← HashMap.lookup peer box.peer_identity
      guard (not (is_empty box.private_key))
      let s = bootstrap_session box peer_pub fresh
      some (s, record box { sessions = HashMap.insert peer s box.sessions })
  ]

unfoldable pub has_session_for : CryptoBox → Text → Bool
has_session_for box peer = HashMap.contains peer box.sessions

unfoldable pub drop_session : CryptoBox → Text → CryptoBox × Bool
drop_session box peer =
    (record box { sessions = HashMap.remove peer box.sessions }, HashMap.contains peer box.sessions)

unfoldable pub am_initiator_for : CryptoBox → Text → Bool
am_initiator_for box peer = elim (HashMap.lookup peer box.peer_identity) [
  | none ↦ false
  | some peer_pub ↦ if is_empty box.private_key then false else memcmp_lt 32 box.public_key peer_pub
]
