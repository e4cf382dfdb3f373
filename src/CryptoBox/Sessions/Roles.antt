-- ===== src/CryptoBox/Sessions/Roles.antt =====
-- The deterministic bootstrap role of client/src/cryptobox.cpp.
use bachelor_s_thesis.Base.{
  ℕ, zero, suc, ◌≡◌, ◌≢◌, refl, sym, ◌∙◌, false, not, none, some, [], ◌∷◌, arith, Bytes, Text,
  length, is_empty, bytes_eq,
}
use bachelor_s_thesis.Base.HashMap
use bachelor_s_thesis.Platform.{Platform}
use bachelor_s_thesis.Ratchet.Session.{RatchetSession}
use bachelor_s_thesis.CryptoBox.State.{CryptoBox, memcmp_lt}
use bachelor_s_thesis.CryptoBox.Sessions.{bootstrap_session, session_for, am_initiator_for}

-- Of two different keys of one length exactly one sorts first.
memcmp_lt_opposite :
    (n : ℕ) (a b : Bytes)
    → length a ≡ n
    → length b ≡ n
    → a ≢ b
    → memcmp_lt n a b ≡ not (memcmp_lt n b a)
unfolding memcmp_lt
memcmp_lt_opposite zero [] [] h k ne = absurd (ne refl)
memcmp_lt_opposite zero (x ∷ a) b h k ne = absurd (omega arith)
memcmp_lt_opposite zero [] (y ∷ b) h k ne = absurd (omega arith)
memcmp_lt_opposite (suc n) [] b h k ne = absurd (omega arith)
memcmp_lt_opposite (suc n) (x ∷ a) [] h k ne = absurd (omega arith)
memcmp_lt_opposite (suc n) (x ∷ a) (y ∷ b) h k ne = ground (arith, memcmp_lt_opposite n a b)

-- The box has an identity, and knows the other's public key under a name.
pub record Knows (a : CryptoBox) (name : Text) (b : CryptoBox) : Type 0 where
  pub recorded : HashMap.lookup name a.peer_identity ≡ some b.public_key
  pub have_private : is_empty a.private_key ≡ false
  pub length-public : length a.public_key ≡ 32

am_initiator_for-Knows :
    (a b : CryptoBox) (name : Text)
    → Knows a name b
    → am_initiator_for a name ≡ memcmp_lt 32 a.public_key b.public_key
unfolding am_initiator_for
am_initiator_for-Knows a b name k = ground (arith, k.recorded, k.have_private)

-- Two peers that know each other and have different keys take opposite roles.
pub am_initiator_for_opposite :
    (a b : CryptoBox) (a_name b_name : Text)
    → Knows a b_name b
    → Knows b a_name a
    → a.public_key ≢ b.public_key
    → am_initiator_for a b_name ≡ not (am_initiator_for b a_name)
am_initiator_for_opposite a b a_name b_name k l ne =
    rw (am_initiator_for-Knows a b b_name k, am_initiator_for-Knows b a a_name l)
      (memcmp_lt_opposite 32 a.public_key b.public_key k.length-public l.length-public ne)

module _ (p : Platform) where
  bootstrap_session_role :
      (a : CryptoBox) (peer_pub fresh : Bytes)
      → (bootstrap_session p a peer_pub fresh).have_dhr ≡ memcmp_lt 32 a.public_key peer_pub
  unfolding bootstrap_session
  bootstrap_session_role a peer_pub fresh = ground arith

  session_for-new :
      (a b : CryptoBox) (name : Text) (fresh : Bytes)
      → Knows a name b
      → HashMap.lookup name a.sessions ≡ none
      → session_for p a name fresh
        ≡ some (
          bootstrap_session p a b.public_key fresh,
          record a {
            sessions = HashMap.insert name (bootstrap_session p a b.public_key fresh) a.sessions;
          },
        )
  unfolding session_for
  session_for-new a b name fresh k absent =
      rw (absent, session_for) (rw k.recorded (rw k.have_private))

  -- With a known peer and no session yet a session is made and recorded under the peer's name, the
  -- role in it is the one that the client is told, and no recorded identity changes.
  pub session_for_role :
      (a b : CryptoBox) (name : Text) (fresh : Bytes)
      → Knows a name b
      → HashMap.lookup name a.sessions ≡ none
      → (s : RatchetSession) × (a' : CryptoBox) × (session_for p a name fresh ≡ some (s, a'))
        × (s.have_dhr ≡ am_initiator_for a name)
        × (HashMap.lookup name a'.sessions ≡ some s)
        × (a'.peer_identity ≡ a.peer_identity)
  session_for_role a b name fresh k absent = (
    bootstrap_session p a b.public_key fresh,
    _,
    session_for-new a b name fresh k absent,
    bootstrap_session_role a b.public_key fresh ∙ sym (am_initiator_for-Knows a b name k),
    HashMap.lookup-insert_self name (bootstrap_session p a b.public_key fresh) a.sessions,
    refl,
  )
