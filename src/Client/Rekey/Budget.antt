-- ===== src/Client/Rekey/Budget.antt =====
-- What the recovery of client/src/chatclient.cpp keeps of the pings in flight, and one ping in a pass.
use bachelor_s_thesis.Base.{
  ℕ, ◌≤◌, ◌<◌, ◌≡◌, refl, Bool, true, false, [], ◌∷◌, ◌++◌, Text, if◌then◌else◌, arith, bytes_eq,
}
use bachelor_s_thesis.CryptoBox.Sessions.{has_session_for}
use bachelor_s_thesis.CryptoBox.Messages.{Encrypted, failed, not_ready, sealed}
use bachelor_s_thesis.Client.State.{
  ChatClient, World, MsgKind, HistoryCall, count_of, send_text_message, if_ready, is_online,
  persist_session, encrypt,
}
use bachelor_s_thesis.Client.Rekey.{
  forget_ping, hand_over, transmit_rekey, try_rekey, is_overdue, recheck_ping,
  rekey_ping_max_resends,
}

-- The bookkeeping of the pings in flight.
pub record SamePings (c c' : ChatClient) : Type 0 where
  pub outstanding : c'.rekey_outstanding ≡ c.rekey_outstanding
  pub sent_at : c'.rekey_ping_sent_at ≡ c.rekey_ping_sent_at
  pub resends : c'.rekey_ping_resends ≡ c.rekey_ping_resends
  pub users : c'.users ≡ c.users
  pub connected : c'.connected ≡ c.connected

same : (c : ChatClient) → SamePings c c
same c = record {
  outstanding = refl;
  sent_at = refl;
  resends = refl;
  users = refl;
  connected = refl;
}

if_ready-SamePings :
    (h : HistoryCall) (c d : ChatClient) → SamePings c d → SamePings c (if_ready h d)
unfolding if_ready
if_ready-SamePings h c d s = either d.history_ready
  where
    logged : ChatClient
    logged = record d { history = d.history ++ h ∷ [] }

    either : (b : Bool) → SamePings c (if b then logged else d)
    either true = record {
      outstanding = s.outstanding;
      sent_at = s.sent_at;
      resends = s.resends;
      users = s.users;
      connected = s.connected;
    }
    either false = s

if_pair-SamePings :
    {B : Type 0} (c : ChatClient) (x y : ChatClient × B) (b : Bool)
    → SamePings c x.0
    → SamePings c y.0
    → SamePings c (if b then x else y).0
if_pair-SamePings c x y true h k = h
if_pair-SamePings c x y false h k = k

module _ (w : World) (now : ℕ) where
  hand_over-SamePings :
      (kind : MsgKind) (peer : Text) (c : ChatClient) (r : ChatClient × Encrypted)
      → SamePings c r.0
      → SamePings c (hand_over w now kind peer r).0
  unfolding hand_over persist_session send_text_message
  hand_over-SamePings kind peer c (d, failed) s = s
  hand_over-SamePings kind peer c (d, not_ready) s = s
  hand_over-SamePings kind peer c (d, sealed frame) s = if_ready-SamePings _ c _ (record {
    outstanding = s.outstanding;
    sent_at = s.sent_at;
    resends = s.resends;
    users = s.users;
    connected = s.connected;
  })

  pub transmit-SamePings :
      (is_pong : Bool) (peer : Text) (c : ChatClient)
      → SamePings c (transmit_rekey w now is_pong peer c).0
  unfolding transmit_rekey encrypt
  transmit-SamePings is_pong peer c =
      if_pair-SamePings c (c, false) (hand_over w now _ peer _) _ (same c)
        (hand_over-SamePings _ peer c _ (record {
          outstanding = refl;
          sent_at = refl;
          resends = refl;
          users = refl;
          connected = refl;
        }))

  pub try-SamePings :
      (is_pong : Bool) (peer : Text) (c : ChatClient)
      → SamePings c (try_rekey w now is_pong peer c).0
  unfolding try_rekey
  try-SamePings is_pong peer c =
      if_pair-SamePings c (transmit_rekey w now is_pong peer c) (c, false)
        (has_session_for c.crypto peer) (transmit-SamePings is_pong peer c) (same c)

  -- A ping that is not answered in time, and what becomes of it.
  module _ (peer : Text) (c : ChatClient) (late : is_overdue now c peer ≡ true) where
    pub recheck_worn_out :
        rekey_ping_max_resends ≤ count_of peer c.rekey_ping_resends
        → recheck_ping w now peer c ≡ forget_ping peer c
    unfolding recheck_ping
    recheck_worn_out h = ground arith

  pub recheck_offline :
      (peer : Text) (c : ChatClient)
      → is_online c.users peer ≡ false
      → count_of peer c.rekey_ping_resends < rekey_ping_max_resends
      → recheck_ping w now peer c ≡ c
  unfolding recheck_ping try_rekey transmit_rekey
  recheck_offline peer c h k = ground arith
