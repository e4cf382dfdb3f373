-- ===== src/Client/Rekey.antt =====
-- The recovery from a compromise in client/src/chatclient.cpp: rekey pings and pongs, their retries,
-- and the kick timer. `now` is the clock of the call.
pub mod Allowed
pub mod Calls
pub mod Budget
pub mod SameFor
pub mod Passes
pub mod Waits
pub mod Offline
use bachelor_s_thesis.Base.{
  ℕ, ◌+◌, ◌*◌, Bool, true, false, not, ◌&&◌, ◌||◌, Option, none, some, List, [], ◌∷◌, Text, codes,
  is_empty, if◌then◌else◌, nat_beq, ltb, leb, bytes_eq,
}
use bachelor_s_thesis.Base.HashMap
use bachelor_s_thesis.Base.HashSet
use bachelor_s_thesis.CryptoBox.Sessions.{has_session_for}
use bachelor_s_thesis.CryptoBox.Messages.{Encrypted, failed, not_ready, sealed, WireFrame}
use bachelor_s_thesis.Client.State.{
  ChatClient, World, MsgKind, rekey_ping, rekey_pong, SentFrame, msg, count_of, keys,
  send_text_message, conversation_blocked, is_online, persist_session, encrypt,
}

abbrev pub rekey_after_messages : ℕ
rekey_after_messages = 8

abbrev pub rekey_pong_timeout_ms : ℕ
rekey_pong_timeout_ms = 8000

abbrev pub rekey_ping_max_resends : ℕ
rekey_ping_max_resends = 5

abbrev pub rekey_kick_max_tries : ℕ
rekey_kick_max_tries = 8

-- The first code unit of both sentinels is 1.
abbrev pub ping_sentinel : Text
ping_sentinel = 1 ∷ codes "__chate2ee_rekey_ping__"

abbrev pub pong_sentinel : Text
pong_sentinel = 1 ∷ codes "__chate2ee_rekey_pong__"

unfoldable pub mark_rekey_ping_sent : ℕ → Text → ChatClient → ChatClient
mark_rekey_ping_sent now peer c = if is_empty peer then c else record c {
  rekey_ping_resends =
      if HashSet.contains peer c.rekey_outstanding
      then c.rekey_ping_resends
      else HashMap.insert peer 0 c.rekey_ping_resends;
  rekey_outstanding = HashSet.insert peer c.rekey_outstanding;
  rekey_ping_sent_at = HashMap.insert peer now c.rekey_ping_sent_at;
  kick_timer_active = true;
}

unfoldable pub forget_ping : Text → ChatClient → ChatClient
forget_ping peer c = record c {
  rekey_outstanding = HashSet.remove peer c.rekey_outstanding;
  rekey_ping_sent_at = HashMap.remove peer c.rekey_ping_sent_at;
  rekey_ping_resends = HashMap.remove peer c.rekey_ping_resends;
}

unfoldable pub note_inbound_from : Text → ChatClient → ChatClient
note_inbound_from peer c =
    if is_empty peer
    then c
    else forget_ping peer
        (record c { sent_since_ratchet = HashMap.insert peer 0 c.sent_since_ratchet })

unfoldable pub reset_pcs_for : Text → ChatClient → ChatClient
reset_pcs_for peer c =
    if is_empty peer
    then c
    else forget_ping peer
        (record c { sent_since_ratchet = HashMap.remove peer c.sent_since_ratchet })

unfoldable pub clear_pcs_state : ChatClient → ChatClient
clear_pcs_state c = record c {
  kick_timer_active = false;
  sent_since_ratchet = [];
  rekey_outstanding = [];
  rekey_ping_sent_at = [];
  rekey_ping_resends = [];
  pong_owed = [];
  heal_pending = [];
  rekey_kick_tries = 0;
}

-- What follows a call that reports whether it has sent.
abbrev pub either_way {ℓ} :
    {A : Type ℓ} → (ChatClient → A) → (ChatClient → A) → ChatClient × Bool → A
either_way sent unsent (c, done) = if done then sent c else unsent c

-- A fresh trigger has the full budget of retries.
unfoldable pub kick_afresh : ChatClient → ChatClient
kick_afresh c = record c { rekey_kick_tries = 0; kick_timer_active = true }

unfoldable pub pong_paid : Text → ChatClient → ChatClient
pong_paid peer c = record c { pong_owed = HashSet.remove peer c.pong_owed }

unfoldable pub heal_done : Text → ChatClient → ChatClient
heal_done peer c = record c { heal_pending = HashSet.remove peer c.heal_pending }

unfoldable pub deferred : Text → ChatClient → ChatClient
deferred peer c = record c { heal_pending = HashSet.insert peer c.heal_pending }

-- A peer whose verification is under way.
abbrev pub is_gated : ChatClient → Text → Bool
is_gated c peer =
    HashSet.contains peer c.unverified_key_change || HashSet.contains peer c.pending_bilateral

unfoldable pub count_outbound : Text → ChatClient → ChatClient
count_outbound peer c = record c {
  sent_since_ratchet =
      HashMap.insert peer (count_of peer c.sent_since_ratchet + 1) c.sent_since_ratchet;
}

module _ (now : ℕ) where
  unfoldable pub ping_resent : Text → ChatClient → ChatClient
  ping_resent peer c = record c {
    rekey_ping_sent_at = HashMap.insert peer now c.rekey_ping_sent_at;
    rekey_ping_resends =
        HashMap.insert peer (count_of peer c.rekey_ping_resends + 1) c.rekey_ping_resends;
  }

  unfoldable pub is_overdue : ChatClient → Text → Bool
  is_overdue c peer =
      let sent_at = count_of peer c.rekey_ping_sent_at in
      not (nat_beq sent_at 0 || ltb now (sent_at + rekey_pong_timeout_ms))

module _ (w : World) (now : ℕ) where
  -- What is done with the result of the encryption.
  unfoldable pub hand_over : MsgKind → Text → ChatClient × Encrypted → ChatClient × Bool
  hand_over kind peer (c, failed) = (c, false)
  hand_over kind peer (c, not_ready) = (c, false)
  hand_over kind peer (c, sealed frame) =
      (persist_session w peer (send_text_message (msg peer kind frame now) c), true)

  unfoldable pub transmit_rekey : Bool → Text → ChatClient → ChatClient × Bool
  transmit_rekey is_pong peer c =
      if not is_pong && (conversation_blocked c peer || not (is_online c.users peer))
      then (c, false)
      else hand_over (if is_pong then rekey_pong else rekey_ping) peer
          (encrypt w peer (if is_pong then pong_sentinel else ping_sentinel) c)

  -- `hasSessionFor` and then a ping or pong.
  unfoldable pub try_rekey : Bool → Text → ChatClient → ChatClient × Bool
  try_rekey is_pong peer c =
      if has_session_for c.crypto peer then transmit_rekey is_pong peer c else (c, false)

  unfoldable pub note_outbound_to : Text → ChatClient → ChatClient
  note_outbound_to peer c =
      if is_empty peer
      then c
      else if leb rekey_after_messages (count_of peer c.sent_since_ratchet + 1)
          && (not (HashSet.contains peer c.rekey_outstanding)
              && (c.connected && has_session_for c.crypto peer))
      then either_way (mark_rekey_ping_sent now peer) kick_afresh
          (transmit_rekey false peer (count_outbound peer c))
      else count_outbound peer c

  -- Part 0 of `kickRekey`: a ping in flight.
  unfoldable pub recheck_ping : Text → ChatClient → ChatClient
  recheck_ping peer c =
      if not (is_overdue now c peer)
      then c
      else if leb rekey_ping_max_resends (count_of peer c.rekey_ping_resends)
      then forget_ping peer c
      else either_way (ping_resent now peer) (λ c'. c') (try_rekey false peer c)

  -- Parts 1 to 3, on one peer: the client and `stillPending`.
  unfoldable pub pay_ping : Text → ChatClient × Bool → ChatClient × Bool
  pay_ping peer (c, pending) =
      if ltb 0 (count_of peer c.sent_since_ratchet)
        && (not (HashSet.contains peer c.rekey_outstanding)
            && (not (is_gated c peer) && has_session_for c.crypto peer))
      then either_way (λ c'. (mark_rekey_ping_sent now peer c', pending)) (λ c'. (c', true))
          (transmit_rekey false peer c)
      else (c, pending)

  unfoldable pub pay_pong : Text → ChatClient × Bool → ChatClient × Bool
  pay_pong peer (c, pending) =
      either_way (λ c'. (pong_paid peer c', pending)) (λ c'. (c', true)) (try_rekey true peer c)

  unfoldable pub pay_heal : Text → ChatClient × Bool → ChatClient × Bool
  pay_heal peer (c, pending) =
      if is_gated c peer || HashSet.contains peer c.rekey_outstanding
      then (heal_done peer c, pending)
      else either_way (λ c'. (heal_done peer (mark_rekey_ping_sent now peer c'), pending))
          (λ c'. (c', true)) (try_rekey false peer c)

-- One after another, over a copy of the list.
abbrev pub each {κ ℓ} : {K : Type κ} {A : Type ℓ} → (K → A → A) → List K → A → A
each f [] a = a
each f (k ∷ ks) a = each f ks (f k a)

-- A pong that is owed to a peer with a session.
unfoldable pub payable : ChatClient → List Text → Bool
payable c [] = false
payable c (peer ∷ peers) = has_session_for c.crypto peer || payable c peers

-- How `kickRekey` ends: the timer is started again, or not.
unfoldable pub rearm : ChatClient × Bool → ChatClient
rearm (c, pending) =
    if payable c c.pong_owed || not (is_empty c.rekey_outstanding)
    then kick_afresh c
    else if pending && ltb (c.rekey_kick_tries + 1) rekey_kick_max_tries
    then record c { rekey_kick_tries = c.rekey_kick_tries + 1; kick_timer_active = true }
    else record c { rekey_kick_tries = 0 }

module _ (w : World) (now : ℕ) where
  -- The kick timer is a single shot: it has fired when this runs.
  unfoldable pub kick_rekey : ChatClient → ChatClient
  kick_rekey fired =
      let c = record fired { kick_timer_active = false } in
      if not c.connected
      then c
      else let c0 = each (recheck_ping w now) c.rekey_outstanding c in
        let (c1, p1) = each (pay_ping w now) (keys c0.sent_since_ratchet) (c0, false) in
        let (c2, p2) = each (pay_pong w now) c1.pong_owed (c1, p1) in
        rearm (each (pay_heal w now) c2.heal_pending (c2, p2))

  unfoldable pub send_owed_pong_if_ready : Text → ChatClient → ChatClient
  send_owed_pong_if_ready peer c =
      if is_empty peer || not (HashSet.contains peer c.pong_owed) || not c.connected
      then c
      else either_way (pong_paid peer) (λ c'. c') (try_rekey w now true peer c)

  unfoldable pub heal_peer : Text → ChatClient → ChatClient
  heal_peer peer c =
      if is_empty peer
        || (not (has_session_for c.crypto peer)
            || (is_gated c peer || HashSet.contains peer c.rekey_outstanding))
      then c
      else either_way (λ c'. heal_done peer (mark_rekey_ping_sent now peer c')) (deferred peer)
          (if c.connected then transmit_rekey w now false peer c else (c, false))

  unfoldable pub reestablish_pcs_for_all : ChatClient → ChatClient
  reestablish_pcs_for_all c =
      let c' = each heal_peer (keys c.peer_keys) c in
      if is_empty c'.heal_pending then c' else kick_afresh c'

  unfoldable pub force_rekey : Text → ChatClient → ChatClient
  force_rekey peer c =
      if is_empty peer || (not c.connected || not (has_session_for c.crypto peer))
      then c
      else if HashSet.contains peer c.rekey_outstanding
      then c
      else either_way (mark_rekey_ping_sent now peer) (λ c'. c') (transmit_rekey w now false peer c)
