-- ===== src/Client/Rekey/Calls.antt =====
-- Every call on the recovery of client/src/chatclient.cpp sends its pings only where they are allowed.
use bachelor_s_thesis.Base.{
  ℕ, refl, Bool, true, false, not, [], ◌∷◌, Text, is_empty, if◌then◌else◌, arith, leb, bytes_eq,
}
use bachelor_s_thesis.Base.HashSet
use bachelor_s_thesis.Base.HashMap
use bachelor_s_thesis.CryptoBox.Sessions.{has_session_for}
use bachelor_s_thesis.CryptoBox.Messages.{WireFrame, Encrypted, failed, not_ready, sealed}
use bachelor_s_thesis.Client.State.{
  ChatClient, World, SentFrame, msg, MsgKind, rekey_ping, rekey_pong, count_of, keys,
  send_text_message, persist_session, encrypt,
}
use bachelor_s_thesis.Client.Rekey.{
  either_way, each, mark_rekey_ping_sent, forget_ping, note_inbound_from, reset_pcs_for,
  clear_pcs_state, kick_afresh, pong_paid, heal_done, count_outbound, transmit_rekey, hand_over,
  try_rekey, note_outbound_to, ping_resent, is_overdue, recheck_ping, pay_ping, pay_pong, pay_heal,
  rearm, kick_rekey, send_owed_pong_if_ready, heal_peer, reestablish_pcs_for_all, force_rekey,
  deferred, rekey_ping_max_resends, ping_sentinel, pong_sentinel,
}
use bachelor_s_thesis.Client.Rekey.Allowed.{
  IsAllowed, IsAllowed-kept, SendsAllowed, quiet, still, follow, if-Allowed, if_pair-Allowed,
  if_ready-Allowed, quiet-Allowed, resent-Allowed, pong_paid-Allowed, heal_done-Allowed,
  kick_afresh-Allowed, mark_heal-Allowed, rearm-Allowed, either_way-Allowed, either_pair-Allowed,
  each-Allowed, each_pair-Allowed, mark-Allowed, forget-Allowed,
}

-- The calls of the message handlers, the timers and the lifecycle.
pub data RekeyCall : Type 0 where
  outbound inbound reset owed force : Text → RekeyCall
  wipe kick heal_all : RekeyCall

unfoldable pub rekey_call : World → ℕ → RekeyCall → ChatClient → ChatClient
rekey_call w now (outbound peer) c = note_outbound_to w now peer c
rekey_call w now (inbound peer) c = note_inbound_from peer c
rekey_call w now (reset peer) c = reset_pcs_for peer c
rekey_call w now wipe c = clear_pcs_state c
rekey_call w now kick c = kick_rekey w now c
rekey_call w now (owed peer) c = send_owed_pong_if_ready w now peer c
rekey_call w now heal_all c = reestablish_pcs_for_all w now c
rekey_call w now (force peer) c = force_rekey w now peer c

deferred-Allowed : (peer : Text) (c : ChatClient) → SendsAllowed c (deferred peer c)
unfolding deferred
deferred-Allowed peer c = quiet-Allowed c (deferred peer c) refl refl refl refl refl

count-Allowed : (peer : Text) (c : ChatClient) → SendsAllowed c (count_outbound peer c)
unfolding count_outbound
count-Allowed peer c = quiet-Allowed c (count_outbound peer c) refl refl refl refl refl

module _ (w : World) (now : ℕ) where
  pub encrypt-Allowed : (peer t : Text) (c : ChatClient) → SendsAllowed c (encrypt w peer t c).0
  unfolding encrypt
  encrypt-Allowed peer t c =
      quiet (record { unverified = refl; pending = refl; users = refl; peer_verified = refl }) refl

  pub send-Allowed :
      (f : SentFrame) (c d : ChatClient)
      → SendsAllowed c d
      → IsAllowed d f
      → SendsAllowed c (send_text_message f d)
  unfolding send_text_message
  send-Allowed f c d s h = follow s (record {
    gates = record { unverified = refl; pending = refl; users = refl; peer_verified = refl };
    added = f ∷ [];
    sent = refl;
    allowed = (h, tt);
  })

  pub persist-Allowed : (peer : Text) (c : ChatClient) → SendsAllowed c (persist_session w peer c)
  unfolding persist_session
  persist-Allowed peer c = if_ready-Allowed _ c

  hand_over-Allowed :
      (kind : MsgKind) (peer : Text) (c : ChatClient) (r : ChatClient × Encrypted)
      → SendsAllowed c r.0
      → ((frame : WireFrame) → IsAllowed r.0 (msg peer kind frame now))
      → SendsAllowed c (hand_over w now kind peer r).0
  unfolding hand_over
  hand_over-Allowed kind peer c (d, failed) h k = h
  hand_over-Allowed kind peer c (d, not_ready) h k = h
  hand_over-Allowed kind peer c (d, sealed frame) h k =
      follow (send-Allowed (msg peer kind frame now) c d h (k frame)) (persist-Allowed peer _)

  transmit-Allowed :
      (is_pong : Bool) (peer : Text) (c : ChatClient)
      → SendsAllowed c (transmit_rekey w now is_pong peer c).0
  unfolding transmit_rekey
  transmit-Allowed true peer c =
      hand_over-Allowed rekey_pong peer c _ (encrypt-Allowed peer pong_sentinel c) (λ frame. tt)
  transmit-Allowed false peer c = if_pair-Allowed c _ _ _ (still c) (λ e.
      hand_over-Allowed rekey_ping peer c (encrypt w peer ping_sentinel c)
        (encrypt-Allowed peer ping_sentinel c)
        (λ frame.
          IsAllowed-kept (encrypt-Allowed peer ping_sentinel c).gates peer frame now (ground arith)
            (ground arith)))

  try-Allowed :
      (is_pong : Bool) (peer : Text) (c : ChatClient)
      → SendsAllowed c (try_rekey w now is_pong peer c).0
  unfolding try_rekey
  try-Allowed is_pong peer c =
      if_pair-Allowed c (transmit_rekey w now is_pong peer c) (c, false)
        (has_session_for c.crypto peer) (transmit-Allowed is_pong peer c) (λ e. still c)

  recheck-Allowed : (peer : Text) (c : ChatClient) → SendsAllowed c (recheck_ping w now peer c)
  unfolding recheck_ping
  recheck-Allowed peer c =
      let again = either_way (ping_resent now peer) (λ d. d) (try_rekey w now false peer c) in
      let worn = leb rekey_ping_max_resends (count_of peer c.rekey_ping_resends) in
      if-Allowed c c (if worn then forget_ping peer c else again) (not (is_overdue now c peer))
        (still c)
        (λ e. if-Allowed c (forget_ping peer c) again worn (forget-Allowed peer c) (λ e'.
          either_way-Allowed c (ping_resent now peer) (λ d. d) (try_rekey w now false peer c)
            (try-Allowed false peer c) (resent-Allowed now peer) still))

  pay_ping-Allowed :
      (peer : Text) (r : ChatClient × Bool) → SendsAllowed r.0 (pay_ping w now peer r).0
  unfolding pay_ping
  pay_ping-Allowed peer (c, pending) =
      let sent : ChatClient → ChatClient × Bool = λ d. (mark_rekey_ping_sent now peer d, pending) in
      let unsent : ChatClient → ChatClient × Bool = λ d. (d, true) in
      if_pair-Allowed c (either_way sent unsent (transmit_rekey w now false peer c)) (c, pending) _
        (either_pair-Allowed c sent unsent (transmit_rekey w now false peer c)
          (transmit-Allowed false peer c) (mark-Allowed now peer) still)
        (λ e. still c)

  pay_pong-Allowed :
      (peer : Text) (r : ChatClient × Bool) → SendsAllowed r.0 (pay_pong w now peer r).0
  unfolding pay_pong
  pay_pong-Allowed peer (c, pending) =
      either_pair-Allowed c (λ d. (pong_paid peer d, pending)) (λ d. (d, true))
        (try_rekey w now true peer c) (try-Allowed true peer c) (pong_paid-Allowed peer) still

  pay_heal-Allowed :
      (peer : Text) (r : ChatClient × Bool) → SendsAllowed r.0 (pay_heal w now peer r).0
  unfolding pay_heal
  pay_heal-Allowed peer (c, pending) =
      let sent : ChatClient → ChatClient × Bool =
        λ d. (heal_done peer (mark_rekey_ping_sent now peer d), pending) in
      let unsent : ChatClient → ChatClient × Bool = λ d. (d, true) in
      if_pair-Allowed c (heal_done peer c, pending)
        (either_way sent unsent (try_rekey w now false peer c)) _ (heal_done-Allowed peer c)
        (λ e.
          either_pair-Allowed c sent unsent (try_rekey w now false peer c)
            (try-Allowed false peer c) (mark_heal-Allowed now peer) still)

  kick-Allowed : (c : ChatClient) → SendsAllowed c (kick_rekey w now c)
  unfolding kick_rekey
  kick-Allowed c = follow (quiet-Allowed c fired refl refl refl refl refl) (
      if-Allowed fired fired (rearm r3) (not c.connected) (still fired) (λ e.
        follow (each-Allowed (recheck_ping w now) recheck-Allowed c.rekey_outstanding fired) (
          follow
            (each_pair-Allowed (pay_ping w now) pay_ping-Allowed (keys c0.sent_since_ratchet)
              (c0, false))
            (follow (each_pair-Allowed (pay_pong w now) pay_pong-Allowed r1.0.pong_owed r1) (
              follow (each_pair-Allowed (pay_heal w now) pay_heal-Allowed r2.0.heal_pending r2)
                (rearm-Allowed r3))))))
    where
      fired : ChatClient
      fired = record c { kick_timer_active = false }

      c0 : ChatClient
      c0 = each (recheck_ping w now) c.rekey_outstanding fired

      r1 : ChatClient × Bool
      r1 = each (pay_ping w now) (keys c0.sent_since_ratchet) (c0, false)

      r2 : ChatClient × Bool
      r2 = each (pay_pong w now) r1.0.pong_owed r1

      r3 : ChatClient × Bool
      r3 = each (pay_heal w now) r2.0.heal_pending r2

  pub outbound-Allowed :
      (peer : Text) (c : ChatClient) → SendsAllowed c (note_outbound_to w now peer c)
  unfolding note_outbound_to
  outbound-Allowed peer c =
      let counted = count_outbound peer c in
      let quietly = count-Allowed peer c in
      let ping =
        either_way (mark_rekey_ping_sent now peer) kick_afresh
          (transmit_rekey w now false peer counted) in
      if-Allowed c c _ (is_empty peer) (still c) (λ e.
        if-Allowed c ping counted _
          (either_way-Allowed c (mark_rekey_ping_sent now peer) kick_afresh
            (transmit_rekey w now false peer counted)
            (follow quietly (transmit-Allowed false peer counted)) (mark-Allowed now peer)
            kick_afresh-Allowed)
          (λ e'. quietly))

  owed-Allowed :
      (peer : Text) (c : ChatClient) → SendsAllowed c (send_owed_pong_if_ready w now peer c)
  unfolding send_owed_pong_if_ready
  owed-Allowed peer c = if-Allowed c c _ _ (still c) (λ e.
      either_way-Allowed c (pong_paid peer) (λ d. d) (try_rekey w now true peer c)
        (try-Allowed true peer c) (pong_paid-Allowed peer) still)

  force-Allowed : (peer : Text) (c : ChatClient) → SendsAllowed c (force_rekey w now peer c)
  unfolding force_rekey
  force-Allowed peer c =
      let ping =
        either_way (mark_rekey_ping_sent now peer) (λ d. d) (transmit_rekey w now false peer c) in
      let in_flight = HashSet.contains peer c.rekey_outstanding in
      if-Allowed c c (if in_flight then c else ping) _ (still c) (λ e.
        if-Allowed c c ping in_flight (still c) (λ e'.
          either_way-Allowed c (mark_rekey_ping_sent now peer) (λ d. d)
            (transmit_rekey w now false peer c) (transmit-Allowed false peer c)
            (mark-Allowed now peer) still))

  heal_peer-Allowed : (peer : Text) (c : ChatClient) → SendsAllowed c (heal_peer w now peer c)
  unfolding heal_peer
  heal_peer-Allowed peer c =
      let sent : ChatClient → ChatClient = λ d. heal_done peer (mark_rekey_ping_sent now peer d) in
      let tried = if c.connected then transmit_rekey w now false peer c else (c, false) in
      if-Allowed c c (either_way sent (deferred peer) tried) _ (still c) (λ e.
        either_way-Allowed c sent (deferred peer) tried
          (if_pair-Allowed c (transmit_rekey w now false peer c) (c, false) c.connected
            (transmit-Allowed false peer c) (λ e'. still c))
          (mark_heal-Allowed now peer) (deferred-Allowed peer))

  heal_all-Allowed : (c : ChatClient) → SendsAllowed c (reestablish_pcs_for_all w now c)
  unfolding reestablish_pcs_for_all
  heal_all-Allowed c =
      let d = each (heal_peer w now) (keys c.peer_keys) c in
      follow (each-Allowed (heal_peer w now) heal_peer-Allowed (keys c.peer_keys) c)
        (if-Allowed d d (kick_afresh d) _ (still d) (λ e. kick_afresh-Allowed d))

  -- Whatever is called of the recovery, the kick timer's pass included, frames are only added, each
  -- ping among them is for a peer that is online and whose conversation is not blocked, and no
  -- verification moves.
  pub rekey_call-Allowed :
      (call : RekeyCall) (c : ChatClient) → SendsAllowed c (rekey_call w now call c)
  unfolding rekey_call note_inbound_from reset_pcs_for clear_pcs_state
  rekey_call-Allowed (outbound peer) c = outbound-Allowed peer c
  rekey_call-Allowed (inbound peer) c = if-Allowed c c _ (is_empty peer) (still c) (λ e.
      let d = record c { sent_since_ratchet = HashMap.insert peer 0 c.sent_since_ratchet } in
      follow (quiet-Allowed c d refl refl refl refl refl) (forget-Allowed peer d))
  rekey_call-Allowed (reset peer) c = if-Allowed c c _ (is_empty peer) (still c) (λ e.
      let d = record c { sent_since_ratchet = HashMap.remove peer c.sent_since_ratchet } in
      follow (quiet-Allowed c d refl refl refl refl refl) (forget-Allowed peer d))
  rekey_call-Allowed wipe c = quiet-Allowed c (clear_pcs_state c) refl refl refl refl refl
  rekey_call-Allowed kick c = kick-Allowed c
  rekey_call-Allowed (owed peer) c = owed-Allowed peer c
  rekey_call-Allowed heal_all c = heal_all-Allowed c
  rekey_call-Allowed (force peer) c = force-Allowed peer c
