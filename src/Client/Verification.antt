-- ===== src/Client/Verification.antt =====
-- The verification of safety numbers in client/src/chatclient.cpp: a change of a peer's key closes the
-- conversation until both sides have verified. The lines for the window are texts; `today` is the date.
pub mod Gate
pub mod Flags
pub mod Refine
use bachelor_s_thesis.Base.{
  ℕ, ◌+◌, Bool, true, false, not, ◌&&◌, ◌||◌, Option, none, some, List, [], ◌∷◌, ◌++◌, Text, codes,
  is_empty, if◌then◌else◌, ◌==◌, nat_beq, ltb, bytes_eq,
}
use bachelor_s_thesis.Base.Int.{pos}
use bachelor_s_thesis.Base.HashMap
use bachelor_s_thesis.Base.HashSet
use bachelor_s_thesis.CryptoBox.Sessions.{drop_session, am_initiator_for}
use bachelor_s_thesis.MessageModel.{add_system}
use bachelor_s_thesis.Client.State.{
  ChatClient, World, SentFrame, error_occurred, emit, clear_session, add_system_row,
  record_verified_peer, record_peer_attested, verify_resync, if_ready, text_of, frames_of, count_of,
  send_text_message, request_key_for,
}
use bachelor_s_thesis.Client.Rekey.{reset_pcs_for}
use bachelor_s_thesis.Client.Sending.{my_key, send_or_queue_handshake, send_or_queue_verify_ack}
use bachelor_s_thesis.Client.Outbox.{flush_outbox}

-- A line in the conversation: on screen where it is open, and in the history.
unfoldable pub tell : ℕ → Text → Text → ChatClient → ChatClient
tell now peer line c = if_ready (add_system_row peer line now) (
    if peer == c.active_peer
    then record c { messages = add_system c.messages line (pos now) }
    else c)

abbrev pub resync_interval_ms : ℕ
resync_interval_ms = 3000

unfoldable pub awaiting_peer_verification : ChatClient → Text → Bool
awaiting_peer_verification c peer =
    HashSet.contains peer c.pending_bilateral && not (HashSet.contains peer c.unverified_key_change)

unfoldable pub key_change_line : Text → Text
key_change_line peer =
    (9888 ∷ 65039 ∷ codes " Security warning: ")
    ++ (peer
        ++ (codes
              "'s safety number has CHANGED. This can happen if they reinstalled the app or switched device -- but it can also mean someone is intercepting your messages. Verify the new safety number with "
            ++ (peer ++ codes " over a trusted channel before continuing.")))

unfoldable pub waiting_line : Text → Text
waiting_line peer =
    codes "You verified "
    ++ (peer
        ++ (codes "'s safety number. You can send messages now; they'll be delivered when "
            ++ (peer
                ++ (codes " is online. ("
                    ++ (peer ++ codes " hasn't verified your safety number yet.)")))))

unfoldable pub both_line : Text → Text
both_line today =
    codes "Safety number verified by both parties on "
    ++ (today ++ codes " — you can now send messages.")

unfoldable pub verified_you_line : Text → Text
verified_you_line peer =
    peer
    ++ (codes " verified your safety number. Verify "
        ++ (peer ++ codes " to start exchanging messages."))

-- The fields of an episode that ends.
unfoldable pub settle : Text → Text → ChatClient → ChatClient
settle peer me c =
    let identity = text_of peer c.peer_keys in
    record c {
      pending_bilateral = HashSet.remove peer c.pending_bilateral;
      verify_ack_resend = HashSet.remove peer c.verify_ack_resend;
      verified_peer_identity =
          if is_empty identity
          then c.verified_peer_identity
          else HashMap.insert peer identity c.verified_peer_identity;
      peer_verified_for_identity = HashMap.insert peer me c.peer_verified_for_identity;
      rekey_outstanding = HashSet.remove peer c.rekey_outstanding;
    }

-- The two sets that close the conversation.
unfoldable pub close : Text → ChatClient → ChatClient
close peer c = record c {
  unverified_key_change = HashSet.insert peer c.unverified_key_change;
  pending_bilateral = HashSet.insert peer c.pending_bilateral;
}

unfoldable pub forget_attested : Text → ChatClient → ChatClient
forget_attested peer c = record c { peer_verified = HashSet.remove peer c.peer_verified }

unfoldable pub note_resend : Text → ChatClient → ChatClient
note_resend peer c = record c {
  verify_ack_resend =
      if HashSet.contains peer c.peer_verified
      then HashSet.remove peer c.verify_ack_resend
      else HashSet.insert peer c.verify_ack_resend;
}

-- The user confirms that the peer's new safety number is right.
unfoldable pub accept_key : Text → ChatClient → ChatClient
accept_key peer c = record c { unverified_key_change = HashSet.remove peer c.unverified_key_change }

unfoldable pub tapped_line : Text → Bool → Text
tapped_line peer flagged =
    codes "[confirm] tapped for "
    ++ ((if is_empty peer then codes "(none)" else peer)
        ++ (codes " (flagged=" ++ ((if flagged then codes "yes" else codes "no") ++ codes ")")))

abbrev pub both_verified : Text → ChatClient → Bool
both_verified peer c =
    HashSet.contains peer c.pending_bilateral
    && (not (HashSet.contains peer c.unverified_key_change)
        && HashSet.contains peer c.peer_verified)

module _ (w : World) (now : ℕ) where
  unfoldable pub send_verify_resync : Text → ChatClient → ChatClient
  send_verify_resync peer c =
      let last = count_of peer c.last_verify_resync_ms in
      if is_empty peer || not c.connected
      then c
      else if not (nat_beq last 0) && ltb now (last + resync_interval_ms)
      then c
      else send_text_message (verify_resync peer (my_key w c) now)
          (record c { last_verify_resync_ms = HashMap.insert peer now c.last_verify_resync_ms })

  -- The peer has attested another identity of ours than the current one.
  abbrev pub is_stale : Text → ChatClient → Bool
  is_stale peer c = not (text_of peer c.peer_verified_for_identity == my_key w c)

  unfoldable pub drop_stale : Text → ChatClient → ChatClient
  drop_stale peer c =
      if is_stale peer c then send_verify_resync peer (forget_attested peer c) else c

  unfoldable pub flag_key_change : Text → ChatClient → ChatClient
  flag_key_change peer c =
      let closed = drop_stale peer (close peer c) in
      if HashSet.contains peer c.unverified_key_change
      then closed
      else tell now peer (key_change_line peer) closed

  unfoldable pub flush_if_waiting : ChatClient → ChatClient
  flush_if_waiting c = if c.connected && not (is_empty c.outbox) then flush_outbox w now c else c

  unfoldable pub record_identity : Text → ChatClient → ChatClient
  record_identity peer c =
      let identity = text_of peer c.peer_keys in
      if is_empty identity then c else if_ready (record_verified_peer peer identity now) c

  unfoldable pub record_settled : Text → ChatClient → ChatClient
  record_settled peer c =
      if_ready (record_peer_attested peer (my_key w c) now) (record_identity peer c)

  -- The end of the episode, for a peer that both have verified.
  unfoldable pub resolve : Text → Text → ChatClient → ChatClient
  resolve today peer c =
      flush_if_waiting
        (tell now peer (both_line today) (record_settled peer (settle peer (my_key w c) c)))

  unfoldable pub try_resolve_bilateral : Text → Text → ChatClient → ChatClient
  try_resolve_bilateral today peer c = if both_verified peer c then resolve today peer c else c

  unfoldable pub maybe_resend_verify_ack : Text → ChatClient → ChatClient
  maybe_resend_verify_ack peer c =
      if HashSet.contains peer c.verify_ack_resend
        && (HashSet.contains peer c.pending_bilateral
            && (not (HashSet.contains peer c.unverified_key_change)
                && (not (HashSet.contains peer c.peer_verified)
                    && HashMap.contains peer c.peer_keys)))
      then send_or_queue_verify_ack w now peer c
      else c

  unfoldable pub drop_chain : Text → ChatClient → ChatClient
  drop_chain peer c =
      reset_pcs_for peer
        (if_ready (clear_session peer) (record c { crypto = (drop_session c.crypto peer).0 }))

  unfoldable pub tell_waiting : Text → ChatClient → ChatClient
  tell_waiting peer c =
      if HashSet.contains peer c.peer_verified then c else tell now peer (waiting_line peer) c

  unfoldable pub open_chain : Text → ChatClient → ChatClient
  open_chain peer c =
      if am_initiator_for c.crypto peer then send_or_queue_handshake w now peer c else c

  unfoldable pub acknowledge_key_change : Text → Text → ChatClient → ChatClient
  acknowledge_key_change today peer c =
      let flagged = HashSet.contains peer c.unverified_key_change in
      let tapped = emit (error_occurred (tapped_line peer flagged)) c in
      if not flagged
      then try_resolve_bilateral today peer tapped
      else try_resolve_bilateral today peer (
          flush_if_waiting (
            open_chain peer (
              note_resend peer (
                send_or_queue_verify_ack w now peer
                  (drop_chain peer (tell_waiting peer (accept_key peer tapped)))))))

  -- The handler of `verify_resync`.
  unfoldable pub on_verify_resync : Text → Text → ChatClient → ChatClient
  on_verify_resync from to c =
      if from == c.nick || not (to == c.nick)
      then c
      else if HashMap.contains from c.peer_keys
          && (not (HashSet.contains from c.unverified_key_change)
              && not (HashSet.contains from c.pending_bilateral))
      then send_or_queue_verify_ack w now from c
      else c

  -- The ack names the key that we hold for the peer, and our own.
  abbrev pub is_bound : Text → Text → Text → ChatClient → Bool
  is_bound peer sender_ik verified_ik c =
      not (is_empty sender_ik)
      && ((sender_ik == text_of peer c.peer_keys)
          && (not (is_empty verified_ik) && (verified_ik == my_key w c)))

  unfoldable pub note_attested : Text → ChatClient → ChatClient
  note_attested peer c = record c {
    peer_verified = HashSet.insert peer c.peer_verified;
    peer_verified_for_identity = HashMap.insert peer (my_key w c) c.peer_verified_for_identity;
  }

  unfoldable pub attest : Text → Text → ChatClient → ChatClient
  attest today peer c =
      let noted = note_attested peer c in
      let news =
        not (HashSet.contains peer c.peer_verified)
        && (HashSet.contains peer c.pending_bilateral
            && HashSet.contains peer c.unverified_key_change) in
      try_resolve_bilateral today peer
        (if news then tell now peer (verified_you_line peer) noted else noted)

  -- The handler of `verifyack`; a frame of a peer without a key waits for the key.
  unfoldable pub on_verify_ack : Text → Text → Text → Text → Text → Text → ChatClient → ChatClient
  on_verify_ack today raw from to sender_ik verified_ik c =
      if from == c.nick || not (to == c.nick)
      then c
      else if not (HashMap.contains from c.peer_keys)
      then request_key_for from (record c {
        pending_frames =
            HashMap.insert from (frames_of from c.pending_frames ++ raw ∷ []) c.pending_frames;
      })
      else if is_bound from sender_ik verified_ik c
      then attest today from c
      else c
