-- ===== src/Client/Sending/Allowed.antt =====
-- The sends of client/src/chatclient.cpp for one peer: no file goes to a peer whose conversation is
-- blocked, and no verification moves.
use bachelor_s_thesis.Base.{
  ℕ, ◌≡◌, refl, true, false, not, ◌||◌, List, [], ◌∷◌, ◌++◌, map, Bytes, Text, codes, is_empty,
  length, if◌then◌else◌, arith, bytes_eq,
}
use bachelor_s_thesis.Base.Int.{negsuc}
use bachelor_s_thesis.Base.HashMap
use bachelor_s_thesis.CryptoBox.Messages.{Encrypted, failed, not_ready, sealed}
use bachelor_s_thesis.FileCrypto.{FileCrypto}
use bachelor_s_thesis.FileTransfer.{pump}
use bachelor_s_thesis.Client.State.{
  ChatClient, World, Payload, PendingOut, HistoryCall, Signal, msg, rebootstrap, verify_ack,
  file_init, file_end, chunk, error_occurred, emit, call_history, handshake, text_of,
  send_text_message, request_key_for, conversation_blocked, persist_session, get_key,
}
use bachelor_s_thesis.Client.Rekey.{note_outbound_to, either_way}
use bachelor_s_thesis.Client.Rekey.Allowed.{
  AllAllowed, SendsAllowed, quiet-Allowed, still, follow, if-Allowed, if_pair-Allowed,
  either_way-Allowed,
}
use bachelor_s_thesis.Client.Rekey.Calls.{
  encrypt-Allowed, send-Allowed, persist-Allowed, outbound-Allowed,
}
use bachelor_s_thesis.Client.Sending.{
  handshake_sentinel, keep, my_key, enqueue, path_of, queue_outbox_file, handshake_sent,
  transmit_handshake, queue_handshake, send_or_queue_handshake, transmit_verify_ack,
  queue_verify_ack, send_or_queue_verify_ack, file_sent, pump_outgoing_file, drop_source,
  file_key_sealed,
}

pub keep-Allowed : (m : PendingOut) (c : ChatClient) → SendsAllowed c (keep m c)
unfolding keep
keep-Allowed m c = quiet-Allowed c (keep m c) refl refl refl refl refl

pub emit-Allowed : (s : Signal) (c : ChatClient) → SendsAllowed c (emit s c)
unfolding emit
emit-Allowed s c = quiet-Allowed c (emit s c) refl refl refl refl refl

pub call_history-Allowed : (h : HistoryCall) (c : ChatClient) → SendsAllowed c (call_history h c)
unfolding call_history
call_history-Allowed h c = quiet-Allowed c (call_history h c) refl refl refl refl refl

drop_source-Allowed : (id : Text) (c : ChatClient) → SendsAllowed c (drop_source id c)
unfolding drop_source
drop_source-Allowed id c = quiet-Allowed c (drop_source id c) refl refl refl refl refl

pub blocked-Allowed :
    (c d : ChatClient) (peer : Text)
    → SendsAllowed c d
    → conversation_blocked c peer ≡ false
    → conversation_blocked d peer ≡ false
unfolding conversation_blocked
blocked-Allowed c d peer s h = let u = s.gates.unverified in let q = s.gates.pending in ground arith

AllAllowed-chunks : (c : ChatClient) (frames : List Bytes) → AllAllowed c (map chunk frames)
AllAllowed-chunks c [] = tt
AllAllowed-chunks c (f ∷ fs) = (tt, AllAllowed-chunks c fs)

module _ (w : World) where
  enqueue-Allowed :
      (row : HistoryCall) (payload : Payload) (peer : Text) (ts : ℕ) (c : ChatClient)
      → SendsAllowed c (enqueue w row payload peer ts c)
  unfolding enqueue
  enqueue-Allowed row payload peer ts c =
      if-Allowed c (keep stored (call_history row c)) (keep plain c) c.history_ready
        (follow (call_history-Allowed row c) (keep-Allowed stored (call_history row c)))
        (λ e. keep-Allowed plain c)
    where
      stored : PendingOut
      stored = record { db_id = w.row_id c.history; payload = payload; peer = peer; ts = ts }

      plain : PendingOut
      plain = record { db_id = negsuc 0; payload = payload; peer = peer; ts = ts }

  pub queue_file-Allowed :
      (peer url : Text) (ts : ℕ) (c : ChatClient)
      → SendsAllowed c (queue_outbox_file w peer url ts c)
  unfolding queue_outbox_file
  queue_file-Allowed peer url ts c = enqueue-Allowed _ _ peer ts c

module _ (w : World) (now : ℕ) where
  handshake_sent-Allowed :
      (peer : Text) (c : ChatClient) (r : ChatClient × Encrypted)
      → SendsAllowed c r.0
      → SendsAllowed c (handshake_sent w now peer r).0
  unfolding handshake_sent
  handshake_sent-Allowed peer c (d, failed) s = s
  handshake_sent-Allowed peer c (d, not_ready) s = s
  handshake_sent-Allowed peer c (d, sealed frame) s =
      follow (send-Allowed w now (msg peer (rebootstrap (my_key w d)) frame now) c d s tt)
        (persist-Allowed w now peer _)

  pub transmit_handshake-Allowed :
      (peer : Text) (c : ChatClient) → SendsAllowed c (transmit_handshake w now peer c).0
  unfolding transmit_handshake
  transmit_handshake-Allowed peer c =
      handshake_sent-Allowed peer c _ (encrypt-Allowed w now peer handshake_sentinel c)

  queue_handshake-Allowed :
      (peer : Text) (c : ChatClient) → SendsAllowed c (queue_handshake w now peer c)
  unfolding queue_handshake
  queue_handshake-Allowed peer c = enqueue-Allowed w _ handshake peer now c

  pub request-Allowed : (peer : Text) (c : ChatClient) → SendsAllowed c (request_key_for peer c)
  unfolding request_key_for
  request-Allowed peer c = send-Allowed w now (get_key peer) c c (still c) tt

  pub handshake-Allowed :
      (peer : Text) (c : ChatClient) → SendsAllowed c (send_or_queue_handshake w now peer c)
  unfolding send_or_queue_handshake
  handshake-Allowed peer c =
      let sent =
        either_way (λ d. d) (queue_handshake w now peer) (transmit_handshake w now peer c) in
      let waits = queue_handshake w now peer c in
      let asks = queue_handshake w now peer (request_key_for peer c) in
      let off = not c.connected in
      let unknown = not (HashMap.contains peer c.peer_keys) in
      if-Allowed c c (if unknown then asks else if off then waits else sent) (is_empty peer)
        (still c)
        (λ e.
          if-Allowed c asks (if off then waits else sent) unknown
            (follow (request-Allowed peer c)
              (queue_handshake-Allowed peer (request_key_for peer c)))
            (λ e'. if-Allowed c waits sent off (queue_handshake-Allowed peer c) (λ e''.
              either_way-Allowed c (λ d. d) (queue_handshake w now peer)
                (transmit_handshake w now peer c) (transmit_handshake-Allowed peer c) still
                (queue_handshake-Allowed peer))))

  pub transmit_ack-Allowed :
      (peer verified : Text) (c : ChatClient)
      → SendsAllowed c (transmit_verify_ack w now peer verified c).0
  unfolding transmit_verify_ack
  transmit_ack-Allowed peer verified c =
      let f = verify_ack peer (my_key w c) verified now in
      if_pair-Allowed c (c, false) (send_text_message f c, true) (is_empty peer || not c.connected)
        (still c) (λ e. send-Allowed w now f c c (still c) tt)

  queue_ack-Allowed :
      (peer : Text) (c : ChatClient) → SendsAllowed c (queue_verify_ack w now peer c)
  unfolding queue_verify_ack
  queue_ack-Allowed peer c = enqueue-Allowed w _ _ peer now c

  pub verify_ack-Allowed :
      (peer : Text) (c : ChatClient) → SendsAllowed c (send_or_queue_verify_ack w now peer c)
  unfolding send_or_queue_verify_ack
  verify_ack-Allowed peer c =
      let r = transmit_verify_ack w now peer (text_of peer c.peer_keys) c in
      if-Allowed c c (either_way (λ d. d) (queue_verify_ack w now peer) r) (is_empty peer) (still c)
        (λ e.
          either_way-Allowed c (λ d. d) (queue_verify_ack w now peer) r
            (transmit_ack-Allowed peer (text_of peer c.peer_keys) c) still (queue_ack-Allowed peer))

  file_sent-Allowed :
      (peer id name mime : Text) (size : ℕ) (c : ChatClient)
      → SendsAllowed c (file_sent w now peer id name mime size c)
  unfolding file_sent call_history send_text_message
  file_sent-Allowed peer id name mime size c = record {
    gates = record { unverified = refl; pending = refl; users = refl; peer_verified = refl };
    added = file_end id ∷ [];
    sent = refl;
    allowed = (tt, tt);
  }

  pump_file-Allowed :
      (crypto : FileCrypto) (peer id name mime : Text) (contents : Bytes) (c : ChatClient)
      → SendsAllowed c (pump_outgoing_file w now crypto peer id name mime contents c)
  unfolding pump_outgoing_file
  pump_file-Allowed crypto peer id name mime contents c =
      let r = pump w.stream (length contents) crypto id 0 contents in
      let pumped = record c { sent = c.sent ++ map chunk r.0 } in
      let s : SendsAllowed c pumped = record {
        gates = record { unverified = refl; pending = refl; users = refl; peer_verified = refl };
        added = map chunk r.0;
        sent = refl;
        allowed = AllAllowed-chunks c r.0;
      } in
      let failure = error_occurred (codes "Encryption error during send") in
      if-Allowed c (file_sent w now peer id name mime (length contents) pumped)
        (emit failure pumped) r.1
        (follow s (file_sent-Allowed peer id name mime (length contents) pumped))
        (λ e. follow s (emit-Allowed failure pumped))

  pub file_key-Allowed :
      (crypto : FileCrypto) (peer id url : Text) (contents : Bytes) (c : ChatClient)
      (r : ChatClient × Encrypted)
      → SendsAllowed c r.0
      → conversation_blocked c peer ≡ false
      → SendsAllowed c (file_key_sealed w now crypto peer id url contents r)
  unfolding file_key_sealed
  file_key-Allowed crypto peer id url contents c (d, failed) s h =
      follow s (follow (drop_source-Allowed id d) (emit-Allowed _ (drop_source id d)))
  file_key-Allowed crypto peer id url contents c (d, not_ready) s h = follow s (
      follow (drop_source-Allowed id d)
        (follow (queue_file-Allowed w peer url now (drop_source id d)) (emit-Allowed _ _)))
  file_key-Allowed crypto peer id url contents c (d, sealed frame) s h =
      let f =
        file_init peer id (w.file_name (path_of w url)) (w.mime_type (path_of w url))
          (length contents) (w.platform.to_hex crypto.header) frame in
      let d1 = send_text_message f d in
      let d2 = persist_session w peer d1 in
      follow (send-Allowed w now f c d s (blocked-Allowed c d peer s h)) (
        follow (persist-Allowed w now peer d1) (
          follow (outbound-Allowed w now peer d2)
            (pump_file-Allowed crypto peer id _ _ contents (note_outbound_to w now peer d2))))
