-- ===== src/Client/Sending.antt =====
-- What client/src/chatclient.cpp hands to the socket for one peer: the handshake, the verification
-- ack, and a file.
pub mod Allowed
pub mod FileAllowed
use bachelor_s_thesis.Base.{
  ℕ, ◌+◌, Bool, true, false, not, ◌&&◌, ◌||◌, Option, none, some, List, [], ◌∷◌, ◌++◌, map, Bytes,
  Text, codes, is_empty, is_some, length, if◌then◌else◌, ltb, nat_beq, bytes_eq,
}
use bachelor_s_thesis.Base.Int.{ℤ, pos, negsuc}
use bachelor_s_thesis.Base.HashMap
use bachelor_s_thesis.CryptoBox.Identity.{public_key_hex}
use bachelor_s_thesis.CryptoBox.Messages.{Encrypted, failed, not_ready, sealed}
use bachelor_s_thesis.FileCrypto.{FileCrypto, new_crypto, init_push, max_file_bytes}
use bachelor_s_thesis.FileTransfer.{pump}
use bachelor_s_thesis.MessageModel.{append_file_message}
use bachelor_s_thesis.Client.State.{
  ChatClient, World, Payload, PendingOut, HistoryCall, msg, rebootstrap, verify_ack, file_init,
  file_end, chunk, error_occurred, emit, call_history, add_file_row, enqueue_file,
  enqueue_handshake, enqueue_verify_ack, file, handshake, verifyack, text_of, send_text_message,
  request_key_for, conversation_blocked, persist_session, encrypt,
}
use bachelor_s_thesis.Client.Rekey.{note_outbound_to, either_way}

abbrev pub handshake_sentinel : Text
handshake_sentinel = 1 ∷ codes "__chate2ee_rebootstrap__"

unfoldable pub keep : PendingOut → ChatClient → ChatClient
keep m c = record c { outbox = c.outbox ++ m ∷ [] }

unfoldable pub drop_source : Text → ChatClient → ChatClient
drop_source id c = record c { sent_file_sources = HashMap.remove id c.sent_file_sources }

module _ (w : World) where
  -- Our own public key in hex.
  abbrev pub my_key : ChatClient → Text
  my_key c = public_key_hex w.platform c.crypto

  -- An entry for the outbox, with the row that the store has given it, or -1.
  unfoldable pub enqueue : HistoryCall → Payload → Text → ℕ → ChatClient → ChatClient
  enqueue row payload peer ts c =
      if c.history_ready
      then keep (record { db_id = w.row_id c.history; payload = payload; peer = peer; ts = ts })
          (call_history row c)
      else keep (record { db_id = negsuc 0; payload = payload; peer = peer; ts = ts }) c

  -- The path that a URL names.
  abbrev pub path_of : Text → Text
  path_of url = if is_empty (w.to_local_file url) then url else w.to_local_file url

  unfoldable pub queue_outbox_file : Text → Text → ℕ → ChatClient → ChatClient
  queue_outbox_file peer url ts c =
      enqueue (enqueue_file peer (path_of url) ts (my_key c)) (file (path_of url)) peer ts c

module _ (w : World) (now : ℕ) where
  unfoldable pub handshake_sent : Text → ChatClient × Encrypted → ChatClient × Bool
  handshake_sent peer (c, failed) = (c, false)
  handshake_sent peer (c, not_ready) = (c, false)
  handshake_sent peer (c, sealed frame) = (
    persist_session w peer (send_text_message (msg peer (rebootstrap (my_key w c)) frame now) c),
    true,
  )

  unfoldable pub transmit_handshake : Text → ChatClient → ChatClient × Bool
  transmit_handshake peer c = handshake_sent peer (encrypt w peer handshake_sentinel c)

  unfoldable pub queue_handshake : Text → ChatClient → ChatClient
  queue_handshake peer c = enqueue w (enqueue_handshake peer now (my_key w c)) handshake peer now c

  unfoldable pub send_or_queue_handshake : Text → ChatClient → ChatClient
  send_or_queue_handshake peer c =
      if is_empty peer
      then c
      else if not (HashMap.contains peer c.peer_keys)
      then queue_handshake peer (request_key_for peer c)
      else if not c.connected
      then queue_handshake peer c
      else either_way (λ c'. c') (queue_handshake peer) (transmit_handshake peer c)

  unfoldable pub transmit_verify_ack : Text → Text → ChatClient → ChatClient × Bool
  transmit_verify_ack peer verified c =
      if is_empty peer || not c.connected
      then (c, false)
      else (send_text_message (verify_ack peer (my_key w c) verified now) c, true)

  unfoldable pub queue_verify_ack : Text → ChatClient → ChatClient
  queue_verify_ack peer c =
      let verified = text_of peer c.peer_keys in
      enqueue w (enqueue_verify_ack peer now (my_key w c) verified) (verifyack verified) peer now c

  unfoldable pub send_or_queue_verify_ack : Text → ChatClient → ChatClient
  send_or_queue_verify_ack peer c =
      if is_empty peer
      then c
      else either_way (λ c'. c') (queue_verify_ack peer)
          (transmit_verify_ack peer (text_of peer c.peer_keys) c)

  -- The end of `pumpOutgoingFile`.
  unfoldable pub file_sent : Text → Text → Text → Text → ℕ → ChatClient → ChatClient
  file_sent peer id name mime size c =
      let sent = send_text_message (file_end id) c in
      call_history (add_file_row peer c.nick id name mime size [] now true) (record sent {
        messages =
            append_file_message c.messages c.nick id name mime (pos size) [] true (pos 0) (pos now);
      })

  unfoldable pub pump_outgoing_file :
      FileCrypto → Text → Text → Text → Text → Bytes → ChatClient → ChatClient
  pump_outgoing_file crypto peer id name mime contents c =
      let (frames, done) = pump w.stream (length contents) crypto id 0 contents in
      let pumped = record c { sent = c.sent ++ map chunk frames } in
      if done
      then file_sent peer id name mime (length contents) pumped
      else emit (error_occurred (codes "Encryption error during send")) pumped

  -- From the encrypted file key on.
  unfoldable pub file_key_sealed :
      FileCrypto → Text → Text → Text → Bytes → ChatClient × Encrypted → ChatClient
  file_key_sealed crypto peer id url contents (c, failed) =
      emit (error_occurred (codes "Crypto init failed")) (drop_source id c)
  file_key_sealed crypto peer id url contents (c, not_ready) =
      emit
        (error_occurred (
          codes
            "Re-establishing secure session… file queued, will send once the channel is ready."))
        (queue_outbox_file w peer url now (drop_source id c))
  file_key_sealed crypto peer id url contents (c, sealed frame) =
      let name = w.file_name (path_of w url) in
      let mime = w.mime_type (path_of w url) in
      let header = w.platform.to_hex crypto.header in
      pump_outgoing_file crypto peer id name mime contents (
        note_outbound_to w now peer (
          persist_session w peer
            (send_text_message (file_init peer id name mime (length contents) header frame) c)))

  -- The draws are the id, the key, and the random bytes of the stream.
  unfoldable pub start_file : Text → Bytes → ChatClient → ChatClient
  start_file url contents c =
      let id = w.uuid c.draws in
      let key = w.draw (c.draws + 1) in
      let (crypto, ok) = init_push w.stream key (w.draw (c.draws + 2)) new_crypto in
      let listed = record c {
        draws = c.draws + 3;
        sent_file_sources = HashMap.insert id url c.sent_file_sources;
      } in
      if is_empty key || not ok
      then emit (error_occurred (codes "Crypto init failed")) listed
      else file_key_sealed crypto c.active_peer id url contents
          (encrypt w c.active_peer (w.platform.to_hex key) listed)

  unfoldable pub queue_if_there : Text → Text → ChatClient → ChatClient
  queue_if_there url why c =
      if not (w.file_exists (path_of w url))
      then emit (error_occurred (codes "Could not find " ++ path_of w url)) c
      else emit (error_occurred why) (queue_outbox_file w c.active_peer url now c)

  unfoldable pub open_file : Text → Option Bytes → ChatClient → ChatClient
  open_file url none c = emit (error_occurred (codes "Could not open " ++ path_of w url)) c
  open_file url (some contents) c =
      if nat_beq (length contents) 0 || ltb max_file_bytes (length contents)
      then emit (error_occurred (codes "File too large or empty (max 50 MB)")) c
      else start_file url contents c

  unfoldable pub send_file : Text → ChatClient → ChatClient
  send_file url c =
      if is_empty c.active_peer
      then emit (error_occurred (codes "Pick someone to send to first")) c
      else if conversation_blocked c c.active_peer
      then queue_if_there url
          (c.active_peer
            ++ codes
                "'s safety number isn't verified yet -- the file is queued and will send once you verify.")
          c
      else if not c.welcomed || not c.connected
      then queue_if_there url (codes "Offline: file queued, will send on reconnect.") c
      else if not (HashMap.contains c.active_peer c.peer_keys)
      then emit (error_occurred (codes "Don't have " ++ (c.active_peer ++ codes "'s key yet"))) c
      else open_file url (w.read_file (path_of w url)) c
