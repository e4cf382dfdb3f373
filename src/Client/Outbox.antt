-- ===== src/Client/Outbox.antt =====
-- `flushOutbox` of client/src/chatclient.cpp: what waits for the socket, a key, a session or a
-- verification. A local path stands for its URL.
pub mod Flush
use bachelor_s_thesis.Base.{
  ℕ, ◌+◌, Bool, true, false, not, ◌&&◌, ◌||◌, Option, none, some, List, [], ◌∷◌, ◌++◌, Text, codes,
  is_empty, if◌then◌else◌, ◌==◌, bytes_eq,
}
use bachelor_s_thesis.Base.Int.{pos, ltb_ℤ}
use bachelor_s_thesis.Base.HashMap
use bachelor_s_thesis.CryptoBox.Messages.{Encrypted, failed, not_ready, sealed}
use bachelor_s_thesis.Client.State.{
  ChatClient, World, Payload, PendingOut, msg, chat, text, file, handshake, verifyack,
  error_occurred, emit, call_history, delete_outbox_row, text_of, send_text_message,
  request_key_for, conversation_blocked, persist_session, encrypt,
}
use bachelor_s_thesis.Client.Rekey.{note_outbound_to, either_way, each}
use bachelor_s_thesis.Client.Sending.{
  keep, path_of, transmit_handshake, transmit_verify_ack, send_file,
}

-- The row of an entry that was stored.
unfoldable pub delete_row : PendingOut → ChatClient → ChatClient
delete_row m c = if ltb_ℤ m.db_id (pos 0) then c else call_history (delete_outbox_row m.db_id) c

abbrev pub is_content : Payload → Bool
is_content (text plaintext mid) = true
is_content (file path) = true
is_content handshake = false
is_content (verifyack identity) = false

-- The caller's conversation is on screen again afterwards.
unfoldable pub to_peer : Text → (ChatClient → ChatClient) → ChatClient → ChatClient
to_peer peer f c = record (f (record c { active_peer = peer })) { active_peer = c.active_peer }

module _ (w : World) (now : ℕ) where
  unfoldable pub flush_text : PendingOut → Text → ChatClient × Encrypted → ChatClient
  flush_text m mid (c, not_ready) = keep m c
  flush_text m mid (c, failed) = delete_row m (
      emit
        (error_occurred (codes "Could not encrypt a queued message to " ++ (m.peer ++ codes ".")))
        c)
  flush_text m mid (c, sealed frame) =
      let id = if is_empty mid then w.uuid c.draws else mid in
      delete_row m (
        note_outbound_to w now m.peer (
          persist_session w m.peer (
            send_text_message (msg m.peer (chat id) frame m.ts)
              (record c { draws = c.draws + 1 }))))

  unfoldable pub flush_file : PendingOut → Text → ChatClient → ChatClient
  flush_file m path c =
      if not (w.file_exists (path_of w path))
      then delete_row m (
          emit
            (error_occurred (
              codes "A queued file to "
              ++ (m.peer ++ (codes " can no longer be found and was not sent: " ++ path))))
            c)
      else delete_row m (to_peer m.peer (send_file w now (path_of w path)) c)

  unfoldable pub flush_payload : PendingOut → Payload → ChatClient → ChatClient
  flush_payload m (file path) c = flush_file m path c
  flush_payload m handshake c =
      either_way (delete_row m) (keep m) (transmit_handshake w now m.peer c)
  flush_payload m (verifyack identity) c =
      if is_empty identity || not (identity == text_of m.peer c.peer_keys)
      then delete_row m c
      else either_way (delete_row m) (keep m) (transmit_verify_ack w now m.peer identity c)
  flush_payload m (text plaintext mid) c = flush_text m mid (encrypt w m.peer plaintext c)

  -- One entry: it is sent, dropped or kept.
  unfoldable pub flush_one : PendingOut → ChatClient → ChatClient
  flush_one m c =
      if not c.connected
      then keep m c
      else if not (HashMap.contains m.peer c.peer_keys)
      then keep m (request_key_for m.peer c)
      else if is_content m.payload && conversation_blocked c m.peer
      then keep m c
      else flush_payload m m.payload c

  unfoldable pub flush_outbox : ChatClient → ChatClient
  flush_outbox c =
      if c.flush_in_progress || is_empty c.outbox
      then c
      else record (each flush_one c.outbox (record c { flush_in_progress = true; outbox = [] })) {
        flush_in_progress = false;
      }
