-- ===== src/Client/Outbox/Flush.antt =====
-- What a flush of the outbox (client/src/chatclient.cpp) sends, keeps and leaves alone.
use bachelor_s_thesis.Base.{
  ℕ, ◌+◌, ◌≡◌, refl, sym, ◌∙◌, ap, Bool, true, false, not, ◌&&◌, ◌||◌, List, [], ◌∷◌, ◌++◌, Text,
  codes, is_empty, if◌then◌else◌, bytes_eq, arith, append_assoc, append_nil,
}
use bachelor_s_thesis.Base.HashMap
use bachelor_s_thesis.CryptoBox.Messages.{Encrypted, failed, not_ready, sealed}
use bachelor_s_thesis.Client.State.{
  ChatClient, World, Payload, PendingOut, msg, chat, text, file, handshake, verifyack,
  error_occurred, emit, call_history, delete_outbox_row, send_text_message, request_key_for,
  conversation_blocked, persist_session, encrypt,
}
use bachelor_s_thesis.Client.Rekey.{note_outbound_to, either_way, each}
use bachelor_s_thesis.Client.Rekey.Allowed.{
  SendsAllowed, quiet-Allowed, still, follow, if-Allowed, either_way-Allowed, each-Allowed,
}
use bachelor_s_thesis.Client.Rekey.Calls.{
  encrypt-Allowed, send-Allowed, persist-Allowed, outbound-Allowed,
}
use bachelor_s_thesis.Client.Sending.{
  keep, path_of, transmit_handshake, transmit_verify_ack, send_file,
}
use bachelor_s_thesis.Client.Sending.Allowed.{
  keep-Allowed, emit-Allowed, call_history-Allowed, blocked-Allowed, request-Allowed,
  transmit_handshake-Allowed, transmit_ack-Allowed,
}
use bachelor_s_thesis.Client.Sending.FileAllowed.{send_file-Allowed}
use bachelor_s_thesis.Client.Outbox.{
  delete_row, is_content, to_peer, flush_text, flush_file, flush_payload, flush_one, flush_outbox,
}

delete_row-Allowed : (m : PendingOut) (c : ChatClient) → SendsAllowed c (delete_row m c)
unfolding delete_row
delete_row-Allowed m c =
    if-Allowed c c (call_history (delete_outbox_row m.db_id) c) _ (still c)
      (λ e. call_history-Allowed (delete_outbox_row m.db_id) c)

to_peer-Allowed :
    (peer : Text) (f : ChatClient → ChatClient) (c : ChatClient)
    → ((d : ChatClient) → SendsAllowed d (f d))
    → SendsAllowed c (to_peer peer f c)
unfolding to_peer
to_peer-Allowed peer f c h =
    let there = record c { active_peer = peer } in
    let back = record (f there) { active_peer = c.active_peer } in
    follow (quiet-Allowed c there refl refl refl refl refl)
      (follow (h there) (quiet-Allowed (f there) back refl refl refl refl refl))

idle : (a b : Bool) → (a || b) ≡ false → false ≡ a
idle a b h = ground arith

if_whole :
    (a b : Bool) (c d : ChatClient) → ((a || b) ≡ false → d ≡ c) → (if a || b then c else d) ≡ c
if_whole true b c d h = refl
if_whole false true c d h = refl
if_whole false false c d h = h refl

module _ (w : World) (now : ℕ) where
  flush_text-Allowed :
      (m : PendingOut) (mid : Text) (c : ChatClient) (r : ChatClient × Encrypted)
      → SendsAllowed c r.0
      → conversation_blocked c m.peer ≡ false
      → SendsAllowed c (flush_text w now m mid r)
  unfolding flush_text conversation_blocked
  flush_text-Allowed m mid c (d, not_ready) s h = follow s (keep-Allowed m d)
  flush_text-Allowed m mid c (d, failed) s h =
      follow s (follow (emit-Allowed _ d) (delete_row-Allowed m _))
  flush_text-Allowed m mid c (d, sealed frame) s h =
      let id = if is_empty mid then w.uuid d.draws else mid in
      let d0 = record d { draws = d.draws + 1 } in
      let f = msg m.peer (chat id) frame m.ts in
      let s0 = follow s (quiet-Allowed d d0 refl refl refl refl refl) in
      let d1 = send_text_message f d0 in
      let d2 = persist_session w m.peer d1 in
      let d3 = note_outbound_to w now m.peer d2 in
      follow (send-Allowed w now f c d0 s0 (blocked-Allowed c d0 m.peer s0 h)) (
        follow (persist-Allowed w now m.peer d1)
          (follow (outbound-Allowed w now m.peer d2) (delete_row-Allowed m d3)))

  flush_file-Allowed :
      (m : PendingOut) (path : Text) (c : ChatClient) → SendsAllowed c (flush_file w now m path c)
  unfolding flush_file
  flush_file-Allowed m path c =
      let lost = error_occurred (
        codes "A queued file to "
        ++ (m.peer ++ (codes " can no longer be found and was not sent: " ++ path))) in
      let sent = to_peer m.peer (send_file w now (path_of w path)) c in
      if-Allowed c (delete_row m (emit lost c)) (delete_row m sent) _
        (follow (emit-Allowed lost c) (delete_row-Allowed m (emit lost c)))
        (λ e.
          follow
            (to_peer-Allowed m.peer (send_file w now (path_of w path)) c
              (send_file-Allowed w now (path_of w path)))
            (delete_row-Allowed m sent))

  flush_payload-Allowed :
      (m : PendingOut) (load : Payload) (c : ChatClient)
      → (is_content load ≡ true → conversation_blocked c m.peer ≡ false)
      → SendsAllowed c (flush_payload w now m load c)
  unfolding flush_payload
  flush_payload-Allowed m (file path) c h = flush_file-Allowed m path c
  flush_payload-Allowed m handshake c h =
      either_way-Allowed c (delete_row m) (keep m) (transmit_handshake w now m.peer c)
        (transmit_handshake-Allowed w now m.peer c) (delete_row-Allowed m) (keep-Allowed m)
  flush_payload-Allowed m (verifyack identity) c h =
      let sent = transmit_verify_ack w now m.peer identity c in
      if-Allowed c (delete_row m c) (either_way (delete_row m) (keep m) sent) _
        (delete_row-Allowed m c)
        (λ e.
          either_way-Allowed c (delete_row m) (keep m) sent
            (transmit_ack-Allowed w now m.peer identity c) (delete_row-Allowed m) (keep-Allowed m))
  flush_payload-Allowed m (text plaintext mid) c h =
      flush_text-Allowed m mid c (encrypt w m.peer plaintext c)
        (encrypt-Allowed w now m.peer plaintext c) (h refl)

  flush_one-Allowed : (m : PendingOut) (c : ChatClient) → SendsAllowed c (flush_one w now m c)
  unfolding flush_one
  flush_one-Allowed m c =
      let asks = keep m (request_key_for m.peer c) in
      let goes = flush_payload w now m m.payload c in
      let waits = is_content m.payload && conversation_blocked c m.peer in
      let unknown = not (HashMap.contains m.peer c.peer_keys) in
      if-Allowed c (keep m c) (if unknown then asks else if waits then keep m c else goes) _
        (keep-Allowed m c)
        (λ e.
          if-Allowed c asks (if waits then keep m c else goes) unknown
            (follow (request-Allowed w now m.peer c) (keep-Allowed m (request_key_for m.peer c)))
            (λ e'.
              if-Allowed c (keep m c) goes waits (keep-Allowed m c)
                (λ e''. flush_payload-Allowed m m.payload c (λ content. ground arith))))

  -- What a flush of the outbox adds to the frames sent holds no text and no file for a peer whose
  -- conversation waits for our verification or for the peer's, and no rekey ping for one that waits
  -- or is offline; no verification moves.
  pub flush_outbox-Allowed : (c : ChatClient) → SendsAllowed c (flush_outbox w now c)
  unfolding flush_outbox
  flush_outbox-Allowed c =
      let taken = record c { flush_in_progress = true; outbox = [] } in
      let flushed = each (flush_one w now) c.outbox taken in
      let done = record flushed { flush_in_progress = false } in
      if-Allowed c c done _ (still c) (λ e.
        follow (quiet-Allowed c taken refl refl refl refl refl) (
          follow (each-Allowed (flush_one w now) flush_one-Allowed c.outbox taken)
            (quiet-Allowed flushed done refl refl refl refl refl)))

  flush_one_offline :
      (m : PendingOut) (c : ChatClient) → c.connected ≡ false → flush_one w now m c ≡ keep m c
  unfolding flush_one
  flush_one_offline m c h = ground arith

  -- Without a socket every entry is kept, in its order.
  flush_each_offline :
      (ms : List PendingOut) (c : ChatClient)
      → c.connected ≡ false
      → each (flush_one w now) ms c ≡ record c { outbox = c.outbox ++ ms }
  unfolding keep
  flush_each_offline [] c h =
      ap (λ (o : List PendingOut). record c { outbox = o }) (sym (append_nil c.outbox))
  flush_each_offline (m ∷ ms) c h =
      ap (each (flush_one w now) ms) (flush_one_offline m c h)
      ∙ flush_each_offline ms (keep m c) h
      ∙ ap (λ (o : List PendingOut). record c { outbox = o }) (append_assoc c.outbox (m ∷ []) ms)

  -- Without a connection a flush changes nothing: every entry stays in the outbox, in its order.
  pub flush_outbox_offline : (c : ChatClient) → c.connected ≡ false → flush_outbox w now c ≡ c
  unfolding flush_outbox
  flush_outbox_offline c h =
      let taken = record c { flush_in_progress = true; outbox = [] } in
      let kept = flush_each_offline c.outbox taken h in
      let whole : (c.flush_in_progress || is_empty c.outbox) ≡ false
          → record (each (flush_one w now) c.outbox taken) { flush_in_progress = false } ≡ c =
        λ e.
          ap (λ (d : ChatClient). record d { flush_in_progress = false }) kept
          ∙ ap (λ (b : Bool). record c { flush_in_progress = b }) (idle c.flush_in_progress _ e) in
      if_whole c.flush_in_progress (is_empty c.outbox) c _ whole
