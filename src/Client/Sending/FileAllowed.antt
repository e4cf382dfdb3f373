-- ===== src/Client/Sending/FileAllowed.antt =====
-- `sendFile` of client/src/chatclient.cpp: a blocked conversation gets no file.
use bachelor_s_thesis.Base.{
  ℕ, ◌+◌, ◌≡◌, refl, false, not, ◌||◌, Option, none, some, ◌++◌, Bytes, Text, codes, if◌then◌else◌,
  bytes_eq,
}
use bachelor_s_thesis.Base.HashMap
use bachelor_s_thesis.FileCrypto.{FileCrypto, new_crypto, init_push}
use bachelor_s_thesis.Client.State.{
  ChatClient, World, Signal, error_occurred, emit, conversation_blocked, encrypt,
}
use bachelor_s_thesis.Client.Rekey.Allowed.{SendsAllowed, quiet-Allowed, follow, if-Allowed}
use bachelor_s_thesis.Client.Rekey.Calls.{encrypt-Allowed}
use bachelor_s_thesis.Client.Sending.{
  path_of, queue_outbox_file, file_key_sealed, start_file, queue_if_there, open_file, send_file,
}
use bachelor_s_thesis.Client.Sending.Allowed.{emit-Allowed, queue_file-Allowed, file_key-Allowed}

module _ (w : World) (now : ℕ) where
  start_file-Allowed :
      (url : Text) (contents : Bytes) (c : ChatClient)
      → conversation_blocked c c.active_peer ≡ false
      → SendsAllowed c (start_file w now url contents c)
  unfolding start_file conversation_blocked
  start_file-Allowed url contents c h = follow list (
      if-Allowed listed (emit failure listed) goes_on _ (emit-Allowed failure listed) (λ e.
        file_key-Allowed w now crypto c.active_peer id url contents listed
          (encrypt w c.active_peer hex listed) (encrypt-Allowed w now c.active_peer hex listed) h))
    where
      id : Text
      id = w.uuid c.draws

      key : Bytes
      key = w.draw (c.draws + 1)

      hex : Text
      hex = w.platform.to_hex key

      crypto : FileCrypto
      crypto = (init_push w.stream key (w.draw (c.draws + 2)) new_crypto).0

      failure : Signal
      failure = error_occurred (codes "Crypto init failed")

      listed : ChatClient
      listed = record c {
        draws = c.draws + 3;
        sent_file_sources = HashMap.insert id url c.sent_file_sources;
      }

      goes_on : ChatClient
      goes_on =
          file_key_sealed w now crypto c.active_peer id url contents
            (encrypt w c.active_peer hex listed)

      list : SendsAllowed c listed
      list = quiet-Allowed c listed refl refl refl refl refl

  queue_if_there-Allowed :
      (url why : Text) (c : ChatClient) → SendsAllowed c (queue_if_there w now url why c)
  unfolding queue_if_there
  queue_if_there-Allowed url why c =
      let lost = error_occurred (codes "Could not find " ++ path_of w url) in
      let queued = queue_outbox_file w c.active_peer url now c in
      if-Allowed c (emit lost c) (emit (error_occurred why) queued) _ (emit-Allowed lost c) (λ e.
        follow (queue_file-Allowed w c.active_peer url now c)
          (emit-Allowed (error_occurred why) queued))

  open_file-Allowed :
      (url : Text) (o : Option Bytes) (c : ChatClient)
      → conversation_blocked c c.active_peer ≡ false
      → SendsAllowed c (open_file w now url o c)
  unfolding open_file
  open_file-Allowed url none c h = emit-Allowed _ c
  open_file-Allowed url (some contents) c h =
      let refused = error_occurred (codes "File too large or empty (max 50 MB)") in
      if-Allowed c (emit refused c) (start_file w now url contents c) _ (emit-Allowed refused c)
        (λ e. start_file-Allowed url contents c h)

  pub send_file-Allowed : (url : Text) (c : ChatClient) → SendsAllowed c (send_file w now url c)
  unfolding send_file
  send_file-Allowed url c = if-Allowed c nobody unless_blocked _ (emit-Allowed _ c) (λ e.
      if-Allowed c (queue_if_there w now url unverified c) unless_offline
        (conversation_blocked c c.active_peer) (queue_if_there-Allowed url unverified c)
        (λ e0.
          if-Allowed c (queue_if_there w now url offline c) unless_unknown
            (not c.welcomed || not c.connected) (queue_if_there-Allowed url offline c)
            (λ e'.
              if-Allowed c keyless opened (not (HashMap.contains c.active_peer c.peer_keys))
                (emit-Allowed _ c)
                (λ e''. open_file-Allowed url (w.read_file (path_of w url)) c e0))))
    where
      unverified : Text
      unverified =
          c.active_peer
          ++ codes
              "'s safety number isn't verified yet -- the file is queued and will send once you verify."

      offline : Text
      offline = codes "Offline: file queued, will send on reconnect."

      nobody : ChatClient
      nobody = emit (error_occurred (codes "Pick someone to send to first")) c

      keyless : ChatClient
      keyless =
          emit (error_occurred (codes "Don't have " ++ (c.active_peer ++ codes "'s key yet"))) c

      opened : ChatClient
      opened = open_file w now url (w.read_file (path_of w url)) c

      unless_unknown : ChatClient
      unless_unknown = if not (HashMap.contains c.active_peer c.peer_keys) then keyless else opened

      unless_offline : ChatClient
      unless_offline =
          if not c.welcomed || not c.connected
          then queue_if_there w now url offline c
          else unless_unknown

      unless_blocked : ChatClient
      unless_blocked =
          if conversation_blocked c c.active_peer
          then queue_if_there w now url unverified c
          else unless_offline
