-- ===== src/Client/State.antt =====
-- The fields of `ChatClient` (client/src/chatclient.h) that its models read, what it hands to the
-- socket and to the history store, and the small helpers of client/src/chatclient.cpp on them.
use bachelor_s_thesis.Base.{
  ℕ, ◌+◌, Bool, ◌||◌, Option, none, some, List, [], ◌∷◌, ◌++◌, Bytes, Text, if◌then◌else◌, bytes_eq,
}
use bachelor_s_thesis.Base.Int.{ℤ}
use bachelor_s_thesis.Base.HashMap
use bachelor_s_thesis.Base.HashMap.{HashMap}
use bachelor_s_thesis.Base.HashSet
use bachelor_s_thesis.Platform.{Platform}
use bachelor_s_thesis.Ratchet.Session.{RatchetSession}
use bachelor_s_thesis.CryptoBox.State.{CryptoBox}
use bachelor_s_thesis.CryptoBox.Sessions.{peer_identity_hex}
use bachelor_s_thesis.CryptoBox.Messages.{WireFrame, Encrypted, encrypt_for}
use bachelor_s_thesis.FileCrypto.{SecretStream}
use bachelor_s_thesis.FileTransfer.{IncomingFile}
use bachelor_s_thesis.UserModel.{UserModel}
use bachelor_s_thesis.MessageModel.{Message}

-- The entry of `m_outbox`, by its kind.
pub data Payload : Type 0 where
  -- plaintext and mid
  text : Text → Text → Payload
  -- srcPath
  file : Text → Payload
  handshake : Payload
  -- the peer identity (hex) that was verified
  verifyack : Text → Payload

pub record PendingOut : Type 0 where
  pub db_id : ℤ
  pub payload : Payload
  pub peer : Text
  pub ts : ℕ

-- The kind of an encrypted `msg` frame; a text has a mid and no kind.
pub data MsgKind : Type 0 where
  rekey_ping rekey_pong : MsgKind
  -- with our identity key (hex)
  rebootstrap : Text → MsgKind
  chat : Text → MsgKind

-- A frame that is handed to the socket, as its members; JSON is Qt's. Each has `from`, our name, but
-- for get_key.
pub data SentFrame : Type 0 where
  -- to, kind, ciphertext, ts
  msg : Text → MsgKind → WireFrame → ℕ → SentFrame
  get_key : Text → SentFrame
  -- to, ik, peer_ik, ts
  verify_ack : Text → Text → Text → ℕ → SentFrame
  -- to, msg_id, filename, mime, size, header, keyenc
  file_init : Text → Text → Text → Text → ℕ → Text → WireFrame → SentFrame
  file_end : Text → SentFrame
  -- a binary message
  chunk : Bytes → SentFrame
  -- to, ik, ts
  verify_resync : Text → Text → ℕ → SentFrame

-- A call on `HistoryStore`; a stored session stands for its exported form.
pub data HistoryCall : Type 0 where
  save_session : Text → Option RatchetSession → Text → ℕ → HistoryCall
  clear_session : Text → HistoryCall
  add_system_row : Text → Text → ℕ → HistoryCall
  enqueue_handshake : Text → ℕ → Text → HistoryCall
  enqueue_verify_ack : Text → ℕ → Text → Text → HistoryCall
  -- peer, source path, ts, our public key
  enqueue_file : Text → Text → ℕ → Text → HistoryCall
  delete_outbox_row : ℤ → HistoryCall
  record_verified_peer : Text → Text → ℕ → HistoryCall
  record_received_file : Text → Text → ℕ → HistoryCall
  -- peer, sender, msgId, filename, mime, size, localPath, ts, mine
  add_file_row : Text → Text → Text → Text → Text → ℕ → Text → ℕ → Bool → HistoryCall
  record_peer_attested : Text → Text → ℕ → HistoryCall

-- What the window is told.
pub data Signal : Type 0 where
  -- msgId, and the reason
  file_receive_failed : Text → Text → Signal
  -- msgId, sender, filename, mime, received bytes, localPath
  file_received : Text → Text → Text → Text → ℕ → Text → Signal
  error_occurred : Text → Signal

pub record ChatClient : Type 0 where
  pub nick : Text
  -- The socket's state is ConnectedState; `m_connected`.
  pub connected : Bool
  pub welcomed : Bool
  pub crypto : CryptoBox
  pub users : UserModel
  pub messages : List Message
  pub active_peer : Text
  pub peer_keys : HashMap Text Text
  pub unverified_key_change : List Text
  pub pending_bilateral : List Text
  pub peer_verified : List Text
  pub verify_ack_resend : List Text
  pub pending_frames : HashMap Text (List Text)
  pub seen_frames : HashMap Text (List Text)
  pub peer_verified_for_identity : HashMap Text Text
  pub verified_peer_identity : HashMap Text Text
  pub last_verify_resync_ms : HashMap Text ℕ
  pub sent_since_ratchet : HashMap Text ℕ
  pub rekey_outstanding : List Text
  pub rekey_ping_sent_at : HashMap Text ℕ
  pub rekey_ping_resends : HashMap Text ℕ
  pub pong_owed : List Text
  pub heal_pending : List Text
  pub rekey_kick_tries : ℕ
  pub kick_timer_active : Bool
  pub outbox : List PendingOut
  pub flush_in_progress : Bool
  pub history_ready : Bool
  pub incoming : HashMap Text IncomingFile
  pub received_file_paths : HashMap Text Text
  pub sent_file_sources : HashMap Text Text
  pub signals : List Signal
  -- What was handed over, the latest last, and the random draws so far.
  pub sent : List SentFrame
  pub history : List HistoryCall
  pub draws : ℕ

-- What the client is given: libsodium and Qt, the random bytes of each draw, and the row id that the
-- store answers an insertion with.
pub record World : Type 0 where
  pub platform : Platform
  pub draw : ℕ → Bytes
  -- Qt's order of names without regard to case, and libsodium's secretstream.
  pub before : Text → Text → Bool
  pub stream : SecretStream
  -- The local path of a URL, whether a file exists, what it reads as, its name and its MIME type.
  pub to_local_file : Text → Text
  pub file_exists : Text → Bool
  pub read_file : Text → Option Bytes
  pub file_name : Text → Text
  pub mime_type : Text → Text
  -- createUuid, by the draw.
  pub uuid : ℕ → Text
  pub row_id : List HistoryCall → ℤ
  -- AppDataLocation, and whether a file can be opened for writing.
  pub app_data : Text
  pub can_write : Text → Bool

unfoldable pub count_of : Text → HashMap Text ℕ → ℕ
count_of peer m = elim (HashMap.lookup peer m) [ none ↦ 0 | some n ↦ n ]

-- `value` of a text, which is empty where the key is missing.
unfoldable pub text_of : Text → HashMap Text Text → Text
text_of peer m = elim (HashMap.lookup peer m) [ none ↦ [] | some t ↦ t ]

unfoldable pub frames_of : Text → HashMap Text (List Text) → List Text
frames_of peer m = elim (HashMap.lookup peer m) [ none ↦ [] | some fs ↦ fs ]

unfoldable pub keys {ℓ} : {V : Type ℓ} → HashMap Text V → List Text
keys [] = []
keys ((k, v) ∷ rest) = k ∷ keys rest

unfoldable pub send_text_message : SentFrame → ChatClient → ChatClient
send_text_message f c = record c { sent = c.sent ++ f ∷ [] }

unfoldable pub emit : Signal → ChatClient → ChatClient
emit s c = record c { signals = c.signals ++ s ∷ [] }

unfoldable pub call_history : HistoryCall → ChatClient → ChatClient
call_history h c = record c { history = c.history ++ h ∷ [] }

-- A call that the code guards by `m_history.isReady()`.
unfoldable pub if_ready : HistoryCall → ChatClient → ChatClient
unfolding call_history
if_ready h c = if c.history_ready then call_history h c else c

unfoldable pub request_key_for : Text → ChatClient → ChatClient
request_key_for peer c = send_text_message (get_key peer) c

unfoldable pub conversation_blocked : ChatClient → Text → Bool
conversation_blocked c peer =
    HashSet.contains peer c.unverified_key_change || HashSet.contains peer c.pending_bilateral

unfoldable pub is_online : UserModel → Text → Bool
is_online u name = HashSet.contains name u.online

module _ (w : World) where
  unfoldable pub persist_session : Text → ChatClient → ChatClient
  persist_session peer c =
      if_ready
        (save_session peer (HashMap.lookup peer c.crypto.sessions)
          (peer_identity_hex w.platform c.crypto peer) (count_of peer c.sent_since_ratchet))
        c

  -- `encryptFor` on the client's own box. A session that has to be made takes one draw and the nonce
  -- the next.
  unfoldable pub encrypt : Text → Text → ChatClient → ChatClient × Encrypted
  encrypt peer plaintext c =
      let (box, out) =
        encrypt_for w.platform c.crypto peer plaintext (w.draw c.draws) (w.draw (c.draws + 1)) in
      (record c { crypto = box; draws = c.draws + 2 }, out)
