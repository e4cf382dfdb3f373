-- ===== src/Client/FileInit.antt =====
-- The handler of the frame `file_init` in client/src/chatclient.cpp: it opens the sealed file key and
-- the local file, and the chunks that follow have a transfer to go to.
pub mod Once
use bachelor_s_thesis.Base.{
  ℕ, ◌+◌, Bool, true, false, not, Option, none, some, List, [], ◌∷◌, ◌++◌, Bytes, Text, codes,
  if◌then◌else◌, ◌==◌, bytes_eq,
}
use bachelor_s_thesis.Base.Int.{ℤ}
use bachelor_s_thesis.Base.HashMap
use bachelor_s_thesis.Base.HashSet
use bachelor_s_thesis.CryptoBox.SafetyNumber.{decimal}
use bachelor_s_thesis.CryptoBox.Sessions.{ensure_shared_key}
use bachelor_s_thesis.CryptoBox.Messages.{WireFrame, decrypt_from}
use bachelor_s_thesis.FileCrypto.{FileCrypto, new_crypto, init_pull}
use bachelor_s_thesis.FileTransfer.{IncomingFile}
use bachelor_s_thesis.Client.State.{
  ChatClient, World, file_receive_failed, emit, text_of, frames_of, request_key_for,
  persist_session,
}
use bachelor_s_thesis.Client.Rekey.{note_inbound_from}

-- The frame's members. An empty `keyenc` is none; `raw` is the frame as it came.
pub record FileInit : Type 0 where
  pub raw : Text
  pub msg_id : Text
  pub sender : Text
  pub filename : Text
  pub mime : Text
  pub size : ℤ
  pub header : Text
  pub keyenc : Option WireFrame
  pub replayed : Bool

-- The ratchet key and the number, which name a key frame.
abbrev pub seen_key : WireFrame → Text
seen_key frame = frame.dh_hex ++ 58 ∷ decimal 10 frame.n

abbrev pub is_seen : Text → WireFrame → ChatClient → Bool
is_seen peer frame c = HashSet.contains (seen_key frame) (frames_of peer c.seen_frames)

unfoldable pub mark_seen : Text → WireFrame → ChatClient → ChatClient
mark_seen peer frame c = record c {
  seen_frames =
      HashMap.insert peer (HashSet.insert (seen_key frame) (frames_of peer c.seen_frames))
        c.seen_frames;
}

-- A replayed file fails in silence.
unfoldable pub refuse : FileInit → Text → ChatClient → ChatClient
refuse f why c = if f.replayed then c else emit (file_receive_failed f.msg_id why) c

unfoldable pub await_key : FileInit → ChatClient → ChatClient
await_key f c =
    if f.replayed
    then c
    else request_key_for f.sender (record c {
      pending_frames =
          HashMap.insert f.sender (frames_of f.sender c.pending_frames ++ f.raw ∷ [])
            c.pending_frames;
    })

module _ (w : World) where
  -- The file key as text, with the client's box afterwards. A session that has to be made takes one
  -- draw, and a ratchet step the next.
  unfoldable pub open_key : FileInit → WireFrame → ChatClient → ChatClient × Option Text
  open_key f frame c =
      let known =
        (ensure_shared_key w.platform c.crypto f.sender (text_of f.sender c.peer_keys)).0 in
      let (box, key) =
        decrypt_from w.platform known f.sender frame (w.draw c.draws) (w.draw (c.draws + 1)) in
      (record c { crypto = box; draws = c.draws + 2 }, key)

  abbrev pub local_path : FileInit → Text
  local_path f = w.app_data ++ (47 ∷ (f.msg_id ++ (95 ∷ f.filename)))

  abbrev pub new_transfer : FileInit → FileCrypto → IncomingFile
  new_transfer f crypto = record {
    msg_id = f.msg_id;
    sender = f.sender;
    filename = f.filename;
    mime = f.mime;
    expected_size = f.size;
    received_bytes = 0;
    next_chunk_index = 0;
    file = [];
    is_open = true;
    local_path = local_path f;
    crypto = crypto;
    replayed = f.replayed;
  }

  -- From the file key on.
  unfoldable pub start_transfer : FileInit → Bytes → ChatClient → ChatClient
  start_transfer f key c =
      let (crypto, ok) = init_pull w.stream key (w.platform.from_hex f.header) new_crypto in
      if not ok
      then refuse f (codes "could not start decryption") c
      else if not (w.can_write (local_path f))
      then emit (file_receive_failed f.msg_id (codes "could not open temp file")) c
      else record c { incoming = HashMap.insert f.msg_id (new_transfer f crypto) c.incoming }

  -- The opened key frame is one that arrived from the peer.
  unfoldable pub note_key_frame : FileInit → WireFrame → ChatClient → ChatClient
  note_key_frame f frame c =
      let seen = mark_seen f.sender frame c in
      persist_session w f.sender
        (if f.sender == c.nick then seen else note_inbound_from f.sender seen)

  unfoldable pub key_opened : FileInit → WireFrame → ChatClient × Option Text → ChatClient
  key_opened f frame (c, none) = refuse f (codes "could not recover file key") c
  key_opened f frame (c, some []) = refuse f (codes "could not recover file key") c
  key_opened f frame (c, some (x ∷ xs)) =
      start_transfer f (w.platform.from_hex (x ∷ xs)) (note_key_frame f frame c)

  unfoldable pub on_file_init : FileInit → ChatClient → ChatClient
  on_file_init f c =
      if not (HashMap.contains f.sender c.peer_keys) then await_key f c else elim f.keyenc [
        | none ↦ refuse f (codes "unsupported file format") c
        | some frame ↦
            if is_seen f.sender frame c then c else key_opened f frame (open_key f frame c)
      ]
