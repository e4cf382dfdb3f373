-- ===== src/Client/Files.antt =====
-- Incoming files in client/src/chatclient.cpp: the binary frames, and the frame `file_end`.
pub mod Ends
pub mod Chunks
use bachelor_s_thesis.Base.{
  ℕ, Bool, true, false, Option, none, some, List, [], ◌∷◌, ◌++◌, Bytes, Text, codes, length, take,
  ltb, if◌then◌else◌, ◌==◌, bytes_eq,
}
use bachelor_s_thesis.Base.Int.{pos}
use bachelor_s_thesis.Base.HashMap
use bachelor_s_thesis.FileTransfer.{
  IncomingFile, receive_chunk, out_of_order, unauthentic, written, id_length, frame_header,
  Received,
}
use bachelor_s_thesis.MessageModel.{append_file_message}
use bachelor_s_thesis.UserModel.{increment_unread}
use bachelor_s_thesis.Client.State.{
  ChatClient, World, Signal, file_receive_failed, file_received, emit, call_history,
  record_received_file, add_file_row, add_system_row,
}

unfoldable pub forget_transfer : Text → ChatClient → ChatClient
forget_transfer msg_id c = record c { incoming = HashMap.remove msg_id c.incoming }

-- The line that the history of a conversation that is not on screen gets. The literal is of 16-bit
-- units, so each `\x` escape is a unit of its own.
abbrev pub file_notice : IncomingFile → Text
file_notice t =
    (240 ∷ 159 ∷ 147 ∷ 142 ∷ 32 ∷ t.sender) ++ (codes " sent you a file: " ++ t.filename)

module _ (w : World) (now : ℕ) where
  -- The row on screen.
  unfoldable pub show_file : Text → IncomingFile → ChatClient → ChatClient
  show_file msg_id t c = record c {
    messages =
        append_file_message c.messages t.sender msg_id t.filename t.mime (pos t.received_bytes)
          t.local_path false (pos 0) (pos now);
  }

  -- The badge, and a line in the history.
  unfoldable pub count_file : IncomingFile → ChatClient → ChatClient
  count_file t c =
      call_history (add_system_row t.sender (file_notice t) now)
        (record c { users = increment_unread w.before c.users t.sender })

  unfoldable pub announce_file : Text → IncomingFile → ChatClient → ChatClient
  announce_file msg_id t c =
      if t.sender == c.active_peer then show_file msg_id t c else count_file t c

  unfoldable pub record_file : Text → IncomingFile → ChatClient → ChatClient
  record_file msg_id t c =
      call_history
        (add_file_row t.sender t.sender msg_id t.filename t.mime t.received_bytes t.local_path now
          false)
        (emit (file_received msg_id t.sender t.filename t.mime t.received_bytes t.local_path) (
          call_history (record_received_file msg_id t.sender now) (record c {
            received_file_paths = HashMap.insert msg_id t.local_path c.received_file_paths;
          })))

  -- The file is closed, and counts as received.
  unfoldable pub finish_file : Text → IncomingFile → ChatClient → ChatClient
  finish_file msg_id t c = announce_file msg_id t (record_file msg_id t c)

  unfoldable pub settle_chunk : Text → IncomingFile → Received → ChatClient → ChatClient
  settle_chunk msg_id t out_of_order c =
      forget_transfer msg_id (emit (file_receive_failed msg_id (codes "chunk order mismatch")) c)
  settle_chunk msg_id t unauthentic c = forget_transfer msg_id (
      if t.replayed
      then c
      else emit (file_receive_failed msg_id (codes "authentication failure")) c)
  settle_chunk msg_id t (written t' true) c = forget_transfer msg_id (finish_file msg_id t' c)
  settle_chunk msg_id t (written t' false) c = record c {
    incoming = HashMap.insert msg_id t' c.incoming;
  }

  unfoldable pub on_binary_message_received : Bytes → ChatClient → ChatClient
  on_binary_message_received frame c =
      if ltb (length frame) frame_header
      then c
      else elim (HashMap.lookup (take id_length frame) c.incoming) [
        | none ↦ c
        | some t ↦ settle_chunk (take id_length frame) t (receive_chunk w.stream frame t) c
      ]

  -- The handler of `file_end`.
  unfoldable pub on_file_end : Text → ChatClient → ChatClient
  on_file_end msg_id c = elim (HashMap.lookup msg_id c.incoming) [
    | none ↦ c
    | some t ↦ forget_transfer msg_id (if t.is_open then finish_file msg_id t c else c)
  ]
