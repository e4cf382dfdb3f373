-- ===== src/FileTransfer.antt =====
-- The chunks of one file: `pumpOutgoingFile` and the part of `onBinaryMessageReceived` that is about
-- one transfer (client/src/chatclient.cpp).
use bachelor_s_thesis.Base.{
  ℕ, zero, suc, ◌+◌, ◌^◌, Bool, true, false, not, ◌&&◌, Option, none, some, List, [], ◌∷◌, ◌++◌,
  Bytes, Text, be32, length, take, drop, is_empty, leb, nat_beq, if◌then◌else◌,
}
use bachelor_s_thesis.Base.Int.{ℤ}
use bachelor_s_thesis.CryptoBox.PrekeyBlob.{number_of}
use bachelor_s_thesis.FileCrypto.{
  SecretStream, FileCrypto, encrypt_chunk, decrypt_chunk, chunk_size,
}
pub mod InOrder

-- `file` holds what was written to the temporary file.
pub record IncomingFile : Type 0 where
  pub msg_id : Text
  pub sender : Text
  pub filename : Text
  pub mime : Text
  pub expected_size : ℤ
  pub received_bytes : ℕ
  pub next_chunk_index : ℕ
  pub file : Bytes
  pub is_open : Bool
  pub local_path : Text
  pub crypto : FileCrypto
  pub replayed : Bool

-- The id in Latin-1 has 36 characters, the same code units.
abbrev pub id_length : ℕ
id_length = 36

abbrev pub frame_header : ℕ
frame_header = 40

unfoldable pub chunk_frame : Text → ℕ → Bytes → Bytes
chunk_frame msg_id index ct = msg_id ++ (be32 index ++ ct)

-- What the sender's loop hands to the socket, and whether it came to the end of the file. Each round
-- reads at least one byte, so as many rounds as there are bytes are enough.
unfoldable pub pump : SecretStream → ℕ → FileCrypto → Text → ℕ → Bytes → List Bytes × Bool
pump s zero c msg_id index left = ([], is_empty left)
pump s (suc fuel) c msg_id index left =
    let rest = drop chunk_size left in
    let (c', ct) = encrypt_chunk s (take chunk_size left) (is_empty rest) c in
    let (frames, done) = pump s fuel c' msg_id (index + 1) rest in
    if is_empty left
    then ([], true)
    else if is_empty ct
    then ([], false)
    else (chunk_frame msg_id index ct ∷ frames, done)

-- What a chunk does to its transfer.
pub data Received : Type 0 where
  out_of_order unauthentic : Received
  -- with whether it was the final one
  written : IncomingFile → Bool → Received

-- The index of a frame, and its ciphertext. `int(idx)` is negative from 2 ^ 31 on, and then no index
-- that is waited for.
abbrev pub frame_index : Bytes → ℕ
frame_index frame = number_of (take 4 (drop id_length frame))

unfoldable pub in_turn : IncomingFile → ℕ → Bool
in_turn t index = not (leb (2 ^ 31) index) && nat_beq index t.next_chunk_index

unfoldable pub write_chunk : IncomingFile → FileCrypto × Option (Bytes × Bool) → Received
write_chunk t (c, none) = unauthentic
write_chunk t (c, some (text, last)) =
    written
      (record t {
        crypto = c;
        next_chunk_index = t.next_chunk_index + 1;
        file = t.file ++ text;
        received_bytes = t.received_bytes + length text;
      })
      last

unfoldable pub receive_chunk : SecretStream → Bytes → IncomingFile → Received
receive_chunk s frame t =
    if in_turn t (frame_index frame)
    then write_chunk t (decrypt_chunk s (drop frame_header frame) t.crypto)
    else out_of_order
