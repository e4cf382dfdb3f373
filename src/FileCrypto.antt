-- ===== src/FileCrypto.antt =====
-- `FileCrypto` (client/src/filecrypto.cpp): one file as a stream of sealed chunks. libsodium's
-- secretstream is a parameter; its state of 52 bytes is kept as bytes.
use bachelor_s_thesis.Base.{
  ℕ, ◌+◌, ◌*◌, ◌≡◌, Bool, true, false, not, ◌||◌, Option, none, some, [], ◌++◌, Bytes, Text, codes,
  length, ltb, nat_beq, if◌then◌else◌,
}
use bachelor_s_thesis.Platform.{Platform}
use bachelor_s_thesis.Hkdf.{hkdf_sha256}

pub record SecretStream : Type 0 where
  -- init_push: the key and the random bytes; (state, header), none at a return code that is not zero.
  pub init_push : Bytes → Bytes → Option (Bytes × Bytes)
  -- push: state, text, and whether the tag is TAG_FINAL; (ciphertext, state).
  pub push : Bytes → Bytes → Bool → Option (Bytes × Bytes)
  -- init_pull: header, then key.
  pub init_pull : Bytes → Bytes → Option Bytes
  -- pull: state, ciphertext; (text, whether the tag was TAG_FINAL, state).
  pub pull : Bytes → Bytes → Option (Bytes × Bool × Bytes)

-- The documented behaviour: both ends start in one state and move through the same states.
pub record IsStream (s : SecretStream) : Type 0 where
  pub init_pull-init_push :
      (key random st header : Bytes)
      → s.init_push key random ≡ some (st, header)
      → s.init_pull header key ≡ some st
  pub length-header :
      (key random st header : Bytes)
      → s.init_push key random ≡ some (st, header)
      → length header ≡ 24
  pub pull-push :
      (st text ct st' : Bytes) (last : Bool)
      → s.push st text last ≡ some (ct, st')
      → s.pull st ct ≡ some (text, last, st')
  pub length-push :
      (st text ct st' : Bytes) (last : Bool)
      → s.push st text last ≡ some (ct, st')
      → length ct ≡ length text + 17

abbrev pub chunk_size : ℕ
chunk_size = 64 * 1024

abbrev pub header_bytes : ℕ
header_bytes = 24

abbrev pub key_bytes : ℕ
key_bytes = 32

abbrev pub tag_bytes : ℕ
tag_bytes = 17

abbrev pub max_file_bytes : ℕ
max_file_bytes = 50 * 1024 * 1024

pub record FileCrypto : Type 0 where
  pub stream : Bytes
  pub header : Bytes
  pub initialized : Bool
  pub saw_final : Bool

abbrev pub new_crypto : FileCrypto
new_crypto = record { stream = []; header = []; initialized = false; saw_final = false }

unfoldable pub derive_file_key : Platform → Bytes → Text → Bytes
derive_file_key p shared_secret msg_id =
    hkdf_sha256 p shared_secret (codes "tamk-chat-file-v1|" ++ p.to_utf8 msg_id) key_bytes

module _ (s : SecretStream) where
  unfoldable pub init_push : Bytes → Bytes → FileCrypto → FileCrypto × Bool
  init_push key random c =
      if not (nat_beq (length key) key_bytes) then (c, false) else elim (s.init_push key random) [
        | none ↦ (record c { header = [] }, false)
        | some (st, header) ↦
            (record { stream = st; header = header; initialized = true; saw_final = false }, true)
      ]

  -- Empty where the stream is not started or the call fails.
  unfoldable pub encrypt_chunk : Bytes → Bool → FileCrypto → FileCrypto × Bytes
  encrypt_chunk text last c =
      if not c.initialized then (c, []) else elim (s.push c.stream text last) [
        | none ↦ (c, [])
        | some (ct, st) ↦ (record c { stream = st }, ct)
      ]

  unfoldable pub init_pull : Bytes → Bytes → FileCrypto → FileCrypto × Bool
  init_pull key header c =
      if not (nat_beq (length key) key_bytes) || not (nat_beq (length header) header_bytes)
      then (c, false)
      else elim (s.init_pull header key) [
        | none ↦ (c, false)
        | some st ↦ (record c { stream = st; initialized = true; saw_final = false }, true)
      ]

  -- None is the null array; the Boolean is `isFinal`.
  unfoldable pub decrypt_chunk : Bytes → FileCrypto → FileCrypto × Option (Bytes × Bool)
  decrypt_chunk ct c =
      if not c.initialized || ltb (length ct) tag_bytes
      then (c, none)
      else elim (s.pull c.stream ct) [
        | none ↦ (c, none)
        | some (text, last, st) ↦
            (record c { stream = st; saw_final = last || c.saw_final }, some (text, last))
      ]
