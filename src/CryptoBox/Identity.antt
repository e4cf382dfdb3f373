-- ===== src/CryptoBox/Identity.antt =====
-- The identity of `CryptoBox`: generation, the key derivation, the files and the user switch. A
-- file is its contents, none where it cannot be opened.
pub mod Files
pub mod Switch
use bachelor_s_thesis.Base.{
  ℕ, ◌+◌, Bool, true, false, not, ◌&&◌, ◌||◌, Option, none, some, List, [], ◌∷◌, ◌++◌, Bytes, Text,
  codes, length, take, drop, is_empty, nat_beq, ltb, ◌==◌, bytes_eq, if◌then◌else◌, ◌>>=◌, ◌>>◌,
  guard, or_empty,
}
use bachelor_s_thesis.Platform.{Platform}
use bachelor_s_thesis.X3dh
use bachelor_s_thesis.CryptoBox.State.{CryptoBox, has_x3dh_identity}

-- {'C','E','2','E','E','I','D','P'} and "CE2EEID1".
abbrev pub plain_magic : Bytes
plain_magic = codes "CE2EEIDP"

abbrev pub wrap_magic : Bytes
wrap_magic = codes "CE2EEID1"

abbrev pub wrap_ctx : Bytes
wrap_ctx = codes "tamk-chat-idkey-wrap-v1"

abbrev pub verify_ctx : Bytes
verify_ctx = codes "tamk-chat-pw-verify-v1"

-- How the version byte of a wrapped identity reads.
abbrev pub wrap_version_legacy : ℕ
wrap_version_legacy = 1

abbrev pub wrap_version : ℕ
wrap_version = 2

-- The byte at a place; the callers have checked the size.
abbrev pub byte_at : Bytes → ℕ → Bytes
byte_at b i = take 1 (drop i b)

module _ (p : Platform) where
  open p use {scalarmult_base, pwhash, secretbox, secretbox_open, to_utf8, to_hex, from_hex}

  unfoldable pub derive_agreement_keys_from_seed : CryptoBox → Option CryptoBox
  derive_agreement_keys_from_seed box =
      let ed_pub = X3dh.identity_public p box.identity_seed in
      let x_priv = X3dh.identity_to_x25519_private p box.identity_seed in
      do
        guard (not (is_empty ed_pub || is_empty x_priv))
        x_pub ← X3dh.identity_to_x25519_public p ed_pub
        some (record box { ed_public_key = ed_pub; private_key = x_priv; public_key = x_pub })

  -- Sets the seed, derives the keys from it and marks version 2; a failure clears the seed.
  abbrev pub adopt_seed : CryptoBox → Bytes → CryptoBox × Bool
  adopt_seed box seed =
      elim (derive_agreement_keys_from_seed (record box { identity_seed = seed })) [
        | none ↦ (record box { identity_seed = [] }, false)
        | some derived ↦ (record derived { identity_version = 2 }, true)
      ]

  unfoldable pub generate_identity : CryptoBox → Bytes → CryptoBox
  generate_identity box fresh = elim (X3dh.generate_identity p fresh) [
    | none ↦ box
    | some keys ↦ (adopt_seed box keys.0).0
  ]

  unfoldable pub ed_public_key_hex : CryptoBox → Text
  ed_public_key_hex box = to_hex box.ed_public_key

  unfoldable pub public_key_hex : CryptoBox → Text
  public_key_hex box = to_hex box.public_key

  unfoldable pub sign_with_identity : CryptoBox → Bytes → Bytes
  sign_with_identity box message =
      if has_x3dh_identity box then X3dh.sign p box.identity_seed message else []

  unfoldable pub verify_identity_signature : Bytes → Bytes → Bytes → Bool
  verify_identity_signature ed_pub message sig = X3dh.verify p ed_pub message sig

  -- A version 1 identity: the raw X25519 private key.
  abbrev pub adopt_legacy : CryptoBox → Bytes → CryptoBox
  adopt_legacy box key = record box {
    private_key = key;
    public_key = scalarmult_base key;
    identity_seed = [];
    ed_public_key = [];
    identity_version = 1;
  }

  unfoldable pub load_identity : CryptoBox → Option Bytes → CryptoBox × Bool
  load_identity box none = (box, false)
  load_identity box (some raw) =
      if nat_beq (length raw) 41 && take 8 raw == plain_magic
      then (if byte_at raw 8 == 2 ∷ [] then adopt_seed box (take 32 (drop 9 raw)) else (box, false))
      else if nat_beq (length raw) 32
      then (adopt_legacy box raw, true)
      else (box, false)

  -- The bytes that `saveIdentity` writes.
  unfoldable pub save_identity : CryptoBox → Bytes
  save_identity box =
      if has_x3dh_identity box then plain_magic ++ 2 ∷ box.identity_seed else box.private_key

  unfoldable pub argon2id32 : Bytes → Bytes → Bytes → Option Bytes
  argon2id32 ctx password salt = pwhash (ctx ++ password) salt

  -- None is a refusal before anything is written; the salt and the nonce are random.
  unfoldable pub save_identity_encrypted : CryptoBox → Text → Bytes → Bytes → Option Bytes
  unfolding argon2id32
  save_identity_encrypted box password salt nonce = do
    guard (nat_beq (length box.private_key) 32)
    wrap_key ← argon2id32 wrap_ctx (to_utf8 password) salt
    let secret = if has_x3dh_identity box then box.identity_seed else box.private_key
    let version = if has_x3dh_identity box then wrap_version else wrap_version_legacy
    some (wrap_magic ++ (version ∷ (salt ++ (nonce ++ secretbox secret nonce wrap_key))))

  -- The checks on the header of a wrapped identity, and the secret in it with its version byte.
  unfoldable pub unwrap_identity : Bytes → Text → Option (Bytes × Bool)
  unfolding argon2id32
  unwrap_identity blob password = do
    guard (not (ltb (length blob) 97))
    guard (take 8 blob == wrap_magic)
    let version = byte_at blob 8
    guard (version == wrap_version ∷ [] || version == wrap_version_legacy ∷ [])
    wrap_key ← argon2id32 wrap_ctx (to_utf8 password) (take 16 (drop 9 blob))
    secret ← secretbox_open (drop 49 blob) (take 24 (drop 25 blob)) wrap_key
    some (secret, version == wrap_version ∷ [])

  unfoldable pub load_identity_encrypted : CryptoBox → Option Bytes → Text → CryptoBox × Bool
  load_identity_encrypted box none password = (box, false)
  load_identity_encrypted box (some blob) password = elim (unwrap_identity blob password) [
    | none ↦ (box, false)
    | some (secret, is_seed) ↦
        if is_seed then adopt_seed box secret else (adopt_legacy box secret, true)
  ]

  unfoldable pub is_encrypted_identity_file : Option Bytes → Bool
  is_encrypted_identity_file none = false
  is_encrypted_identity_file (some blob) =
      let head = take 9 blob in
      if ltb (length head) 9
      then false
      else take 8 head == wrap_magic && byte_at head 8 == wrap_version ∷ []

  -- (verifier in hex, salt in hex)
  unfoldable pub derive_verifier : Text → Bytes → Option (Text × Text)
  unfolding argon2id32
  derive_verifier password salt = do
    verifier ← argon2id32 verify_ctx (to_utf8 password) salt
    some (to_hex verifier, to_hex salt)

  unfoldable pub derive_verifier_with_salt : Text → Text → Text
  unfolding argon2id32
  derive_verifier_with_salt password salt_hex =
      let salt = from_hex salt_hex in
      if nat_beq (length salt) 16
      then elim (argon2id32 verify_ctx (to_utf8 password) salt) [ none ↦ [] | some v ↦ to_hex v ]
      else []

unfoldable pub reset_for_new_user : CryptoBox → CryptoBox
reset_for_new_user box = record box {
  sessions = [];
  peer_identity = [];
  private_key = [];
  public_key = [];
}
