-- ===== src/Ratchet/Primitives.antt =====
-- The key derivations, the AEAD dispatch and the byte layouts of client/src/cryptobox.cpp.
use bachelor_s_thesis.Base.{
  ℕ, Option, none, some, [], ◌∷◌, ◌++◌, Bytes, codes, take, drop, be32, or_empty, ◌==◌, bytes_eq,
  if◌then◌else◌,
}
use bachelor_s_thesis.Platform.{Platform}
use bachelor_s_thesis.Hkdf.{hkdf}

abbrev pub hkdf_info : Bytes
hkdf_info = codes "tamk-chat-e2ee-v1"

abbrev pub root_info : Bytes
root_info = codes "tamk-chat-ratchet-root-v1"

abbrev pub local_info : Bytes
local_info = codes "tamk-chat-local-history-v1"

abbrev pub cipher_aes : Bytes
cipher_aes = codes "a256gcm-r1"

abbrev pub cipher_xchacha : Bytes
cipher_xchacha = codes "xc20p1305-r1"

-- Associated data = cipher tag || dh || pn(4, big-endian) || n(4, big-endian).
unfoldable pub ad_bytes : Bytes → Bytes → ℕ → ℕ → Bytes
ad_bytes cipher dh_pub pn n = cipher ++ dh_pub ++ be32 pn ++ be32 n

-- The key into the skipped-message store: DHr_pub || n(4, big-endian).
unfoldable pub skip_key : Bytes → ℕ → Bytes
skip_key dh_pub n = dh_pub ++ be32 n

unfoldable pub nonce_len_for : Bytes → ℕ
nonce_len_for cipher = if cipher == cipher_aes then 12 else 24

module _ (p : Platform) where
  open p use {
    hmac, scalarmult, scalarmult_base, aes_encrypt, aes_decrypt, xchacha_encrypt, xchacha_decrypt,
  }

  -- Empty at a degenerate result.
  unfoldable pub dh_fn : Bytes → Bytes → Bytes
  dh_fn priv pub_key = or_empty (scalarmult priv pub_key)

  -- (private, public), from the random bytes.
  unfoldable pub gen_keypair : Bytes → Bytes × Bytes
  gen_keypair fresh = (fresh, scalarmult_base fresh)

  -- (new root key, chain key)
  unfoldable pub kdf_rk : Bytes → Bytes → Bytes × Bytes
  kdf_rk rk dh_out =
      let okm = hkdf p (some rk) dh_out root_info 64 in (take 32 okm, take 32 (drop 32 okm))

  -- (next chain key, message key)
  unfoldable pub kdf_ck : Bytes → Bytes × Bytes
  kdf_ck ck = (hmac ck (0x02 ∷ []), hmac ck (0x01 ∷ []))

  -- The arguments of both: cipher tag, key, nonce, text, associated data.
  unfoldable pub aead_encrypt : Bytes → Bytes → Bytes → Bytes → Bytes → Bytes
  aead_encrypt cipher key nonce pt ad =
      if cipher == cipher_aes then aes_encrypt key nonce pt ad else xchacha_encrypt key nonce pt ad

  unfoldable pub aead_decrypt : Bytes → Bytes → Bytes → Bytes → Bytes → Option Bytes
  aead_decrypt cipher key nonce ct ad =
      if cipher == cipher_aes then aes_decrypt key nonce ct ad else xchacha_decrypt key nonce ct ad

  -- The legacy bootstrap secret.
  unfoldable pub bootstrap_sk : Bytes → Bytes → Bytes
  unfolding dh_fn
  bootstrap_sk my_priv peer_pub = hkdf p none (dh_fn my_priv peer_pub) hkdf_info 32
