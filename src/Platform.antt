-- ===== src/Platform.antt =====
-- What the client calls and does not implement: libsodium's primitives and Qt's text codecs. They
-- are fields of a record that the definitions take; the laws that the theorems use stand in
-- `IsLawful`. A return code that is not zero is `none`.
pub mod Toy
use bachelor_s_thesis.Base.{ℕ, ◌+◌, ◌≡◌, true, Bool, Option, some, Bytes, Text, length}

pub record Platform : Type 0 where
  -- crypto_auth_hmacsha256: the key, then the message.
  pub hmac : Bytes → Bytes → Bytes
  -- crypto_scalarmult, none at a low-order result, and crypto_scalarmult_base.
  pub scalarmult : Bytes → Bytes → Option Bytes
  pub scalarmult_base : Bytes → Bytes
  -- crypto_sign_seed_keypair: (public key, secret key).
  pub seed_keypair : Bytes → Option (Bytes × Bytes)
  pub sk_to_curve25519 : Bytes → Option Bytes
  pub pk_to_curve25519 : Bytes → Option Bytes
  -- crypto_sign_detached: the message and the secret key; crypto_sign_verify_detached: the
  -- signature, the message and the public key.
  pub sign_detached : Bytes → Bytes → Option Bytes
  pub verify_detached : Bytes → Bytes → Bytes → Bool
  -- The two AEADs: key, nonce, text, associated data.
  pub aes_encrypt : Bytes → Bytes → Bytes → Bytes → Bytes
  pub aes_decrypt : Bytes → Bytes → Bytes → Bytes → Option Bytes
  pub xchacha_encrypt : Bytes → Bytes → Bytes → Bytes → Bytes
  pub xchacha_decrypt : Bytes → Bytes → Bytes → Bytes → Option Bytes
  -- crypto_pwhash to 32 bytes: the input and the salt.
  pub pwhash : Bytes → Bytes → Option Bytes
  -- crypto_secretbox_easy and its inverse: text, nonce, key.
  pub secretbox : Bytes → Bytes → Bytes → Bytes
  pub secretbox_open : Bytes → Bytes → Bytes → Option Bytes
  pub sha256 : Bytes → Bytes
  -- QString::toUtf8 and fromUtf8, QByteArray::toHex and fromHex.
  pub to_utf8 : Text → Bytes
  pub from_utf8 : Bytes → Text
  pub to_hex : Bytes → Text
  pub from_hex : Text → Bytes

-- The documented behaviour that the theorems rely on.
pub record IsLawful (p : Platform) : Type 0 where
  pub length-hmac : (k m : Bytes) → length (p.hmac k m) ≡ 32
  pub length-base : (k : Bytes) → length (p.scalarmult_base k) ≡ 32
  pub dh_comm :
      (a b : Bytes) → p.scalarmult a (p.scalarmult_base b) ≡ p.scalarmult b (p.scalarmult_base a)
  pub length-dh : (a b s : Bytes) → p.scalarmult a b ≡ some s → length s ≡ 32
  pub length-public : (seed pk sk : Bytes) → p.seed_keypair seed ≡ some (pk, sk) → length pk ≡ 32
  pub length-curve_private : (sk x : Bytes) → p.sk_to_curve25519 sk ≡ some x → length x ≡ 32
  -- The X25519 public key of an identity is that of its X25519 private key.
  pub curve_public :
      (seed pk sk x : Bytes)
      → p.seed_keypair seed ≡ some (pk, sk)
      → p.sk_to_curve25519 sk ≡ some x
      → p.pk_to_curve25519 pk ≡ some (p.scalarmult_base x)
  pub verify-sign :
      (seed pk sk msg sig : Bytes)
      → p.seed_keypair seed ≡ some (pk, sk)
      → p.sign_detached msg sk ≡ some sig
      → p.verify_detached sig msg pk ≡ true
  pub xchacha_open :
      (k n pt ad : Bytes) → p.xchacha_decrypt k n (p.xchacha_encrypt k n pt ad) ad ≡ some pt
  pub secretbox_opens : (pt n k : Bytes) → p.secretbox_open (p.secretbox pt n k) n k ≡ some pt
  pub length-secretbox : (pt n k : Bytes) → length (p.secretbox pt n k) ≡ length pt + 16
  pub length-pwhash : (i s h : Bytes) → p.pwhash i s ≡ some h → length h ≡ 32
  pub length-sha256 : (b : Bytes) → length (p.sha256 b) ≡ 32
  pub from_utf8-to_utf8 : (t : Text) → p.from_utf8 (p.to_utf8 t) ≡ t
  pub from_hex-to_hex : (b : Bytes) → p.from_hex (p.to_hex b) ≡ b
