-- ===== src/X3dh.antt =====
-- client/src/x3dh.cpp: the key agreement, over libsodium as a platform. An empty result is the
-- source's empty vector, a `bool` with out-parameters is an `Option`, and what `randombytes_buf`
-- writes is the argument `fresh`.
pub mod Hex
pub mod Keys
pub mod Agreement
use bachelor_s_thesis.Base.{
  ℕ, ◌≡◌, Bool, true, false, not, ◌&&◌, ◌||◌, Option, none, some, [], ◌++◌, Bytes, codes, length,
  replicate, is_empty, nat_beq, or_empty, if◌then◌else◌, ◌>>=◌, ◌>>◌, guard,
}
use bachelor_s_thesis.Base.Int.{ℤ, negsuc}
use bachelor_s_thesis.Platform.{Platform}
use bachelor_s_thesis.Hkdf.{hkdf}

pub record Bundle : Type 0 where
  pub ik : Bytes
  pub spk : Bytes
  pub spk_sig : Bytes
  pub opk : Bytes
  pub opk_id : ℤ

pub record InitiatorResult : Type 0 where
  pub sk : Bytes
  pub ik : Bytes
  pub ek : Bytes
  pub ad : Bytes
  pub opk_id : ℤ

abbrev pub x3dh_info : Bytes
x3dh_info = codes "tamk-chat-x3dh-v1"

abbrev pub public_part : Option (Bytes × Bytes) → Bytes
public_part none = []
public_part (some (pk, sk)) = pk

-- The 32 bytes 0xFF that X3DH puts before the DH results.
abbrev pub f_prefix : Bytes
f_prefix = replicate 32 0xff

module _ (p : Platform) where
  open p use {
    scalarmult, scalarmult_base, seed_keypair, sk_to_curve25519, pk_to_curve25519, sign_detached,
    verify_detached,
  }

  unfoldable pub dh : Bytes → Bytes → Bytes
  dh priv pub_key =
      if not (nat_beq (length priv) 32) || not (nat_beq (length pub_key) 32)
      then []
      else or_empty (scalarmult priv pub_key)

  -- (public key, 64-byte secret key)
  unfoldable pub secret_key_from_seed : Bytes → Option (Bytes × Bytes)
  secret_key_from_seed seed = if nat_beq (length seed) 32 then seed_keypair seed else none

  unfoldable pub kdf : Bytes → Bytes
  kdf dh_concat = hkdf p none (f_prefix ++ dh_concat) x3dh_info 32

  unfoldable pub identity_public : Bytes → Bytes
  unfolding secret_key_from_seed
  identity_public seed = public_part (secret_key_from_seed seed)

  -- (seed, Ed25519 public key)
  unfoldable pub generate_identity : Bytes → Option (Bytes × Bytes)
  unfolding secret_key_from_seed
  generate_identity fresh = do keys ← secret_key_from_seed fresh; some (fresh, keys.0)

  unfoldable pub identity_to_x25519_private : Bytes → Bytes
  unfolding secret_key_from_seed
  identity_to_x25519_private seed =
      or_empty (do keys ← secret_key_from_seed seed; sk_to_curve25519 keys.1)

  unfoldable pub identity_to_x25519_public : Bytes → Option Bytes
  identity_to_x25519_public ed_pub =
      if nat_beq (length ed_pub) 32 then pk_to_curve25519 ed_pub else none

  unfoldable pub sign : Bytes → Bytes → Bytes
  unfolding secret_key_from_seed
  sign seed message = or_empty (do
    keys ← secret_key_from_seed seed
    sig ← sign_detached message keys.1
    if nat_beq (length sig) 64 then some sig else none)

  unfoldable pub verify : Bytes → Bytes → Bytes → Bool
  verify ed_pub message sig =
      if not (nat_beq (length ed_pub) 32) || not (nat_beq (length sig) 64)
      then false
      else verify_detached sig message ed_pub

  -- (private, public, signature)
  unfoldable pub new_signed_prekey : Bytes → Bytes → Option (Bytes × Bytes × Bytes)
  new_signed_prekey ik_seed fresh =
      let spk_pub = scalarmult_base fresh in
      let sig = sign ik_seed spk_pub in if is_empty sig then none else some (fresh, spk_pub, sig)

  -- (private, public)
  unfoldable pub new_one_time_prekey : Bytes → Bytes × Bytes
  new_one_time_prekey fresh = (fresh, scalarmult_base fresh)

  -- The fourth DH, appended where a one-time key takes part.
  unfoldable pub with_one_time : Bytes → Bytes → Bytes → Bytes → Option Bytes
  with_one_time concat opk priv pub_key =
      let dh4 = dh priv pub_key in
      if is_empty opk then some concat else if is_empty dh4 then none else some (concat ++ dh4)

  unfoldable pub initiator_with_ephemeral : Bytes → Bundle → Bytes → Option InitiatorResult
  initiator_with_ephemeral a_ik_seed b ek_priv = do
    guard (verify b.ik b.spk b.spk_sig)
    let a_ik_pub = identity_public a_ik_seed
    let a_ik_x = identity_to_x25519_private a_ik_seed
    guard (not (is_empty a_ik_pub || is_empty a_ik_x))
    b_ik_x ← identity_to_x25519_public b.ik
    guard (nat_beq (length ek_priv) 32)
    let dh1 = dh a_ik_x b.spk
    let dh2 = dh ek_priv b_ik_x
    let dh3 = dh ek_priv b.spk
    guard (not (is_empty dh1 || is_empty dh2 || is_empty dh3))
    concat ← with_one_time ((dh1 ++ dh2) ++ dh3) b.opk ek_priv b.opk
    let sk = kdf concat
    guard (not (is_empty sk))
    some (record {
      sk = sk;
      ik = a_ik_pub;
      ek = scalarmult_base ek_priv;
      ad = a_ik_pub ++ b.ik;
      opk_id = if is_empty b.opk then negsuc 0 else b.opk_id;
    })

  unfoldable pub initiator : Bytes → Bundle → Bytes → Option InitiatorResult
  initiator a_ik_seed b fresh = initiator_with_ephemeral a_ik_seed b fresh

  unfoldable pub responder : Bytes → Bytes → Bytes → Bytes → Bytes → Option Bytes
  responder b_ik_seed spk_priv opk_priv ik_a ek_a = do
    a_ik_x ← identity_to_x25519_public ik_a
    let b_ik_x = identity_to_x25519_private b_ik_seed
    guard (not (is_empty b_ik_x))
    let dh1 = dh spk_priv a_ik_x
    let dh2 = dh b_ik_x ek_a
    let dh3 = dh spk_priv ek_a
    guard (not (is_empty dh1 || is_empty dh2 || is_empty dh3))
    concat ← with_one_time ((dh1 ++ dh2) ++ dh3) opk_priv opk_priv ek_a
    let sk = kdf concat
    guard (not (is_empty sk))
    some sk

-- A test that runs the agreement unfolds this one name.
unfoldable pub x3dh_runs : ℕ
unfolding hkdf dh kdf verify sign identity_public identity_to_x25519_private
    identity_to_x25519_public with_one_time initiator_with_ephemeral initiator responder
    new_signed_prekey new_one_time_prekey generate_identity
x3dh_runs = 0
