-- ===== src/X3dh/Keys.antt =====
-- Identity and prekeys of client/src/x3dh.cpp: the conversions and the signature of a prekey.
use bachelor_s_thesis.Base.{
  ◌≡◌, refl, ap, true, false, Option, none, some, arith, Bytes, length, is_empty, nat_beq,
  nat_beq_iff, if◌then◌else◌, ◌>>=◌, >>=-eq-some, or_empty,
}
use bachelor_s_thesis.Platform.{Platform, IsLawful}
use bachelor_s_thesis.X3dh.{
  dh, secret_key_from_seed, identity_public, identity_to_x25519_private, identity_to_x25519_public,
  sign, verify, new_signed_prekey,
}

nonempty_some : (o : Option Bytes) → is_empty (or_empty o) ≡ false → (b : Bytes) × (o ≡ some b)
nonempty_some none h = cc
nonempty_some (some b) h = (b, refl)

module _ (p : Platform) (law : IsLawful p) where
  open p use {scalarmult_base, seed_keypair, sk_to_curve25519, sign_detached}

  pub dh-base_comm :
      (a b : Bytes)
      → length a ≡ 32
      → length b ≡ 32
      → dh p a (scalarmult_base b) ≡ dh p b (scalarmult_base a)
  unfolding dh
  dh-base_comm a b h k =
      rw (h, k, law.length-base a, law.length-base b) (ap or_empty (law.dh_comm a b))

  keypair_of_secret :
      (seed : Bytes) (keys : Bytes × Bytes)
      → secret_key_from_seed p seed ≡ some keys
      → seed_keypair seed ≡ some keys
  unfolding secret_key_from_seed
  keypair_of_secret seed keys h = ground arith

  -- The parts that a private agreement key was derived from.
  private_parts :
      (seed : Bytes)
      → is_empty (identity_to_x25519_private p seed) ≡ false
      → (pk sk x : Bytes) × (secret_key_from_seed p seed ≡ some (pk, sk))
        × (sk_to_curve25519 sk ≡ some x)
        × (identity_to_x25519_private p seed ≡ x)
        × (identity_public p seed ≡ pk)
  unfolding identity_to_x25519_private identity_public
  private_parts seed h =
      let (x, is_x) =
        nonempty_some (secret_key_from_seed p seed >>= λ keys. sk_to_curve25519 keys.1) h in
      let (keys, is_keys, at_x) = >>=-eq-some (secret_key_from_seed p seed) _ is_x in
      (keys.0, keys.1, x, is_keys, at_x, rw is_x, rw is_keys)

  -- Both halves of an identity's agreement key fit, however they were derived.
  pub identity_to_x25519_public-identity_public :
      (seed : Bytes)
      → is_empty (identity_to_x25519_private p seed) ≡ false
      → identity_to_x25519_public p (identity_public p seed)
        ≡ some (scalarmult_base (identity_to_x25519_private p seed))
  unfolding identity_to_x25519_public
  identity_to_x25519_public-identity_public seed h =
      let (pk, sk, x, made, at_x, private, public) = private_parts seed h in
      let pair = keypair_of_secret seed (pk, sk) made in
      rw (public, private, law.length-public seed pk sk pair)
        (law.curve_public seed pk sk x pair at_x)

  pub length-private :
      (seed : Bytes)
      → is_empty (identity_to_x25519_private p seed) ≡ false
      → length (identity_to_x25519_private p seed) ≡ 32
  length-private seed h =
      let (pk, sk, x, made, at_x, private, public) = private_parts seed h in
      rw private (law.length-curve_private sk x at_x)

  verify_pair :
      (seed message pk sk sig s : Bytes)
      → secret_key_from_seed p seed ≡ some (pk, sk)
      → sign_detached message sk ≡ some sig
      → (length sig ≡ 64) × (sig ≡ s)
      → verify p (identity_public p seed) message s ≡ true
  unfolding verify identity_public
  verify_pair seed message pk sk sig s made signed (size, e) =
      let pair = keypair_of_secret seed (pk, sk) made in
      rw (← e, made, law.length-public seed pk sk pair, size)
        (law.verify-sign seed pk sk message sig pair signed)

  -- A signature that was made verifies under the identity's public key.
  verify-sign :
      (seed message : Bytes)
      → is_empty (sign p seed message) ≡ false
      → verify p (identity_public p seed) message (sign p seed message) ≡ true
  unfolding sign
  verify-sign seed message h =
      let (s, is_s) =
        nonempty_some
          (secret_key_from_seed p seed >>= λ keys. sign_detached message keys.1 >>= λ sig.
            if nat_beq (length sig) 64 then some sig else none)
          h in
      let (keys, made, h1) = >>=-eq-some (secret_key_from_seed p seed) _ is_s in
      let (sig, signed, h2) = >>=-eq-some (sign_detached message keys.1) _ h1 in
      rw is_s (
        verify_pair seed message keys.0 keys.1 sig s made signed
          (ground (arith, nat_beq_iff (length sig) 64)))

  -- A signed prekey that was just made passes the check of whoever receives it, and its public half
  -- is that of its private half, which is the key that was drawn.
  pub verify-new_signed_prekey :
      (seed fresh priv spk sig : Bytes)
      → new_signed_prekey p seed fresh ≡ some (priv, spk, sig)
      → (verify p (identity_public p seed) spk sig ≡ true)
        × (spk ≡ scalarmult_base priv)
        × (priv ≡ fresh)
  unfolding new_signed_prekey
  verify-new_signed_prekey seed fresh priv spk sig h =
      ground (arith, verify-sign seed (scalarmult_base fresh))
