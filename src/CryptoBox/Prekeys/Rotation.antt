-- ===== src/CryptoBox/Prekeys/Rotation.antt =====
-- The rotation of the signed prekey (`rotateSignedPrekeyIfDue` and `dropExpiredPreviousPrekey` of
-- client/src/cryptobox.cpp).
use bachelor_s_thesis.Base.{
  ℕ, ◌≡◌, ◌≢◌, true, false, none, some, [], arith, Bytes, is_empty, bytes_eq,
}
use bachelor_s_thesis.Base.Int.{ℤ, pos, ltb_ℤ, ◌-ℤ◌}
use bachelor_s_thesis.Platform.{Platform}
use bachelor_s_thesis.X3dh
use bachelor_s_thesis.CryptoBox.State.{CryptoBox, has_x3dh_identity}
use bachelor_s_thesis.CryptoBox.Prekeys.{
  generate_prekeys, retire_signed_prekey, fill_pool, restamp, signed_prekey_age_ms,
  rotate_signed_prekey_if_due, drop_expired_previous_prekey,
}
use bachelor_s_thesis.CryptoBox.X3dhSessions.{choose_spk}

-- A clock that went back, or a time of creation that is unknown, restarts the age of the key.
pub restamp_backwards :
    (box : CryptoBox) (now : ℤ)
    → ltb_ℤ (signed_prekey_age_ms box now) (pos 0) ≡ true
    → restamp box now ≡ (record box { spk_created_ms = now }, pos 0)
unfolding restamp
restamp_backwards box now h = ground arith

pub restamp_forwards :
    (box : CryptoBox) (now : ℤ)
    → ltb_ℤ (signed_prekey_age_ms box now) (pos 0) ≡ false
    → restamp box now ≡ (box, signed_prekey_age_ms box now)
unfolding restamp
restamp_forwards box now h = ground arith

-- The box after a rotation: the new key is current, the old one is retained, and the pool of
-- one-time prekeys is the one from before.
abbrev pub rotated : CryptoBox → Bytes × Bytes × Bytes → ℤ → ℤ → CryptoBox
rotated box (priv, pub_key, sig) retired created = record box {
  spk_priv = priv;
  spk_pub = pub_key;
  spk_sig = sig;
  spk_created_ms = created;
  prev_spk_priv = box.spk_priv;
  prev_spk_pub = box.spk_pub;
  prev_spk_retired_ms = retired;
}

module _ (p : Platform) where
  generate_prekeys-made :
      (box : CryptoBox) (fresh : Bytes) (none_fresh : ℕ → Bytes) (retired created : ℤ)
      (made : Bytes × Bytes × Bytes)
      → has_x3dh_identity box ≡ true
      → is_empty box.spk_priv ≡ false
      → X3dh.new_signed_prekey p box.identity_seed fresh ≡ some made
      → generate_prekeys p box (pos 0) fresh none_fresh retired created
        ≡ some (record (rotated box made retired created) { opk_priv = [] })
  unfolding generate_prekeys retire_signed_prekey fill_pool
  generate_prekeys-made box fresh none_fresh retired created made has have e = rw (has, e, have)

  pub rotate_due :
      (box : CryptoBox) (max_age now : ℤ) (fresh : Bytes) (retired created : ℤ)
      (made : Bytes × Bytes × Bytes)
      → has_x3dh_identity box ≡ true
      → is_empty box.spk_priv ≡ false
      → ltb_ℤ (signed_prekey_age_ms box now) (pos 0) ≡ false
      → ltb_ℤ (signed_prekey_age_ms box now) max_age ≡ false
      → X3dh.new_signed_prekey p box.identity_seed fresh ≡ some made
      → rotate_signed_prekey_if_due p box max_age now fresh retired created
        ≡ (rotated box made retired created, true)
  unfolding rotate_signed_prekey_if_due
  rotate_due box max_age now fresh retired created made has have forwards due e =
      rw (restamp_forwards box now forwards, due, has, have)
        (rw (generate_prekeys-made box fresh (λ i. []) retired created made has have e)
          (rw (restamp_forwards box now forwards)))

  pub rotate_early :
      (box : CryptoBox) (max_age now : ℤ) (fresh : Bytes) (retired created : ℤ)
      → ltb_ℤ (signed_prekey_age_ms box now) (pos 0) ≡ false
      → ltb_ℤ (signed_prekey_age_ms box now) max_age ≡ true
      → rotate_signed_prekey_if_due p box max_age now fresh retired created ≡ (box, false)
  unfolding rotate_signed_prekey_if_due
  rotate_early box max_age now fresh retired created forwards early =
      rw (restamp_forwards box now forwards) (ground arith)

  pub rotate_backwards :
      (box : CryptoBox) (max_age now : ℤ) (fresh : Bytes) (retired created : ℤ)
      → has_x3dh_identity box ≡ true
      → is_empty box.spk_priv ≡ false
      → ltb_ℤ (signed_prekey_age_ms box now) (pos 0) ≡ true
      → ltb_ℤ (pos 0) max_age ≡ true
      → rotate_signed_prekey_if_due p box max_age now fresh retired created
        ≡ (record box { spk_created_ms = now }, false)
  unfolding rotate_signed_prekey_if_due
  rotate_backwards box max_age now fresh retired created has have back early =
      rw (restamp_backwards box now back) (ground arith)

  -- A rotation that was due retains the replaced key: an opener on it is still answered with its
  -- private half, and one on the new key with the new one.
  pub rotate_choose_spk :
      (box : CryptoBox) (max_age now : ℤ) (fresh : Bytes) (retired created : ℤ)
      (priv pub_key sig : Bytes)
      → has_x3dh_identity box ≡ true
      → is_empty box.spk_priv ≡ false
      → is_empty box.spk_pub ≡ false
      → ltb_ℤ (signed_prekey_age_ms box now) (pos 0) ≡ false
      → ltb_ℤ (signed_prekey_age_ms box now) max_age ≡ false
      → X3dh.new_signed_prekey p box.identity_seed fresh ≡ some (priv, pub_key, sig)
      → pub_key ≢ box.spk_pub
      → let after = (rotate_signed_prekey_if_due p box max_age now fresh retired created).0 in
        (choose_spk after box.spk_pub ≡ some box.spk_priv) × (choose_spk after pub_key ≡ some priv)
  unfolding choose_spk
  rotate_choose_spk box max_age now fresh retired created priv pub_key sig has have known forwards
        due e new =
      rw
        (rotate_due box max_age now fresh retired created (priv, pub_key, sig) has have forwards due
          e)
        (ground (
          arith,
          bytes_eq.agrees box.spk_pub pub_key,
          bytes_eq.agrees pub_key pub_key,
          bytes_eq.agrees box.spk_pub box.spk_pub,
        ))

-- The replaced key goes once the grace period is over, and an opener on it is then refused.
pub drop_expired_choose_spk :
    (box : CryptoBox) (grace now : ℤ)
    → is_empty box.prev_spk_priv ≡ false
    → is_empty box.prev_spk_pub ≡ false
    → ltb_ℤ (now -ℤ box.prev_spk_retired_ms) grace ≡ false
    → box.prev_spk_pub ≢ box.spk_pub
    → ((drop_expired_previous_prekey box grace now).1 ≡ true)
      × (choose_spk (drop_expired_previous_prekey box grace now).0 box.prev_spk_pub ≡ none)
unfolding choose_spk drop_expired_previous_prekey
drop_expired_choose_spk box grace now have known late new =
    ground (arith, bytes_eq.agrees box.prev_spk_pub box.spk_pub)
