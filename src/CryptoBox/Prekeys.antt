-- ===== src/CryptoBox/Prekeys.antt =====
-- The signed prekey, its predecessor and the one-time pool of `CryptoBox`. The clock readings and
-- the random keys are arguments; a `qint64` time is an integer.
pub mod Pool
pub mod Rotation
use bachelor_s_thesis.Base.{
  ℕ, zero, suc, ◌+◌, ◌%◌, ◌^◌, Bool, true, false, not, ◌&&◌, ◌||◌, Option, none, some, List, [],
  ◌∷◌, ◌++◌, Bytes, Text, codes, length, is_empty, nat_beq, ◌==◌, bytes_eq, if◌then◌else◌, ◌>>=◌,
  ◌>>◌, guard, map,
}
use bachelor_s_thesis.Base.Int.{ℤ, pos, negsuc, ◌-ℤ◌, ltb_ℤ, pos_part}
use bachelor_s_thesis.Base.OrderedMap
use bachelor_s_thesis.Base.OrderedMap.{OrderedMap}
use bachelor_s_thesis.Platform.{Platform}
use bachelor_s_thesis.X3dh
use bachelor_s_thesis.CryptoBox.State.{CryptoBox, has_x3dh_identity}
use bachelor_s_thesis.CryptoBox.Identity.{verify_identity_signature}

unfoldable pub has_prekeys : CryptoBox → Bool
has_prekeys box = not (is_empty box.spk_priv)

abbrev pub u32 : ℕ → ℕ
u32 n = n % 2 ^ 32

module _ (p : Platform) where
  open p use {scalarmult_base, to_hex}

  -- One round of the loop: a new key under the next id.
  abbrev pub add_one_time_prekey : CryptoBox → Bytes → CryptoBox
  add_one_time_prekey box fresh = record box {
    opk_priv = OrderedMap.insert box.next_opk_id (X3dh.new_one_time_prekey p fresh).0 box.opk_priv;
    next_opk_id = u32 (box.next_opk_id + 1);
  }

  -- The loop over `opkCount`: `i` counts up, `fresh i` is the random key of the round.
  unfoldable pub fill_pool : ℕ → ℕ → (ℕ → Bytes) → CryptoBox → CryptoBox
  fill_pool zero i fresh box = box
  fill_pool (suc rounds) i fresh box =
      fill_pool rounds (suc i) fresh (add_one_time_prekey box (fresh i))

  -- The key that is replaced stays for openers that are under way.
  unfoldable pub retire_signed_prekey : CryptoBox → ℤ → CryptoBox
  retire_signed_prekey box clock = if is_empty box.spk_priv then box else record box {
    prev_spk_priv = box.spk_priv;
    prev_spk_pub = box.spk_pub;
    prev_spk_retired_ms = clock;
  }

  -- None is `false`, at which nothing was changed. The clock is read twice.
  unfoldable pub generate_prekeys : CryptoBox → ℤ → Bytes → (ℕ → Bytes) → ℤ → ℤ → Option CryptoBox
  unfolding fill_pool retire_signed_prekey
  generate_prekeys box opk_count fresh_spk fresh_opk retired created = do
    guard (has_x3dh_identity box)
    made ← X3dh.new_signed_prekey p box.identity_seed fresh_spk
    let kept = retire_signed_prekey box retired
    some (
        fill_pool (pos_part opk_count) 0 fresh_opk (record kept {
          spk_priv = made.0;
          spk_pub = made.1;
          spk_sig = made.2;
          spk_created_ms = created;
          opk_priv = [];
        }))

  unfoldable pub signed_prekey_public_hex : CryptoBox → Text
  signed_prekey_public_hex box = to_hex box.spk_pub

  unfoldable pub signed_prekey_signature_hex : CryptoBox → Text
  signed_prekey_signature_hex box = to_hex box.spk_sig

  unfoldable pub publics_hex : OrderedMap Bytes → OrderedMap Text
  publics_hex [] = []
  publics_hex ((id, priv) ∷ pool) =
      OrderedMap.insert id (to_hex (scalarmult_base priv)) (publics_hex pool)

  unfoldable pub one_time_prekey_publics_hex : CryptoBox → OrderedMap Text
  unfolding publics_hex
  one_time_prekey_publics_hex box = publics_hex box.opk_priv

  -- `ikType` as the relay sends it: "ed25519", "x25519" or empty.
  unfoldable pub agreement_key_for : Bytes → Text → Option Bytes
  agreement_key_for published_key ik_type =
      if not (nat_beq (length published_key) 32)
      then none
      else if ik_type == codes "ed25519"
      then X3dh.identity_to_x25519_public p published_key
      else if is_empty ik_type || ik_type == codes "x25519"
      then some published_key
      else none

  unfoldable pub verify_bundle : Bytes → Bytes → Bytes → Bool
  verify_bundle ik spk spk_sig =
      if not (nat_beq (length ik) 32)
        || not (nat_beq (length spk) 32)
        || not (nat_beq (length spk_sig) 64)
      then false
      else verify_identity_signature p ik spk spk_sig

-- The key, empty where there is none under the id, and the box without it.
unfoldable pub take_one_time_prekey : CryptoBox → ℕ → Bytes × CryptoBox
take_one_time_prekey box id = elim (OrderedMap.lookup id box.opk_priv) [
  | none ↦ ([], box)
  | some priv ↦ (priv, record box { opk_priv = OrderedMap.remove id box.opk_priv })
]

unfoldable pub signed_prekey_age_ms : CryptoBox → ℤ → ℤ
signed_prekey_age_ms box now =
    if is_empty box.spk_priv || not (ltb_ℤ (pos 0) box.spk_created_ms)
    then negsuc 0
    else now -ℤ box.spk_created_ms

-- The two retained timestamps of a rotation that was due.
unfoldable pub restamp : CryptoBox → ℤ → CryptoBox × ℤ
unfolding signed_prekey_age_ms
restamp box now =
    let age = signed_prekey_age_ms box now in
    if ltb_ℤ age (pos 0) then (record box { spk_created_ms = now }, pos 0) else (box, age)

unfoldable pub rotate_signed_prekey_if_due :
    Platform → CryptoBox → ℤ → ℤ → Bytes → ℤ → ℤ → CryptoBox × Bool
unfolding restamp
rotate_signed_prekey_if_due p box max_age now fresh retired created =
    let (stamped, age) = restamp box now in
    let rotated : CryptoBox × Bool =
      elim (generate_prekeys p stamped (pos 0) fresh (λ i. []) retired created) [
        | none ↦ (stamped, false)
        | some made ↦
            (record made { opk_priv = stamped.opk_priv; next_opk_id = stamped.next_opk_id }, true)
      ] in
    if not (has_x3dh_identity box) || is_empty box.spk_priv
    then (box, false)
    else if ltb_ℤ age max_age
    then (stamped, false)
    else rotated

unfoldable pub drop_expired_previous_prekey : CryptoBox → ℤ → ℤ → CryptoBox × Bool
drop_expired_previous_prekey box grace now =
    if is_empty box.prev_spk_priv
    then (box, false)
    else if ltb_ℤ (now -ℤ box.prev_spk_retired_ms) grace
    then (box, false)
    else (record box { prev_spk_priv = []; prev_spk_pub = []; prev_spk_retired_ms = pos 0 }, true)
