-- ===== src/Examples/Stores.antt =====
-- Prekeys, identity files and safety numbers of two toy users.
use bachelor_s_thesis.Base.{
  inl, inr, ◌≡◌, ◌≢◌, refl, true, false, Option, none, some, [], arith, Bytes, length,
  if◌then◌else◌, bytes_eq, nat_beq, replicate,
}
use bachelor_s_thesis.Base.Int.{pos, ◌-ℤ◌}
use bachelor_s_thesis.Base.OrderedMap
use bachelor_s_thesis.Platform.Toy.{toy, toy-IsLawful, toy_runs}
use bachelor_s_thesis.X3dh
use bachelor_s_thesis.X3dh.{x3dh_runs, new_signed_prekey, new_one_time_prekey}
use bachelor_s_thesis.CryptoBox.State.{CryptoBox, has_x3dh_identity}
use bachelor_s_thesis.CryptoBox.Identity.{
  derive_agreement_keys_from_seed, save_identity_encrypted, load_identity_encrypted,
  is_encrypted_identity_file,
}
use bachelor_s_thesis.CryptoBox.Identity.Files.{
  IsSeedIdentity, with_identity, load-save_identity_encrypted, is_encrypted_identity_file-save,
}
use bachelor_s_thesis.CryptoBox.Prekeys.{
  take_one_time_prekey, signed_prekey_age_ms, rotate_signed_prekey_if_due,
}
use bachelor_s_thesis.CryptoBox.Prekeys.Rotation.{rotate_choose_spk}
use bachelor_s_thesis.CryptoBox.X3dhSessions.{
  accept_x3dh_session, accept_with, consume_opk, choose_spk,
}
use bachelor_s_thesis.CryptoBox.X3dhSessions.SingleUse.{
  accept_consumes, accept_twice, accept_failed,
}
use bachelor_s_thesis.CryptoBox.PrekeyBlob.{serialise_prekeys, restore_prekeys}
use bachelor_s_thesis.CryptoBox.PrekeyBlob.RoundTrip.{IsStorable, restore-serialise}
use bachelor_s_thesis.CryptoBox.SafetyNumber.{
  safety_number, safety_number_comm, safety_number-IsShown, IsShown,
}
use bachelor_s_thesis.Examples.{
  alice, bob, alice_name, bob_name, alice_seed, bob_seed, spk_seed, opk_seed, ek_seed, other_seed,
  nonce, hello,
}

-- Alice's opener on Bob's key 7.
accepts : (accept_x3dh_session toy bob alice_name alice_seed ek_seed (pos 7) spk_seed).1 ≡ true
unfolding toy_runs x3dh_runs accept_x3dh_session accept_with consume_opk choose_spk
    take_one_time_prekey has_x3dh_identity OrderedMap.lookup
accepts = refl

accept_consumes_example :
    OrderedMap.lookup 7
      (accept_x3dh_session toy bob alice_name alice_seed ek_seed (pos 7) spk_seed).0.opk_priv
    ≡ (if nat_beq 7 7 then none else OrderedMap.lookup 7 bob.opk_priv)
accept_consumes_example = accept_consumes toy bob alice_name alice_seed ek_seed 7 7 spk_seed accepts

accept_twice_example :
    let after = (accept_x3dh_session toy bob alice_name alice_seed ek_seed (pos 7) spk_seed).0 in
    accept_x3dh_session toy after bob_name other_seed ek_seed (pos 7) spk_seed ≡ (after, false)
accept_twice_example =
    accept_twice toy bob alice_name bob_name alice_seed ek_seed other_seed ek_seed 7 spk_seed
      spk_seed accepts

-- An identity key of no bytes: the agreement fails.
chosen : choose_spk bob spk_seed ≡ some spk_seed
unfolding toy_runs choose_spk
chosen = refl

fails : X3dh.responder toy bob.identity_seed spk_seed opk_seed [] ek_seed ≡ none
unfolding toy_runs x3dh_runs X3dh.responder
fails = refl

holds_key : OrderedMap.lookup 7 bob.opk_priv ≡ some opk_seed
unfolding OrderedMap.lookup
holds_key = refl

identified : has_x3dh_identity bob ≡ true
unfolding has_x3dh_identity
identified = refl

accept_failed_example :
    let (after, made) = accept_x3dh_session toy bob alice_name [] ek_seed (pos 7) spk_seed in
    (made ≡ false)
    × (after.sessions ≡ bob.sessions)
    × (OrderedMap.lookup 7 after.opk_priv ≡ none)
    × (accept_x3dh_session toy after alice_name alice_seed ek_seed (pos 7) spk_seed
        ≡ (after, false))
accept_failed_example =
    accept_failed toy bob alice_name alice_name [] ek_seed alice_seed ek_seed 7 7 spk_seed spk_seed
      spk_seed opk_seed identified refl chosen holds_key refl fails

abbrev triple_or : Option (Bytes × Bytes × Bytes) → Bytes × Bytes × Bytes
triple_or none = ([], [], [])
triple_or (some t) = t

abbrev signed : Bytes × Bytes × Bytes
signed = triple_or (new_signed_prekey toy bob_seed other_seed)

signs : new_signed_prekey toy bob.identity_seed other_seed ≡ some signed
unfolding toy_runs x3dh_runs
signs = refl

another : signed.1 ≢ bob.spk_pub
unfolding toy_runs x3dh_runs
another h = absurd (ground (arith, bytes_eq.agrees signed.1 bob.spk_pub, h))

rotate_choose_spk_example :
    let after =
      (rotate_signed_prekey_if_due toy bob
        (pos 7000)
        (pos 9000)
        other_seed
        (pos 9001)
        (pos 9002)).0 in
    (choose_spk after bob.spk_pub ≡ some bob.spk_priv) × (choose_spk after signed.1 ≡ some signed.0)
unfolding signed_prekey_age_ms ◌-ℤ◌
rotate_choose_spk_example =
    rotate_choose_spk toy bob (pos 7000) (pos 9000) other_seed (pos 9001) (pos 9002) signed.0
      signed.1 signed.2 identified refl refl refl refl signs another

-- A retained key, and the end of its grace period.
abbrev retained : CryptoBox
retained = record bob {
  prev_spk_priv = other_seed;
  prev_spk_pub = other_seed;
  prev_spk_retired_ms = pos 1000;
}

distinct : retained.prev_spk_pub ≢ retained.spk_pub
unfolding toy_runs
distinct h = absurd (ground (arith, bytes_eq.agrees other_seed spk_seed, h))

abbrev salt : Bytes
salt = replicate 16 9

abbrev bytes_or : Option Bytes → Bytes
bytes_or none = []
bytes_or (some b) = b

abbrev file : Bytes
file = bytes_or (save_identity_encrypted toy alice hello salt nonce)

saves : save_identity_encrypted toy alice hello salt nonce ≡ some file
unfolding toy_runs save_identity_encrypted has_x3dh_identity
saves = refl

alice-IsSeedIdentity : IsSeedIdentity toy alice
unfolding toy_runs x3dh_runs derive_agreement_keys_from_seed
alice-IsSeedIdentity = record { version = refl; sized = refl; derived = refl }

load-save_identity_encrypted_example :
    load_identity_encrypted toy bob (some file) hello ≡ (with_identity bob alice, true)
load-save_identity_encrypted_example =
    load-save_identity_encrypted toy toy-IsLawful alice bob hello salt nonce file saves refl refl
      (inl alice-IsSeedIdentity)

is_encrypted_identity_file-save_example :
    is_encrypted_identity_file toy (some file) ≡ has_x3dh_identity alice
is_encrypted_identity_file-save_example =
    is_encrypted_identity_file-save toy toy-IsLawful alice hello salt nonce file saves

safety_number_comm_example :
    safety_number toy alice_seed bob_seed ≡ safety_number toy bob_seed alice_seed
safety_number_comm_example = safety_number_comm toy alice_seed bob_seed

safety_number-IsShown_example :
    (length (safety_number toy alice_seed bob_seed) ≡ 35)
    × IsShown (safety_number toy alice_seed bob_seed)
safety_number-IsShown_example = safety_number-IsShown toy alice_seed bob_seed refl refl

-- Bob's prekeys with a signature and a retained key.
abbrev keyed : CryptoBox
keyed = record bob {
  spk_sig = replicate 64 1;
  prev_spk_priv = other_seed;
  prev_spk_pub = other_seed;
  prev_spk_retired_ms = pos 900;
}

storable : IsStorable keyed
storable = record {
  length-spk = refl;
  length-sig = refl;
  created = omega arith;
  dated = refl;
  retired = omega arith;
  previous = inr (refl, refl);
  next = omega arith;
  count = omega arith;
  fits = (omega arith, refl, tt);
  ascends = (omega arith, tt);
}

restore-serialise_example : restore_prekeys toy alice (serialise_prekeys keyed) (pos 5000) ≡ (
  record alice {
    spk_priv = keyed.spk_priv;
    spk_pub = toy.scalarmult_base keyed.spk_priv;
    spk_sig = keyed.spk_sig;
    spk_created_ms = keyed.spk_created_ms;
    prev_spk_priv = keyed.prev_spk_priv;
    prev_spk_pub = keyed.prev_spk_pub;
    prev_spk_retired_ms = keyed.prev_spk_retired_ms;
    opk_priv = keyed.opk_priv;
    next_opk_id = keyed.next_opk_id;
  },
  true,
)
restore-serialise_example = restore-serialise toy keyed alice (pos 5000) storable
