-- ===== src/CryptoBox/X3dhSessions.antt =====
-- `beginX3dhSession` and `acceptX3dhSession` of client/src/cryptobox.cpp.
pub mod Establish
pub mod SingleUse
use bachelor_s_thesis.Base.{
  ℕ, Bool, true, false, not, ◌&&◌, ◌||◌, Option, none, some, [], ◌∷◌, Bytes, Text, length, is_empty,
  nat_beq, ◌==◌, bytes_eq, if◌then◌else◌, ◌>>=◌, ◌>>◌, guard,
}
use bachelor_s_thesis.Base.Int.{ℤ, pos, negsuc, ltb_ℤ, pos_part}
use bachelor_s_thesis.Base.HashMap
use bachelor_s_thesis.Base.OrderedMap
use bachelor_s_thesis.Platform.{Platform}
use bachelor_s_thesis.X3dh
use bachelor_s_thesis.X3dh.{Bundle}
use bachelor_s_thesis.Ratchet.Primitives.{dh_fn, kdf_rk, gen_keypair}
use bachelor_s_thesis.Ratchet.Session.{RatchetSession, fresh_session}
use bachelor_s_thesis.CryptoBox.State.{CryptoBox, has_x3dh_identity}
use bachelor_s_thesis.CryptoBox.Prekeys.{take_one_time_prekey}

-- The header that the opening frame carries.
pub record Opening : Type 0 where
  pub ik_a : Bytes
  pub ek_a : Bytes
  pub opk_id : ℤ

abbrev pub bundle_of : Bytes → Bytes → Bytes → Bytes → ℤ → Bundle
bundle_of ik spk spk_sig opk opk_id = record {
  ik = ik;
  spk = spk;
  spk_sig = spk_sig;
  opk = opk;
  opk_id = if is_empty opk then negsuc 0 else opk_id;
}

module _ (p : Platform) where
  -- The initiator's ratchet session: a fresh pair and one root step.
  unfoldable pub initiator_session : Bytes → Bytes → Bytes → RatchetSession
  initiator_session sk peer_spk fresh =
      let (priv, pub_key) = gen_keypair p fresh in
      let (rk, cks) = kdf_rk p sk (dh_fn p priv peer_spk) in
      record fresh_session {
        dhs_priv = priv;
        dhs_pub = pub_key;
        dhr_pub = peer_spk;
        rk = rk;
        cks = cks;
        have_dhr = true;
      }

  -- The random bytes are the ephemeral key of the agreement and the first ratchet key.
  unfoldable pub begin_x3dh_session :
      CryptoBox
      → Text
      → Bytes
      → Bytes
      → Bytes
      → Bytes
      → ℤ
      → Bytes
      → Bytes
      → Option (CryptoBox × Opening)
  begin_x3dh_session box peer peer_ik peer_spk peer_spk_sig peer_opk opk_id fresh_ek fresh = do
    guard (has_x3dh_identity box)
    r ←
        X3dh.initiator p box.identity_seed (bundle_of peer_ik peer_spk peer_spk_sig peer_opk opk_id)
          fresh_ek
    guard (nat_beq (length r.sk) 32)
    let s = initiator_session r.sk peer_spk fresh
    some (
      record box { sessions = HashMap.insert peer s box.sessions },
      record { ik_a = r.ik; ek_a = r.ek; opk_id = if is_empty peer_opk then negsuc 0 else opk_id },
    )

-- The private half of the signed prekey that the header names: none where we do not hold it.
unfoldable pub choose_spk : CryptoBox → Bytes → Option Bytes
choose_spk box spk_used =
    if is_empty spk_used || spk_used == box.spk_pub
    then some box.spk_priv
    else if not (is_empty box.prev_spk_pub) && spk_used == box.prev_spk_pub
    then some box.prev_spk_priv
    else none

-- The one-time prekey that the header names, and the box without it; none where it names one that
-- is gone, or whose key is empty. The entry is taken out in either case.
unfoldable pub consume_opk : CryptoBox → ℤ → Option (Bytes × CryptoBox)
consume_opk box opk_id =
    let taken = take_one_time_prekey box (pos_part opk_id) in
    if ltb_ℤ opk_id (pos 0) then some ([], box) else if is_empty taken.0 then none else some taken

-- The put-back for a stale opener.
unfoldable pub return_opk : CryptoBox → ℤ → Bytes → CryptoBox
return_opk box opk_id opk_priv =
    if ltb_ℤ opk_id (pos 0) || is_empty opk_priv
    then box
    else record box { opk_priv = OrderedMap.insert (pos_part opk_id) opk_priv box.opk_priv }

-- The responder's ratchet session, on the signed prekey that the agreement used.
unfoldable pub responder_session : CryptoBox → Bytes → Bytes → RatchetSession
responder_session box use_spk_priv sk = record fresh_session {
  dhs_priv = use_spk_priv;
  dhs_pub = if use_spk_priv == box.spk_priv then box.spk_pub else box.prev_spk_pub;
  rk = sk;
  have_dhr = false;
}

-- After the one-time prekey was taken.
unfoldable pub accept_with :
    Platform → CryptoBox → Text → Bytes → Bytes → ℤ → Bytes → Bytes → CryptoBox × Bool
accept_with p box peer ik_a ek_a opk_id spk_used opk_priv = elim (choose_spk box spk_used) [
  | none ↦ (return_opk box opk_id opk_priv, false)
  | some use_spk_priv ↦ elim (X3dh.responder p box.identity_seed use_spk_priv opk_priv ik_a ek_a) [
    | none ↦ (box, false)
    | some sk ↦ (
      record box {
        sessions = HashMap.insert peer (responder_session box use_spk_priv sk) box.sessions;
      },
      true,
    )
  ]
]

unfoldable pub accept_x3dh_session :
    Platform → CryptoBox → Text → Bytes → Bytes → ℤ → Bytes → CryptoBox × Bool
accept_x3dh_session p box peer ik_a ek_a opk_id spk_used =
    let refused : CryptoBox × Bool = (box, false) in
    if not (has_x3dh_identity box) || is_empty box.spk_priv
    then refused
    else elim (consume_opk box opk_id) [
      | none ↦ ((take_one_time_prekey box (pos_part opk_id)).1, false)
      | some (opk_priv, taken) ↦ accept_with p taken peer ik_a ek_a opk_id spk_used opk_priv
    ]
