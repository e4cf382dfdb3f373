-- ===== src/CryptoBox/X3dhSessions/SingleUse.antt =====
-- The life of a one-time prekey in `acceptX3dhSession` of client/src/cryptobox.cpp.
use bachelor_s_thesis.Base.{
  ℕ, ◌≡◌, ◌≢◌, refl, ap, ◌∙◌, inl, inr, true, false, none, some, [], arith, Bytes, Text, is_empty,
  nat_beq, bytes_eq, if◌then◌else◌, Option-cases,
}
use bachelor_s_thesis.Base.Int.{ℤ, pos}
use bachelor_s_thesis.Base.OrderedMap
use bachelor_s_thesis.Platform.{Platform}
use bachelor_s_thesis.X3dh
use bachelor_s_thesis.CryptoBox.State.{CryptoBox, has_x3dh_identity}
use bachelor_s_thesis.CryptoBox.Prekeys.{take_one_time_prekey}
use bachelor_s_thesis.CryptoBox.X3dhSessions.{
  choose_spk, consume_opk, return_opk, accept_with, accept_x3dh_session,
}

pub take_one_time_prekey_removes :
    (box : CryptoBox) (id other : ℕ)
    → OrderedMap.lookup other (take_one_time_prekey box id).1.opk_priv
      ≡ (if nat_beq id other then none else OrderedMap.lookup other box.opk_priv)
unfolding take_one_time_prekey
take_one_time_prekey_removes box id other =
    elim (Option-cases (OrderedMap.lookup id box.opk_priv)) [
      | inl e ↦ ground arith
      | inr (priv, e) ↦ ground (arith, OrderedMap.lookup-remove id other box.opk_priv)
    ]

pub take_one_time_prekey_absent :
    (box : CryptoBox) (id : ℕ)
    → OrderedMap.lookup id box.opk_priv ≡ none
    → take_one_time_prekey box id ≡ ([], box)
unfolding take_one_time_prekey
take_one_time_prekey_absent box id h = rw (h, take_one_time_prekey)

pub accept_unknown :
    (p : Platform) (box : CryptoBox) (peer : Text) (ik_a ek_a : Bytes) (id : ℕ) (spk_used : Bytes)
    → OrderedMap.lookup id box.opk_priv ≡ none
    → accept_x3dh_session p box peer ik_a ek_a (pos id) spk_used ≡ (box, false)
unfolding accept_x3dh_session consume_opk
accept_unknown p box peer ik_a ek_a id spk_used h =
    ground (arith, take_one_time_prekey_absent box id h)

accept_with_pool :
    (p : Platform) (box : CryptoBox) (peer : Text) (ik_a ek_a : Bytes) (opk_id : ℤ)
    (spk_used opk_priv : Bytes)
    → (accept_with p box peer ik_a ek_a opk_id spk_used opk_priv).1 ≡ true
    → (accept_with p box peer ik_a ek_a opk_id spk_used opk_priv).0.opk_priv ≡ box.opk_priv
unfolding accept_with
accept_with_pool p box peer ik_a ek_a opk_id spk_used opk_priv =
    elim (Option-cases (choose_spk box spk_used)) [
      | inl stale ↦ rw (stale, accept_with) λ h. cc
      | inr (priv, chosen) ↦
          elim (Option-cases (X3dh.responder p box.identity_seed priv opk_priv ik_a ek_a)) [
            | inl failed ↦ rw (chosen, accept_with) (rw failed λ h. cc)
            | inr (sk, made) ↦ rw (chosen, accept_with) (rw made λ h. refl)
          ]
    ]

-- A responder session that was made has used its one-time prekey up: the id is empty, and no other
-- id has changed.
pub accept_consumes :
    (p : Platform) (box : CryptoBox) (peer : Text) (ik_a ek_a : Bytes) (id other : ℕ)
    (spk_used : Bytes)
    → (accept_x3dh_session p box peer ik_a ek_a (pos id) spk_used).1 ≡ true
    → OrderedMap.lookup other
        (accept_x3dh_session p box peer ik_a ek_a (pos id) spk_used).0.opk_priv
      ≡ (if nat_beq id other then none else OrderedMap.lookup other box.opk_priv)
unfolding accept_x3dh_session consume_opk
accept_consumes p box peer ik_a ek_a id other spk_used h = ground (
  arith,
  take_one_time_prekey_removes box id other,
  accept_with_pool p (take_one_time_prekey box id).1 peer ik_a ek_a (pos id) spk_used
      (take_one_time_prekey box id).0,
)

-- After a responder session was made with a one-time prekey, every further opener that names the
-- same key is refused, and the client is left as it was.
pub accept_twice :
    (p : Platform) (box : CryptoBox) (peer other : Text) (ik_a ek_a ik_b ek_b : Bytes) (id : ℕ)
    (spk_used spk_used_then : Bytes)
    → (accept_x3dh_session p box peer ik_a ek_a (pos id) spk_used).1 ≡ true
    → let after = (accept_x3dh_session p box peer ik_a ek_a (pos id) spk_used).0 in
      accept_x3dh_session p after other ik_b ek_b (pos id) spk_used_then ≡ (after, false)
accept_twice p box peer other ik_a ek_a ik_b ek_b id spk_used spk_used_then h =
    let after = (accept_x3dh_session p box peer ik_a ek_a (pos id) spk_used).0 in
    accept_unknown p after other ik_b ek_b id spk_used_then
      (ground (arith, accept_consumes p box peer ik_a ek_a id id spk_used h))

return_opk_restores :
    (box taken : CryptoBox) (id other : ℕ) (priv : Bytes)
    → take_one_time_prekey box id ≡ (priv, taken)
    → is_empty priv ≡ false
    → OrderedMap.lookup other (return_opk taken (pos id) priv).opk_priv
      ≡ OrderedMap.lookup other box.opk_priv
unfolding return_opk take_one_time_prekey
return_opk_restores box taken id other priv h full = ground (
  arith,
  OrderedMap.lookup-insert id other priv taken.opk_priv,
  OrderedMap.lookup-remove id other box.opk_priv,
)

choose_spk-take_one_time_prekey :
    (box : CryptoBox) (id : ℕ) (spk_used : Bytes)
    → choose_spk (take_one_time_prekey box id).1 spk_used ≡ choose_spk box spk_used
unfolding take_one_time_prekey choose_spk
choose_spk-take_one_time_prekey box id spk_used =
    elim (Option-cases (OrderedMap.lookup id box.opk_priv)) [
      | inl e ↦ rw (e, take_one_time_prekey)
      | inr (priv, e) ↦ rw (e, take_one_time_prekey) refl
    ]

accept_with-stale :
    (p : Platform) (box : CryptoBox) (peer : Text) (ik_a ek_a : Bytes) (opk_id : ℤ)
    (spk_used opk_priv : Bytes)
    → choose_spk box spk_used ≡ none
    → accept_with p box peer ik_a ek_a opk_id spk_used opk_priv
      ≡ (return_opk box opk_id opk_priv, false)
unfolding accept_with
accept_with-stale p box peer ik_a ek_a opk_id spk_used opk_priv stale = rw (stale, accept_with)

accept_with-failed :
    (p : Platform) (box : CryptoBox) (peer : Text) (ik_a ek_a : Bytes) (opk_id : ℤ)
    (spk_used opk_priv priv : Bytes)
    → choose_spk box spk_used ≡ some priv
    → X3dh.responder p box.identity_seed priv opk_priv ik_a ek_a ≡ none
    → accept_with p box peer ik_a ek_a opk_id spk_used opk_priv ≡ (box, false)
unfolding accept_with
accept_with-failed p box peer ik_a ek_a opk_id spk_used opk_priv priv chosen failed =
    rw (chosen, accept_with) (rw failed)

take_one_time_prekey_empty :
    (box : CryptoBox) (id other : ℕ)
    → OrderedMap.lookup id box.opk_priv ≢ some []
    → is_empty (take_one_time_prekey box id).0 ≡ true
    → OrderedMap.lookup other (take_one_time_prekey box id).1.opk_priv
      ≡ OrderedMap.lookup other box.opk_priv
unfolding take_one_time_prekey
take_one_time_prekey_empty box id other full h =
    elim (Option-cases (OrderedMap.lookup id box.opk_priv)) [
      | inl e ↦ ground arith
      | inr (priv, e) ↦ absurd (ground arith)
    ]

-- An opener on a signed prekey that is no longer held is refused, and the one-time prekey that it
-- named, if its key is not empty, is still there, as is every other.
pub accept_stale :
    (p : Platform) (box : CryptoBox) (peer : Text) (ik_a ek_a : Bytes) (id other : ℕ)
    (spk_used : Bytes)
    → choose_spk box spk_used ≡ none
    → OrderedMap.lookup id box.opk_priv ≢ some []
    → ((accept_x3dh_session p box peer ik_a ek_a (pos id) spk_used).1 ≡ false)
      × (OrderedMap.lookup other
            (accept_x3dh_session p box peer ik_a ek_a (pos id) spk_used).0.opk_priv
          ≡ OrderedMap.lookup other box.opk_priv)
unfolding accept_x3dh_session consume_opk
accept_stale p box peer ik_a ek_a id other spk_used h full =
    let (priv, taken) = take_one_time_prekey box id in
    let refused =
      accept_with-stale p taken peer ik_a ek_a (pos id) spk_used priv
        (choose_spk-take_one_time_prekey box id spk_used ∙ h) in
    let restored = return_opk_restores box taken id other priv refl in
    (
      ground (arith, refused),
      ground (arith, refused, restored, take_one_time_prekey_empty box id other full),
    )

take_one_time_prekey-seed :
    (box : CryptoBox) (id : ℕ) → (take_one_time_prekey box id).1.identity_seed ≡ box.identity_seed
unfolding take_one_time_prekey
take_one_time_prekey-seed box id = elim (Option-cases (OrderedMap.lookup id box.opk_priv)) [
  | inl e ↦ rw (e, take_one_time_prekey)
  | inr (priv, e) ↦ rw (e, take_one_time_prekey)
]

take_one_time_prekey-sessions :
    (box : CryptoBox) (id : ℕ) → (take_one_time_prekey box id).1.sessions ≡ box.sessions
unfolding take_one_time_prekey
take_one_time_prekey-sessions box id = elim (Option-cases (OrderedMap.lookup id box.opk_priv)) [
  | inl e ↦ rw (e, take_one_time_prekey)
  | inr (priv, e) ↦ rw (e, take_one_time_prekey)
]

take_one_time_prekey_held :
    (box : CryptoBox) (id : ℕ) (key : Bytes)
    → OrderedMap.lookup id box.opk_priv ≡ some key
    → (take_one_time_prekey box id).0 ≡ key
unfolding take_one_time_prekey
take_one_time_prekey_held box id key h = rw (h, take_one_time_prekey)

accept-failed :
    (p : Platform) (box : CryptoBox) (peer : Text) (ik_a ek_a : Bytes) (id : ℕ)
    (spk_used priv : Bytes)
    → has_x3dh_identity box ≡ true
    → is_empty box.spk_priv ≡ false
    → choose_spk box spk_used ≡ some priv
    → X3dh.responder p box.identity_seed priv (take_one_time_prekey box id).0 ik_a ek_a ≡ none
    → is_empty (take_one_time_prekey box id).0 ≡ false
    → accept_x3dh_session p box peer ik_a ek_a (pos id) spk_used
      ≡ ((take_one_time_prekey box id).1, false)
unfolding accept_x3dh_session consume_opk
accept-failed p box peer ik_a ek_a id spk_used priv has have h failed full =
    let (opk_priv, taken) = take_one_time_prekey box id in
    let chosen = choose_spk-take_one_time_prekey box id spk_used ∙ h in
    ground (
      arith,
      accept_with-failed p taken peer ik_a ek_a (pos id) spk_used opk_priv priv chosen (
          ap (λ seed. X3dh.responder p seed priv opk_priv ik_a ek_a)
            (take_one_time_prekey-seed box id)
          ∙ failed),
    )

-- An opener whose agreement fails is refused and no session is recorded, but the one-time prekey
-- that it named, and no other, is gone: every later opener that names it is refused as well, and
-- leaves the client as it is. The opener is on a signed prekey that is held, and the named key is
-- not empty.
pub accept_failed :
    (p : Platform) (box : CryptoBox) (peer other_peer : Text) (ik_a ek_a ik_b ek_b : Bytes)
    (id other : ℕ) (spk_used spk_used_then priv key : Bytes)
    → has_x3dh_identity box ≡ true
    → is_empty box.spk_priv ≡ false
    → choose_spk box spk_used ≡ some priv
    → OrderedMap.lookup id box.opk_priv ≡ some key
    → is_empty key ≡ false
    → X3dh.responder p box.identity_seed priv key ik_a ek_a ≡ none
    → let (after, made) = accept_x3dh_session p box peer ik_a ek_a (pos id) spk_used in
      (made ≡ false)
      × (after.sessions ≡ box.sessions)
      × (OrderedMap.lookup other after.opk_priv
          ≡ (if nat_beq id other then none else OrderedMap.lookup other box.opk_priv))
      × (accept_x3dh_session p after other_peer ik_b ek_b (pos id) spk_used_then ≡ (after, false))
accept_failed p box peer other_peer ik_a ek_a ik_b ek_b id other spk_used spk_used_then priv key has
      have h held full failed =
    let taken = (take_one_time_prekey box id).1 in
    let same = take_one_time_prekey_held box id key held in
    let refused =
      accept-failed p box peer ik_a ek_a id spk_used priv has have h
        (ap (λ (k : Bytes). X3dh.responder p box.identity_seed priv k ik_a ek_a) same ∙ failed)
        (ap is_empty same ∙ full) in
    rw refused (
      refl,
      take_one_time_prekey-sessions box id,
      take_one_time_prekey_removes box id other,
      accept_unknown p taken other_peer ik_b ek_b id spk_used_then
          (ground (arith, take_one_time_prekey_removes box id id)),
    )
