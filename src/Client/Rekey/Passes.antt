-- ===== src/Client/Rekey/Passes.antt =====
-- The whole pass of the kick timer (client/src/chatclient.cpp), as it goes for the ping of one peer.
use bachelor_s_thesis.Base.{
  ℕ, ◌≡◌, refl, sym, subst, inl, inr, Bool, true, false, List, Text, ◌==◌, bytes_eq, bytes_beq_iff,
  Bool-cases,
}
use bachelor_s_thesis.Client.State.{ChatClient, World, keys}
use bachelor_s_thesis.Client.Rekey.{
  each, recheck_ping, pay_ping, pay_pong, pay_heal, rearm, kick_rekey,
}
use bachelor_s_thesis.Client.Rekey.SameFor.{
  SameFor, each-all, recheck-other, ping-other, heal-other, pong-SameFor,
}

-- A property of a client that depends on the ping to one peer alone, and that what the pass does
-- about this peer keeps.
pub record IsKept (w : World) (now : ℕ) (peer : Text) (P : ChatClient → Type 0) : Type 0 where
  pub respects : (c c' : ChatClient) → SameFor peer c c' → P c → P c'
  pub rechecks : (c : ChatClient) → P c → P (recheck_ping w now peer c)
  pub pings : (c : ChatClient) (pending : Bool) → P c → P (pay_ping w now peer (c, pending)).0
  pub heals : (c : ChatClient) (pending : Bool) → P c → P (pay_heal w now peer (c, pending)).0

module _ (w : World) (now : ℕ) (peer : Text) (P : ChatClient → Type 0)
    (k : IsKept w now peer P) where
  pub recheck-kept : (q : Text) (c : ChatClient) → P c → P (recheck_ping w now q c)
  recheck-kept q c h = elim (Bool-cases (q == peer)) [
    | inl e ↦
        subst (λ (r : Text). P (recheck_ping w now r c)) (sym ((bytes_beq_iff q peer).0 e))
          (k.rechecks c h)
    | inr e ↦ k.respects c (recheck_ping w now q c) (recheck-other w now peer q e c) h
  ]

  ping-kept : (q : Text) (r : ChatClient × Bool) → P r.0 → P (pay_ping w now q r).0
  ping-kept q (c, pending) h = elim (Bool-cases (q == peer)) [
    | inl e ↦
        subst (λ (r : Text). P (pay_ping w now r (c, pending)).0) (sym ((bytes_beq_iff q peer).0 e))
          (k.pings c pending h)
    | inr e ↦ k.respects c (pay_ping w now q (c, pending)).0 (ping-other w now peer q e c pending) h
  ]

  pong-kept : (q : Text) (r : ChatClient × Bool) → P r.0 → P (pay_pong w now q r).0
  pong-kept q (c, pending) h =
      k.respects c (pay_pong w now q (c, pending)).0 (pong-SameFor w now peer q c pending) h

  heal-kept : (q : Text) (r : ChatClient × Bool) → P r.0 → P (pay_heal w now q r).0
  heal-kept q (c, pending) h = elim (Bool-cases (q == peer)) [
    | inl e ↦
        subst (λ (r : Text). P (pay_heal w now r (c, pending)).0) (sym ((bytes_beq_iff q peer).0 e))
          (k.heals c pending h)
    | inr e ↦ k.respects c (pay_heal w now q (c, pending)).0 (heal-other w now peer q e c pending) h
  ]

  pub each_recheck-kept :
      (qs : List Text) (c : ChatClient) → P c → P (each (recheck_ping w now) qs c)
  each_recheck-kept qs c h = each-all P (recheck_ping w now) qs c recheck-kept h

-- Parts 1 to 3 of a pass.
abbrev pub pay_all : World → ℕ → ChatClient → ChatClient × Bool
pay_all w now c0 =
    let r1 = each (pay_ping w now) (keys c0.sent_since_ratchet) (c0, false) in
    let r2 = each (pay_pong w now) r1.0.pong_owed r1 in each (pay_heal w now) r2.0.heal_pending r2

pub pay_all-kept :
    (w : World) (now : ℕ) (peer : Text) (P : ChatClient → Type 0)
    → IsKept w now peer P
    → (c : ChatClient) → P c
    → P (pay_all w now c).0
pay_all-kept w now peer P k c0 h =
    let Q : ChatClient × Bool → Type 0 = λ r. P r.0 in
    let r1 = each (pay_ping w now) (keys c0.sent_since_ratchet) (c0, false) in
    let r2 = each (pay_pong w now) r1.0.pong_owed r1 in
    each-all Q (pay_heal w now) r2.0.heal_pending r2 (heal-kept w now peer P k) (
      each-all Q (pay_pong w now) r1.0.pong_owed r1 (pong-kept w now peer P k) (
        each-all Q (pay_ping w now) (keys c0.sent_since_ratchet) (c0, false)
          (ping-kept w now peer P k) h))

abbrev pub fired : ChatClient → ChatClient
fired c = record c { kick_timer_active = false }

pub kick_rekey_lem :
    (w : World) (now : ℕ) (c : ChatClient)
    → c.connected ≡ true
    → kick_rekey w now c
      ≡ rearm (pay_all w now (each (recheck_ping w now) c.rekey_outstanding (fired c)))
unfolding kick_rekey
kick_rekey_lem w now c h = rw (h, kick_rekey) refl
