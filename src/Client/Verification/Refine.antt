-- ===== src/Client/Verification/Refine.antt =====
-- The verification of client/src/chatclient.cpp behaves as the gate of each peer.
use bachelor_s_thesis.Base.{
  ℕ, ◌≡◌, refl, sym, ◌∙◌, ap, Bool, true, false, not, ◌&&◌, Text, if◌then◌else◌, ◌==◌, bytes_eq,
  bytes_beq_iff, arith,
}
use bachelor_s_thesis.Base.HashMap
use bachelor_s_thesis.Base.HashSet
use bachelor_s_thesis.Client.State.{ChatClient, World, error_occurred, emit, conversation_blocked}
use bachelor_s_thesis.Client.Rekey.Allowed.{SendsAllowed, still, follow, if-Allowed}
use bachelor_s_thesis.Client.Sending.{send_or_queue_verify_ack}
use bachelor_s_thesis.Client.Sending.Allowed.{emit-Allowed, verify_ack-Allowed}
use bachelor_s_thesis.Client.Verification.{
  tell, key_change_line, verified_you_line, tapped_line, send_verify_resync, close, is_stale,
  forget_attested, drop_stale, flag_key_change, try_resolve_bilateral, maybe_resend_verify_ack,
  drop_chain, note_resend, tell_waiting, open_chain, flush_if_waiting, accept_key,
  acknowledge_key_change, on_verify_resync, note_attested, attest,
}
use bachelor_s_thesis.Client.Verification.Gate.{
  Gate, changed, confirmed, attested, resolved, step, is_shut,
}
use bachelor_s_thesis.Client.Verification.Flags.{
  gate_of, gate_of-Allowed, tell-Allowed, note_resend-Allowed, resync-Allowed,
  flush_if_waiting-Allowed, drop_chain-Allowed, tell_waiting-Allowed, open_chain-Allowed,
  gate_of-if, gate_of-try_resolve, gate_of-close, gate_of-forget, gate_of-accept, gate_of-attested,
}

-- What our side of the gate is after our own confirmation, and the peer's after its ack.
confirmed_lem :
    (peer p : Text) (g : Gate)
    → (if peer == p
        then resolved (if peer == p then record g { unverified = false } else g)
        else (if peer == p then record g { unverified = false } else g))
      ≡ (if peer == p then step confirmed g else g)
unfolding step
confirmed_lem peer p g = ground arith

changed_lem :
    (peer p : Text) (stale : Bool) (g : Gate)
    → let shut = if peer == p then record g { unverified = true; pending = true } else g in
      (if stale then if peer == p then record shut { verified = false } else shut else shut)
      ≡ (if peer == p then step (changed (not stale)) g else g)
unfolding step
changed_lem peer p stale g = ground arith

not-true : (b : Bool) → not b ≡ true → b ≡ false
not-true b h = ground arith

gate_of-either :
    (c d : ChatClient) (b : Bool) (p : Text) (g h : Gate)
    → gate_of c p ≡ g
    → gate_of d p ≡ h
    → gate_of (if b then c else d) p ≡ (if b then g else h)
gate_of-either c d true p g h e f = e
gate_of-either c d false p g h e f = f

attested_lem :
    (peer p : Text) (g : Gate)
    → (if peer == p
        then resolved (if peer == p then record g { verified = true } else g)
        else (if peer == p then record g { verified = true } else g))
      ≡ (if peer == p then step attested g else g)
unfolding step
attested_lem peer p g = ground arith

-- A peer that was not flagged has been verified already.
unflagged_lem :
    (peer p : Text) (c : ChatClient)
    → HashSet.contains peer c.unverified_key_change ≡ false
    → (if peer == p then record (gate_of c p) { unverified = false } else gate_of c p) ≡ gate_of c p
unfolding gate_of
unflagged_lem peer p c h = ground (arith, bytes_beq_iff peer p)

-- What happens in the client about a peer.
pub data Call : Type 0 where
  -- a new key; the tap of the user; an ack of the peer that is bound to both keys
  key_changed acknowledged acked : Text → Call
  -- a request for our ack, and our ack again after a new key
  resync_asked resend : Text → Call

unfoldable pub call : World → ℕ → Text → Call → ChatClient → ChatClient
call w now today (key_changed peer) c = flag_key_change w now peer c
call w now today (acknowledged peer) c = acknowledge_key_change w now today peer c
call w now today (acked peer) c = attest w now today peer c
call w now today (resync_asked peer) c = on_verify_resync w now peer c.nick c
call w now today (resend peer) c = maybe_resend_verify_ack w now peer c

-- The event of the gate of a peer, if there is one.
unfoldable pub moves : World → ℕ → Call → ChatClient → Text → Gate → Gate
moves w now (key_changed peer) c p g =
    if peer == p then step (changed (not (is_stale w now peer c))) g else g
moves w now (acknowledged peer) c p g = if peer == p then step confirmed g else g
moves w now (acked peer) c p g = if peer == p then step attested g else g
moves w now (resync_asked peer) c p g = g
moves w now (resend peer) c p g = g

module _ (w : World) (now : ℕ) (today peer p : Text) where
  gate_of-drop_stale :
      (d : ChatClient)
      → gate_of (drop_stale w now peer d) p ≡ (
          if is_stale w now peer d
          then (if peer == p then record (gate_of d p) { verified = false } else gate_of d p)
          else gate_of d p)
  unfolding drop_stale
  gate_of-drop_stale d =
      let forgot = forget_attested peer d in
      gate_of-either (send_verify_resync w now peer forgot) d (is_stale w now peer d) p _ _
        (gate_of-Allowed forgot _ p (resync-Allowed w now peer forgot) ∙ gate_of-forget peer p d)
        refl

  flag_moves :
      (c : ChatClient)
      → gate_of (flag_key_change w now peer c) p ≡ moves w now (key_changed peer) c p (gate_of c p)
  unfolding flag_key_change moves close
  flag_moves c =
      let closed = drop_stale w now peer (close peer c) in
      gate_of-if closed (tell now peer (key_change_line peer) closed) _ p (gate_of closed p)
        (λ e. refl)
        (λ e. gate_of-Allowed closed _ p (tell-Allowed now peer (key_change_line peer) closed))
      ∙ gate_of-drop_stale (close peer c)
      ∙ ap
          (λ (g : Gate).
            if is_stale w now peer c
            then if peer == p then record g { verified = false } else g
            else g)
          (gate_of-close peer p c)
      ∙ changed_lem peer p (is_stale w now peer c) (gate_of c p)

  acknowledge_moves :
      (c : ChatClient)
      → gate_of (acknowledge_key_change w now today peer c) p
        ≡ moves w now (acknowledged peer) c p (gate_of c p)
  unfolding acknowledge_key_change moves
  acknowledge_moves c =
      let flagged = HashSet.contains peer c.unverified_key_change in
      let tapped = emit (error_occurred (tapped_line peer flagged)) c in
      let same =
        gate_of-Allowed c tapped p (emit-Allowed (error_occurred (tapped_line peer flagged)) c) in
      let accepted = accept_key peer tapped in
      let c1 = tell_waiting w now peer accepted in
      let c2 = drop_chain w now peer c1 in
      let c3 = send_or_queue_verify_ack w now peer c2 in
      let c4 = note_resend peer c3 in
      let c5 = open_chain w now peer c4 in
      let c6 = flush_if_waiting w now c5 in
      let chain = follow (tell_waiting-Allowed w now peer accepted) (
        follow (drop_chain-Allowed w now peer c1) (
          follow (verify_ack-Allowed w now peer c2) (
            follow (note_resend-Allowed peer c3)
              (follow (open_chain-Allowed w now peer c4) (flush_if_waiting-Allowed w now c5))))) in
      let when : Gate → Gate = λ g. if peer == p then resolved g else g in
      let confirmed_gate = confirmed_lem peer p (gate_of c p) in
      gate_of-if (try_resolve_bilateral w now today peer tapped)
        (try_resolve_bilateral w now today peer c6) (not flagged) p
        (if peer == p then step confirmed (gate_of c p) else gate_of c p)
        (λ e.
          gate_of-try_resolve w now today peer p tapped
          ∙ ap when (same ∙ sym (unflagged_lem peer p c (not-true flagged e)))
          ∙ confirmed_gate)
        (λ e.
          gate_of-try_resolve w now today peer p c6
          ∙ ap when (
              gate_of-Allowed accepted c6 p chain
              ∙ gate_of-accept peer p tapped
              ∙ ap (λ (g : Gate). if peer == p then record g { unverified = false } else g) same)
          ∙ confirmed_gate)

  attest-moves :
      (c : ChatClient)
      → gate_of (attest w now today peer c) p ≡ moves w now (acked peer) c p (gate_of c p)
  unfolding attest moves
  attest-moves c =
      let noted = note_attested w now peer c in
      let line = verified_you_line peer in
      let news =
        not (HashSet.contains peer c.peer_verified)
        && (HashSet.contains peer c.pending_bilateral
            && HashSet.contains peer c.unverified_key_change) in
      let d = if news then tell now peer line noted else noted in
      let before : gate_of d p
          ≡ (if peer == p then record (gate_of c p) { verified = true } else gate_of c p) =
        gate_of-if (tell now peer line noted) noted news p (gate_of noted p)
          (λ e. gate_of-Allowed noted _ p (tell-Allowed now peer line noted)) (λ e. refl)
        ∙ gate_of-attested w now peer p c in
      gate_of-try_resolve w now today peer p d
      ∙ ap (λ (g : Gate). if peer == p then resolved g else g) before
      ∙ attested_lem peer p (gate_of c p)

asked-Allowed :
    (w : World) (now : ℕ) (from to : Text) (c : ChatClient)
    → SendsAllowed c (on_verify_resync w now from to c)
unfolding on_verify_resync
asked-Allowed w now from to c =
    let acked = send_or_queue_verify_ack w now from c in
    let settled =
      HashMap.contains from c.peer_keys
      && (not (HashSet.contains from c.unverified_key_change)
          && not (HashSet.contains from c.pending_bilateral)) in
    if-Allowed c c (if settled then acked else c) _ (still c)
      (λ e. if-Allowed c acked c settled (verify_ack-Allowed w now from c) (λ e'. still c))

resend-Allowed :
    (w : World) (now : ℕ) (peer : Text) (c : ChatClient)
    → SendsAllowed c (maybe_resend_verify_ack w now peer c)
unfolding maybe_resend_verify_ack
resend-Allowed w now peer c =
    if-Allowed c (send_or_queue_verify_ack w now peer c) c _ (verify_ack-Allowed w now peer c)
      (λ e. still c)

-- Every call about a peer, a new key, the tap of the user, a bound ack, a request for our ack or
-- its repetition, moves the three flags of every peer exactly as the gate of the specification
-- does: the gate of the peer that the call is about by one event, every other gate not at all.
pub call-moves :
    (w : World) (now : ℕ) (today p : Text) (k : Call) (c : ChatClient)
    → gate_of (call w now today k c) p ≡ moves w now k c p (gate_of c p)
unfolding call moves
call-moves w now today p (key_changed peer) c = flag_moves w now today peer p c
call-moves w now today p (acknowledged peer) c = acknowledge_moves w now today peer p c
call-moves w now today p (acked peer) c = attest-moves w now today peer p c
call-moves w now today p (resync_asked peer) c =
    gate_of-Allowed c (on_verify_resync w now peer c.nick c) p (asked-Allowed w now peer c.nick c)
call-moves w now today p (resend peer) c =
    gate_of-Allowed c (maybe_resend_verify_ack w now peer c) p (resend-Allowed w now peer c)

moves_opens :
    (w : World) (now : ℕ) (k : Call) (c : ChatClient) (p : Text) (g : Gate)
    → g.pending ≡ true
    → is_shut (moves w now k c p g) ≡ false
    → (moves w now k c p g).verified ≡ true
unfolding moves step resolved is_shut
moves_opens w now (key_changed peer) c p g h k = ground arith
moves_opens w now (acknowledged peer) c p g h k = ground arith
moves_opens w now (acked peer) c p g h k = ground arith
moves_opens w now (resync_asked peer) c p g h k = ground arith
moves_opens w now (resend peer) c p g h k = ground arith

pub is_shut-gate_of : (c : ChatClient) (p : Text) → is_shut (gate_of c p) ≡ conversation_blocked c p
unfolding is_shut gate_of conversation_blocked
is_shut-gate_of c p = ground arith

-- A conversation that is held until both sides have verified, before a call about a peer, and that
-- is open after it, is then one with a peer that has verified us: our own confirmation alone does
-- not open it.
pub call_opens :
    (w : World) (now : ℕ) (today p : Text) (k : Call) (c : ChatClient)
    → HashSet.contains p c.pending_bilateral ≡ true
    → conversation_blocked (call w now today k c) p ≡ false
    → HashSet.contains p (call w now today k c).peer_verified ≡ true
unfolding gate_of
call_opens w now today p k c shut open_now =
    let d = call w now today k c in
    let moved = call-moves w now today p k c in
    ap (λ (g : Gate). g.verified) moved
    ∙ moves_opens w now k c p (gate_of c p) shut
        (ap is_shut (sym moved) ∙ is_shut-gate_of d p ∙ open_now)
