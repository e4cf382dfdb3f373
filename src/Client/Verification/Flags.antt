-- ===== src/Client/Verification/Flags.antt =====
-- The flags of each peer under the parts of the verification of client/src/chatclient.cpp.
use bachelor_s_thesis.Base.{
  ℕ, ◌+◌, ◌≡◌, refl, ◌∙◌, Bool, true, false, not, ◌&&◌, Text, is_empty, if◌then◌else◌, ◌==◌,
  bytes_eq, bytes_beq_iff, arith, nat_beq, ltb,
}
use bachelor_s_thesis.Base.Int.{pos}
use bachelor_s_thesis.Base.HashMap
use bachelor_s_thesis.Base.HashSet
use bachelor_s_thesis.CryptoBox.Sessions.{drop_session}
use bachelor_s_thesis.MessageModel.{add_system}
use bachelor_s_thesis.Client.State.{
  ChatClient, World, if_ready, text_of, count_of, send_text_message, verify_resync, clear_session,
  add_system_row, record_verified_peer,
}
use bachelor_s_thesis.Client.Rekey.Allowed.{
  SendsAllowed, quiet-Allowed, still, follow, if-Allowed, if_ready-Allowed,
}
use bachelor_s_thesis.Client.Rekey.Calls.{send-Allowed, rekey_call, rekey_call-Allowed, reset}
use bachelor_s_thesis.Client.Sending.{my_key, send_or_queue_handshake}
use bachelor_s_thesis.Client.Sending.Allowed.{handshake-Allowed}
use bachelor_s_thesis.Client.Outbox.{flush_outbox}
use bachelor_s_thesis.Client.Outbox.Flush.{flush_outbox-Allowed}
use bachelor_s_thesis.Client.Verification.{
  tell, both_line, waiting_line, settle, send_verify_resync, close, forget_attested,
  record_identity, record_settled, resolve, both_verified, try_resolve_bilateral, drop_chain,
  note_resend, tell_waiting, open_chain, flush_if_waiting, accept_key, note_attested,
  resync_interval_ms,
}
use bachelor_s_thesis.Client.Verification.Gate.{Gate, resolved}

-- The flags of a peer.
unfoldable pub gate_of : ChatClient → Text → Gate
gate_of c p = record {
  unverified = HashSet.contains p c.unverified_key_change;
  pending = HashSet.contains p c.pending_bilateral;
  verified = HashSet.contains p c.peer_verified;
}

pub gate_of-Allowed : (c d : ChatClient) (p : Text) → SendsAllowed c d → gate_of d p ≡ gate_of c p
unfolding gate_of
gate_of-Allowed c d p s =
    let u = s.gates.unverified in
    let q = s.gates.pending in let v = s.gates.peer_verified in ground arith

pub tell-Allowed :
    (now : ℕ) (peer line : Text) (c : ChatClient) → SendsAllowed c (tell now peer line c)
unfolding tell
tell-Allowed now peer line c =
    let shown = record c { messages = add_system c.messages line (pos now) } in
    let said = if peer == c.active_peer then shown else c in
    follow
      (if-Allowed c shown c (peer == c.active_peer) (quiet-Allowed c shown refl refl refl refl refl)
        (λ e. still c))
      (if_ready-Allowed (add_system_row peer line now) said)

pub note_resend-Allowed : (peer : Text) (c : ChatClient) → SendsAllowed c (note_resend peer c)
unfolding note_resend
note_resend-Allowed peer c = quiet-Allowed c (note_resend peer c) refl refl refl refl refl

settled : Text → Text → Gate → Gate
settled peer p g = if peer == p then record g { pending = false } else g

gate_of-settle :
    (peer me p : Text) (c : ChatClient)
    → gate_of (settle peer me c) p ≡ settled peer p (gate_of c p)
unfolding gate_of settle settled
gate_of-settle peer me p c = ground (arith, HashSet.contains-remove peer p c.pending_bilateral)

-- The test of the code is the test of the gate.
settled-resolved :
    (peer p : Text) (c : ChatClient)
    → both_verified peer c ≡ true
    → settled peer p (gate_of c p) ≡ (if peer == p then resolved (gate_of c p) else gate_of c p)
unfolding settled resolved gate_of
settled-resolved peer p c e = ground (arith, bytes_beq_iff peer p)

unsettled_resolved :
    (peer p : Text) (c : ChatClient)
    → both_verified peer c ≡ false
    → gate_of c p ≡ (if peer == p then resolved (gate_of c p) else gate_of c p)
unfolding resolved gate_of
unsettled_resolved peer p c e = ground (arith, bytes_beq_iff peer p)

pub gate_of-if :
    (c d : ChatClient) (b : Bool) (p : Text) (g : Gate)
    → (b ≡ true → gate_of c p ≡ g)
    → (b ≡ false → gate_of d p ≡ g)
    → gate_of (if b then c else d) p ≡ g
gate_of-if c d true p g h k = h refl
gate_of-if c d false p g h k = k refl

module _ (w : World) (now : ℕ) where
  pub resync-Allowed :
      (peer : Text) (c : ChatClient) → SendsAllowed c (send_verify_resync w now peer c)
  unfolding send_verify_resync
  resync-Allowed peer c =
      let noted = record c {
        last_verify_resync_ms = HashMap.insert peer now c.last_verify_resync_ms;
      } in
      let f = verify_resync peer (my_key w c) now in
      let last = count_of peer c.last_verify_resync_ms in
      let soon = not (nat_beq last 0) && ltb now (last + resync_interval_ms) in
      let sent = send_text_message f noted in
      if-Allowed c c (if soon then c else sent) _ (still c) (λ e.
        if-Allowed c c sent soon (still c)
          (λ e'. send-Allowed w now f c noted (quiet-Allowed c noted refl refl refl refl refl) tt))

  flush_if-Allowed :
      (c : ChatClient) (b : Bool) → SendsAllowed c (if b then flush_outbox w now c else c)
  flush_if-Allowed c b =
      if-Allowed c (flush_outbox w now c) c b (flush_outbox-Allowed w now c) (λ e. still c)

  pub flush_if_waiting-Allowed : (c : ChatClient) → SendsAllowed c (flush_if_waiting w now c)
  unfolding flush_if_waiting
  flush_if_waiting-Allowed c = flush_if-Allowed c _

  pub drop_chain-Allowed : (peer : Text) (c : ChatClient) → SendsAllowed c (drop_chain w now peer c)
  unfolding drop_chain rekey_call
  drop_chain-Allowed peer c =
      let dropped = record c { crypto = (drop_session c.crypto peer).0 } in
      let cleared = if_ready (clear_session peer) dropped in
      follow (quiet-Allowed c dropped refl refl refl refl refl) (
        follow (if_ready-Allowed (clear_session peer) dropped)
          (rekey_call-Allowed w now (reset peer) cleared))

  pub tell_waiting-Allowed :
      (peer : Text) (c : ChatClient) → SendsAllowed c (tell_waiting w now peer c)
  unfolding tell_waiting
  tell_waiting-Allowed peer c =
      if-Allowed c c (tell now peer (waiting_line peer) c) _ (still c)
        (λ e. tell-Allowed now peer (waiting_line peer) c)

  pub open_chain-Allowed : (peer : Text) (c : ChatClient) → SendsAllowed c (open_chain w now peer c)
  unfolding open_chain
  open_chain-Allowed peer c =
      if-Allowed c (send_or_queue_handshake w now peer c) c _ (handshake-Allowed w now peer c)
        (λ e. still c)

  record_settled-Allowed :
      (peer : Text) (c : ChatClient) → SendsAllowed c (record_settled w now peer c)
  unfolding record_settled record_identity
  record_settled-Allowed peer c =
      let identity = text_of peer c.peer_keys in
      let noted = if_ready (record_verified_peer peer identity now) c in
      follow (if-Allowed c c noted (is_empty identity) (still c) (λ e. if_ready-Allowed _ c))
        (if_ready-Allowed _ (record_identity w now peer c))

  resolve-settle :
      (today peer : Text) (c : ChatClient)
      → SendsAllowed (settle peer (my_key w c) c) (resolve w now today peer c)
  unfolding resolve
  resolve-settle today peer c =
      let d = settle peer (my_key w c) c in
      let r = record_settled w now peer d in
      let t = tell now peer (both_line today) r in
      follow (record_settled-Allowed peer d)
        (follow (tell-Allowed now peer (both_line today) r) (flush_if_waiting-Allowed t))

  gate_of-resolve :
      (today peer p : Text) (c : ChatClient)
      → gate_of (resolve w now today peer c) p ≡ settled peer p (gate_of c p)
  gate_of-resolve today peer p c =
      gate_of-Allowed (settle peer (my_key w c) c) (resolve w now today peer c) p
        (resolve-settle today peer c)
      ∙ gate_of-settle peer (my_key w c) p c

  -- What ends an episode moves the gate of that peer alone.
  pub gate_of-try_resolve :
      (today peer p : Text) (c : ChatClient)
      → gate_of (try_resolve_bilateral w now today peer c) p
        ≡ (if peer == p then resolved (gate_of c p) else gate_of c p)
  unfolding try_resolve_bilateral
  gate_of-try_resolve today peer p c =
      gate_of-if (resolve w now today peer c) c (both_verified peer c) p
        (if peer == p then resolved (gate_of c p) else gate_of c p)
        (λ e. gate_of-resolve today peer p c ∙ settled-resolved peer p c e)
        (λ e. unsettled_resolved peer p c e)

pub gate_of-close :
    (peer p : Text) (c : ChatClient)
    → gate_of (close peer c) p ≡ (
        if peer == p
        then record (gate_of c p) { unverified = true; pending = true }
        else gate_of c p)
unfolding gate_of close
gate_of-close peer p c = ground (
  arith,
  HashSet.contains-insert peer p c.unverified_key_change,
  HashSet.contains-insert peer p c.pending_bilateral,
)

pub gate_of-forget :
    (peer p : Text) (c : ChatClient)
    → gate_of (forget_attested peer c) p
      ≡ (if peer == p then record (gate_of c p) { verified = false } else gate_of c p)
unfolding gate_of forget_attested
gate_of-forget peer p c = ground (arith, HashSet.contains-remove peer p c.peer_verified)

pub gate_of-accept :
    (peer p : Text) (c : ChatClient)
    → gate_of (accept_key peer c) p
      ≡ (if peer == p then record (gate_of c p) { unverified = false } else gate_of c p)
unfolding gate_of accept_key
gate_of-accept peer p c = ground (arith, HashSet.contains-remove peer p c.unverified_key_change)

pub gate_of-attested :
    (w : World) (now : ℕ) (peer p : Text) (c : ChatClient)
    → gate_of (note_attested w now peer c) p
      ≡ (if peer == p then record (gate_of c p) { verified = true } else gate_of c p)
unfolding gate_of note_attested
gate_of-attested w now peer p c = ground (arith, HashSet.contains-insert peer p c.peer_verified)
