-- ===== src/Client/Rekey/Allowed.antt =====
-- To whom the rekey pings of client/src/chatclient.cpp go.
use bachelor_s_thesis.Base.{
  ℕ, ◌+◌, ◌≡◌, refl, sym, ◌∙◌, ap, Bool, true, false, ◌&&◌, List, [], ◌∷◌, ◌++◌, Text, is_empty,
  if◌then◌else◌, arith, append_assoc, append_nil, ltb,
}
use bachelor_s_thesis.CryptoBox.Messages.{WireFrame}
use bachelor_s_thesis.Client.State.{
  ChatClient, SentFrame, HistoryCall, msg, get_key, verify_ack, verify_resync, file_init, file_end,
  chunk, rekey_ping, rekey_pong, rebootstrap, chat, if_ready, conversation_blocked, is_online,
}
use bachelor_s_thesis.Client.Rekey.{
  either_way, each, mark_rekey_ping_sent, forget_ping, kick_afresh, pong_paid, heal_done,
  ping_resent, rearm, rekey_kick_max_tries,
}

-- A rekey ping is for a peer that is online and whose conversation is not blocked, and no text and no
-- file is for a peer whose conversation is blocked.
abbrev pub IsAllowed : ChatClient → SentFrame → Type 0
IsAllowed c (msg peer rekey_ping frame ts) =
    (conversation_blocked c peer ≡ false) × (is_online c.users peer ≡ true)
IsAllowed c (msg peer rekey_pong frame ts) = Unit {0}
IsAllowed c (msg peer (rebootstrap ik) frame ts) = Unit {0}
IsAllowed c (msg peer (chat mid) frame ts) = conversation_blocked c peer ≡ false
IsAllowed c (file_init peer id name mime size header key) = conversation_blocked c peer ≡ false
IsAllowed c (file_end id) = Unit {0}
IsAllowed c (chunk bytes) = Unit {0}
IsAllowed c (get_key peer) = Unit {0}
IsAllowed c (verify_ack peer ik peer_ik ts) = Unit {0}
IsAllowed c (verify_resync peer ik ts) = Unit {0}

abbrev pub AllAllowed : ChatClient → List SentFrame → Type 0
AllAllowed c [] = Unit {0}
AllAllowed c (f ∷ fs) = IsAllowed c f × AllAllowed c fs

-- The fields by which a conversation is blocked or a peer online.
pub record SameGates (c c' : ChatClient) : Type 0 where
  pub unverified : c'.unverified_key_change ≡ c.unverified_key_change
  pub pending : c'.pending_bilateral ≡ c.pending_bilateral
  pub users : c'.users ≡ c.users
  pub peer_verified : c'.peer_verified ≡ c.peer_verified

-- Frames were only added, and each of them is allowed.
pub record SendsAllowed (c c' : ChatClient) : Type 0 where
  pub gates : SameGates c c'
  pub added : List SentFrame
  pub sent : c'.sent ≡ c.sent ++ added
  pub allowed : AllAllowed c added

module _ {a b : ChatClient} (s : SameGates a b) where
  IsAllowed-gates : (f : SentFrame) → IsAllowed b f → IsAllowed a f
  unfolding conversation_blocked
  IsAllowed-gates (msg peer rekey_ping frame ts) h =
      let u = s.unverified in let q = s.pending in let v = s.users in (ground arith, ground arith)
  IsAllowed-gates (msg peer rekey_pong frame ts) h = tt
  IsAllowed-gates (msg peer (rebootstrap ik) frame ts) h = tt
  IsAllowed-gates (msg peer (chat mid) frame ts) h =
      let u = s.unverified in let q = s.pending in ground arith
  IsAllowed-gates (file_init peer id name mime size header key) h =
      let u = s.unverified in let q = s.pending in ground arith
  IsAllowed-gates (file_end id) h = tt
  IsAllowed-gates (chunk bytes) h = tt
  IsAllowed-gates (get_key peer) h = tt
  IsAllowed-gates (verify_ack peer ik peer_ik ts) h = tt
  IsAllowed-gates (verify_resync peer ik ts) h = tt

  AllAllowed-gates : (fs : List SentFrame) → AllAllowed b fs → AllAllowed a fs
  AllAllowed-gates [] h = tt
  AllAllowed-gates (f ∷ fs) h = (IsAllowed-gates f h.0, AllAllowed-gates fs h.1)

pub IsAllowed-kept :
    {a b : ChatClient}
    → SameGates a b
    → (peer : Text) (frame : WireFrame) (ts : ℕ) → conversation_blocked a peer ≡ false
    → is_online a.users peer ≡ true
    → IsAllowed b (msg peer rekey_ping frame ts)
unfolding conversation_blocked
IsAllowed-kept s peer frame ts h k =
    let u = s.unverified in let q = s.pending in let v = s.users in (ground arith, ground arith)

AllAllowed-append :
    (c : ChatClient) (fs gs : List SentFrame)
    → AllAllowed c fs
    → AllAllowed c gs
    → AllAllowed c (fs ++ gs)
AllAllowed-append c [] gs f g = g
AllAllowed-append c (x ∷ fs) gs f g = (f.0, AllAllowed-append c fs gs f.1 g)

-- Nothing was sent, and no gate moved.
pub quiet : {c c' : ChatClient} → SameGates c c' → c'.sent ≡ c.sent → SendsAllowed c c'
quiet {c} {c'} g e = record {
  gates = g;
  added = [];
  sent = e ∙ sym (append_nil c.sent);
  allowed = tt;
}

pub still : (c : ChatClient) → SendsAllowed c c
still c =
    quiet (record { unverified = refl; pending = refl; users = refl; peer_verified = refl }) refl

pub follow : {a b c : ChatClient} → SendsAllowed a b → SendsAllowed b c → SendsAllowed a c
follow {a} {b} {c} s t = record {
  gates = record {
    unverified = t.gates.unverified ∙ s.gates.unverified;
    pending = t.gates.pending ∙ s.gates.pending;
    users = t.gates.users ∙ s.gates.users;
    peer_verified = t.gates.peer_verified ∙ s.gates.peer_verified;
  };
  added = s.added ++ t.added;
  sent =
      t.sent
      ∙ ap (λ (fs : List SentFrame). fs ++ t.added) s.sent
      ∙ append_assoc a.sent s.added t.added;
  allowed =
      AllAllowed-append a s.added t.added s.allowed (AllAllowed-gates s.gates t.added t.allowed);
}

pub if-Allowed :
    (c x y : ChatClient) (b : Bool)
    → SendsAllowed c x
    → (b ≡ false → SendsAllowed c y)
    → SendsAllowed c (if b then x else y)
if-Allowed c x y true h k = h
if-Allowed c x y false h k = k refl

pub if_pair-Allowed :
    {B : Type 0} (c : ChatClient) (x y : ChatClient × B) (b : Bool)
    → SendsAllowed c x.0
    → (b ≡ false → SendsAllowed c y.0)
    → SendsAllowed c (if b then x else y).0
if_pair-Allowed c x y true h k = h
if_pair-Allowed c x y false h k = k refl

-- Changes of fields that neither send nor gate.
pub mark-Allowed :
    (now : ℕ) (peer : Text) (c : ChatClient) → SendsAllowed c (mark_rekey_ping_sent now peer c)
unfolding mark_rekey_ping_sent
mark-Allowed now peer c = if-Allowed c c _ (is_empty peer) (still c) (λ e.
    quiet (record { unverified = refl; pending = refl; users = refl; peer_verified = refl }) refl)

pub quiet-Allowed :
    (c d : ChatClient)
    → d.unverified_key_change ≡ c.unverified_key_change
    → d.pending_bilateral ≡ c.pending_bilateral
    → d.users ≡ c.users
    → d.peer_verified ≡ c.peer_verified
    → d.sent ≡ c.sent
    → SendsAllowed c d
quiet-Allowed c d u q v y e =
    quiet (record { unverified = u; pending = q; users = v; peer_verified = y }) e

pub forget-Allowed : (peer : Text) (c : ChatClient) → SendsAllowed c (forget_ping peer c)
unfolding forget_ping
forget-Allowed peer c = quiet-Allowed c (forget_ping peer c) refl refl refl refl refl

pub resent-Allowed :
    (now : ℕ) (peer : Text) (c : ChatClient) → SendsAllowed c (ping_resent now peer c)
unfolding ping_resent
resent-Allowed now peer c = quiet-Allowed c (ping_resent now peer c) refl refl refl refl refl

pub pong_paid-Allowed : (peer : Text) (c : ChatClient) → SendsAllowed c (pong_paid peer c)
unfolding pong_paid
pong_paid-Allowed peer c = quiet-Allowed c (pong_paid peer c) refl refl refl refl refl

pub heal_done-Allowed : (peer : Text) (c : ChatClient) → SendsAllowed c (heal_done peer c)
unfolding heal_done
heal_done-Allowed peer c = quiet-Allowed c (heal_done peer c) refl refl refl refl refl

pub kick_afresh-Allowed : (c : ChatClient) → SendsAllowed c (kick_afresh c)
unfolding kick_afresh
kick_afresh-Allowed c = quiet-Allowed c (kick_afresh c) refl refl refl refl refl

pub mark_heal-Allowed :
    (now : ℕ) (peer : Text) (c : ChatClient)
    → SendsAllowed c (heal_done peer (mark_rekey_ping_sent now peer c))
mark_heal-Allowed now peer c =
    follow (mark-Allowed now peer c) (heal_done-Allowed peer (mark_rekey_ping_sent now peer c))

pub rearm-Allowed : (r : ChatClient × Bool) → SendsAllowed r.0 (rearm r)
unfolding rearm
rearm-Allowed (c, pending) =
    let one_more = record c {
      rekey_kick_tries = c.rekey_kick_tries + 1;
      kick_timer_active = true;
    } in
    let given_up = record c { rekey_kick_tries = 0 } in
    let more = pending && ltb (c.rekey_kick_tries + 1) rekey_kick_max_tries in
    if-Allowed c (kick_afresh c) (if more then one_more else given_up) _ (kick_afresh-Allowed c)
      (λ e.
        if-Allowed c one_more given_up more (quiet-Allowed c one_more refl refl refl refl refl)
          (λ e'. quiet-Allowed c given_up refl refl refl refl refl))

pub if_ready-Allowed : (h : HistoryCall) (c : ChatClient) → SendsAllowed c (if_ready h c)
unfolding if_ready
if_ready-Allowed h c =
    if-Allowed c _ c c.history_ready
      (quiet (record { unverified = refl; pending = refl; users = refl; peer_verified = refl })
        refl)
      (λ e. still c)

pub either_way-Allowed :
    (c : ChatClient) (sent unsent : ChatClient → ChatClient) (r : ChatClient × Bool)
    → SendsAllowed c r.0
    → ((d : ChatClient) → SendsAllowed d (sent d))
    → ((d : ChatClient) → SendsAllowed d (unsent d))
    → SendsAllowed c (either_way sent unsent r)
either_way-Allowed c sent unsent (d, true) h f g = follow h (f d)
either_way-Allowed c sent unsent (d, false) h f g = follow h (g d)

pub either_pair-Allowed :
    (c : ChatClient) (sent unsent : ChatClient → ChatClient × Bool) (r : ChatClient × Bool)
    → SendsAllowed c r.0
    → ((d : ChatClient) → SendsAllowed d (sent d).0)
    → ((d : ChatClient) → SendsAllowed d (unsent d).0)
    → SendsAllowed c (either_way sent unsent r).0
either_pair-Allowed c sent unsent (d, true) h f g = follow h (f d)
either_pair-Allowed c sent unsent (d, false) h f g = follow h (g d)

pub each-Allowed {κ} :
    {K : Type κ} (f : K → ChatClient → ChatClient)
    → ((peer : K) (c : ChatClient) → SendsAllowed c (f peer c))
    → (peers : List K) (c : ChatClient) → SendsAllowed c (each f peers c)
each-Allowed f h [] c = still c
each-Allowed f h (peer ∷ peers) c = follow (h peer c) (each-Allowed f h peers (f peer c))

pub each_pair-Allowed :
    (f : Text → ChatClient × Bool → ChatClient × Bool)
    → ((peer : Text) (r : ChatClient × Bool) → SendsAllowed r.0 (f peer r).0)
    → (peers : List Text) (r : ChatClient × Bool) → SendsAllowed r.0 (each f peers r).0
each_pair-Allowed f h [] r = still r.0
each_pair-Allowed f h (peer ∷ peers) r = follow (h peer r) (each_pair-Allowed f h peers (f peer r))
