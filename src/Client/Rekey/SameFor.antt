-- ===== src/Client/Rekey/SameFor.antt =====
-- What the steps of a pass of the kick timer (client/src/chatclient.cpp) leave alone of the ping to
-- another peer.
use bachelor_s_thesis.Base.{
  ℕ, ◌+◌, ◌≡◌, refl, ◌∙◌, ap, Bool, true, false, List, [], ◌∷◌, Text, is_empty, if◌then◌else◌, ◌==◌,
  bytes_eq,
}
use bachelor_s_thesis.Base.HashMap
use bachelor_s_thesis.Base.HashMap.{HashMap}
use bachelor_s_thesis.Base.HashSet
use bachelor_s_thesis.Client.State.{ChatClient, World, count_of}
use bachelor_s_thesis.Client.Rekey.{
  either_way, each, mark_rekey_ping_sent, forget_ping, kick_afresh, pong_paid, heal_done,
  transmit_rekey, try_rekey, ping_resent, recheck_ping, pay_ping, pay_pong, pay_heal, rearm,
}
use bachelor_s_thesis.Client.Rekey.Budget.{SamePings, transmit-SamePings, try-SamePings}

-- What a pass knows of the ping to one peer.
pub record SameFor (peer : Text) (c c' : ChatClient) : Type 0 where
  pub outstanding :
      HashSet.contains peer c'.rekey_outstanding ≡ HashSet.contains peer c.rekey_outstanding
  pub sent_at : count_of peer c'.rekey_ping_sent_at ≡ count_of peer c.rekey_ping_sent_at
  pub resends : count_of peer c'.rekey_ping_resends ≡ count_of peer c.rekey_ping_resends
  pub users : c'.users ≡ c.users
  pub connected : c'.connected ≡ c.connected

pub stay : (peer : Text) (c : ChatClient) → SameFor peer c c
stay peer c = record {
  outstanding = refl;
  sent_at = refl;
  resends = refl;
  users = refl;
  connected = refl;
}

pub trans :
    (peer : Text) (a b c : ChatClient) → SameFor peer a b → SameFor peer b c → SameFor peer a c
trans peer a b c s t = record {
  outstanding = t.outstanding ∙ s.outstanding;
  sent_at = t.sent_at ∙ s.sent_at;
  resends = t.resends ∙ s.resends;
  users = t.users ∙ s.users;
  connected = t.connected ∙ s.connected;
}

pub same_pings : (peer : Text) (c c' : ChatClient) → SamePings c c' → SameFor peer c c'
same_pings peer c c' s = record {
  outstanding = ap (HashSet.contains peer) s.outstanding;
  sent_at = ap (count_of peer) s.sent_at;
  resends = ap (count_of peer) s.resends;
  users = s.users;
  connected = s.connected;
}

abbrev pub pair_with : (ChatClient → ChatClient) → Bool → ChatClient → ChatClient × Bool
pair_with f pending c = (f c, pending)

pub if-both {ℓ κ} :
    {A : Type ℓ} (P : A → Type κ) (b : Bool) (x y : A) → P x → P y → P (if b then x else y)
if-both P true x y h k = h
if-both P false x y h k = k

pub either_way-both {ℓ κ} :
    {A : Type ℓ} (P : A → Type κ) (f g : ChatClient → A) (r : ChatClient × Bool)
    → P (f r.0)
    → P (g r.0)
    → P (either_way f g r)
either_way-both P f g (c, true) h k = h
either_way-both P f g (c, false) h k = k

pub each-all {κ ℓ μ} :
    {K : Type κ} {A : Type ℓ} (P : A → Type μ) (f : K → A → A) (ks : List K) (a : A)
    → ((k : K) (a : A) → P a → P (f k a))
    → P a
    → P (each f ks a)
each-all P f [] a step h = h
each-all P f (k ∷ ks) a step h = each-all P f ks (f k a) step (step k a h)

module _ (q peer : Text) (other : (q == peer) ≡ false) where
  count_of-insert_other :
      (n : ℕ) (m : HashMap Text ℕ) → count_of peer (HashMap.insert q n m) ≡ count_of peer m
  unfolding count_of
  count_of-insert_other n m = rw (HashMap.lookup-insert q peer n m, other, count_of) refl

  count_of-remove_other :
      (m : HashMap Text ℕ) → count_of peer (HashMap.remove q m) ≡ count_of peer m
  unfolding count_of
  count_of-remove_other m = rw (HashMap.lookup-remove q peer m, other, count_of) refl

  forget-SameFor : (c : ChatClient) → SameFor peer c (forget_ping q c)
  unfolding forget_ping
  forget-SameFor c = record {
    outstanding = HashSet.contains-remove q peer c.rekey_outstanding ∙ rw other refl;
    sent_at = count_of-remove_other c.rekey_ping_sent_at;
    resends = count_of-remove_other c.rekey_ping_resends;
    users = refl;
    connected = refl;
  }

  resent-SameFor : (now : ℕ) (c : ChatClient) → SameFor peer c (ping_resent now q c)
  unfolding ping_resent
  resent-SameFor now c = record {
    outstanding = refl;
    sent_at = count_of-insert_other now c.rekey_ping_sent_at;
    resends = count_of-insert_other _ c.rekey_ping_resends;
    users = refl;
    connected = refl;
  }

  mark-SameFor : (now : ℕ) (c : ChatClient) → SameFor peer c (mark_rekey_ping_sent now q c)
  unfolding mark_rekey_ping_sent
  mark-SameFor now c = if-both (SameFor peer c) (is_empty q) c _ (stay peer c) (record {
    outstanding = HashSet.contains-insert q peer c.rekey_outstanding ∙ rw other refl;
    sent_at = count_of-insert_other now c.rekey_ping_sent_at;
    resends =
        if-both (λ (m : HashMap Text ℕ). count_of peer m ≡ count_of peer c.rekey_ping_resends)
          (HashSet.contains q c.rekey_outstanding) c.rekey_ping_resends
          (HashMap.insert q 0 c.rekey_ping_resends) refl
          (count_of-insert_other 0 c.rekey_ping_resends);
    users = refl;
    connected = refl;
  })

pub heal_done-SameFor : (peer q : Text) (c : ChatClient) → SameFor peer c (heal_done q c)
unfolding heal_done
heal_done-SameFor peer q c = record {
  outstanding = refl;
  sent_at = refl;
  resends = refl;
  users = refl;
  connected = refl;
}

module _ (w : World) (now : ℕ) (peer : Text) where
  pub transmit-SameFor :
      (is_pong : Bool) (q : Text) (c : ChatClient)
      → SameFor peer c (transmit_rekey w now is_pong q c).0
  transmit-SameFor is_pong q c =
      same_pings peer c (transmit_rekey w now is_pong q c).0 (transmit-SamePings w now is_pong q c)

  pub try-SameFor :
      (is_pong : Bool) (q : Text) (c : ChatClient) → SameFor peer c (try_rekey w now is_pong q c).0
  try-SameFor is_pong q c =
      same_pings peer c (try_rekey w now is_pong q c).0 (try-SamePings w now is_pong q c)

  -- What is done about another peer.
  module _ (q : Text) (other : (q == peer) ≡ false) (c : ChatClient) where
    pub recheck-other : SameFor peer c (recheck_ping w now q c)
    unfolding recheck_ping
    recheck-other =
        let d = (try_rekey w now false q c).0 in
        let s = try-SameFor false q c in
        if-both (SameFor peer c) _ c _ (stay peer c) (
          if-both (SameFor peer c) _ (forget_ping q c) _ (forget-SameFor q peer other c) (
            either_way-both (SameFor peer c) (ping_resent now q) (λ c'. c')
              (try_rekey w now false q c) (trans peer c d _ s (resent-SameFor q peer other now d))
              s))

    pub ping-other : (pending : Bool) → SameFor peer c (pay_ping w now q (c, pending)).0
    unfolding pay_ping
    ping-other pending =
        let d = (transmit_rekey w now false q c).0 in
        let s = transmit-SameFor false q c in
        let tried = transmit_rekey w now false q c in
        let sent = pair_with (mark_rekey_ping_sent now q) pending in
        let unsent = pair_with (λ c'. c') true in
        if-both (λ (r : ChatClient × Bool). SameFor peer c r.0) _ (either_way sent unsent tried)
          (c, pending)
          (either_way-both (λ (r : ChatClient × Bool). SameFor peer c r.0) sent unsent tried
            (trans peer c d (mark_rekey_ping_sent now q d) s (mark-SameFor q peer other now d)) s)
          (stay peer c)

    pub heal-other : (pending : Bool) → SameFor peer c (pay_heal w now q (c, pending)).0
    unfolding pay_heal
    heal-other pending =
        let d = (try_rekey w now false q c).0 in
        let m = mark_rekey_ping_sent now q d in
        let s = try-SameFor false q c in
        let tried = try_rekey w now false q c in
        let sent = pair_with (λ c'. heal_done q (mark_rekey_ping_sent now q c')) pending in
        let unsent = pair_with (λ c'. c') true in
        if-both (λ (r : ChatClient × Bool). SameFor peer c r.0) _ (heal_done q c, pending)
          (either_way sent unsent tried) (heal_done-SameFor peer q c)
          (either_way-both (λ (r : ChatClient × Bool). SameFor peer c r.0) sent unsent tried
            (trans peer c d (heal_done q m) s (
              trans peer d m (heal_done q m) (mark-SameFor q peer other now d)
                (heal_done-SameFor peer q m)))
            s)

  pub pong-SameFor :
      (q : Text) (c : ChatClient) (pending : Bool)
      → SameFor peer c (pay_pong w now q (c, pending)).0
  unfolding pay_pong pong_paid
  pong-SameFor q c pending =
      let s = try-SameFor true q c in
      either_way-both (λ (r : ChatClient × Bool). SameFor peer c r.0)
        (pair_with (pong_paid q) pending) (pair_with (λ c'. c') true) (try_rekey w now true q c)
        (record {
          outstanding = s.outstanding;
          sent_at = s.sent_at;
          resends = s.resends;
          users = s.users;
          connected = s.connected;
        })
        s

  pub rearm-SameFor : (r : ChatClient × Bool) → SameFor peer r.0 (rearm r)
  unfolding rearm kick_afresh
  rearm-SameFor (c, pending) =
      let again = record c {
        rekey_kick_tries = c.rekey_kick_tries + 1;
        kick_timer_active = true;
      } in
      if-both (SameFor peer c) _ (kick_afresh c) _
        (same_pings peer c (kick_afresh c) (record {
          outstanding = refl;
          sent_at = refl;
          resends = refl;
          users = refl;
          connected = refl;
        }))
        (if-both (SameFor peer c) _ again _
          (same_pings peer c again (record {
            outstanding = refl;
            sent_at = refl;
            resends = refl;
            users = refl;
            connected = refl;
          }))
          (same_pings peer c (record c { rekey_kick_tries = 0 })
            (record {
              outstanding = refl;
              sent_at = refl;
              resends = refl;
              users = refl;
              connected = refl;
            })))
