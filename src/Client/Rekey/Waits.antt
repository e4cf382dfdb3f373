-- ===== src/Client/Rekey/Waits.antt =====
-- How long the recovery of client/src/chatclient.cpp waits for a pong, over whole passes of the kick
-- timer.
use bachelor_s_thesis.Base.{
  ℕ, ◌≤◌, ◌≡◌, refl, ◌⊎◌, Bool, true, false, ◌&&◌, ◌||◌, Text, if◌then◌else◌, ltb, bytes_eq,
}
use bachelor_s_thesis.Base.HashMap
use bachelor_s_thesis.Base.HashMap.{HashMap}
use bachelor_s_thesis.Base.HashSet
use bachelor_s_thesis.Client.State.{ChatClient, World, count_of}
use bachelor_s_thesis.Client.Rekey.{
  heal_done, is_gated, is_overdue, pay_ping, pay_heal, rekey_ping_max_resends,
}
use bachelor_s_thesis.Client.Rekey.SameFor.{SameFor}

-- The client no longer waits for the peer's pong, or the ping is of this pass and has all its resends.
abbrev pub IsReleased : ℕ → Text → ChatClient → Type 0
IsReleased now peer c =
    ((HashSet.contains peer c.rekey_outstanding ≡ false) × (count_of peer c.rekey_ping_sent_at ≡ 0))
    ⊎ ((HashSet.contains peer c.rekey_outstanding ≡ true)
        × (count_of peer c.rekey_ping_sent_at ≡ now)
        × (count_of peer c.rekey_ping_resends ≡ 0))

-- A ping in flight whose pong is overdue and whose resends are used up.
abbrev pub IsSpent : ℕ → Text → ChatClient → Type 0
IsSpent now peer c =
    (HashSet.contains peer c.rekey_outstanding ≡ true)
    × (is_overdue now c peer ≡ true)
    × (rekey_ping_max_resends ≤ count_of peer c.rekey_ping_resends)

if_never {ℓ} : {A : Type ℓ} (b : Bool) (x y : A) → (if b && false then x else y) ≡ y
if_never true x y = refl
if_never false x y = refl

if_always {ℓ} : {A : Type ℓ} (b : Bool) (x y : A) → (if b || true then x else y) ≡ x
if_always true x y = refl
if_always false x y = refl

module _ (w : World) (now : ℕ) (peer : Text) where
  -- While the peer's ping is in flight, parts 1 and 3 of the pass send none.
  pub ping_in_flight :
      (c : ChatClient) (pending : Bool)
      → HashSet.contains peer c.rekey_outstanding ≡ true
      → pay_ping w now peer (c, pending) ≡ (c, pending)
  unfolding pay_ping
  ping_in_flight c pending h = rw h (if_never (ltb 0 (count_of peer c.sent_since_ratchet)) _ _)

  pub heal_in_flight :
      (c : ChatClient) (pending : Bool)
      → HashSet.contains peer c.rekey_outstanding ≡ true
      → pay_heal w now peer (c, pending) ≡ (heal_done peer c, pending)
  unfolding pay_heal
  heal_in_flight c pending h = rw h (if_always (is_gated c peer) _ _)
