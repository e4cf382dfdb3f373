-- ===== src/Client/Rekey/Offline.antt =====
-- The passes of the kick timer (client/src/chatclient.cpp) while the peer of a ping is offline.
use bachelor_s_thesis.Base.{ℕ, ◌≡◌, true, false, List, [], ◌∷◌, Text, bytes_eq}
use bachelor_s_thesis.Base.HashSet
use bachelor_s_thesis.Client.State.{ChatClient, World, count_of, is_online}
use bachelor_s_thesis.Client.Rekey.{kick_rekey}
use bachelor_s_thesis.Client.Rekey.SameFor.{SameFor}

-- The passes at the given times.
unfoldable pub kicks : World → List ℕ → ChatClient → ChatClient
kicks w [] c = c
kicks w (now ∷ times) c = kicks w times (kick_rekey w now c)

-- A ping in flight to a peer that is offline, with its time and its count of resends.
record IsHeld (peer : Text) (sent_at resends : ℕ) (c : ChatClient) : Type 0 where
  outstanding : HashSet.contains peer c.rekey_outstanding ≡ true
  at : count_of peer c.rekey_ping_sent_at ≡ sent_at
  count : count_of peer c.rekey_ping_resends ≡ resends
  offline : is_online c.users peer ≡ false
  connected : c.connected ≡ true

-- The ping is as it was, and the timer runs with a fresh count of tries.
pub record IsStillWaiting (peer : Text) (c c' : ChatClient) : Type 0 where
  pub outstanding : HashSet.contains peer c'.rekey_outstanding ≡ true
  pub sent_at : count_of peer c'.rekey_ping_sent_at ≡ count_of peer c.rekey_ping_sent_at
  pub resends : count_of peer c'.rekey_ping_resends ≡ count_of peer c.rekey_ping_resends
  pub timer : c'.kick_timer_active ≡ true
  pub tries : c'.rekey_kick_tries ≡ 0
