-- ===== src/CryptoBox/Identity/Switch.antt =====
-- `resetForNewUser` of client/src/cryptobox.cpp: what a user switch clears, and what it leaves.
use bachelor_s_thesis.Base.{◌≡◌, refl, Bool, true, none, [], Bytes, Text, bytes_eq}
use bachelor_s_thesis.Base.HashMap
use bachelor_s_thesis.Base.OrderedMap
use bachelor_s_thesis.Platform.{Platform}
use bachelor_s_thesis.X3dh
use bachelor_s_thesis.CryptoBox.State.{CryptoBox}
use bachelor_s_thesis.CryptoBox.Identity.{reset_for_new_user}
use bachelor_s_thesis.CryptoBox.Sessions.{session_for}

lookup-nil {ℓ} : {V : Type ℓ} (key : Text) → HashMap.lookup {V = V} key [] ≡ none
unfolding HashMap.lookup
lookup-nil key = refl

-- What two boxes answer an opener, where the first has accepted it: the second has as well, with the
-- same session for the peer and the same pool afterwards.
pub record Answers (peer : Text) (a b : CryptoBox × Bool) : Type 0 where
  pub made : b.1 ≡ true
  pub session : HashMap.lookup peer b.0.sessions ≡ HashMap.lookup peer a.0.sessions
  pub pool : b.0.opk_priv ≡ a.0.opk_priv

module _ (p : Platform) where
  -- After the switch to another user no session is left and none can be bootstrapped, for any peer.
  pub session_for-reset :
      (box : CryptoBox) (peer : Text) (fresh : Bytes)
      → session_for p (reset_for_new_user box) peer fresh ≡ none
  unfolding session_for reset_for_new_user
  session_for-reset box peer fresh = rw (lookup-nil peer, session_for) (rw (lookup-nil peer))
