-- ===== src/CryptoBox/State.antt =====
-- The fields of `CryptoBox` (client/src/cryptobox.h).
use bachelor_s_thesis.Base.{
  ℕ, Bool, not, ◌&&◌, false, [], ◌∷◌, zero, suc, Bytes, Text, is_empty, nat_beq, ltb, ◌||◌,
}
use bachelor_s_thesis.Base.Int.{ℤ, pos}
use bachelor_s_thesis.Base.HashMap.{HashMap}
use bachelor_s_thesis.Base.OrderedMap.{OrderedMap}
use bachelor_s_thesis.Ratchet.Session.{RatchetSession}

pub record CryptoBox : Type 0 where
  pub spk_priv : Bytes
  pub spk_pub : Bytes
  pub spk_sig : Bytes
  pub spk_created_ms : ℤ
  pub prev_spk_priv : Bytes
  pub prev_spk_pub : Bytes
  pub prev_spk_retired_ms : ℤ
  pub opk_priv : OrderedMap Bytes
  pub next_opk_id : ℕ
  pub identity_seed : Bytes
  pub ed_public_key : Bytes
  pub identity_version : ℕ
  pub private_key : Bytes
  pub public_key : Bytes
  pub peer_identity : HashMap Text Bytes
  pub sessions : HashMap Text RatchetSession

-- A box that was just constructed.
abbrev pub new_box : CryptoBox
new_box = record {
  spk_priv = [];
  spk_pub = [];
  spk_sig = [];
  spk_created_ms = pos 0;
  prev_spk_priv = [];
  prev_spk_pub = [];
  prev_spk_retired_ms = pos 0;
  opk_priv = [];
  next_opk_id = 0;
  identity_seed = [];
  ed_public_key = [];
  identity_version = 0;
  private_key = [];
  public_key = [];
  peer_identity = [];
  sessions = [];
}

unfoldable pub has_x3dh_identity : CryptoBox → Bool
has_x3dh_identity box = nat_beq box.identity_version 2 && not (is_empty box.identity_seed)

-- `memcmp(a, b, n) < 0`.
unfoldable pub memcmp_lt : ℕ → Bytes → Bytes → Bool
memcmp_lt zero a b = false
memcmp_lt (suc n) [] b = false
memcmp_lt (suc n) (x ∷ a) [] = false
memcmp_lt (suc n) (x ∷ a) (y ∷ b) = ltb x y || (nat_beq x y && memcmp_lt n a b)
