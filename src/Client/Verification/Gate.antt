-- ===== src/Client/Verification/Gate.antt =====
-- What a verification has to promise for one peer, apart from keys, queues and frames: three flags, and
-- how each event moves them.
use bachelor_s_thesis.Base.{Bool, true, false, not, ◌&&◌, if◌then◌else◌}

-- We have not verified the peer's new key; the conversation waits for both; the peer has verified us.
pub record Gate : Type 0 where
  pub unverified : Bool
  pub pending : Bool
  pub verified : Bool

pub data Event : Type 0 where
  -- The peer's key has changed; whether its attestation of us is of our current key.
  changed : Bool → Event
  -- We have verified; the peer has.
  confirmed attested : Event

-- The gate opens when both have verified.
unfoldable pub resolved : Gate → Gate
resolved g =
    if g.pending && (not g.unverified && g.verified) then record g { pending = false } else g

unfoldable pub step : Event → Gate → Gate
step (changed current) g = record {
  unverified = true;
  pending = true;
  verified = current && g.verified;
}
step confirmed g = resolved (record g { unverified = false })
step attested g = resolved (record g { verified = true })

unfoldable pub is_shut : Gate → Bool
is_shut g = if g.unverified then true else g.pending
