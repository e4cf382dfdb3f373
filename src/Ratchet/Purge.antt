-- ===== src/Ratchet/Purge.antt =====
-- `purgeUnreachableSkipped`: which keys outlive a ratchet step.
use bachelor_s_thesis.Base.{
  ◌≤◌, ◌≡◌, none, [], ◌∷◌, arith, Bytes, length, if◌then◌else◌, bytes_beq_iff, bytes_eq,
}
use bachelor_s_thesis.Base.HashMap.{HashMap, lookup}
use bachelor_s_thesis.Ratchet.Skipped.{keeps, purge_unreachable_skipped}

-- A key of the current or of the previous generation keeps its entry; any other key has none.
pub lookup-purge :
    (current previous key : Bytes) (m : HashMap Bytes Bytes)
    → lookup key (purge_unreachable_skipped current previous m)
      ≡ (if keeps current previous key then lookup key m else none)
unfolding purge_unreachable_skipped lookup
lookup-purge current previous key [] = ground arith
lookup-purge current previous key ((k, v) ∷ m) =
    ground (arith, bytes_beq_iff k key, lookup-purge current previous key m)

pub length-purge :
    (current previous : Bytes) (m : HashMap Bytes Bytes)
    → length (purge_unreachable_skipped current previous m) ≤ length m
unfolding purge_unreachable_skipped
length-purge current previous [] = omega arith
length-purge current previous ((k, v) ∷ m) = ground (arith, length-purge current previous m)
