-- ===== src/Ratchet/Skipped.antt =====
-- The store of skipped message keys of client/src/cryptobox.cpp: its purge and its cap.
use bachelor_s_thesis.Base.{
  ℕ, zero, suc, ◌-◌, Bool, not, ◌&&◌, ◌||◌, [], ◌∷◌, Bytes, take, length, leb, is_empty, ◌==◌,
  bytes_eq, if◌then◌else◌,
}
use bachelor_s_thesis.Base.HashMap.{HashMap}

abbrev pub max_skip : ℕ
max_skip = 1000

abbrev pub max_skipped_total : ℕ
max_skipped_total = 2000

-- The ratchet generation that a key of the store belongs to: `key.left(keepCurrent.size())`.
abbrev pub in_generation : Bytes → Bytes → Bool
in_generation gen key = take (length gen) key == gen

-- An entry survives the purge. The cut is at the length of the current generation for both.
unfoldable pub keeps : Bytes → Bytes → Bytes → Bool
keeps current previous key =
    let gen = take (length current) key in
    gen == current || (not (is_empty previous) && gen == previous)

unfoldable pub purge_unreachable_skipped : Bytes → Bytes → HashMap Bytes Bytes → HashMap Bytes Bytes
purge_unreachable_skipped current previous [] = []
purge_unreachable_skipped current previous ((k, v) ∷ m) =
    let rest = purge_unreachable_skipped current previous m in
    if keeps current previous k then (k, v) ∷ rest else rest

-- The two loops of `enforceSkippedCap`. The count is by how much the store is over its cap.
unfoldable pub shed_superseded : Bytes → ℕ → HashMap Bytes Bytes → HashMap Bytes Bytes
shed_superseded current zero m = m
shed_superseded current (suc over) [] = []
shed_superseded current (suc over) ((k, v) ∷ m) =
    let kept = shed_superseded current (suc over) m in
    let shed = shed_superseded current over m in
    if in_generation current k then (k, v) ∷ kept else shed

unfoldable pub shed_any : ℕ → HashMap Bytes Bytes → HashMap Bytes Bytes
shed_any zero m = m
shed_any (suc over) [] = []
shed_any (suc over) (e ∷ m) = shed_any over m

unfoldable pub enforce_skipped_cap : Bytes → HashMap Bytes Bytes → HashMap Bytes Bytes
enforce_skipped_cap current m =
    let m' = shed_superseded current (length m - max_skipped_total) m in
    if leb (length m) max_skipped_total then m else shed_any (length m' - max_skipped_total) m'
