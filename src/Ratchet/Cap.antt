-- ===== src/Ratchet/Cap.antt =====
-- `enforceSkippedCap`: how many keys stay, and which ones go first.
use bachelor_s_thesis.Base.{
  ℕ, zero, suc, ◌+◌, ◌-◌, ◌≤◌, ◌≡◌, refl, ◌⊎◌, inl, inr, true, [], ◌∷◌, arith, Bytes, length, leb,
  if◌then◌else◌, Bool-cases,
}
use bachelor_s_thesis.Base.HashMap.{HashMap}
use bachelor_s_thesis.Ratchet.Skipped.{
  in_generation, max_skipped_total, shed_superseded, shed_any, enforce_skipped_cap,
}

-- The entries of the live generation, in their order.
unfoldable pub live : Bytes → HashMap Bytes Bytes → HashMap Bytes Bytes
live current [] = []
live current ((k, v) ∷ m) =
    let rest = live current m in if in_generation current k then (k, v) ∷ rest else rest

-- No entry is of another generation than the live one.
abbrev pub AllLive : Bytes → HashMap Bytes Bytes → Type 0
AllLive current [] = Unit {0}
AllLive current ((k, v) ∷ m) = (in_generation current k ≡ true) × AllLive current m

live-shed_superseded :
    (current : Bytes) (over : ℕ) (m : HashMap Bytes Bytes)
    → live current (shed_superseded current over m) ≡ live current m
unfolding live shed_superseded
live-shed_superseded current zero m = refl
live-shed_superseded current (suc over) [] = refl
live-shed_superseded current (suc over) ((k, v) ∷ m) =
    ground (arith, live-shed_superseded current (suc over) m, live-shed_superseded current over m)

-- The first loop gets down to the cap, or stops with the live generation alone.
shed_superseded_cases :
    (current : Bytes) (over : ℕ) (m : HashMap Bytes Bytes)
    → (length (shed_superseded current over m) + over ≡ length m)
      ⊎ AllLive current (shed_superseded current over m)
unfolding shed_superseded
shed_superseded_cases current zero m = inl (omega arith)
shed_superseded_cases current (suc over) [] = inr tt
shed_superseded_cases current (suc over) ((k, v) ∷ m) =
    ground (arith, shed_superseded_cases current (suc over) m, shed_superseded_cases current over m)

length-shed_any : (over : ℕ) (m : HashMap Bytes Bytes) → length (shed_any over m) ≡ length m - over
unfolding shed_any
length-shed_any zero m = omega arith
length-shed_any (suc over) [] = omega arith
length-shed_any (suc over) (e ∷ m) = omega (arith, length-shed_any over m)

shed_any-zero : (over : ℕ) (m : HashMap Bytes Bytes) → over ≡ 0 → shed_any over m ≡ m
unfolding shed_any
shed_any-zero zero m h = refl
shed_any-zero (suc over) m h = absurd (omega arith)

AllLive-shed_any :
    (current : Bytes) (over : ℕ) (m : HashMap Bytes Bytes)
    → AllLive current m
    → AllLive current (shed_any over m)
unfolding shed_any
AllLive-shed_any current zero m h = h
AllLive-shed_any current (suc over) [] h = tt
AllLive-shed_any current (suc over) (e ∷ m) h = AllLive-shed_any current over m h.1

-- A store within the cap is left alone.
pub enforce_skipped_cap_id :
    (current : Bytes) (m : HashMap Bytes Bytes)
    → length m ≤ max_skipped_total
    → enforce_skipped_cap current m ≡ m
unfolding enforce_skipped_cap
enforce_skipped_cap_id current m h = ground arith

-- At most 2000 keys stay, whatever was in the store.
pub length-enforce_skipped_cap :
    (current : Bytes) (m : HashMap Bytes Bytes)
    → length (enforce_skipped_cap current m) ≤ max_skipped_total
unfolding enforce_skipped_cap
length-enforce_skipped_cap current m =
    let m' = shed_superseded current (length m - max_skipped_total) m in
    ground (arith, length-shed_any (length m' - max_skipped_total) m')

-- Keys of the live generation are shed only when no other key is left.
pub enforce_skipped_cap_order :
    (current : Bytes) (m : HashMap Bytes Bytes)
    → (live current (enforce_skipped_cap current m) ≡ live current m)
      ⊎ AllLive current (enforce_skipped_cap current m)
unfolding enforce_skipped_cap
enforce_skipped_cap_order current m = elim (Bool-cases (leb (length m) max_skipped_total)) [
  | inl small ↦ inl (rw small)
  | inr large ↦
      let over = length m - max_skipped_total in
      let m' = shed_superseded current over m in
      elim (shed_superseded_cases current over m) [
        | inl count ↦ inl (
            rw (large, shed_any-zero (length m' - max_skipped_total) m' (ground arith))
              (live-shed_superseded current over m))
        | inr all ↦ inr (rw large (AllLive-shed_any current (length m' - max_skipped_total) m' all))
      ]
]
