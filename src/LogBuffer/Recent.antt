-- ===== src/LogBuffer/Recent.antt =====
-- The log buffer of client/src/logbuffer.cpp against an unbounded log, of which it shows the end.
use bachelor_s_thesis.Base.{
  ℕ, zero, suc, ◌+◌, ◌-◌, ◌≤◌, ◌≡◌, refl, sym, ◌∙◌, ap, true, false, List, [], ◌∷◌, ◌++◌, Text,
  is_empty, length, drop, leb, arith, inl, inr, Bool-cases, length-drop, length-append,
  nil_of_length, nil_of_is_empty,
}
use bachelor_s_thesis.LogBuffer.{
  LogBuffer, append_on_gui, clear, row_count, max_lines, make_room, push_back, empty_log,
}

-- What is called on the buffer.
pub data Call : Type 0 where
  write : Text → Text → Call
  wipe : Call

unfoldable pub perform : Call → LogBuffer → LogBuffer
perform (write line level) b = append_on_gui line level b
perform wipe b = clear b

unfoldable pub perform_all : List Call → LogBuffer → LogBuffer
perform_all [] b = b
perform_all (c ∷ cs) b = perform_all cs (perform c b)

-- The same calls on a log without a bound.
unfoldable pub full_log : List Call → LogBuffer → LogBuffer
full_log [] b = b
full_log (write line level ∷ cs) b = full_log cs (push_back line level b)
full_log (wipe ∷ cs) b = full_log cs empty_log

module _ {ℓ} {A : Type ℓ} where
  -- The last `n` entries.
  abbrev pub recent : ℕ → List A → List A
  recent n xs = drop (length xs - n) xs

  drop-append_le : (n : ℕ) (xs ys : List A) → n ≤ length xs → drop n (xs ++ ys) ≡ drop n xs ++ ys
  drop-append_le zero xs ys h = refl
  drop-append_le (suc n) [] ys h = absurd (omega arith)
  drop-append_le (suc n) (x ∷ xs) ys h = drop-append_le n xs ys (omega arith)

  drop-drop : (n : ℕ) (xs : List A) → drop 1 (drop n xs) ≡ drop (suc n) xs
  drop-drop zero [] = refl
  drop-drop zero (x ∷ xs) = refl
  drop-drop (suc n) [] = refl
  drop-drop (suc n) (x ∷ xs) = drop-drop n xs

  drop-nil : (n : ℕ) → drop {A = A} n [] ≡ []
  drop-nil zero = refl
  drop-nil (suc n) = refl

  length-recent : (n : ℕ) (xs : List A) → length (recent n xs) ≡ length xs - (length xs - n)
  length-recent n xs = length-drop (length xs - n) xs

  -- One more entry: where the view is full the oldest goes.
  recent-append_full :
      (n : ℕ) (xs : List A) (a : A)
      → suc n ≤ length xs
      → recent (suc n) (xs ++ a ∷ []) ≡ drop 1 (recent (suc n) xs) ++ a ∷ []
  recent-append_full n xs a h = rw (length-append xs (a ∷ [])) (
      ap (λ (k : ℕ). drop k (xs ++ a ∷ [])) cut
      ∙ drop-append_le (suc (length xs - suc n)) xs (a ∷ []) (omega arith)
      ∙ ap (λ (ys : List A). ys ++ a ∷ []) (sym (drop-drop (length xs - suc n) xs)))
    where
      cut : length xs + 1 - suc n ≡ suc (length xs - suc n)
      cut = omega arith

  recent-append_room :
      (n : ℕ) (xs : List A) (a : A)
      → length xs ≤ n
      → recent (suc n) (xs ++ a ∷ []) ≡ recent (suc n) xs ++ a ∷ []
  recent-append_room n xs a h = rw (length-append xs (a ∷ [])) (
      ap (λ (k : ℕ). drop k (xs ++ a ∷ [])) cut
      ∙ ap (λ (k : ℕ). drop k xs ++ a ∷ []) (sym none_gone))
    where
      cut : length xs + 1 - suc n ≡ 0
      cut = omega arith

      none_gone : length xs - suc n ≡ 0
      none_gone = omega arith

-- The buffer shows the end of the log, and every line has its level.
pub record Shows (n : ℕ) (b f : LogBuffer) : Type 0 where
  pub lines : b.lines ≡ recent n f.lines
  pub levels : b.levels ≡ recent n f.levels
  pub paired : length f.lines ≡ length f.levels

module _ (n : ℕ) (line level : Text) (b f : LogBuffer) (s : Shows (suc n) b f) where
  length-shown : length b.lines ≡ length f.lines - (length f.lines - suc n)
  length-shown = rw s.lines (length-recent (suc n) f.lines)

  paired-push : length (f.lines ++ line ∷ []) ≡ length (f.levels ++ level ∷ [])
  paired-push =
      omega
        (arith, s.paired, length-append f.lines (line ∷ []), length-append f.levels (level ∷ []))

  full : leb (suc n) (length b.lines) ≡ true → suc n ≤ length f.lines
  full e = ground (arith, length-shown)

  room : leb (suc n) (length b.lines) ≡ false → length f.lines ≤ n
  room e = ground (arith, length-shown)

  append-Shows : Shows (suc n) (push_back line level (make_room (suc n) b)) (push_back line level f)
  append-Shows = elim (Bool-cases (leb (suc n) (length b.lines))) [
    | inl e ↦ rw e record {
      lines =
          ap (λ (xs : List Text). drop 1 xs ++ line ∷ []) s.lines
          ∙ sym (recent-append_full n f.lines line (full e));
      levels =
          ap (λ (xs : List Text). drop 1 xs ++ level ∷ []) s.levels
          ∙ sym (recent-append_full n f.levels level (omega (arith, full e, s.paired)));
      paired = paired-push;
    }
    | inr e ↦ rw e record {
      lines =
          ap (λ (xs : List Text). xs ++ line ∷ []) s.lines
          ∙ sym (recent-append_room n f.lines line (room e));
      levels =
          ap (λ (xs : List Text). xs ++ level ∷ []) s.levels
          ∙ sym (recent-append_room n f.levels level (omega (arith, room e, s.paired)));
      paired = paired-push;
    }
  ]

empty-Shows : (n : ℕ) → Shows n empty_log empty_log
empty-Shows n = record {
  lines = sym (drop-nil (0 - n));
  levels = sym (drop-nil (0 - n));
  paired = refl;
}

-- Shown levels are as many as shown lines, so none is left over.
clear_lem : (n : ℕ) (b f : LogBuffer) → Shows n b f → clear b ≡ empty_log
unfolding clear
clear_lem n b f s = elim (Bool-cases (is_empty b.lines)) [
  | inl e ↦ rw e (bare (nil_of_is_empty b.lines e))
  | inr e ↦ rw e refl
]
  where
    same : length b.levels ≡ length b.lines
    same =
        rw (s.lines, s.levels)
          (length-recent n f.levels
            ∙ ap (λ (k : ℕ). k - (k - n)) (sym s.paired)
            ∙ sym (length-recent n f.lines))

    bare : b.lines ≡ [] → b ≡ empty_log
    bare e = let f : b.levels ≡ [] = nil_of_length b.levels (same ∙ ap length e) in cc

perform_all-Shows :
    (cs : List Call) (b f : LogBuffer)
    → Shows max_lines b f
    → Shows max_lines (perform_all cs b) (full_log cs f)
unfolding perform_all perform full_log append_on_gui
perform_all-Shows [] b f s = s
perform_all-Shows (write line level ∷ cs) b f s =
    perform_all-Shows cs (append_on_gui line level b) (push_back line level f)
      (append-Shows 4999 line level b f s)
perform_all-Shows (wipe ∷ cs) b f s =
    perform_all-Shows cs (clear b) empty_log
      (rw (clear_lem max_lines b f s) (empty-Shows max_lines))

-- After any sequence of appends and clears the buffer holds the last 5000 lines of the unbounded
-- log with their levels, and never more.
pub perform_all-recent :
    (cs : List Call)
    → let b = perform_all cs empty_log in
      let f = full_log cs empty_log in
      (b.lines ≡ recent max_lines f.lines)
      × (b.levels ≡ recent max_lines f.levels)
      × (row_count b ≤ max_lines)
unfolding row_count
perform_all-recent cs =
    let s = perform_all-Shows cs empty_log empty_log (empty-Shows max_lines) in
    let f = full_log cs empty_log in
    (
      s.lines,
      s.levels,
      omega (arith, ap (length {A = Text}) s.lines, length-recent max_lines f.lines),
    )
