-- ===== src/LogBuffer.antt =====
-- `LogBuffer` (client/src/logbuffer.cpp): the log lines that the window shows. The queued call of
-- another thread ends in `append_on_gui` as well. The signals to the view are left out.
pub mod Recent
use bachelor_s_thesis.Base.{
  ℕ, Bool, true, false, Option, none, some, List, [], ◌∷◌, ◌++◌, Text, is_empty, length, leb,
  if◌then◌else◌, get_elem?, drop,
}

pub record LogBuffer : Type 0 where
  pub lines : List Text
  pub levels : List Text

abbrev pub max_lines : ℕ
max_lines = 5000

abbrev pub empty_log : LogBuffer
empty_log = record { lines = []; levels = [] }

-- `removeFirst` where the buffer is full.
abbrev pub make_room : ℕ → LogBuffer → LogBuffer
make_room most b =
    if leb most (length b.lines)
    then record { lines = drop 1 b.lines; levels = drop 1 b.levels }
    else b

abbrev pub push_back : Text → Text → LogBuffer → LogBuffer
push_back line level b = record { lines = b.lines ++ line ∷ []; levels = b.levels ++ level ∷ [] }

unfoldable pub append_on_gui : Text → Text → LogBuffer → LogBuffer
append_on_gui line level b = push_back line level (make_room max_lines b)

unfoldable pub clear : LogBuffer → LogBuffer
clear b = if is_empty b.lines then b else record { lines = []; levels = [] }

unfoldable pub row_count : LogBuffer → ℕ
row_count b = length b.lines

pub data Role : Type 0 where
  line_role level_role display_role other_role : Role

-- `data`; a row out of range and an unknown role have no value.
unfoldable pub row_data : LogBuffer → ℕ → Role → Option Text
row_data b r line_role = get_elem? b.lines r
row_data b r level_role = get_elem? b.levels r
row_data b r display_role = get_elem? b.lines r
row_data b r other_role = none

-- The lines, joined by line ends.
unfoldable pub as_text : List Text → Text
as_text [] = []
as_text (line ∷ []) = line
as_text (line ∷ next ∷ more) = line ++ 10 ∷ as_text (next ∷ more)
