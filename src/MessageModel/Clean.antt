-- ===== src/MessageModel/Clean.antt =====
-- What the view can show of a deleted row of client/src/messagemodel.cpp, whatever was called.
use bachelor_s_thesis.Base.{
  ℕ, zero, suc, ◌≡◌, refl, ◌∙◌, ap, subst, inl, inr, Bool, true, false, some, List, [], ◌∷◌, ◌++◌,
  Text, get_elem?, arith,
}
use bachelor_s_thesis.Base.Int.{ℤ}
use bachelor_s_thesis.MessageModel.{
  Message, Role, put_row, bury_row, react_row, edit_row, mark_row, add_message, add_system,
  append_file_message, clear, row_data, text_at, shown, as_text, tombstone_text, text_role,
  filename_role, mime_role, local_path_role, my_reaction_role, peer_reaction_role,
}
use bachelor_s_thesis.MessageModel.Tombstones.{on_row-Changed}
use bachelor_s_thesis.MessageModel.RowCalls.{
  RowCall, delete, mark, edit, reaction, change_of, call_row, call_row_lem, on_row-cases,
}

-- A deleted row holds no content.
pub record IsClean (m : Message) : Type 0 where
  pub text : m.deleted ≡ true → m.text ≡ []
  pub filename : m.deleted ≡ true → m.filename ≡ []

change_of-IsClean :
    (c : RowCall) (m m' : Message) → IsClean m → change_of c m ≡ some m' → IsClean m'
unfolding change_of bury_row react_row edit_row mark_row
change_of-IsClean delete m m' k h = record {
  text = λ d. ground (arith, k.text);
  filename = λ d. ground (arith, k.filename);
}
change_of-IsClean mark m m' k h = record {
  text = λ d. ground (arith, k.text);
  filename = λ d. ground (arith, k.filename);
}
change_of-IsClean (edit t) m m' k h = record {
  text = λ d. ground (arith, k.text);
  filename = λ d. ground (arith, k.filename);
}
change_of-IsClean (reaction mine kind) m m' k h = record {
  text = λ d. ground (arith, k.text);
  filename = λ d. ground (arith, k.filename);
}

abbrev AllClean : List Message → Type 0
AllClean [] = Unit {0}
AllClean (m ∷ ms) = IsClean m × AllClean ms

put_row-AllClean :
    (ms : List Message) (row : ℕ) (m : Message)
    → IsClean m
    → AllClean ms
    → AllClean (put_row ms row m)
unfolding put_row
put_row-AllClean [] row m k a = a
put_row-AllClean (x ∷ ms) zero m k a = (k, a.1)
put_row-AllClean (x ∷ ms) (suc row) m k a = (a.0, put_row-AllClean ms row m k a.1)

AllClean-append :
    (ms : List Message) (m : Message) → AllClean ms → m.deleted ≡ false → AllClean (ms ++ m ∷ [])
AllClean-append [] m a h = (record { text = λ d. cc; filename = λ d. cc }, tt)
AllClean-append (x ∷ ms) m a h = (a.0, AllClean-append ms m a.1 h)

AllClean-get :
    (ms : List Message) (row : ℕ) (m : Message)
    → AllClean ms
    → get_elem? ms row ≡ some m
    → IsClean m
AllClean-get [] row m a h = cc
AllClean-get (x ∷ ms) zero m a h = subst IsClean (ground arith) a.0
AllClean-get (x ∷ ms) (suc row) m a h = AllClean-get ms row m a.1 h

call_row-AllClean :
    (c : RowCall) (ms : List Message) (mid : Text) → AllClean ms → AllClean (call_row c ms mid).0
call_row-AllClean c ms mid a =
    rw (call_row_lem c ms mid) (elim (on_row-cases (change_of c) ms mid) [
      | inl e ↦ rw e a
      | inr (ms', e) ↦
          let d = on_row-Changed (change_of c) ms mid ms' e in
          rw e (
            rw d.result (
              put_row-AllClean ms d.row d.new
                (change_of-IsClean c d.old d.new (AllClean-get ms d.row d.old a d.at_row) d.changed)
                a))
    ])

-- What is called on the model.
pub data Call : Type 0 where
  message : Text → Text → ℤ → Bool → Text → Call
  system : Text → ℤ → Call
  file : Text → Text → Text → Text → ℤ → Text → Bool → ℤ → ℤ → Call
  wipe : Call
  on : RowCall → Text → Call

unfoldable pub perform : Call → List Message → List Message
perform (message sender text ts mine mid) ms = add_message ms sender text ts mine mid
perform (system text now) ms = add_system ms text now
perform (file sender msg_id filename mime size local_path outgoing ts now) ms =
    append_file_message ms sender msg_id filename mime size local_path outgoing ts now
perform wipe ms = clear ms
perform (on c mid) ms = (call_row c ms mid).0

unfoldable pub perform_all : List Call → List Message → List Message
perform_all [] ms = ms
perform_all (c ∷ cs) ms = perform_all cs (perform c ms)

perform-AllClean : (c : Call) (ms : List Message) → AllClean ms → AllClean (perform c ms)
unfolding perform add_message add_system append_file_message clear
perform-AllClean (message sender text ts mine mid) ms a = AllClean-append ms _ a refl
perform-AllClean (system text now) ms a = AllClean-append ms _ a refl
perform-AllClean (file sender msg_id filename mime size local_path outgoing ts now) ms a =
    AllClean-append ms _ a refl
perform-AllClean wipe ms a = tt
perform-AllClean (on c mid) ms a = call_row-AllClean c ms mid a

perform_all-AllClean :
    (cs : List Call) (ms : List Message) → AllClean ms → AllClean (perform_all cs ms)
unfolding perform_all
perform_all-AllClean [] ms a = a
perform_all-AllClean (c ∷ cs) ms a =
    perform_all-AllClean cs (perform c ms) (perform-AllClean c ms a)

-- A deleted row without content.
shown_deleted :
    (m : Message)
    → IsClean m
    → m.deleted ≡ true
    → (shown m text_role ≡ as_text tombstone_text)
      × (m.text ≡ [])
      × (shown m filename_role ≡ as_text [])
      × (shown m mime_role ≡ as_text [])
      × (shown m local_path_role ≡ as_text [])
      × (shown m my_reaction_role ≡ as_text [])
      × (shown m peer_reaction_role ≡ as_text [])
unfolding shown
shown_deleted m k d =
    let f : m.filename ≡ [] = k.filename d in
    (ground arith, k.text d, ap as_text f, ground arith, ground arith, ground arith, ground arith)

row_data_of_get :
    (ms : List Message) (row : ℕ) (m : Message) (role : Role)
    → get_elem? ms row ≡ some m
    → row_data ms row role ≡ shown m role
unfolding row_data
row_data_of_get ms row m role g = rw (g, row_data) refl

text_at_of_get :
    (ms : List Message) (row : ℕ) (m : Message)
    → get_elem? ms row ≡ some m
    → m.text ≡ []
    → text_at ms row ≡ []
unfolding text_at
text_at_of_get ms row m g h = ground arith

-- Whatever was called on the model from the start, a row that is deleted shows the placeholder, and
-- no text, file name, MIME type, path or reaction is left in what the view and the callers can read
-- of it.
pub perform_all_conceals :
    (cs : List Call) (row : ℕ) (m : Message)
    → let ms = perform_all cs [] in
      get_elem? ms row ≡ some m
      → m.deleted ≡ true
      → (row_data ms row text_role ≡ as_text tombstone_text)
        × (text_at ms row ≡ [])
        × (row_data ms row filename_role ≡ as_text [])
        × (row_data ms row mime_role ≡ as_text [])
        × (row_data ms row local_path_role ≡ as_text [])
        × (row_data ms row my_reaction_role ≡ as_text [])
        × (row_data ms row peer_reaction_role ≡ as_text [])
perform_all_conceals cs row m g d =
    let ms = perform_all cs [] in
    let k = AllClean-get ms row m (perform_all-AllClean cs [] tt) g in
    let (text, body, name, mime, path, mine, peer) = shown_deleted m k d in
    (
      row_data_of_get ms row m text_role g ∙ text,
      text_at_of_get ms row m g body,
      row_data_of_get ms row m filename_role g ∙ name,
      row_data_of_get ms row m mime_role g ∙ mime,
      row_data_of_get ms row m local_path_role g ∙ path,
      row_data_of_get ms row m my_reaction_role g ∙ mine,
      row_data_of_get ms row m peer_reaction_role g ∙ peer,
    )
