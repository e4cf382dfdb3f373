-- ===== src/MessageModel.antt =====
-- `MessageModel` (client/src/messagemodel.cpp): the rows of the conversation on screen. The signals
-- to the view are left out; the local time is formatted by the view.
pub mod Rows
pub mod Tombstones
pub mod RowCalls
pub mod Clean
use bachelor_s_thesis.Base.{
  ℕ, zero, suc, Bool, true, false, ◌&&◌, ◌||◌, Option, none, some, List, [], ◌∷◌, ◌++◌, Text, codes,
  is_empty, if◌then◌else◌, get_elem?, ◌==◌, bytes_eq, length,
}
use bachelor_s_thesis.Base.Int.{ℤ, pos, ltb_ℤ}

pub record Message : Type 0 where
  pub sender : Text
  pub text : Text
  pub ts : ℤ
  pub mine : Bool
  pub system : Bool
  pub is_file : Bool
  pub msg_id : Text
  pub filename : Text
  pub mime : Text
  pub size : ℤ
  pub local_path : Text
  pub mid : Text
  pub deleted : Bool
  pub my_reaction : Text
  pub peer_reaction : Text
  pub edited : Bool

abbrev pub blank : Message
blank = record {
  sender = [];
  text = [];
  ts = pos 0;
  mine = false;
  system = false;
  is_file = false;
  msg_id = [];
  filename = [];
  mime = [];
  size = pos 0;
  local_path = [];
  mid = [];
  deleted = false;
  my_reaction = [];
  peer_reaction = [];
  edited = false;
}

unfoldable pub row_mid : Message → Text
row_mid m = if is_empty m.mid then if m.is_file then m.msg_id else [] else m.mid

-- What `data` gives the view for a row.
pub data Role : Type 0 where
  sender_role text_role ts_role mine_role system_role is_file_role msg_id_role : Role
  filename_role mime_role size_role local_path_role mid_role deleted_role : Role
  my_reaction_role peer_reaction_role edited_role other_role : Role

pub data Shown : Type 0 where
  nothing : Shown
  as_text : Text → Shown
  as_flag : Bool → Shown
  as_number : ℤ → Shown

abbrev pub tombstone_text : Text
tombstone_text = codes "This message was deleted"

unfoldable pub shown : Message → Role → Shown
shown m sender_role = as_text m.sender
shown m text_role = as_text (if m.deleted then tombstone_text else m.text)
shown m ts_role = as_number m.ts
shown m mine_role = as_flag m.mine
shown m system_role = as_flag m.system
shown m is_file_role = as_flag (if m.deleted then false else m.is_file)
shown m msg_id_role = as_text m.msg_id
shown m filename_role = as_text m.filename
shown m mime_role = as_text (if m.deleted then [] else m.mime)
shown m size_role = as_number m.size
shown m local_path_role = as_text (if m.deleted then [] else m.local_path)
shown m mid_role = as_text (row_mid m)
shown m deleted_role = as_flag m.deleted
shown m my_reaction_role = as_text (if m.deleted then [] else m.my_reaction)
shown m peer_reaction_role = as_text (if m.deleted then [] else m.peer_reaction)
shown m edited_role = as_flag (if m.deleted then false else m.edited)
shown m other_role = nothing

unfoldable pub row_data : List Message → ℕ → Role → Shown
row_data ms row role = elim (get_elem? ms row) [ none ↦ nothing | some m ↦ shown m role ]

unfoldable pub add_message : List Message → Text → Text → ℤ → Bool → Text → List Message
add_message ms sender text ts mine mid =
    ms ++ record blank { sender = sender; text = text; ts = ts; mine = mine; mid = mid } ∷ []

-- `now` is the clock.
unfoldable pub add_system : List Message → Text → ℤ → List Message
add_system ms text now = ms ++ record blank { text = text; ts = now; system = true } ∷ []

unfoldable pub append_file_message :
    List Message → Text → Text → Text → Text → ℤ → Text → Bool → ℤ → ℤ → List Message
append_file_message ms sender msg_id filename mime size local_path outgoing ts now =
    ms
    ++ record blank {
      sender = sender;
      ts = if ltb_ℤ (pos 0) ts then ts else now;
      mine = outgoing;
      is_file = true;
      msg_id = msg_id;
      filename = filename;
      mime = mime;
      size = size;
      local_path = local_path;
    }
      ∷ []

unfoldable pub clear : List Message → List Message
clear ms = []

-- The first row at or behind `i` with the id.
unfoldable pub find_mid : Text → ℕ → List Message → Option ℕ
find_mid mid i [] = none
find_mid mid i (m ∷ ms) = if row_mid m == mid then some i else find_mid mid (suc i) ms

-- None is the row -1.
unfoldable pub index_of_mid : List Message → Text → Option ℕ
index_of_mid ms mid = if is_empty mid then none else find_mid mid 0 ms

unfoldable pub put_row : List Message → ℕ → Message → List Message
put_row [] row m = []
put_row (old ∷ ms) zero m = m ∷ ms
put_row (old ∷ ms) (suc row) m = old ∷ put_row ms row m

abbrev pub bury : Message → Message
bury m = record m {
  deleted = true;
  text = [];
  local_path = [];
  mime = [];
  filename = [];
  my_reaction = [];
  peer_reaction = [];
}

-- An operation on the row that an id finds: none refuses it, and some row takes the old one's place.
unfoldable pub on_row : (Message → Option Message) → List Message → Text → List Message × Bool
on_row change ms mid = elim (index_of_mid ms mid) [
  | none ↦ (ms, false)
  | some row ↦ elim (get_elem? ms row) [
    | none ↦ (ms, false)
    | some m ↦ elim (change m) [ none ↦ (ms, false) | some m' ↦ (put_row ms row m', true) ]
  ]
]

-- A row that is a tombstone already stays as it is, and the call succeeds.
unfoldable pub bury_row : Message → Option Message
bury_row m = if m.deleted then some m else some (bury m)

unfoldable pub mark_deleted_by_mid : List Message → Text → List Message × Bool
mark_deleted_by_mid = on_row bury_row

abbrev pub reaction_of : Text → Text
reaction_of kind = if (kind == codes "up") || (kind == codes "down") then kind else []

unfoldable pub react_row : Bool → Text → Message → Option Message
react_row mine kind m =
    if m.deleted
    then none
    else if mine
    then some (record m { my_reaction = reaction_of kind })
    else some (record m { peer_reaction = reaction_of kind })

unfoldable pub apply_reaction : List Message → Text → Bool → Text → List Message × Bool
apply_reaction ms mid mine kind = on_row (react_row mine kind) ms mid

unfoldable pub edit_row : Text → Message → Option Message
edit_row new_text m =
    if m.is_file || (m.system || m.deleted)
    then none
    else some (record m { text = new_text; edited = true })

unfoldable pub edit_text_by_mid : List Message → Text → Text → List Message × Bool
edit_text_by_mid ms mid new_text = on_row (edit_row new_text) ms mid

unfoldable pub mark_row : Message → Option Message
mark_row m =
    if m.is_file || (m.system || m.deleted) then none else some (record m { edited = true })

unfoldable pub mark_edited_by_mid : List Message → Text → List Message × Bool
mark_edited_by_mid = on_row mark_row

unfoldable pub mid_at : List Message → ℕ → Text
mid_at ms row = elim (get_elem? ms row) [ none ↦ [] | some m ↦ row_mid m ]

unfoldable pub is_mine_at : List Message → ℕ → Bool
is_mine_at ms row = elim (get_elem? ms row) [ none ↦ false | some m ↦ m.mine ]

unfoldable pub is_file_at : List Message → ℕ → Bool
is_file_at ms row = elim (get_elem? ms row) [ none ↦ false | some m ↦ m.is_file ]

unfoldable pub text_at : List Message → ℕ → Text
text_at ms row = elim (get_elem? ms row) [
  | none ↦ []
  | some m ↦ if m.is_file || m.system then [] else m.text
]
