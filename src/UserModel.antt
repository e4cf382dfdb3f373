-- ===== src/UserModel.antt =====
-- `UserModel` (client/src/usermodel.cpp): the users that were ever seen, who is online, and the unread
-- counts. `before` is Qt's `compare(_, _, Qt::CaseInsensitive) < 0`. The signals to the view are left
-- out.
pub mod Roster
use bachelor_s_thesis.Base.{
  ℕ, ◌+◌, Bool, true, false, not, ◌||◌, Option, none, some, List, [], ◌∷◌, Text, is_empty,
  if◌then◌else◌, get_elem?, ◌==◌, bytes_eq, nat_beq,
}
use bachelor_s_thesis.Base.HashMap
use bachelor_s_thesis.Base.HashMap.{HashMap}
use bachelor_s_thesis.Base.HashSet

pub record UserModel : Type 0 where
  pub users : List Text
  pub self : Text
  pub unread : HashMap Text ℕ
  pub online : List Text

abbrev pub no_users : UserModel
no_users = record { users = []; self = []; unread = []; online = [] }

unfoldable pub unread_of : UserModel → Text → ℕ
unread_of u name = elim (HashMap.lookup name u.unread) [ none ↦ 0 | some n ↦ n ]

pub data Role : Type 0 where
  name_role is_self_role unread_role online_role other_role : Role

pub data Shown : Type 0 where
  nothing : Shown
  as_text : Text → Shown
  as_flag : Bool → Shown
  as_number : ℕ → Shown

unfoldable pub shown : UserModel → Text → Role → Shown
shown u name name_role = as_text name
shown u name is_self_role = as_flag (name == u.self)
shown u name unread_role = as_number (unread_of u name)
shown u name online_role = as_flag (HashSet.contains name u.online)
shown u name other_role = nothing

unfoldable pub row_data : UserModel → ℕ → Role → Shown
row_data u row role = elim (get_elem? u.users row) [
  | none ↦ nothing
  | some name ↦ shown u name role
]

-- `toSet` of a list of names.
unfoldable pub to_set : List Text → List Text
to_set [] = []
to_set (n ∷ ns) = HashSet.insert n (to_set ns)

unfoldable pub clear_unread : UserModel → Text → UserModel
clear_unread u peer =
    if nat_beq (unread_of u peer) 0 then u else record u { unread = HashMap.insert peer 0 u.unread }

module _ (before : Text → Text → Bool) where
  -- In front of the first user that is not before it.
  unfoldable pub insert_sorted : Text → List Text → List Text
  insert_sorted name [] = name ∷ []
  insert_sorted name (u ∷ us) =
      let rest = u ∷ insert_sorted name us in if before u name then rest else name ∷ u ∷ us

  unfoldable pub ensure_user : UserModel → Text → UserModel
  ensure_user u name =
      if is_empty name || HashSet.contains name u.users
      then u
      else record u { users = insert_sorted name u.users }

  unfoldable pub add_unseen : List Text → List Text → List Text
  add_unseen [] users = users
  add_unseen (n ∷ names) users =
      add_unseen names (if HashSet.contains n users then users else insert_sorted n users)

  unfoldable pub set_online_users : UserModel → List Text → UserModel
  set_online_users u names = record u { users = add_unseen names u.users; online = to_set names }

  unfoldable pub set_self_name : UserModel → Text → UserModel
  set_self_name u name = ensure_user (record u { self = name }) name

  unfoldable pub increment_unread : UserModel → Text → UserModel
  increment_unread u peer =
      let u' = ensure_user u peer in
      record u' { unread = HashMap.insert peer (unread_of u' peer + 1) u'.unread }
