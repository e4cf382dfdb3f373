-- ===== src/Examples/Models.antt =====
-- The log, the rows of a conversation and the list of users on small inputs.
use bachelor_s_thesis.Base.{
  ◌≤◌, ◌≡◌, ◌≢◌, refl, true, false, some, List, [], ◌∷◌, Text, codes, length, arith, get_elem?,
  bytes_eq, bytes_beq,
}
use bachelor_s_thesis.Base.Int.{pos}
use bachelor_s_thesis.LogBuffer.{empty_log, max_lines, row_count}
use bachelor_s_thesis.LogBuffer.Recent
use bachelor_s_thesis.LogBuffer.Recent.{write, wipe, recent, full_log, perform_all-recent}
use bachelor_s_thesis.MessageModel.{
  Message, blank, row_data, text_at, as_text, tombstone_text, text_role, filename_role, mime_role,
  local_path_role, my_reaction_role, peer_reaction_role, index_of_mid, mark_deleted_by_mid,
  mark_edited_by_mid, edit_text_by_mid, apply_reaction, bury, on_row, find_mid, row_mid, bury_row,
  put_row, add_message,
}
use bachelor_s_thesis.MessageModel.Tombstones.{mark_deleted_stays}
use bachelor_s_thesis.MessageModel.RowCalls.{edit, delete, call_row, call_row_others}
use bachelor_s_thesis.MessageModel.Clean
use bachelor_s_thesis.MessageModel.Clean.{message, on, perform_all_conceals}
use bachelor_s_thesis.UserModel.{no_users}
use bachelor_s_thesis.UserModel.Roster
use bachelor_s_thesis.UserModel.Roster.{
  IsBefore, IsRoster, set_online, count_unread, perform_all-IsRoster, set_online_users-shown,
  unread_of-increment,
}
use bachelor_s_thesis.Examples.{alice_name, bob_name, hello}
use bachelor_s_thesis.Examples.Worlds.{shorter}

abbrev log_calls : List Recent.Call
log_calls = write hello (codes "info") ∷ wipe ∷ write bob_name (codes "warning") ∷ []

perform_all-recent_example :
    let b = Recent.perform_all log_calls empty_log in
    let f = full_log log_calls empty_log in
    (b.lines ≡ recent max_lines f.lines)
    × (b.levels ≡ recent max_lines f.levels)
    × (row_count b ≤ max_lines)
perform_all-recent_example = perform_all-recent log_calls

abbrev mid : Text
mid = codes "m1"

abbrev row : Message
row = record blank { sender = bob_name; text = hello; mid = mid }

abbrev rows : List Message
rows = row ∷ record row { mid = codes "m2" } ∷ []

deletes : mark_deleted_by_mid rows mid ≡ (bury row ∷ record row { mid = codes "m2" } ∷ [], true)
unfolding mark_deleted_by_mid on_row index_of_mid find_mid bytes_beq row_mid bury_row put_row
deletes = refl

mark_deleted_stays_example :
    let buried = bury row ∷ record row { mid = codes "m2" } ∷ [] in
    (edit_text_by_mid buried mid hello ≡ (buried, false))
    × (mark_edited_by_mid buried mid ≡ (buried, false))
    × (apply_reaction buried mid true (codes "up") ≡ (buried, false))
    × (mark_deleted_by_mid buried mid ≡ (buried, true))
mark_deleted_stays_example =
    mark_deleted_stays rows (bury row ∷ record row { mid = codes "m2" } ∷ []) mid deletes hello
      (codes "up") true

found_first : index_of_mid rows mid ≡ some 0
unfolding index_of_mid find_mid bytes_beq row_mid
found_first = refl

not_second : index_of_mid rows mid ≢ some 1
not_second e = absurd (ground (arith, found_first))

call_row_others_example :
    let after = (call_row (edit bob_name) rows mid).0 in
    (length after ≡ length rows)
    × (get_elem? after 1 ≡ get_elem? rows 1)
    × (index_of_mid after (codes "m2") ≡ index_of_mid rows (codes "m2"))
call_row_others_example = call_row_others (edit bob_name) rows mid (codes "m2") 1 not_second

abbrev row_calls : List Clean.Call
row_calls = message bob_name hello (pos 4) false mid ∷ on delete mid ∷ []

abbrev sent_row : Message
sent_row = record blank { sender = bob_name; text = hello; ts = pos 4; mid = mid }

stands : get_elem? (Clean.perform_all row_calls []) 0 ≡ some (bury sent_row)
unfolding Clean.perform_all Clean.perform call_row mark_deleted_by_mid on_row index_of_mid find_mid
    add_message bytes_beq row_mid bury_row put_row
stands = refl

perform_all_conceals_example :
    let ms = Clean.perform_all row_calls [] in
    (row_data ms 0 text_role ≡ as_text tombstone_text)
    × (text_at ms 0 ≡ [])
    × (row_data ms 0 filename_role ≡ as_text [])
    × (row_data ms 0 mime_role ≡ as_text [])
    × (row_data ms 0 local_path_role ≡ as_text [])
    × (row_data ms 0 my_reaction_role ≡ as_text [])
    × (row_data ms 0 peer_reaction_role ≡ as_text [])
perform_all_conceals_example = perform_all_conceals row_calls 0 (bury sent_row) stands refl

shorter-IsBefore : IsBefore shorter
shorter-IsBefore = record {
  asymmetric = λ a b h. ground arith;
  negatively_transitive = λ a b c h k. ground arith;
}

no_users-IsRoster : IsRoster shorter no_users
no_users-IsRoster = record { sorted = tt; distinct = tt }

abbrev user_calls : List Roster.Call
user_calls = set_online (alice_name ∷ bob_name ∷ []) ∷ count_unread hello ∷ []

perform_all-IsRoster_example : IsRoster shorter (Roster.perform_all shorter user_calls no_users)
perform_all-IsRoster_example =
    perform_all-IsRoster shorter shorter-IsBefore user_calls no_users no_users-IsRoster
