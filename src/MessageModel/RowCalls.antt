-- ===== src/MessageModel/RowCalls.antt =====
-- The four operations on one row in client/src/messagemodel.cpp, and what they leave alone.
use bachelor_s_thesis.Base.{
  ℕ, ◌≡◌, ◌≢◌, refl, ◌∙◌, subst, inl, inr, ◌⊎◌, Bool, true, false, Option, some, List, Text,
  if◌then◌else◌, get_elem?, nat_beq, length, arith, Bool-cases, Option-cases,
}
use bachelor_s_thesis.MessageModel.{
  Message, index_of_mid, on_row, bury_row, react_row, edit_row, mark_row, mark_deleted_by_mid,
  apply_reaction, edit_text_by_mid, mark_edited_by_mid,
}
use bachelor_s_thesis.MessageModel.Rows.{length-put_row, index_of_mid-IsFirst}
use bachelor_s_thesis.MessageModel.Tombstones.{
  KeepsMid, bury_row-KeepsMid, mark_row-KeepsMid, react_row-KeepsMid, edit_row-KeepsMid,
  Changed_get, Changed_mid, on_row-Changed, on_row_change, on_row_refuse, on_row_unfound,
}

-- The four operations on one row.
pub data RowCall : Type 0 where
  delete mark : RowCall
  edit : Text → RowCall
  reaction : Bool → Text → RowCall

unfoldable pub change_of : RowCall → Message → Option Message
change_of delete = bury_row
change_of mark = mark_row
change_of (edit t) = edit_row t
change_of (reaction mine kind) = react_row mine kind

unfoldable pub call_row : RowCall → List Message → Text → List Message × Bool
call_row delete ms mid = mark_deleted_by_mid ms mid
call_row mark ms mid = mark_edited_by_mid ms mid
call_row (edit t) ms mid = edit_text_by_mid ms mid t
call_row (reaction mine kind) ms mid = apply_reaction ms mid mine kind

pub call_row_lem :
    (c : RowCall) (ms : List Message) (mid : Text) → call_row c ms mid ≡ on_row (change_of c) ms mid
unfolding call_row change_of mark_deleted_by_mid mark_edited_by_mid edit_text_by_mid apply_reaction
call_row_lem delete ms mid = refl
call_row_lem mark ms mid = refl
call_row_lem (edit t) ms mid = refl
call_row_lem (reaction mine kind) ms mid = refl

change_of-KeepsMid : (c : RowCall) → KeepsMid (change_of c)
unfolding change_of
change_of-KeepsMid delete = bury_row-KeepsMid
change_of-KeepsMid mark = mark_row-KeepsMid
change_of-KeepsMid (edit t) = edit_row-KeepsMid t
change_of-KeepsMid (reaction mine kind) = react_row-KeepsMid mine kind

-- A call either fails and changes nothing, or has changed the row that the id finds.
pub on_row-cases :
    (change : Message → Option Message) (ms : List Message) (mid : Text)
    → (on_row change ms mid ≡ (ms, false))
      ⊎ ((ms' : List Message) × (on_row change ms mid ≡ (ms', true)))
on_row-cases change ms mid = elim (Option-cases (index_of_mid ms mid)) [
  | inl e ↦ inl (on_row_unfound change ms mid e)
  | inr (row, e) ↦
      let first = index_of_mid-IsFirst ms mid row e in
      elim (Option-cases (change first.found)) [
        | inl c ↦ inl (on_row_refuse change ms mid row first.found e first.at_row c)
        | inr (m', c) ↦ inr (_, on_row_change change ms mid row first.found m' e first.at_row c)
      ]
]

if_other {ℓ} :
    {A : Type ℓ} (P : ℕ → Type 0) (k j : ℕ)
    → (P j → ⊥)
    → P k
    → (a b : A) → (if nat_beq k j then a else b) ≡ b
if_other P k j ne h a b = elim (Bool-cases (nat_beq k j)) [
  | inl e ↦ absurd (ne (subst P (ground arith) h))
  | inr e ↦ rw e refl
]

-- An operation on the row that an id finds changes no other row, nor the number of rows, nor which
-- row any id finds.
pub call_row_others :
    (c : RowCall) (ms : List Message) (mid other : Text) (j : ℕ)
    → index_of_mid ms mid ≢ some j
    → let ms' = (call_row c ms mid).0 in
      (length ms' ≡ length ms)
      × (get_elem? ms' j ≡ get_elem? ms j)
      × (index_of_mid ms' other ≡ index_of_mid ms other)
call_row_others c ms mid other j ne =
    rw (call_row_lem c ms mid) (elim (on_row-cases (change_of c) ms mid) [
      | inl e ↦ rw e (refl, refl, refl)
      | inr (ms', e) ↦
          let d = on_row-Changed (change_of c) ms mid ms' e in
          rw e (
            rw d.result (length-put_row ms d.row d.new),
            Changed_get (change_of c) (change_of-KeepsMid c) ms ms' mid d j
                ∙ if_other (λ (k : ℕ). index_of_mid ms mid ≡ some k) d.row j ne d.found _ _,
            Changed_mid (change_of c) (change_of-KeepsMid c) ms ms' mid d other,
          )
    ])
