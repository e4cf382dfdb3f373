-- ===== src/MessageModel/Tombstones.antt =====
-- Deletion in client/src/messagemodel.cpp: what a tombstone refuses, and what the operations on one
-- row leave alone.
use bachelor_s_thesis.Base.{
  ℕ, ◌≡◌, refl, sym, ◌∙◌, ap, inl, inr, Bool, true, false, Option, none, some, List, Text, is_empty,
  if◌then◌else◌, get_elem?, nat_beq, arith, Option-cases,
}
use bachelor_s_thesis.MessageModel.{
  Message, row_mid, index_of_mid, put_row, on_row, bury_row, react_row, edit_row, mark_row,
  mark_deleted_by_mid, apply_reaction, edit_text_by_mid, mark_edited_by_mid,
}
use bachelor_s_thesis.MessageModel.Rows.{
  get_elem?-put_row, put_row_self, find_mid-put_row, length_of_get, index_of_mid-IsFirst,
}

-- What a row operation that succeeds has done.
pub record Changed (change : Message → Option Message) (ms : List Message) (mid : Text)
    (ms' : List Message) : Type 0 where
  pub row : ℕ
  pub old : Message
  pub new : Message
  pub found : index_of_mid ms mid ≡ some row
  pub at_row : get_elem? ms row ≡ some old
  pub changed : change old ≡ some new
  pub result : ms' ≡ put_row ms row new

module _ (change : Message → Option Message) (ms : List Message) (mid : Text) where
  pub on_row_change :
      (row : ℕ) (m m' : Message)
      → index_of_mid ms mid ≡ some row
      → get_elem? ms row ≡ some m
      → change m ≡ some m'
      → on_row change ms mid ≡ (put_row ms row m', true)
  unfolding on_row
  on_row_change row m m' e g c = rw (e, on_row) (rw g (rw c refl))

  pub on_row_refuse :
      (row : ℕ) (m : Message)
      → index_of_mid ms mid ≡ some row
      → get_elem? ms row ≡ some m
      → change m ≡ none
      → on_row change ms mid ≡ (ms, false)
  unfolding on_row
  on_row_refuse row m e g c = rw (e, on_row) (rw g (rw c refl))

  pub on_row_unfound : index_of_mid ms mid ≡ none → on_row change ms mid ≡ (ms, false)
  unfolding on_row
  on_row_unfound e = rw (e, on_row) refl

  pub on_row-Changed :
      (ms' : List Message) → on_row change ms mid ≡ (ms', true) → Changed change ms mid ms'
  on_row-Changed ms' h = elim (Option-cases (index_of_mid ms mid)) [
    | inl e ↦ absurd (ground (arith, on_row_unfound e))
    | inr (row, e) ↦
        let first = index_of_mid-IsFirst ms mid row e in
        elim (Option-cases (change first.found)) [
          | inl c ↦ absurd (ground (arith, on_row_refuse row first.found e first.at_row c))
          | inr (m', c) ↦ record {
            row = row;
            old = first.found;
            new = m';
            found = e;
            at_row = first.at_row;
            changed = c;
            result =
                ap (λ (r : List Message × Bool). r.0)
                  (sym h ∙ on_row_change row first.found m' e first.at_row c);
          }
        ]
  ]

-- The operations change no row's id.
pub KeepsMid : (Message → Option Message) → Type 0
KeepsMid change = (m m' : Message) → change m ≡ some m' → row_mid m' ≡ row_mid m

pub bury_row-KeepsMid : KeepsMid bury_row
unfolding KeepsMid bury_row row_mid
bury_row-KeepsMid m m' h = ground arith

index_of_mid-put_row :
    (ms : List Message) (row : ℕ) (mid : Text) (m m' : Message)
    → get_elem? ms row ≡ some m
    → row_mid m' ≡ row_mid m
    → index_of_mid (put_row ms row m') mid ≡ index_of_mid ms mid
unfolding index_of_mid
index_of_mid-put_row ms row mid m m' g k =
    ap (λ (o : Option ℕ). if is_empty mid then none else o) (find_mid-put_row ms row 0 mid m m' g k)

pub mark_row-KeepsMid : KeepsMid mark_row
unfolding KeepsMid mark_row row_mid
mark_row-KeepsMid m m' h = ground arith

pub react_row-KeepsMid : (mine : Bool) (kind : Text) → KeepsMid (react_row mine kind)
unfolding KeepsMid react_row row_mid
react_row-KeepsMid mine kind m m' h = ground arith

pub edit_row-KeepsMid : (t : Text) → KeepsMid (edit_row t)
unfolding KeepsMid edit_row row_mid
edit_row-KeepsMid t m m' h = ground arith

bury_row_deleted : (m m' : Message) → bury_row m ≡ some m' → m'.deleted ≡ true
unfolding bury_row
bury_row_deleted m m' h = ground arith

-- The id finds a tombstone.
record IsBuried (ms : List Message) (mid : Text) : Type 0 where
  row : ℕ
  stone : Message
  found : index_of_mid ms mid ≡ some row
  at_row : get_elem? ms row ≡ some stone
  deleted : stone.deleted ≡ true

-- Where a changed row stands.
module _ (change : Message → Option Message) (keeps : KeepsMid change) (ms ms' : List Message)
    (mid : Text) (c : Changed change ms mid ms') where
  pub Changed_mid : (other : Text) → index_of_mid ms' other ≡ index_of_mid ms other
  unfolding KeepsMid
  Changed_mid other =
      rw c.result
        (index_of_mid-put_row ms c.row other c.old c.new c.at_row (keeps c.old c.new c.changed))

  pub Changed_get :
      (j : ℕ) → get_elem? ms' j ≡ (if nat_beq c.row j then some c.new else get_elem? ms j)
  Changed_get j =
      rw c.result (get_elem?-put_row ms c.row j c.new (length_of_get ms c.row c.old c.at_row))

mark_deleted-IsBuried :
    (ms ms' : List Message) (mid : Text)
    → mark_deleted_by_mid ms mid ≡ (ms', true)
    → IsBuried ms' mid
unfolding mark_deleted_by_mid
mark_deleted-IsBuried ms ms' mid h =
    let c = on_row-Changed bury_row ms mid ms' h in
    record {
      row = c.row;
      stone = c.new;
      found = Changed_mid bury_row bury_row-KeepsMid ms ms' mid c mid ∙ c.found;
      at_row = ground (arith, Changed_get bury_row bury_row-KeepsMid ms ms' mid c c.row);
      deleted = bury_row_deleted c.old c.new c.changed;
    }

refuses_stone :
    (m : Message)
    → m.deleted ≡ true
    → (t kind : Text) (mine : Bool)
    → (edit_row t m ≡ none)
      × (mark_row m ≡ none)
      × (react_row mine kind m ≡ none)
      × (bury_row m ≡ some m)
unfolding edit_row mark_row react_row bury_row
refuses_stone m h t kind mine = (ground arith, ground arith, ground arith, ground arith)

-- A row that was deleted takes no edit, no edit mark and no reaction, each of which reports so, and
-- deleting it again succeeds and changes nothing.
pub mark_deleted_stays :
    (ms ms' : List Message) (mid : Text)
    → mark_deleted_by_mid ms mid ≡ (ms', true)
    → (t kind : Text) (mine : Bool)
    → (edit_text_by_mid ms' mid t ≡ (ms', false))
      × (mark_edited_by_mid ms' mid ≡ (ms', false))
      × (apply_reaction ms' mid mine kind ≡ (ms', false))
      × (mark_deleted_by_mid ms' mid ≡ (ms', true))
unfolding mark_deleted_by_mid edit_text_by_mid mark_edited_by_mid apply_reaction
mark_deleted_stays ms ms' mid h t kind mine =
    let b = mark_deleted-IsBuried ms ms' mid h in
    let (edit, mark, react, bury_again) = refuses_stone b.stone b.deleted t kind mine in
    (
      on_row_refuse (edit_row t) ms' mid b.row b.stone b.found b.at_row edit,
      on_row_refuse mark_row ms' mid b.row b.stone b.found b.at_row mark,
      on_row_refuse (react_row mine kind) ms' mid b.row b.stone b.found b.at_row react,
      on_row_change bury_row ms' mid b.row b.stone b.stone b.found b.at_row bury_again
          ∙ ap (λ (l : List Message). (l, true)) (put_row_self ms' b.row b.stone b.at_row),
    )
