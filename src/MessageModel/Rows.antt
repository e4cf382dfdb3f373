-- ===== src/MessageModel/Rows.antt =====
-- The row operations of client/src/messagemodel.cpp: which row they find, and what they leave.
use bachelor_s_thesis.Base.{
  ℕ, zero, suc, ◌+◌, ◌<◌, ◌≡◌, ◌≢◌, refl, ap, subst, inl, inr, false, some, List, [], ◌∷◌, Text,
  is_empty, if◌then◌else◌, get_elem?, nat_beq, length, ◌==◌, bytes_eq, arith, Bool-cases,
  bytes_beq_iff,
}
use bachelor_s_thesis.MessageModel.{Message, row_mid, find_mid, index_of_mid, put_row}

pub get_elem?-put_row :
    (ms : List Message) (row j : ℕ) (m : Message)
    → row < length ms
    → get_elem? (put_row ms row m) j ≡ (if nat_beq row j then some m else get_elem? ms j)
unfolding put_row
get_elem?-put_row [] row j m h = absurd (omega arith)
get_elem?-put_row (x ∷ ms) zero zero m h = ground arith
get_elem?-put_row (x ∷ ms) zero (suc j) m h = ground arith
get_elem?-put_row (x ∷ ms) (suc row) zero m h = ground arith
get_elem?-put_row (x ∷ ms) (suc row) (suc j) m h = ground (arith, get_elem?-put_row ms row j m)

pub length-put_row :
    (ms : List Message) (row : ℕ) (m : Message) → length (put_row ms row m) ≡ length ms
unfolding put_row
length-put_row [] row m = refl
length-put_row (x ∷ ms) zero m = refl
length-put_row (x ∷ ms) (suc row) m = ap suc (length-put_row ms row m)

-- A row put back changes nothing.
pub put_row_self :
    (ms : List Message) (row : ℕ) (m : Message) → get_elem? ms row ≡ some m → put_row ms row m ≡ ms
unfolding put_row
put_row_self [] row m h = refl
put_row_self (x ∷ ms) zero m h = ground arith
put_row_self (x ∷ ms) (suc row) m h = ap (◌∷◌ x) (put_row_self ms row m h)

-- A row that keeps its id is found as before.
pub find_mid-put_row :
    (ms : List Message) (row i : ℕ) (mid : Text) (m m' : Message)
    → get_elem? ms row ≡ some m
    → row_mid m' ≡ row_mid m
    → find_mid mid i (put_row ms row m') ≡ find_mid mid i ms
unfolding put_row find_mid
find_mid-put_row [] row i mid m m' h k = refl
find_mid-put_row (x ∷ ms) zero i mid m m' h k = ground arith
find_mid-put_row (x ∷ ms) (suc row) i mid m m' h k =
    ground (arith, find_mid-put_row ms row (suc i) mid m m' h k)

pub length_of_get :
    (ms : List Message) (row : ℕ) (m : Message) → get_elem? ms row ≡ some m → row < length ms
length_of_get [] row m h = cc
length_of_get (x ∷ ms) zero m h = omega arith
length_of_get (x ∷ ms) (suc row) m h = omega (arith, length_of_get ms row m h)

-- The row that is found has the id, and no row before it has.
pub record IsFirst (mid : Text) (ms : List Message) (row : ℕ) : Type 0 where
  pub found : Message
  pub at_row : get_elem? ms row ≡ some found
  pub has_mid : row_mid found ≡ mid
  pub before : (j : ℕ) (m : Message) → j < row → get_elem? ms j ≡ some m → row_mid m ≢ mid

find_mid-IsFirst :
    (ms : List Message) (mid : Text) (i row : ℕ)
    → find_mid mid i ms ≡ some row
    → (k : ℕ) × (row ≡ i + k) × IsFirst mid ms k
unfolding find_mid
find_mid-IsFirst [] mid i row h = cc
find_mid-IsFirst (m ∷ ms) mid i row h = elim (Bool-cases (row_mid m == mid)) [
  | inl e ↦ (
    0,
    ground arith,
    record {
      found = m;
      at_row = refl;
      has_mid = (bytes_beq_iff (row_mid m) mid).0 e;
      before = λ j m' less g. absurd (omega arith);
    },
  )
  | inr e ↦
      let (k, eq, first) = find_mid-IsFirst ms mid (suc i) row (ground arith) in
      (
        suc k,
        omega arith,
        record {
          found = first.found;
          at_row = first.at_row;
          has_mid = first.has_mid;
          before = earlier k e first;
        },
      )
]
  where
    earlier :
        (k : ℕ)
        → (row_mid m == mid) ≡ false
        → IsFirst mid ms k
        → (j : ℕ) (m' : Message) → j < suc k
        → get_elem? (m ∷ ms) j ≡ some m'
        → row_mid m' ≢ mid
    earlier k e first zero m' less g = λ p. ground (arith, bytes_beq_iff (row_mid m) mid)
    earlier k e first (suc j) m' less g = first.before j m' (omega arith) g

pub index_of_mid-IsFirst :
    (ms : List Message) (mid : Text) (row : ℕ) → index_of_mid ms mid ≡ some row → IsFirst mid ms row
unfolding index_of_mid
index_of_mid-IsFirst ms mid row h = elim (Bool-cases (is_empty mid)) [
  | inl e ↦ ground arith
  | inr e ↦
      let (k, eq, first) = find_mid-IsFirst ms mid 0 row (ground arith) in
      subst (λ (r : ℕ). IsFirst mid ms r) (omega arith) first
]
