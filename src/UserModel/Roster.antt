-- ===== src/UserModel/Roster.antt =====
-- The list of users of client/src/usermodel.cpp stays sorted and free of duplicates, and nobody is
-- forgotten.
use bachelor_s_thesis.Base.{
  ◌+◌, ◌≡◌, refl, Bool, true, false, ◌||◌, List, [], ◌∷◌, Text, is_empty, if◌then◌else◌, ◌==◌,
  bytes_eq, bytes_beq_iff, nat_beq, arith, inl, inr, Bool-cases, ap,
}
use bachelor_s_thesis.Base.HashMap
use bachelor_s_thesis.Base.HashSet
use bachelor_s_thesis.UserModel.{
  UserModel, unread_of, shown, to_set, clear_unread, insert_sorted, ensure_user, add_unseen,
  set_online_users, set_self_name, increment_unread, online_role, unread_role, as_flag,
}

-- A strict order in which what is not before is a preorder.
pub record IsBefore (before : Text → Text → Bool) : Type 0 where
  pub asymmetric : (a b : Text) → before a b ≡ true → before b a ≡ false
  pub negatively_transitive :
      (a b c : Text) → before b a ≡ false → before c b ≡ false → before c a ≡ false

module _ (before : Text → Text → Bool) where
  -- No name is before `a`.
  abbrev pub FromOn : Text → List Text → Type 0
  FromOn a [] = Unit {0}
  FromOn a (x ∷ xs) = (before x a ≡ false) × FromOn a xs

  abbrev pub IsSorted : List Text → Type 0
  IsSorted [] = Unit {0}
  IsSorted (x ∷ xs) = FromOn x xs × IsSorted xs

  abbrev pub IsDistinct : List Text → Type 0
  IsDistinct [] = Unit {0}
  IsDistinct (x ∷ xs) = (HashSet.contains x xs ≡ false) × IsDistinct xs

  pub contains-insert_sorted :
      (a name : Text) (us : List Text)
      → HashSet.contains a (insert_sorted before name us) ≡ ((name == a) || HashSet.contains a us)
  unfolding insert_sorted HashSet.contains
  contains-insert_sorted a name [] = refl
  contains-insert_sorted a name (u ∷ us) = ground (arith, contains-insert_sorted a name us)

  FromOn-insert_sorted :
      (a name : Text) (us : List Text)
      → before name a ≡ false
      → FromOn a us
      → FromOn a (insert_sorted before name us)
  unfolding insert_sorted
  FromOn-insert_sorted a name [] h f = (h, tt)
  FromOn-insert_sorted a name (u ∷ us) h f = ground (arith, FromOn-insert_sorted a name us)

  FromOn-le :
      IsBefore before
      → (a b : Text) (us : List Text) → before b a ≡ false
      → FromOn b us
      → FromOn a us
  FromOn-le o a b [] h f = tt
  FromOn-le o a b (u ∷ us) h f = (o.negatively_transitive a b u h f.0, FromOn-le o a b us h f.1)

  IsSorted-insert_sorted :
      IsBefore before
      → (name : Text) (us : List Text) → IsSorted us
      → IsSorted (insert_sorted before name us)
  unfolding insert_sorted
  IsSorted-insert_sorted o name [] s = (tt, tt)
  IsSorted-insert_sorted o name (u ∷ us) s = elim (Bool-cases (before u name)) [
    | inl e ↦ rw e (
      FromOn-insert_sorted u name us (o.asymmetric u name e) s.0,
      IsSorted-insert_sorted o name us s.1,
    )
    | inr e ↦ rw e ((e, FromOn-le o name u us e s.0), s)
  ]

  IsDistinct-insert_sorted :
      (name : Text) (us : List Text)
      → HashSet.contains name us ≡ false
      → IsDistinct us
      → IsDistinct (insert_sorted before name us)
  unfolding insert_sorted HashSet.contains
  IsDistinct-insert_sorted name [] h d = (refl, tt)
  IsDistinct-insert_sorted name (u ∷ us) h d = ground (
    arith,
    IsDistinct-insert_sorted name us,
    contains-insert_sorted u name us,
    bytes_beq_iff u name,
    bytes_beq_iff name u,
  )

  ensure_user-contains :
      (u : UserModel) (name a : Text)
      → HashSet.contains a (ensure_user before u name).users ≡ (
          if is_empty name
          then HashSet.contains a u.users
          else (name == a) || HashSet.contains a u.users)
  unfolding ensure_user
  ensure_user-contains u name a =
      ground (arith, contains-insert_sorted a name u.users, bytes_beq_iff name a)

  contains-add_unseen :
      (a : Text) (names us : List Text)
      → HashSet.contains a (add_unseen before names us)
        ≡ (HashSet.contains a names || HashSet.contains a us)
  unfolding add_unseen HashSet.contains
  contains-add_unseen a [] us = refl
  contains-add_unseen a (n ∷ names) us = ground (
    arith,
    contains-add_unseen a names us,
    contains-add_unseen a names (insert_sorted before n us),
    contains-insert_sorted a n us,
    bytes_beq_iff n a,
  )

-- What is called on the model.
pub data Call : Type 0 where
  ensure set_self count_unread read_all : Text → Call
  set_online : List Text → Call

module _ (before : Text → Text → Bool) where
  unfoldable pub perform : Call → UserModel → UserModel
  perform (ensure name) u = ensure_user before u name
  perform (set_self name) u = set_self_name before u name
  perform (count_unread peer) u = increment_unread before u peer
  perform (read_all peer) u = clear_unread u peer
  perform (set_online names) u = set_online_users before u names

  unfoldable pub perform_all : List Call → UserModel → UserModel
  perform_all [] u = u
  perform_all (c ∷ cs) u = perform_all cs (perform c u)

  pub record IsRoster (u : UserModel) : Type 0 where
    pub sorted : IsSorted before u.users
    pub distinct : IsDistinct before u.users

  module _ (o : IsBefore before) where
    insert-IsRoster :
        (name : Text) (u : UserModel)
        → HashSet.contains name u.users ≡ false
        → IsRoster u
        → IsRoster (record u { users = insert_sorted before name u.users })
    insert-IsRoster name u h r = record {
      sorted = IsSorted-insert_sorted before o name u.users r.sorted;
      distinct = IsDistinct-insert_sorted before name u.users h r.distinct;
    }

    ensure_user-IsRoster :
        (u : UserModel) (name : Text) → IsRoster u → IsRoster (ensure_user before u name)
    unfolding ensure_user
    ensure_user-IsRoster u name r =
        elim (Bool-cases (is_empty name || HashSet.contains name u.users)) [
          | inl e ↦ rw e r
          | inr e ↦ rw e (insert-IsRoster name u (ground arith) r)
        ]

    add_unseen-IsSorted :
        (names us : List Text)
        → IsSorted before us
        → IsDistinct before us
        → IsSorted before (add_unseen before names us)
          × IsDistinct before (add_unseen before names us)
    unfolding add_unseen
    add_unseen-IsSorted [] us s d = (s, d)
    add_unseen-IsSorted (n ∷ names) us s d = elim (Bool-cases (HashSet.contains n us)) [
      | inl e ↦ rw e (add_unseen-IsSorted names us s d)
      | inr e ↦ rw e (
          add_unseen-IsSorted names (insert_sorted before n us)
            (IsSorted-insert_sorted before o n us s) (IsDistinct-insert_sorted before n us e d))
    ]

    perform-IsRoster : (c : Call) (u : UserModel) → IsRoster u → IsRoster (perform c u)
    unfolding perform set_self_name increment_unread set_online_users clear_unread
    perform-IsRoster (ensure name) u r = ensure_user-IsRoster u name r
    perform-IsRoster (set_self name) u r =
        ensure_user-IsRoster (record u { self = name }) name
          (record { sorted = r.sorted; distinct = r.distinct })
    perform-IsRoster (count_unread peer) u r =
        let r' = ensure_user-IsRoster u peer r in
        record { sorted = r'.sorted; distinct = r'.distinct }
    perform-IsRoster (read_all peer) u r = elim (Bool-cases (nat_beq (unread_of u peer) 0)) [
      | inl e ↦ rw e r
      | inr e ↦ rw e (record { sorted = r.sorted; distinct = r.distinct })
    ]
    perform-IsRoster (set_online names) u r =
        let (s, d) = add_unseen-IsSorted names u.users r.sorted r.distinct in
        record { sorted = s; distinct = d }

    -- Whatever is called, the list of users stays sorted and free of duplicates, for an order in
    -- which what is not before is a preorder.
    pub perform_all-IsRoster :
        (cs : List Call) (u : UserModel) → IsRoster u → IsRoster (perform_all cs u)
    unfolding perform_all
    perform_all-IsRoster [] u r = r
    perform_all-IsRoster (c ∷ cs) u r =
        perform_all-IsRoster cs (perform c u) (perform-IsRoster c u r)

  perform_keeps :
      (c : Call) (u : UserModel) (a : Text)
      → HashSet.contains a u.users ≡ true
      → HashSet.contains a (perform c u).users ≡ true
  unfolding perform set_self_name increment_unread set_online_users clear_unread
  perform_keeps (ensure name) u a h = ground (arith, ensure_user-contains before u name a)
  perform_keeps (set_self name) u a h =
      ground (arith, ensure_user-contains before (record u { self = name }) name a)
  perform_keeps (count_unread peer) u a h = ground (arith, ensure_user-contains before u peer a)
  perform_keeps (read_all peer) u a h = ground arith
  perform_keeps (set_online names) u a h =
      ground (arith, contains-add_unseen before a names u.users)

  pub perform_all_keeps :
      (cs : List Call) (u : UserModel) (a : Text)
      → HashSet.contains a u.users ≡ true
      → HashSet.contains a (perform_all cs u).users ≡ true
  unfolding perform_all
  perform_all_keeps [] u a h = h
  perform_all_keeps (c ∷ cs) u a h = perform_all_keeps cs (perform c u) a (perform_keeps c u a h)

  to_set-contains :
      (a : Text) (names : List Text) → HashSet.contains a (to_set names) ≡ HashSet.contains a names
  unfolding to_set HashSet.contains
  to_set-contains a [] = refl
  to_set-contains a (n ∷ names) =
      ground (arith, HashSet.contains-insert n a (to_set names), to_set-contains a names)

  -- A presence update lists its names beside all users that were known, shows as online exactly
  -- those that it names, and leaves every unread count.
  pub set_online_users-shown :
      (u : UserModel) (names : List Text) (a : Text)
      → let u' = set_online_users before u names in
        (HashSet.contains a u'.users ≡ (HashSet.contains a names || HashSet.contains a u.users))
        × (shown u' a online_role ≡ as_flag (HashSet.contains a names))
        × (shown u' a unread_role ≡ shown u a unread_role)
  unfolding set_online_users shown unread_of
  set_online_users-shown u names a =
      (contains-add_unseen before a names u.users, ap as_flag (to_set-contains a names), refl)

  pub unread_of-increment :
      (u : UserModel) (peer a : Text)
      → let u' = increment_unread before u peer in
        (unread_of u' a ≡ (if peer == a then unread_of u a + 1 else unread_of u a))
        × (is_empty peer ≡ false → HashSet.contains peer u'.users ≡ true)
  unfolding increment_unread unread_of ensure_user
  unread_of-increment u peer a = (
    ground
        (arith, HashMap.lookup-insert peer a (unread_of u peer + 1) u.unread, bytes_beq_iff peer a),
    λ h. ground (arith, contains-insert_sorted before peer peer u.users, bytes_beq_iff peer peer),
  )

  pub unread_of-clear :
      (u : UserModel) (peer a : Text)
      → unread_of (clear_unread u peer) a ≡ (if peer == a then 0 else unread_of u a)
  unfolding clear_unread unread_of
  unread_of-clear u peer a =
      ground (arith, HashMap.lookup-insert peer a 0 u.unread, bytes_beq_iff peer a)
