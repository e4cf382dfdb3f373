-- ===== src/Client/FileInit/Once.antt =====
-- A `file_init` frame that comes again (client/src/chatclient.cpp).
use bachelor_s_thesis.Base.{
  ℕ, Bytes, Option, ◌≡◌, refl, ◌∙◌, ap, true, false, some, List, ◌∷◌, Text, bytes_eq, beq_refl,
  arith,
}
use bachelor_s_thesis.Base.HashMap
use bachelor_s_thesis.Base.HashMap.{HashMap}
use bachelor_s_thesis.Base.HashSet
use bachelor_s_thesis.CryptoBox.Messages.{WireFrame}
use bachelor_s_thesis.Client.State.{
  ChatClient, World, emit, frames_of, persist_session, if_ready, call_history,
}
use bachelor_s_thesis.Client.Rekey.{note_inbound_from, forget_ping}
use bachelor_s_thesis.Client.FileInit.{
  FileInit, is_seen, seen_key, mark_seen, refuse, open_key, start_transfer, note_key_frame,
  key_opened, on_file_init,
}

-- The keys of the peers and the key frames that were seen.
record SameSeen (c c' : ChatClient) : Type 0 where
  keys : c'.peer_keys ≡ c.peer_keys
  seen : c'.seen_frames ≡ c.seen_frames

refuse-SameSeen : (f : FileInit) (why : Text) (c : ChatClient) → SameSeen c (refuse f why c)
unfolding refuse emit
refuse-SameSeen f why c = record { keys = ground arith; seen = ground arith }

frames_of-insert :
    (peer : Text) (v : List Text) (m : HashMap Text (List Text))
    → frames_of peer (HashMap.insert peer v m) ≡ v
unfolding frames_of
frames_of-insert peer v m = rw (HashMap.lookup-insert_self peer v m, frames_of) refl

contains_self : (a : Text) (xs : List Text) → HashSet.contains a (HashSet.insert a xs) ≡ true
contains_self a xs = ground (arith, HashSet.contains-insert a a xs, beq_refl a)

contains-mark :
    (peer : Text) (frame : WireFrame) (c : ChatClient)
    → is_seen peer frame (mark_seen peer frame c) ≡ true
unfolding mark_seen
contains-mark peer frame c =
    ap (HashSet.contains (seen_key frame)) (frames_of-insert peer _ c.seen_frames)
    ∙ contains_self (seen_key frame) (frames_of peer c.seen_frames)

mark-keys :
    (peer : Text) (frame : WireFrame) (c : ChatClient)
    → (mark_seen peer frame c).peer_keys ≡ c.peer_keys
unfolding mark_seen
mark-keys peer frame c = refl

module _ (w : World) where
  start-SameSeen :
      (f : FileInit) (key : Bytes) (c : ChatClient) → SameSeen c (start_transfer w f key c)
  unfolding start_transfer emit refuse
  start-SameSeen f key c = record { keys = ground arith; seen = ground arith }

  note-SameSeen :
      (f : FileInit) (frame : WireFrame) (c : ChatClient)
      → SameSeen (mark_seen f.sender frame c) (note_key_frame w f frame c)
  unfolding note_key_frame persist_session if_ready call_history note_inbound_from forget_ping
  note-SameSeen f frame c = record { keys = ground arith; seen = ground arith }

  key_opened-some :
      (f : FileInit) (frame : WireFrame) (x : ℕ) (xs : Text) (q : ChatClient × Option Text)
      → q.1 ≡ some (x ∷ xs)
      → key_opened w f frame q
        ≡ start_transfer w f (w.platform.from_hex (x ∷ xs)) (note_key_frame w f frame q.0)
  unfolding key_opened
  key_opened-some f frame x xs (c, key) e = rw e refl

  open_key-keys :
      (f : FileInit) (frame : WireFrame) (c : ChatClient)
      → (open_key w f frame c).0.peer_keys ≡ c.peer_keys
  unfolding open_key
  open_key-keys f frame c = refl

  on_file_init_seen :
      (f : FileInit) (frame : WireFrame) (c : ChatClient)
      → f.keyenc ≡ some frame
      → HashMap.contains f.sender c.peer_keys ≡ true
      → is_seen f.sender frame c ≡ true
      → on_file_init w f c ≡ c
  unfolding on_file_init
  on_file_init_seen f frame c k h s = rw (h, k, s) refl

  on_file_init_first :
      (f : FileInit) (frame : WireFrame) (c : ChatClient)
      → f.keyenc ≡ some frame
      → HashMap.contains f.sender c.peer_keys ≡ true
      → is_seen f.sender frame c ≡ false
      → on_file_init w f c ≡ key_opened w f frame (open_key w f frame c)
  unfolding on_file_init open_key key_opened refuse note_key_frame start_transfer
  on_file_init_first f frame c k h s = rw (h, k, s) refl

  -- A file_init frame from a peer with a known key, whose sealed file key was not seen before and
  -- opens to a text that is not empty, is seen afterwards, and when the same frame comes again the
  -- client stays as it is: no ratchet step, no transfer, no message of an error.
  pub on_file_init_again :
      (f : FileInit) (frame : WireFrame) (x : ℕ) (xs : Text) (c : ChatClient)
      → f.keyenc ≡ some frame
      → HashMap.contains f.sender c.peer_keys ≡ true
      → is_seen f.sender frame c ≡ false
      → (open_key w f frame c).1 ≡ some (x ∷ xs)
      → let c' = on_file_init w f c in
        (is_seen f.sender frame c' ≡ true) × (on_file_init w f c' ≡ c')
  on_file_init_again f frame x xs c k h s e =
      let d = (open_key w f frame c).0 in
      let marked = mark_seen f.sender frame d in
      let noted = note_key_frame w f frame d in
      let a = note-SameSeen f frame d in
      let b = start-SameSeen f (w.platform.from_hex (x ∷ xs)) noted in
      let c' = start_transfer w f (w.platform.from_hex (x ∷ xs)) noted in
      let whole : on_file_init w f c ≡ c' =
        on_file_init_first f frame c k h s
        ∙ key_opened-some f frame x xs (open_key w f frame c) e in
      let seen : is_seen f.sender frame c' ≡ true =
        ap
          (λ (m : HashMap Text (List Text)).
            HashSet.contains (seen_key frame) (frames_of f.sender m))
          (b.seen ∙ a.seen)
        ∙ contains-mark f.sender frame d in
      let known : HashMap.contains f.sender c'.peer_keys ≡ true =
        ap (λ (m : HashMap Text Text). HashMap.contains f.sender m)
          (b.keys ∙ a.keys ∙ mark-keys f.sender frame d ∙ open_key-keys f frame c)
        ∙ h in
      rw whole (seen, on_file_init_seen f frame c' k known seen)
