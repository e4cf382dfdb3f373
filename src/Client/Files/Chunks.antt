-- ===== src/Client/Files/Chunks.antt =====
-- The binary frames of client/src/chatclient.cpp, from the first chunk of a transfer to its last.
use bachelor_s_thesis.Base.{
  ◌==◌, be32, ℕ, Option, zero, suc, ◌+◌, ◌≤◌, ◌<◌, ◌≡◌, refl, sym, ◌∙◌, ap, subst, ◌⊎◌, inl, inr,
  Bool, true, false, none, some, List, [], ◌∷◌, ◌++◌, Bytes, Text, codes, length, take,
  if◌then◌else◌, bytes_eq, arith, Bool-cases, le→ltb, take-append, length-append, length-be32,
  is_empty, drop,
}
use bachelor_s_thesis.Base.HashMap
use bachelor_s_thesis.FileCrypto.{
  SecretStream, IsStream, FileCrypto, max_file_bytes, encrypt_chunk, chunk_size,
}
use bachelor_s_thesis.FileTransfer.{
  IncomingFile, Received, receive_chunk, out_of_order, unauthentic, written, id_length,
  frame_header, chunk_frame, pump,
}
use bachelor_s_thesis.FileTransfer.InOrder.{
  receive_all, receive_all_last, receive_all_more, receive_all-pump,
}
use bachelor_s_thesis.Client.State.{ChatClient, World, emit, file_receive_failed}
use bachelor_s_thesis.Client.Files.{forget_transfer, settle_chunk, on_binary_message_received}
use bachelor_s_thesis.Client.Files.Ends.{
  lookup-Accepted, Accepted, finish_file-Accepted, Refused, forget-Refused,
}

-- A frame of the transfer.
abbrev pub IsFrameOf : Text → Bytes → Type 0
IsFrameOf msg_id frame = (take id_length frame ≡ msg_id) × (frame_header ≤ length frame)

abbrev pub AllFramesOf : Text → List Bytes → Type 0
AllFramesOf msg_id [] = Unit {0}
AllFramesOf msg_id (frame ∷ frames) = IsFrameOf msg_id frame × AllFramesOf msg_id frames

receive_all_nil :
    (s : SecretStream) (t t' : IncomingFile) → receive_all s [] t ≡ some (t', true) → ⊥
unfolding receive_all
receive_all_nil s t t' r = ground arith

-- How a transfer that completes goes on.
receive_all-cases :
    (s : SecretStream) (frame : Bytes) (frames : List Bytes) (t t' : IncomingFile)
    → receive_all s (frame ∷ frames) t ≡ some (t', true)
    → (receive_chunk s frame t ≡ written t' true)
      ⊎ ((t1 : IncomingFile) × (receive_chunk s frame t ≡ written t1 false)
          × (receive_all s frames t1 ≡ some (t', true)))
unfolding receive_all
receive_all-cases s frame frames t t' r = split (receive_chunk s frame t) refl
  where
    split :
        (q : Received)
        → receive_chunk s frame t ≡ q
        → (receive_chunk s frame t ≡ written t' true)
          ⊎ ((t1 : IncomingFile) × (receive_chunk s frame t ≡ written t1 false)
              × (receive_all s frames t1 ≡ some (t', true)))
    split out_of_order e = absurd (ground arith)
    split unauthentic e = absurd (ground arith)
    split (written t1 true) e = inl (ground (arith, receive_all_last s frame frames t t1 e))
    split (written t1 false) e = inr (t1, e, sym (receive_all_more s frame frames t t1 e) ∙ r)

if_twice {ℓ} :
    {A : Type ℓ} (b : Bool) (x y z : A)
    → (if b then x else if b then y else z) ≡ (if b then x else z)
if_twice true x y z = refl
if_twice false x y z = refl

module _ (w : World) (now : ℕ) (msg_id : Text) where
  on_binary_found :
      (frame : Bytes) (t : IncomingFile) (c : ChatClient)
      → IsFrameOf msg_id frame
      → HashMap.lookup msg_id c.incoming ≡ some t
      → on_binary_message_received w now frame c
        ≡ settle_chunk w now msg_id t (receive_chunk w.stream frame t) c
  unfolding on_binary_message_received
  on_binary_found frame t c f h =
      subst
        (λ (m : Text).
          HashMap.lookup m c.incoming ≡ some t
          → on_binary_message_received w now frame c
            ≡ settle_chunk w now m t (receive_chunk w.stream frame t) c)
        f.0
        (λ k. rw (le→ltb (length frame) frame_header f.1) (rw (k, on_binary_message_received) refl))
        h

  on_binary_unknown :
      (frame : Bytes) (c : ChatClient)
      → IsFrameOf msg_id frame
      → HashMap.lookup msg_id c.incoming ≡ none
      → on_binary_message_received w now frame c ≡ c
  unfolding on_binary_message_received
  on_binary_unknown frame c f h =
      rw (le→ltb (length frame) frame_header f.1) (rw (f.0, h, on_binary_message_received) refl)

  settle-Refused :
      (t : IncomingFile) (c : ChatClient) (r : Received)
      → (r ≡ out_of_order) ⊎ (r ≡ unauthentic)
      → Refused msg_id c (settle_chunk w now msg_id t r c)
  unfolding settle_chunk emit
  settle-Refused t c out_of_order h =
      forget-Refused w now msg_id c
        (emit (file_receive_failed msg_id (codes "chunk order mismatch")) c) refl refl
        (inr (codes "chunk order mismatch", refl))
  settle-Refused t c unauthentic h = either t.replayed
    where
      why : Text
      why = codes "authentication failure"

      failed : ChatClient
      failed = emit (file_receive_failed msg_id why) c

      either : (b : Bool) → Refused msg_id c (forget_transfer msg_id (if b then c else failed))
      either true = forget-Refused w now msg_id c c refl refl (inl refl)
      either false = forget-Refused w now msg_id c failed refl refl (inr (why, refl))
  settle-Refused t c (written t' last) (inl e) = cc
  settle-Refused t c (written t' last) (inr e) = cc

  -- A frame of a transfer that is out of order or does not open ends the transfer and does nothing
  -- else: it is forgotten and every other transfer stays, the window is told of a failure at most,
  -- and there is no row, no badge, no path, no frame sent and no call on the history.
  pub on_binary_refuses :
      (frame : Bytes) (t : IncomingFile) (c : ChatClient)
      → IsFrameOf msg_id frame
      → HashMap.lookup msg_id c.incoming ≡ some t
      → (receive_chunk w.stream frame t ≡ out_of_order)
        ⊎ (receive_chunk w.stream frame t ≡ unauthentic)
      → Refused msg_id c (on_binary_message_received w now frame c)
  on_binary_refuses frame t c f h r =
      rw (on_binary_found frame t c f h) (settle-Refused t c (receive_chunk w.stream frame t) r)

  -- The frames of one transfer, as they come in.
  unfoldable pub receive_frames : List Bytes → ChatClient → ChatClient
  receive_frames [] c = c
  receive_frames (frame ∷ frames) c =
      receive_frames frames (on_binary_message_received w now frame c)

  receive_frames_unknown :
      (frames : List Bytes) (c : ChatClient)
      → AllFramesOf msg_id frames
      → HashMap.lookup msg_id c.incoming ≡ none
      → receive_frames frames c ≡ c
  unfolding receive_frames
  receive_frames_unknown [] c f h = refl
  receive_frames_unknown (frame ∷ frames) c f h =
      rw (on_binary_unknown frame c f.0 h) (receive_frames_unknown frames c f.1 h)

  -- A chunk that is not the last leaves the others' transfers and the signals alone.
  settle-more :
      (t t1 t' : IncomingFile) (c d : ChatClient)
      → Accepted msg_id t' (settle_chunk w now msg_id t (written t1 false) c) d
      → Accepted msg_id t' c d
  unfolding settle_chunk
  settle-more t t1 t' c d a = record {
    path = a.path;
    signalled = a.signalled;
    transfers = λ other.
        a.transfers other
        ∙ ap (λ (o : Option IncomingFile). if msg_id == other then none else o)
            (HashMap.lookup-insert msg_id other t1 c.incoming)
        ∙ if_twice (msg_id == other) none (some t1) (HashMap.lookup other c.incoming);
  }

  settle-found :
      (t t1 : IncomingFile) (c : ChatClient)
      → HashMap.lookup msg_id (settle_chunk w now msg_id t (written t1 false) c).incoming ≡ some t1
  unfolding settle_chunk
  settle-found t t1 c = HashMap.lookup-insert_self msg_id t1 c.incoming

  settle-last :
      (t t' : IncomingFile) (c : ChatClient)
      → Accepted msg_id t' c (settle_chunk w now msg_id t (written t' true) c)
  unfolding settle_chunk
  settle-last t t' c = finish_file-Accepted w now msg_id t' c

  -- A transfer whose chunks are complete ends as an accepted file.
  receive_frames-Accepted :
      (frames : List Bytes) (t t' : IncomingFile) (c : ChatClient)
      → AllFramesOf msg_id frames
      → HashMap.lookup msg_id c.incoming ≡ some t
      → receive_all w.stream frames t ≡ some (t', true)
      → Accepted msg_id t' c (receive_frames frames c)
  unfolding receive_frames
  receive_frames-Accepted [] t t' c f h r = absurd (receive_all_nil w.stream t t' r)
  receive_frames-Accepted (frame ∷ frames) t t' c f h r =
      let found = on_binary_found frame t c f.0 h in
      elim (receive_all-cases w.stream frame frames t t' r) [
        | inl e ↦
            let last = found ∙ ap (λ (q : Received). settle_chunk w now msg_id t q c) e in
            let a = settle-last t t' c in
            let c1 = settle_chunk w now msg_id t (written t' true) c in
            rw last (
              subst (Accepted msg_id t' c)
                (sym (receive_frames_unknown frames c1 f.1 (lookup-Accepted msg_id t' c c1 a))) a)
        | inr (t1, e, more) ↦
            rw (found ∙ ap (λ (q : Received). settle_chunk w now msg_id t q c) e) (
              settle-more t t1 t' c _
                (receive_frames-Accepted frames t1 t' _ f.1 (settle-found t t1 c) more))
      ]

-- The sender's frames are frames of its transfer.
module _ (s : SecretStream) (msg_id : Text) (h : length msg_id ≡ 36) where
  chunk_frame-IsFrameOf : (index : ℕ) (ct : Bytes) → IsFrameOf msg_id (chunk_frame msg_id index ct)
  unfolding chunk_frame
  chunk_frame-IsFrameOf index ct = (
    take-append msg_id (be32 index ++ ct) 36 h,
    omega (
      arith,
      length-append msg_id (be32 index ++ ct),
      length-append (be32 index) ct,
      length-be32 index,
    ),
  )

  pump-AllFramesOf :
      (fuel : ℕ) (c : FileCrypto) (index : ℕ) (left : Bytes)
      → AllFramesOf msg_id (pump s fuel c msg_id index left).0
  unfolding pump
  pump-AllFramesOf zero c index left = tt
  pump-AllFramesOf (suc fuel) c index left =
      let sealed = encrypt_chunk s (take chunk_size left) (is_empty (drop chunk_size left)) c in
      elim (Bool-cases (is_empty left)) [
        | inl e ↦ rw e tt
        | inr e ↦ rw e (elim (Bool-cases (is_empty sealed.1)) [
          | inl e' ↦ rw e' tt
          | inr e' ↦ rw e' (
            chunk_frame-IsFrameOf index sealed.1,
            pump-AllFramesOf fuel sealed.0 (index + 1) (drop chunk_size left),
          )
        ])
      ]

-- The frames that the sender's loop makes of a file of 1 byte up to 50 MB when it comes to the end
-- of it, handled by the receiver in their order: the transfer's file holds the contents, the final
-- chunk was seen, and the client counts the file as received, while every other transfer stays. The
-- id has 36 characters, the transfer is an empty file at chunk 0, and the two streams are
-- initialised and start in one state.
pub file_arrives :
    (w : World) (now : ℕ) (msg_id : Text) (contents : Bytes) (frames : List Bytes) (tx : FileCrypto)
    (t : IncomingFile) (c : ChatClient)
    → IsStream w.stream
    → length msg_id ≡ 36
    → 0 < length contents
    → length contents ≤ max_file_bytes
    → tx.initialized ≡ true
    → t.crypto.initialized ≡ true
    → t.crypto.stream ≡ tx.stream
    → t.next_chunk_index ≡ 0
    → t.file ≡ []
    → HashMap.lookup msg_id c.incoming ≡ some t
    → pump w.stream (length contents) tx msg_id 0 contents ≡ (frames, true)
    → (t' : IncomingFile) × (t'.file ≡ contents)
      × (t'.crypto.saw_final ≡ true)
      × Accepted msg_id t' c (receive_frames w now msg_id frames c)
file_arrives w now msg_id contents frames tx t c lawful h pos bound i j e z empty found sent =
    let (t', got, done) =
      receive_all-pump w.stream lawful tx msg_id contents frames t h i j e z pos bound sent in
    let all =
      subst (AllFramesOf msg_id) (ap (λ (r : List Bytes × Bool). r.0) sent)
        (pump-AllFramesOf w.stream msg_id h (length contents) tx 0 contents) in
    (
      t',
      done.file ∙ ap (λ (xs : Bytes). xs ++ contents) empty,
      done.saw_final,
      receive_frames-Accepted w now msg_id frames t t' c all found got,
    )
