-- ===== src/FileTransfer/InOrder.antt =====
-- A file that is sent in chunks (client/src/chatclient.cpp) and received in their order.
use bachelor_s_thesis.Base.{
  ℕ, zero, suc, ◌+◌, ◌^◌, ◌≤◌, ◌<◌, ◌≡◌, refl, sym, ◌∙◌, ap, subst, inl, inr, Bool, true, false,
  ◌||◌, Option, none, some, List, [], ◌∷◌, ◌++◌, Bytes, Text, be32, length, take, drop, is_empty,
  arith, is_some, append_assoc, append_nil, is_empty_of_pos, take-append, drop-append,
  drop-append_two, length-append, length-be32, nil_of_is_empty, length-drop, Bool-cases,
  Option-cases,
}
use bachelor_s_thesis.CryptoBox.PrekeyBlob.RoundTrip.{number_of-be32}
use bachelor_s_thesis.FileCrypto.{
  SecretStream, IsStream, FileCrypto, encrypt_chunk, decrypt_chunk, chunk_size, max_file_bytes,
}
use bachelor_s_thesis.FileTransfer.{
  IncomingFile, chunk_frame, pump, out_of_order, unauthentic, written, frame_index, in_turn,
  write_chunk, receive_chunk,
}

-- The chunks of one transfer as they come in, up to the final one; none where the transfer fails.
unfoldable pub receive_all : SecretStream → List Bytes → IncomingFile → Option (IncomingFile × Bool)
receive_all s [] t = some (t, false)
receive_all s (frame ∷ frames) t = elim (receive_chunk s frame t) [
  | out_of_order ↦ none
  | unauthentic ↦ none
  | written t' true ↦ some (t', true)
  | written t' false ↦ receive_all s frames t'
]

abbrev pub advance : IncomingFile → Bytes → Bytes → Bool → IncomingFile
advance t st text last = record t {
  crypto = record t.crypto { stream = st; saw_final = last || t.crypto.saw_final };
  next_chunk_index = t.next_chunk_index + 1;
  file = t.file ++ text;
  received_bytes = t.received_bytes + length text;
}

take-drop {ℓ} : {A : Type ℓ} (n : ℕ) (xs : List A) → take n xs ++ drop n xs ≡ xs
take-drop zero xs = refl
take-drop (suc n) [] = refl
take-drop (suc n) (x ∷ xs) = ap (◌∷◌ x) (take-drop n xs)

module _ (msg_id : Text) (index : ℕ) (ct : Bytes) (h : length msg_id ≡ 36) where
  frame_index-chunk_frame : index < 2 ^ 32 → frame_index (chunk_frame msg_id index ct) ≡ index
  unfolding chunk_frame
  frame_index-chunk_frame k =
      rw (drop-append msg_id (be32 index ++ ct) 36 h)
        (rw (take-append (be32 index) ct 4 (length-be32 index)) (number_of-be32 index k))

  drop-chunk_frame : drop 40 (chunk_frame msg_id index ct) ≡ ct
  unfolding chunk_frame
  drop-chunk_frame = drop-append_two msg_id (be32 index) ct 40 (omega (arith, h, length-be32 index))

pub receive_all_last :
    (s : SecretStream) (frame : Bytes) (frames : List Bytes) (t t' : IncomingFile)
    → receive_chunk s frame t ≡ written t' true
    → receive_all s (frame ∷ frames) t ≡ some (t', true)
unfolding receive_all
receive_all_last s frame frames t t' e = rw (e, receive_all) refl

pub receive_all_more :
    (s : SecretStream) (frame : Bytes) (frames : List Bytes) (t t' : IncomingFile)
    → receive_chunk s frame t ≡ written t' false
    → receive_all s (frame ∷ frames) t ≡ receive_all s frames t'
unfolding receive_all
receive_all_more s frame frames t t' e = rw (e, receive_all) refl

pos_of_nonempty : (xs : Bytes) → is_empty xs ≡ false → 0 < length xs
pos_of_nonempty [] h = cc
pos_of_nonempty (x ∷ xs) h = omega arith

module _ (s : SecretStream) (lawful : IsStream s) where
  in_turn_self :
      (t : IncomingFile) → t.next_chunk_index < 2 ^ 31 → in_turn t t.next_chunk_index ≡ true
  unfolding in_turn
  in_turn_self t h = ground arith

  decrypt_chunk-push :
      (c : FileCrypto) (text ct st : Bytes) (last : Bool)
      → c.initialized ≡ true
      → s.push c.stream text last ≡ some (ct, st)
      → decrypt_chunk s ct c
        ≡ (record c { stream = st; saw_final = last || c.saw_final }, some (text, last))
  unfolding decrypt_chunk
  decrypt_chunk-push c text ct st last i e = ground (
    arith,
    lawful.pull-push c.stream text ct st last e,
    lawful.length-push c.stream text ct st last e,
  )

  -- The next chunk of the sender is accepted.
  receive_chunk-push :
      (msg_id : Text) (t : IncomingFile) (text ct st : Bytes) (last : Bool)
      → length msg_id ≡ 36
      → t.next_chunk_index < 2 ^ 31
      → t.crypto.initialized ≡ true
      → s.push t.crypto.stream text last ≡ some (ct, st)
      → receive_chunk s (chunk_frame msg_id t.next_chunk_index ct) t
        ≡ written (advance t st text last) last
  unfolding receive_chunk write_chunk
  receive_chunk-push msg_id t text ct st last h k i e =
      let index = frame_index-chunk_frame msg_id t.next_chunk_index ct h (omega arith) in
      let body = drop-chunk_frame msg_id t.next_chunk_index ct h in
      let turn = in_turn_self t k in
      let opened = decrypt_chunk-push t.crypto text ct st last i e in ground arith

  -- What one round of the sender's loop has done, if the loop comes to the end.
  record Round (fuel : ℕ) (c : FileCrypto) (msg_id : Text) (index : ℕ) (left : Bytes)
      (frames : List Bytes) : Type 0 where
    ct : Bytes
    st : Bytes
    more : List Bytes
    sealed :
        s.push c.stream (take chunk_size left) (is_empty (drop chunk_size left)) ≡ some (ct, st)
    first : frames ≡ chunk_frame msg_id index ct ∷ more
    others :
        pump s fuel (record c { stream = st }) msg_id (index + 1) (drop chunk_size left)
        ≡ (more, true)

  encrypt_chunk-push :
      (c : FileCrypto) (text ct st : Bytes) (last : Bool)
      → c.initialized ≡ true
      → s.push c.stream text last ≡ some (ct, st)
      → encrypt_chunk s text last c ≡ (record c { stream = st }, ct)
  unfolding encrypt_chunk
  encrypt_chunk-push c text ct st last i e = ground arith

  encrypt_chunk_fails :
      (c : FileCrypto) (text : Bytes) (last : Bool)
      → c.initialized ≡ true
      → s.push c.stream text last ≡ none
      → encrypt_chunk s text last c ≡ (c, [])
  unfolding encrypt_chunk
  encrypt_chunk_fails c text last i e = ground arith

  module _ (fuel : ℕ) (c : FileCrypto) (msg_id : Text) (index : ℕ) (left : Bytes) where
    pump_sends :
        (c' : FileCrypto) (ct : Bytes)
        → is_empty left ≡ false
        → is_empty ct ≡ false
        → encrypt_chunk s (take chunk_size left) (is_empty (drop chunk_size left)) c ≡ (c', ct)
        → let r = pump s fuel c' msg_id (index + 1) (drop chunk_size left) in
          pump s (suc fuel) c msg_id index left ≡ (chunk_frame msg_id index ct ∷ r.0, r.1)
    unfolding pump
    pump_sends c' ct ne full e = rw (e, pump) (rw ne (rw full refl))

    pump_stops :
        (c' : FileCrypto)
        → is_empty left ≡ false
        → encrypt_chunk s (take chunk_size left) (is_empty (drop chunk_size left)) c ≡ (c', [])
        → pump s (suc fuel) c msg_id index left ≡ ([], false)
    unfolding pump
    pump_stops c' ne e = rw (e, pump) (rw ne refl)

    pump-Round :
        (frames : List Bytes)
        → c.initialized ≡ true
        → is_empty left ≡ false
        → pump s (suc fuel) c msg_id index left ≡ (frames, true)
        → Round fuel c msg_id index left frames
    pump-Round frames i ne h =
        let text = take chunk_size left in
        let last = is_empty (drop chunk_size left) in
        elim (Option-cases (s.push c.stream text last)) [
          | inl e ↦ absurd (ground (arith, pump_stops c ne (encrypt_chunk_fails c text last i e)))
          | inr ((ct, st), e) ↦
              let full =
                is_empty_of_pos ct (omega (arith, lawful.length-push c.stream text ct st last e)) in
              let r =
                pump s fuel (record c { stream = st }) msg_id (index + 1) (drop chunk_size left) in
              let step =
                sym h
                ∙ pump_sends (record c { stream = st }) ct ne full
                    (encrypt_chunk-push c text ct st last i e) in
              record {
                ct = ct;
                st = st;
                more = r.0;
                sealed = e;
                first = ap (λ (q : List Bytes × Bool). q.0) step;
                others =
                    ap (λ (b : Bool). (r.0, b)) (sym (ap (λ (q : List Bytes × Bool). q.1) step));
              }
        ]

  -- What the receiver has once the last chunk is in.
  pub record Complete (t t' : IncomingFile) (contents : Bytes) : Type 0 where
    pub file : t'.file ≡ t.file ++ contents
    pub received_bytes : t'.received_bytes ≡ t.received_bytes + length contents
    pub saw_final : t'.crypto.saw_final ≡ true

  receive_all-pump_from :
      (fuel : ℕ) (c : FileCrypto) (msg_id : Text) (left : Bytes) (frames : List Bytes)
      (t : IncomingFile)
      → length msg_id ≡ 36
      → c.initialized ≡ true
      → t.crypto.initialized ≡ true
      → t.crypto.stream ≡ c.stream
      → is_empty left ≡ false
      → length left ≤ fuel
      → t.next_chunk_index + length left < 2 ^ 31
      → pump s fuel c msg_id t.next_chunk_index left ≡ (frames, true)
      → (t' : IncomingFile) × (receive_all s frames t ≡ some (t', true)) × Complete t t' left
  receive_all-pump_from zero c msg_id left frames t h i j e ne f b r =
      absurd (omega (arith, pos_of_nonempty left ne))
  receive_all-pump_from (suc fuel) c msg_id left frames t h i j e ne f b r =
      let q = pump-Round fuel c msg_id t.next_chunk_index left frames i ne r in
      let text = take chunk_size left in
      let rest = drop chunk_size left in
      let t1 = advance t q.st text (is_empty rest) in
      let accepted = receive_chunk-push msg_id t text q.ct q.st (is_empty rest) h (omega arith) j (
        subst (λ (st : Bytes). s.push st text (is_empty rest) ≡ some (q.ct, q.st)) (sym e)
          q.sealed) in
      elim (Bool-cases (is_empty rest)) [
        | inl last ↦
            let whole : text ≡ left =
              sym (append_nil text)
              ∙ ap (λ (xs : Bytes). text ++ xs) (sym (nil_of_is_empty rest last))
              ∙ take-drop chunk_size left in
            (
              t1,
              rw q.first (
                  receive_all_last s _ q.more t t1
                    (accepted ∙ ap (λ (b : Bool). written t1 b) last)),
              record {
                file = ap (λ (xs : Bytes). t.file ++ xs) whole;
                received_bytes = ap (λ (xs : Bytes). t.received_bytes + length xs) whole;
                saw_final = rw last refl;
              },
            )
        | inr more ↦
            let (t', got, done) =
              receive_all-pump_from fuel (record c { stream = q.st }) msg_id rest q.more t1 h i j
                refl more (omega (arith, length-drop chunk_size left, pos_of_nonempty left ne))
                (omega (arith, length-drop chunk_size left, pos_of_nonempty rest more)) q.others in
            (
              t',
              rw q.first (
                  receive_all_more s _ q.more t t1 (accepted ∙ ap (λ (b : Bool). written t1 b) more)
                  ∙ got),
              record {
                file =
                    done.file
                    ∙ append_assoc t.file text rest
                    ∙ ap (λ (xs : Bytes). t.file ++ xs) (take-drop chunk_size left);
                received_bytes = omega (
                  arith,
                  done.received_bytes,
                  ap (length {A = ℕ}) (take-drop chunk_size left),
                  length-append text rest,
                );
                saw_final = done.saw_final;
              },
            )
      ]

  -- From the first chunk on.
  pub receive_all-pump :
      (c : FileCrypto) (msg_id : Text) (contents : Bytes) (frames : List Bytes) (t : IncomingFile)
      → length msg_id ≡ 36
      → c.initialized ≡ true
      → t.crypto.initialized ≡ true
      → t.crypto.stream ≡ c.stream
      → t.next_chunk_index ≡ 0
      → 0 < length contents
      → length contents ≤ max_file_bytes
      → pump s (length contents) c msg_id 0 contents ≡ (frames, true)
      → (t' : IncomingFile) × (receive_all s frames t ≡ some (t', true)) × Complete t t' contents
  receive_all-pump c msg_id contents frames t h i j e z pos b r =
      receive_all-pump_from (length contents) c msg_id contents frames t h i j e
        (is_empty_of_pos contents pos) (omega arith) (omega (arith, z)) (rw z r)

  -- The sender's loop comes to the end of the file when it is given as many rounds as there are
  -- bytes left, unless a call of libsodium fails.
  pub pump_finishes :
      (fuel : ℕ) (c : FileCrypto) (msg_id : Text) (index : ℕ) (left : Bytes)
      → ((st text : Bytes) (last : Bool) → is_some (s.push st text last) ≡ true)
      → c.initialized ≡ true
      → length left ≤ fuel
      → (pump s fuel c msg_id index left).1 ≡ true
  unfolding pump
  pump_finishes zero c msg_id index [] push i h = refl
  pump_finishes zero c msg_id index (x ∷ left) push i h = absurd (omega arith)
  pump_finishes (suc fuel) c msg_id index [] push i h = refl
  pump_finishes (suc fuel) c msg_id index (x ∷ left) push i h =
      let text = take chunk_size (x ∷ left) in
      let rest = drop chunk_size (x ∷ left) in
      elim (Option-cases (s.push c.stream text (is_empty rest))) [
        | inl e ↦ absurd (ground (arith, push c.stream text (is_empty rest)))
        | inr ((ct, st), e) ↦
            let c' = record c { stream = st } in
            let full =
              is_empty_of_pos ct
                (omega (arith, lawful.length-push c.stream text ct st (is_empty rest) e)) in
            ap (λ (q : List Bytes × Bool). q.1)
              (pump_sends fuel c msg_id index (x ∷ left) c' ct refl full
                (encrypt_chunk-push c text ct st (is_empty rest) i e))
            ∙ pump_finishes fuel c' msg_id (index + 1) rest push i
                (omega (arith, length-drop chunk_size (x ∷ left)))
      ]
