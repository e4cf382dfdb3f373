-- ===== src/CryptoBox/PrekeyBlob/RoundTrip.antt =====
-- `serialisePrekeys` and then `restorePrekeys` (client/src/cryptobox.cpp).
use bachelor_s_thesis.Base.{
  ℕ, suc, ◌+◌, ◌*◌, ◌/◌, ◌%◌, ◌^◌, ◌≤◌, ◌<◌, ◌≡◌, refl, ap, sym, ◌∙◌, inl, inr, ◌⊎◌, true, false,
  some, [], ◌∷◌, ◌++◌, arith, Bytes, be32, length, is_empty, ltb, if◌then◌else◌, append_assoc,
  append_nil, is_empty_of_pos, take-append, drop-append, length-append, length-be32, bytes_beq,
}
use bachelor_s_thesis.Base.Int.{ℤ, pos, negsuc, ltb_ℤ}
use bachelor_s_thesis.Base.OrderedMap.{OrderedMap, Ascends, Below, insert-append}
use bachelor_s_thesis.Platform.{Platform}
use bachelor_s_thesis.CryptoBox.State.{CryptoBox}
use bachelor_s_thesis.CryptoBox.PrekeyBlob.{
  read_raw, read_u32, read_i64, read_pool, read_previous, read_rotation, number_of, be64,
  pool_bytes, parse_body, parse_prekeys, restore_prekeys, serialise_prekeys, word_of_ℤ, ℤ_of_word,
  Stored, prekey_magic, prekey_version,
}

pub read_raw-append :
    (n : ℕ) (xs ys : Bytes) → length xs ≡ n → read_raw n (xs ++ ys) ≡ some (xs, ys)
unfolding read_raw
read_raw-append n xs ys h =
    let fits : ltb (length (xs ++ ys)) n ≡ false = ground (arith, length-append xs ys) in
    rw (fits, take-append xs ys n h, drop-append xs ys n h)

pub number_of-be32 : (n : ℕ) → n < 2 ^ 32 → number_of (be32 n) ≡ n
unfolding be32
number_of-be32 n h = omega arith

read_u32-be32 : (n : ℕ) (ys : Bytes) → n < 2 ^ 32 → read_u32 (be32 n ++ ys) ≡ some (n, ys)
unfolding read_u32
read_u32-be32 n ys h = rw (read_raw-append 4 (be32 n) ys (length-be32 n), number_of-be32 n h) refl

-- A time that a `qint64` holds.
abbrev pub IsWord : ℤ → Type 0
IsWord (pos n) = n < 2 ^ 63
IsWord (negsuc n) = n < 2 ^ 63

ℤ_of_word-word_of_ℤ : (t : ℤ) → IsWord t → ℤ_of_word (word_of_ℤ t) ≡ t
ℤ_of_word-word_of_ℤ (pos n) h = ground arith
ℤ_of_word-word_of_ℤ (negsuc n) h = ground arith

word_of_ℤ_lt : (t : ℤ) → word_of_ℤ t < 2 ^ 64
word_of_ℤ_lt (pos n) = omega arith
word_of_ℤ_lt (negsuc n) = omega arith

halves : (w : ℕ) → w / 2 ^ 32 * 2 ^ 32 + w % 2 ^ 32 ≡ w
halves w = omega arith

read_i64-be64 : (t : ℤ) (ys : Bytes) → IsWord t → read_i64 (be64 t ++ ys) ≡ some (t, ys)
unfolding read_i64 be64
read_i64-be64 t ys h =
    let w = word_of_ℤ t in
    let small = word_of_ℤ_lt t in
    rw
      (
        append_assoc (be32 (w / 2 ^ 32)) (be32 (w % 2 ^ 32)) ys,
        read_u32-be32 (w / 2 ^ 32) (be32 (w % 2 ^ 32) ++ ys) (omega arith),
      )
      (rw (read_u32-be32 (w % 2 ^ 32) ys (omega arith), halves w, ℤ_of_word-word_of_ℤ t h) refl)

-- Ids of 32 bits and keys of 32 bytes.
abbrev pub Fits : OrderedMap Bytes → Type 0
Fits [] = Unit {0}
Fits ((id, priv) ∷ m) = (id < 2 ^ 32) × (length priv ≡ 32) × Fits m

Below-append :
    (n k : ℕ) (v : Bytes) (m : OrderedMap Bytes)
    → n ≤ k
    → Below n m
    → Below (suc k) (m ++ (k, v) ∷ [])
Below-append n k v [] h b = (omega arith, tt)
Below-append n k v ((j, w) ∷ m) h b = (omega (arith, b.0), Below-append n k v m h b.1)

Below-le : (n k : ℕ) (m : OrderedMap Bytes) → n ≤ k → Below n m → Below k m
Below-le n k [] h b = tt
Below-le n k ((j, w) ∷ m) h b = (omega (arith, b.0), Below-le n k m h b.1)

read_pool-pool_bytes :
    (m acc : OrderedMap Bytes) (n : ℕ) (ys : Bytes)
    → Fits m
    → Ascends n m
    → Below n acc
    → read_pool (length m) (pool_bytes m ++ ys) acc ≡ some (acc ++ m, ys)
unfolding read_pool pool_bytes
read_pool-pool_bytes [] acc n ys f a b = ap (λ l. some (l, ys)) (sym (append_nil acc))
read_pool-pool_bytes ((id, priv) ∷ m) acc n ys f a b =
    let tail = pool_bytes m ++ ys in
    let shape : (be32 id ++ (priv ++ pool_bytes m)) ++ ys ≡ be32 id ++ (priv ++ tail) =
      append_assoc (be32 id) (priv ++ pool_bytes m) ys
      ∙ ap (λ l. be32 id ++ l) (append_assoc priv (pool_bytes m) ys) in
    let at_end = insert-append id priv acc (Below-le n id acc a.0 b) in
    rw (shape, read_u32-be32 id (priv ++ tail) f.0)
      (rw (read_raw-append 32 priv tail f.1) (
        rw (at_end) (
          read_pool-pool_bytes m (acc ++ (id, priv) ∷ []) (suc id) ys f.2 a.1
            (Below-append n id priv acc a.0 b)
          ∙ ap (λ l. some (l, ys)) (append_assoc acc ((id, priv) ∷ []) m))))

length-be64 : (t : ℤ) → length (be64 t) ≡ 8
unfolding be64
length-be64 t =
    let w = word_of_ℤ t in
    omega (
      arith,
      length-append (be32 (w / 2 ^ 32)) (be32 (w % 2 ^ 32)),
      length-be32 (w / 2 ^ 32),
      length-be32 (w % 2 ^ 32),
    )

-- A key pair is stored whole or not at all.
abbrev pub IsPair : Bytes → Bytes → Type 0
IsPair priv pub_key = ((priv ≡ []) × (pub_key ≡ [])) ⊎ ((length priv ≡ 32) × (length pub_key ≡ 32))

abbrev previous_bytes : Bytes → Bytes → Bytes
previous_bytes priv pub_key = if is_empty priv then [] else priv ++ pub_key

read_previous-previous_bytes :
    (priv pub_key ys : Bytes)
    → IsPair priv pub_key
    → read_previous (length priv) (previous_bytes priv pub_key ++ ys) ≡ some ((priv, pub_key), ys)
unfolding read_previous
read_previous-previous_bytes priv pub_key ys (inl (e, k)) = rw (e, k) refl
read_previous-previous_bytes priv pub_key ys (inr (h, k)) =
    let full = is_empty_of_pos priv (omega (arith, h)) in
    rw (full, h, append_assoc priv pub_key ys, read_raw-append 32 priv (pub_key ++ ys) h)
      (rw (read_raw-append 32 pub_key ys k) refl)

pair_short : (priv pub_key : Bytes) → IsPair priv pub_key → length priv < 2 ^ 32
pair_short priv pub_key (inl (e, k)) = rw e (omega arith)
pair_short priv pub_key (inr (h, k)) = omega (arith, h)

read_rotation-bytes :
    (created retired : ℤ) (priv pub_key ys : Bytes)
    → IsWord created
    → IsWord retired
    → IsPair priv pub_key
    → read_rotation true (
        be64 created
        ++ (be64 retired ++ (be32 (length priv) ++ (previous_bytes priv pub_key ++ ys))))
      ≡ some ((created, retired, priv, pub_key), ys)
unfolding read_rotation
read_rotation-bytes created retired priv pub_key ys c r pair =
    let last = previous_bytes priv pub_key ++ ys in
    let short : length priv < 2 ^ 32 = pair_short priv pub_key pair in
    rw (read_i64-be64 created (be64 retired ++ (be32 (length priv) ++ last)) c) (
      rw (read_i64-be64 retired (be32 (length priv) ++ last) r) (
        rw (read_u32-be32 (length priv) last short)
          (rw (read_previous-previous_bytes priv pub_key ys pair) refl)))

-- The prekeys of a box as `generatePrekeys` and the rotation leave them.
pub record IsStorable (box : CryptoBox) : Type 0 where
  pub length-spk : length box.spk_priv ≡ 32
  pub length-sig : length box.spk_sig ≡ 64
  pub created : IsWord box.spk_created_ms
  pub dated : ltb_ℤ (pos 0) box.spk_created_ms ≡ true
  pub retired : IsWord box.prev_spk_retired_ms
  pub previous : IsPair box.prev_spk_priv box.prev_spk_pub
  pub next : box.next_opk_id < 2 ^ 32
  pub count : length box.opk_priv < 2 ^ 32
  pub fits : Fits box.opk_priv
  pub ascends : Ascends 0 box.opk_priv

-- What follows the retained key, and what follows the signature.
abbrev pool_part : CryptoBox → Bytes
pool_part box = be32 box.next_opk_id ++ (be32 (length box.opk_priv) ++ pool_bytes box.opk_priv)

abbrev rotation_part : CryptoBox → Bytes
rotation_part box =
    be64 box.spk_created_ms
    ++ (be64 box.prev_spk_retired_ms
        ++ (be32 (length box.prev_spk_priv)
            ++ (previous_bytes box.prev_spk_priv box.prev_spk_pub ++ pool_part box)))

abbrev stored : CryptoBox → Stored
stored box = record {
  spk_priv = box.spk_priv;
  spk_sig = box.spk_sig;
  is_current = true;
  rotation = (box.spk_created_ms, box.prev_spk_retired_ms, box.prev_spk_priv, box.prev_spk_pub);
  next_opk_id = box.next_opk_id;
  opk_priv = box.opk_priv;
}

read_pool-whole :
    (m : OrderedMap Bytes)
    → Fits m
    → Ascends 0 m
    → read_pool (length m) (pool_bytes m) [] ≡ some (m, [])
read_pool-whole m f a =
    ap (λ b. read_pool (length m) b []) (sym (append_nil (pool_bytes m)))
    ∙ read_pool-pool_bytes m [] 0 [] f a tt

parse_body-stored :
    (box : CryptoBox)
    → IsStorable box
    → parse_body true (box.spk_priv ++ (box.spk_sig ++ rotation_part box)) ≡ some (stored box)
unfolding parse_body
parse_body-stored box s =
    rw (read_raw-append 32 box.spk_priv (box.spk_sig ++ rotation_part box) s.length-spk) (
      rw (read_raw-append 64 box.spk_sig (rotation_part box) s.length-sig) (
        rw
          (read_rotation-bytes box.spk_created_ms box.prev_spk_retired_ms box.prev_spk_priv
            box.prev_spk_pub (pool_part box) s.created s.retired s.previous)
          (rw
            (read_u32-be32 box.next_opk_id (be32 (length box.opk_priv) ++ pool_bytes box.opk_priv)
              s.next)
            (rw (read_u32-be32 (length box.opk_priv) (pool_bytes box.opk_priv) s.count)
              (rw (read_pool-whole box.opk_priv s.fits s.ascends) refl)))))

serialise_prekeys-parts :
    (box : CryptoBox)
    → IsStorable box
    → serialise_prekeys box
      ≡ prekey_magic ++ (prekey_version ∷ (box.spk_priv ++ (box.spk_sig ++ rotation_part box)))
unfolding serialise_prekeys
serialise_prekeys-parts box s = rw (is_empty_of_pos box.spk_priv (omega (arith, s.length-spk))) refl

parse-serialise :
    (box : CryptoBox) → IsStorable box → parse_prekeys (serialise_prekeys box) ≡ some (stored box)
unfolding parse_prekeys bytes_beq
parse-serialise box s =
    let body = box.spk_priv ++ (box.spk_sig ++ rotation_part box) in
    let blob = prekey_magic ++ (prekey_version ∷ body) in
    let long : ltb (length blob) 113 ≡ false = ground (
      arith,
      length-append prekey_magic (prekey_version ∷ body),
      length-append box.spk_priv (box.spk_sig ++ rotation_part box),
      length-append box.spk_sig (rotation_part box),
      length-append (be64 box.spk_created_ms) (
          be64 box.prev_spk_retired_ms
          ++ (be32 (length box.prev_spk_priv)
              ++ (previous_bytes box.prev_spk_priv box.prev_spk_pub ++ pool_part box))),
      length-be64 box.spk_created_ms,
      s.length-spk,
      s.length-sig,
    ) in
    rw (serialise_prekeys-parts box s, long)
      (rw (read_raw-append 8 prekey_magic (prekey_version ∷ body) refl)
        (rw (read_raw-append 1 (prekey_version ∷ []) body refl) (parse_body-stored box s)))

-- Prekeys that were stored are restored, into whatever box: the keys, the times, the pool and the
-- next id are those that were stored, and the public signed prekey is computed from its private
-- half.
pub restore-serialise :
    (p : Platform) (box other : CryptoBox) (now : ℤ)
    → IsStorable box
    → restore_prekeys p other (serialise_prekeys box) now ≡ (
      record other {
        spk_priv = box.spk_priv;
        spk_pub = p.scalarmult_base box.spk_priv;
        spk_sig = box.spk_sig;
        spk_created_ms = box.spk_created_ms;
        prev_spk_priv = box.prev_spk_priv;
        prev_spk_pub = box.prev_spk_pub;
        prev_spk_retired_ms = box.prev_spk_retired_ms;
        opk_priv = box.opk_priv;
        next_opk_id = box.next_opk_id;
      },
      true,
    )
unfolding restore_prekeys
restore-serialise p box other now s = rw (parse-serialise box s, restore_prekeys) (rw s.dated refl)
