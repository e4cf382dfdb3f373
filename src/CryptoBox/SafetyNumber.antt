-- ===== src/CryptoBox/SafetyNumber.antt =====
-- `safetyNumber` of client/src/cryptobox.cpp: the number that two users compare.
use bachelor_s_thesis.Base.{
  ℕ, zero, suc, ◌+◌, ◌*◌, ◌-◌, ◌/◌, ◌%◌, ◌^◌, ◌<◌, ◌≤◌, ◌≡◌, refl, inl, inr, ◌⊎◌, true, false, not,
  ◌||◌, [], ◌∷◌, ◌++◌, arith, Bytes, Text, length, replicate, get_elem?, none, some, nat_beq, ltb,
  if◌then◌else◌, length-append, length-replicate, Bool-cases, bytes_eq,
}
use bachelor_s_thesis.Platform.{Platform}
use bachelor_s_thesis.CryptoBox.State.{memcmp_lt}

-- `QString::number`: the decimal digits, at most as many as the fuel.
unfoldable pub decimal : ℕ → ℕ → Text
decimal zero v = []
decimal (suc fuel) v =
    let rest = decimal fuel (v / 10) in
    if ltb v 10 then (48 + v) ∷ [] else rest ++ (48 + v % 10) ∷ []

-- `rightJustified`: filled up on the left.
unfoldable pub right_justified : ℕ → ℕ → Text → Text
right_justified width fill t = replicate (width - length t) fill ++ t

-- The byte of the digest; the digest has 32.
abbrev pub digit_at : Bytes → ℕ → ℕ
digit_at digest i = elim (get_elem? digest i) [ none ↦ 0 | some b ↦ b ]

-- Four bytes of the digest as a big-endian number.
abbrev pub word_at : Bytes → ℕ → ℕ
word_at digest i =
    digit_at digest i * 2 ^ 24
    + digit_at digest (i + 1) * 2 ^ 16
    + digit_at digest (i + 2) * 2 ^ 8
    + digit_at digest (i + 3)

-- Five digits of a word. A number below 2 ^ 32 has at most ten.
unfoldable pub group : Bytes → ℕ → Text
group digest g = right_justified 5 48 (decimal 10 (word_at digest (g * 4) % 100000))

-- The groups from `g` on, joined by a space.
unfoldable pub join_groups : ℕ → ℕ → Bytes → Text
join_groups zero g digest = []
join_groups (suc zero) g digest = group digest g
join_groups (suc (suc more)) g digest = group digest g ++ 32 ∷ join_groups (suc more) (suc g) digest

module _ (p : Platform) where
  -- Both sides sort the two keys alike.
  unfoldable pub safety_digest : Bytes → Bytes → Bytes
  safety_digest a b = if memcmp_lt 32 b a then p.sha256 (b ++ a) else p.sha256 (a ++ b)

  unfoldable pub safety_number : Text → Text → Text
  safety_number hex_a hex_b =
      let a = p.from_hex hex_a in
      let b = p.from_hex hex_b in
      if not (nat_beq (length a) 32) || not (nat_beq (length b) 32)
      then []
      else join_groups 6 0 (safety_digest a b)

-- Where neither of two keys of one length sorts first they are one key.
memcmp_lt-total :
    (n : ℕ) (a b : Bytes)
    → length a ≡ n
    → length b ≡ n
    → memcmp_lt n a b ≡ false
    → memcmp_lt n b a ≡ false
    → a ≡ b
unfolding memcmp_lt
memcmp_lt-total zero [] [] h k x y = refl
memcmp_lt-total zero (x ∷ a) b h k l m = absurd (omega arith)
memcmp_lt-total zero [] (y ∷ b) h k l m = absurd (omega arith)
memcmp_lt-total (suc n) [] b h k l m = absurd (omega arith)
memcmp_lt-total (suc n) (x ∷ a) [] h k l m = absurd (omega arith)
memcmp_lt-total (suc n) (x ∷ a) (y ∷ b) h k l m = ground (arith, memcmp_lt-total n a b)

memcmp_lt-asym : (n : ℕ) (a b : Bytes) → memcmp_lt n a b ≡ true → memcmp_lt n b a ≡ false
unfolding memcmp_lt
memcmp_lt-asym zero a b h = refl
memcmp_lt-asym (suc n) [] b h = absurd cc
memcmp_lt-asym (suc n) (x ∷ a) [] h = refl
memcmp_lt-asym (suc n) (x ∷ a) (y ∷ b) h = ground (arith, memcmp_lt-asym n a b)

length-decimal : (fuel k v : ℕ) → v < 10 ^ suc k → length (decimal fuel v) ≤ suc k
unfolding decimal
length-decimal zero k v h = omega arith
length-decimal (suc fuel) zero v h = ground arith
length-decimal (suc fuel) (suc k) v h = ground (
  arith,
  length-append (decimal fuel (v / 10)) ((48 + v % 10) ∷ []),
  length-decimal fuel k (v / 10) (omega arith),
)

length-right_justified :
    (width fill : ℕ) (t : Text) → length t ≤ width → length (right_justified width fill t) ≡ width
unfolding right_justified
length-right_justified width fill t h = omega (
  arith,
  length-append (replicate (width - length t) fill) t,
  length-replicate (width - length t) fill,
)

length-group : (digest : Bytes) (g : ℕ) → length (group digest g) ≡ 5
unfolding group
length-group digest g =
    let v = word_at digest (g * 4) % 100000 in
    length-right_justified 5 48 (decimal 10 v) (length-decimal 10 4 v (omega arith))

-- A character of the number: a digit or a space.
abbrev pub IsShown : Text → Type 0
IsShown [] = Unit {0}
IsShown (c ∷ t) = ((c ≡ 32) ⊎ ((48 ≤ c) × (c < 58))) × IsShown t

IsShown-append : (s t : Text) → IsShown s → IsShown t → IsShown (s ++ t)
IsShown-append [] t h k = k
IsShown-append (c ∷ s) t h k = (h.0, IsShown-append s t h.1 k)

IsShown-decimal : (fuel v : ℕ) → IsShown (decimal fuel v)
unfolding decimal
IsShown-decimal zero v = tt
IsShown-decimal (suc fuel) v = elim (Bool-cases (ltb v 10)) [
  | inl e ↦ rw e (inr (omega arith, ground arith), tt)
  | inr e ↦ rw e (
      IsShown-append (decimal fuel (v / 10)) ((48 + v % 10) ∷ []) (IsShown-decimal fuel (v / 10))
        (inr (omega arith, omega arith), tt))
]

IsShown-replicate : (n : ℕ) → IsShown (replicate n 48)
IsShown-replicate zero = tt
IsShown-replicate (suc n) = (inr (omega arith, omega arith), IsShown-replicate n)

IsShown-group : (digest : Bytes) (g : ℕ) → IsShown (group digest g)
unfolding group right_justified
IsShown-group digest g =
    let shown = decimal 10 (word_at digest (g * 4) % 100000) in
    IsShown-append (replicate (5 - length shown) 48) shown (IsShown-replicate (5 - length shown))
      (IsShown-decimal 10 (word_at digest (g * 4) % 100000))

length-join_groups :
    (more g : ℕ) (digest : Bytes) → length (join_groups (suc more) g digest) ≡ more * 6 + 5
unfolding join_groups
length-join_groups zero g digest = length-group digest g
length-join_groups (suc more) g digest = omega (
  arith,
  length-append (group digest g) (32 ∷ join_groups (suc more) (suc g) digest),
  length-group digest g,
  length-join_groups more (suc g) digest,
)

IsShown-join_groups : (more g : ℕ) (digest : Bytes) → IsShown (join_groups (suc more) g digest)
unfolding join_groups
IsShown-join_groups zero g digest = IsShown-group digest g
IsShown-join_groups (suc more) g digest =
    IsShown-append (group digest g) (32 ∷ join_groups (suc more) (suc g) digest)
      (IsShown-group digest g) (inl refl, IsShown-join_groups more (suc g) digest)

module _ (p : Platform) where
  safety_digest_comm :
      (a b : Bytes) → length a ≡ 32 → length b ≡ 32 → safety_digest p a b ≡ safety_digest p b a
  unfolding safety_digest
  safety_digest_comm a b h k =
      ground (arith, memcmp_lt-asym 32 a b, memcmp_lt-asym 32 b a, memcmp_lt-total 32 a b h k)

  -- The two users see one safety number, whichever key comes first.
  pub safety_number_comm :
      (hex_a hex_b : Text) → safety_number p hex_a hex_b ≡ safety_number p hex_b hex_a
  unfolding safety_number
  safety_number_comm hex_a hex_b =
      ground (arith, safety_digest_comm (p.from_hex hex_a) (p.from_hex hex_b))

  -- For two keys of 32 bytes the number has 35 characters, each a digit or a space.
  pub safety_number-IsShown :
      (hex_a hex_b : Text)
      → length (p.from_hex hex_a) ≡ 32
      → length (p.from_hex hex_b) ≡ 32
      → (length (safety_number p hex_a hex_b) ≡ 35) × IsShown (safety_number p hex_a hex_b)
  unfolding safety_number
  safety_number-IsShown hex_a hex_b h k =
      let digest = safety_digest p (p.from_hex hex_a) (p.from_hex hex_b) in
      rw (h, k) (length-join_groups 5 0 digest, IsShown-join_groups 5 0 digest)
