-- ===== src/X3dh/Hex.antt =====
-- `fromHex` and `toHex` of client/src/x3dh.cpp.
use bachelor_s_thesis.Base.{
  ℕ, ◌+◌, ◌-◌, ◌*◌, ◌/◌, ◌%◌, ◌<◌, ◌≡◌, refl, ap, ◌&&◌, Option, none, some, [], ◌∷◌, arith, Bytes,
  Text, leb, ltb, nat_beq, if◌then◌else◌, length, ◌>>=◌, >>=-eq-some, ◌⊎◌, inl, inr, Bool-cases,
  Option-cases,
}

-- The value of a hexadecimal digit; none is the source's -1.
unfoldable pub nib : ℕ → Option ℕ
nib c =
    if leb b'0' c && leb c b'9'
    then some (c - b'0')
    else if leb b'a' c && leb c b'f'
    then some (c - b'a' + 10)
    else if leb b'A' c && leb c b'F'
    then some (c - b'A' + 10)
    else none

-- The loop over the pairs; the test on the length stands before it.
unfoldable pub pairs_from_hex : Text → Option Bytes
pairs_from_hex [] = some []
pairs_from_hex (h ∷ []) = none
pairs_from_hex (h ∷ l ∷ rest) = do
  hi ← nib h
  lo ← nib l
  out ← pairs_from_hex rest
  some ((hi * 16 + lo) ∷ out)

abbrev or_nothing : Option Bytes → Bytes
or_nothing none = []
or_nothing (some b) = b

unfoldable pub from_hex : Text → Bytes
unfolding pairs_from_hex nib
from_hex hex = if nat_beq (length hex % 2) 0 then or_nothing (pairs_from_hex hex) else []

-- d[k] of "0123456789abcdef".
unfoldable pub hex_digit : ℕ → ℕ
hex_digit k = if ltb k 10 then b'0' + k else b'a' + (k - 10)

unfoldable pub to_hex : Bytes → Text
unfolding hex_digit
to_hex [] = []
to_hex (c ∷ cs) = hex_digit (c / 16) ∷ hex_digit (c % 16) ∷ to_hex cs

-- All entries are bytes.
abbrev pub IsBytes : Bytes → Type 0
IsBytes [] = Unit {0}
IsBytes (x ∷ xs) = (x < 256) × IsBytes xs

nib-hex_digit : (k : ℕ) → k < 16 → nib (hex_digit k) ≡ some k
unfolding nib hex_digit
nib-hex_digit k h = ground arith

pairs_from_hex-to_hex : (b : Bytes) → IsBytes b → pairs_from_hex (to_hex b) ≡ some b
unfolding pairs_from_hex to_hex
pairs_from_hex-to_hex [] h = refl
pairs_from_hex-to_hex (c ∷ cs) h =
    rw
      (
        nib-hex_digit (c / 16) (omega arith),
        nib-hex_digit (c % 16) (omega arith),
        pairs_from_hex-to_hex cs h.1,
      )
      (ap (λ k. some (k ∷ cs)) (omega arith))

length-to_hex : (b : Bytes) → length (to_hex b) ≡ 2 * length b
unfolding to_hex
length-to_hex [] = refl
length-to_hex (c ∷ cs) = omega (arith, length-to_hex cs)

-- Reading back what was written in hexadecimal gives the bytes again.
pub from_hex-to_hex : (b : Bytes) → IsBytes b → from_hex (to_hex b) ≡ b
unfolding from_hex
from_hex-to_hex b h = rw (pairs_from_hex-to_hex b h) (ground (arith, length-to_hex b))

nib-lt : (c k : ℕ) → nib c ≡ some k → k < 16
unfolding nib
nib-lt c k h = ground arith

-- What a decoded text is: twice as long as its bytes, and they are bytes.
pairs_from_hex-IsBytes :
    (t : Text) (b : Bytes) → pairs_from_hex t ≡ some b → IsBytes b × (2 * length b ≡ length t)
unfolding pairs_from_hex
pairs_from_hex-IsBytes [] b h = ground arith
pairs_from_hex-IsBytes (c ∷ []) b h = cc
pairs_from_hex-IsBytes (c ∷ d ∷ t) b h =
    let (hi, is_hi, h1) = >>=-eq-some (nib c) _ h in
    let (lo, is_lo, h2) = >>=-eq-some (nib d) _ h1 in
    let (out, is_out, h3) = >>=-eq-some (pairs_from_hex t) _ h2 in
    let (ok, size) = pairs_from_hex-IsBytes t out is_out in
    ground (arith, nib-lt c hi is_hi, nib-lt d lo is_lo)

-- Decoding gives the whole text or nothing: bytes, half as many as there are digits, or no byte.
pub from_hex-whole :
    (t : Text) → (from_hex t ≡ []) ⊎ (IsBytes (from_hex t) × (2 * length (from_hex t) ≡ length t))
unfolding from_hex
from_hex-whole t = elim (Option-cases (pairs_from_hex t)) [
  | inl e ↦ inl (rw e (ground arith))
  | inr (b, e) ↦ elim (Bool-cases (nat_beq (length t % 2) 0)) [
    | inl even ↦ inr (rw (even, e) (pairs_from_hex-IsBytes t b e))
    | inr odd ↦ inl (rw odd)
  ]
]
