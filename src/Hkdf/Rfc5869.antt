-- ===== src/Hkdf/Rfc5869.antt =====
-- The output loop against the blocks of RFC 5869, and the lengths that follow.
use mathlib.Core.List.{append-nil}
use bachelor_s_thesis.Base.{
  ℕ, zero, suc, ◌+◌, ◌-◌, ◌*◌, ◌%◌, ◌≤◌, ◌≡◌, refl, ap, sym, inl, inr, Option, none, List, [], ◌∷◌,
  ◌++◌, arith, Bytes, take, length, ltb, Bool-cases, length-append, length-take, ltb→lt, le→ltb,
  lt→ltb,
}
use bachelor_s_thesis.Platform.{Platform, IsLawful}
use bachelor_s_thesis.Hkdf.{expand, hkdf, hkdf_sha256, salt_or_zero}

take-append_le {ℓ} :
    {A : Type ℓ} (n : ℕ) (xs ys : List A) → n ≤ length xs → take n (xs ++ ys) ≡ take n xs
take-append_le zero xs ys h = refl
take-append_le (suc n) [] ys h = absurd (omega arith)
take-append_le (suc n) (x ∷ xs) ys h = ap (◌∷◌ x) (take-append_le n xs ys (omega arith))

take-append_ge {ℓ} :
    {A : Type ℓ} (n m : ℕ) (xs ys : List A)
    → n ≡ length xs + m
    → take n (xs ++ ys) ≡ xs ++ take m ys
take-append_ge n m [] ys h = let e : n ≡ m = omega arith in ap (λ k. take k ys) e
take-append_ge zero m (x ∷ xs) ys h = absurd (omega arith)
take-append_ge (suc n) m (x ∷ xs) ys h = ap (◌∷◌ x) (take-append_ge n m xs ys (omega arith))

take_all {ℓ} : {A : Type ℓ} (n : ℕ) (xs : List A) → length xs ≤ n → take n xs ≡ xs
take_all zero [] h = refl
take_all zero (x ∷ xs) h = absurd (omega arith)
take_all (suc n) [] h = refl
take_all (suc n) (x ∷ xs) h = ap (◌∷◌ x) (take_all n xs (omega arith))

module _ (p : Platform) (law : IsLawful p) where
  open p use {hmac}
  open law use {length-hmac}

  -- T(i) = HMAC(PRK, T(i-1) || info || i), from a given block on.
  unfoldable pub blocks : ℕ → Bytes → Bytes → Bytes → ℕ → Bytes
  blocks zero prk info t i = []
  blocks (suc n) prk info t i =
      let t' = hmac prk (t ++ info ++ (i % 256) ∷ []) in t' ++ blocks n prk info t' (i + 1)

  expand-zero :
      (fuel : ℕ) (prk info t : Bytes) (c left : ℕ) → left ≡ 0 → expand p fuel prk info t c left ≡ []
  unfolding expand
  expand-zero zero prk info t c left h = refl
  expand-zero (suc fuel) prk info t c left h = rw (le→ltb 0 left (omega arith))

  -- One round: the last block is cut, any other is taken whole.
  round_last :
      (fuel n left : ℕ) (prk info t' : Bytes) (c i : ℕ)
      → length t' ≡ 32
      → left ≤ 32
      → take left t' ++ expand p fuel prk info t' c (left - left)
        ≡ take left (t' ++ blocks n prk info t' i)
  round_last fuel n left prk info t' c i e h =
      rw (expand-zero fuel prk info t' c (left - left) (omega arith), append-nil)
        (sym (take-append_le left t' _ (omega arith)))

  round_whole :
      (left m : ℕ) (t' rest more : Bytes)
      → length t' ≡ 32
      → left ≡ 32 + m
      → rest ≡ take m more
      → take 32 t' ++ rest ≡ take left (t' ++ more)
  round_whole left m t' rest more e h r =
      rw (take_all 32 t' (omega arith), r) (sym (take-append_ge left m t' more (omega arith)))

  expand-blocks :
      (fuel n left : ℕ) (prk info t : Bytes) (c i : ℕ)
      → left ≤ fuel
      → left ≤ 32 * n
      → c ≡ i % 256
      → expand p fuel prk info t c left ≡ take left (blocks n prk info t i)
  unfolding expand blocks
  expand-blocks fuel n zero prk info t c i f b e = expand-zero fuel prk info t c 0 refl
  expand-blocks zero n (suc left) prk info t c i f b e = absurd (omega arith)
  expand-blocks (suc fuel) zero (suc left) prk info t c i f b e = absurd (omega arith)
  expand-blocks (suc fuel) (suc n) (suc left) prk info t c i f b e =
      rw (e, lt→ltb 0 (suc left) (omega arith))
        (elim (Bool-cases (ltb (suc left) 32)) [
          | inl small ↦ rw small (
              round_last fuel n (suc left) prk info _ _ (i + 1) (length-hmac _ _)
                (omega (arith, ltb→lt (suc left) 32)))
          | inr large ↦ rw large (
              round_whole (suc left) (suc left - 32) _ _ _ (length-hmac _ _) (ground arith) (
                expand-blocks fuel n (suc left - 32) prk info _ _ (i + 1) (omega arith)
                  (ground arith) (omega arith)))
        ])

  -- The bytes that hkdf gives are the first okm_len of as many RFC 5869 blocks as that takes.
  pub hkdf-blocks :
      (salt : Option Bytes) (ikm info : Bytes) (n okm_len : ℕ)
      → okm_len ≤ 32 * n
      → hkdf p salt ikm info okm_len
        ≡ take okm_len (blocks n (hmac (salt_or_zero p salt) ikm) info [] 1)
  unfolding hkdf
  hkdf-blocks salt ikm info n okm_len h =
      expand-blocks okm_len n okm_len _ info [] 1 1 (omega arith) h (omega arith)

  -- So `hkdf` fills the buffer exactly.
  pub length-blocks : (n : ℕ) (prk info t : Bytes) (i : ℕ) → length (blocks n prk info t i) ≡ 32 * n
  unfolding blocks
  length-blocks zero prk info t i = refl
  length-blocks (suc n) prk info t i =
      let t' = hmac prk (t ++ info ++ (i % 256) ∷ []) in
      omega (
        arith,
        length-append t' (blocks n prk info t' (i + 1)),
        length-hmac prk (t ++ info ++ (i % 256) ∷ []),
        length-blocks n prk info t' (i + 1),
      )

  pub length-hkdf :
      (salt : Option Bytes) (ikm info : Bytes) (okm_len : ℕ)
      → length (hkdf p salt ikm info okm_len) ≡ okm_len
  length-hkdf salt ikm info okm_len =
      let prk = hmac (salt_or_zero p salt) ikm in
      rw (hkdf-blocks salt ikm info okm_len okm_len (omega arith)) (
        omega (
          arith,
          length-take okm_len (blocks okm_len prk info [] 1),
          length-blocks okm_len prk info [] 1,
        ))

  -- The file helper is the same function for keys of at most one block.
  pub hkdf_sha256-eq-hkdf :
      (ikm info : Bytes) (okm_len : ℕ)
      → okm_len ≤ 32
      → hkdf_sha256 p ikm info okm_len ≡ hkdf p none ikm info okm_len
  unfolding hkdf_sha256 blocks
  hkdf_sha256-eq-hkdf ikm info okm_len h =
      rw (hkdf-blocks none ikm info 1 okm_len (omega arith), append-nil) (ground arith)
