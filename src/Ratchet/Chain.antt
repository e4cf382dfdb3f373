-- ===== src/Ratchet/Chain.antt =====
-- `skipTo` and the receiving chain: which keys it derives and where it banks them.
use bachelor_s_thesis.Base.{
  ℕ, zero, suc, ◌+◌, ◌-◌, ◌^◌, ◌≤◌, ◌<◌, ◌≡◌, ◌≢◌, ◌↔◌, refl, ap, ◌∙◌, inl, inr, ◌⊎◌, true, false,
  none, some, List, [], ◌∷◌, ◌++◌, arith, Bytes, length, is_empty, be32, bytes_eq, bytes_beq_iff,
  bytes_beq, Bool-cases,
}
use bachelor_s_thesis.Base.HashMap.{HashMap, lookup, lookup-insert, length-insert}
use bachelor_s_thesis.Platform.{Platform}
use bachelor_s_thesis.Ratchet.Primitives.{skip_key, kdf_ck}
use bachelor_s_thesis.Ratchet.Skipped.{max_skip, max_skipped_total}
use bachelor_s_thesis.Ratchet.Cap.{enforce_skipped_cap_id}
use bachelor_s_thesis.Ratchet.Session.{RatchetSession, bank, bank_all, capped, skip_to}

append_cancel {ℓ} : {A : Type ℓ} (xs ys zs : List A) → xs ++ ys ≡ xs ++ zs → ys ≡ zs
append_cancel [] ys zs h = h
append_cancel (x ∷ xs) ys zs h = append_cancel xs ys zs (cc)

be32-injective : (m n : ℕ) → m < 2 ^ 32 → n < 2 ^ 32 → be32 m ≡ be32 n → m ≡ n
unfolding be32
be32-injective m n h k e = ground arith

-- Two message numbers of one generation never share an entry of the store of banked keys.
pub skip_key-injective :
    (dh : Bytes) (m n : ℕ) → m < 2 ^ 32 → n < 2 ^ 32 → skip_key dh m ≡ skip_key dh n → m ≡ n
unfolding skip_key
skip_key-injective dh m n h k e = be32-injective m n h k (append_cancel dh _ _ e)

skip_key-ne :
    (dh : Bytes) (m n : ℕ)
    → m < 2 ^ 32
    → n < 2 ^ 32
    → m ≢ n
    → bytes_beq (skip_key dh m) (skip_key dh n) ≡ false
skip_key-ne dh m n h k ne = elim (Bool-cases (bytes_beq (skip_key dh m) (skip_key dh n))) [
  | inl same ↦ absurd (ne (skip_key-injective dh m n h k ((bytes_beq_iff _ _).0 same)))
  | inr other ↦ other
]

module _ (p : Platform) where
  -- The chain key after some steps, and the key of the message at that place.
  unfoldable pub chain_key : Bytes → ℕ → Bytes
  chain_key ck zero = ck
  chain_key ck (suc k) = chain_key (kdf_ck p ck).0 k

  abbrev pub message_key : Bytes → ℕ → Bytes
  message_key ck k = (kdf_ck p (chain_key ck k)).1

  pub chain_key-suc : (ck : Bytes) (k : ℕ) → chain_key ck (suc k) ≡ (kdf_ck p (chain_key ck k)).0
  unfolding chain_key
  chain_key-suc ck zero = refl
  chain_key-suc ck (suc k) = chain_key-suc (kdf_ck p ck).0 k

  -- What the loop leaves alone, and how far it gets.
  pub record Banked (s t : RatchetSession) (k : ℕ) : Type 0 where
    pub ckr : t.ckr ≡ chain_key s.ckr k
    pub nr : t.nr ≡ s.nr + k
    pub dhr_pub : t.dhr_pub ≡ s.dhr_pub
    pub have_dhr : t.have_dhr ≡ s.have_dhr
    pub rk : t.rk ≡ s.rk
    pub dhs_priv : t.dhs_priv ≡ s.dhs_priv
    pub dhs_pub : t.dhs_pub ≡ s.dhs_pub
    pub cks : t.cks ≡ s.cks
    pub ns : t.ns ≡ s.ns
    pub pn : t.pn ≡ s.pn
    pub size : length t.skipped ≤ length s.skipped + k

  pub bank_all-Banked :
      (k : ℕ) (s : RatchetSession) → s.nr + k < 2 ^ 32 → Banked s (bank_all p k s) k
  unfolding bank_all bank chain_key
  bank_all-Banked zero s h = ground arith
  bank_all-Banked (suc k) s h = ground (
    arith,
    bank_all-Banked k (bank p s),
    length-insert (skip_key s.dhr_pub s.nr) (kdf_ck p s.ckr).1 s.skipped,
  )

  -- A number outside the range that the loop covers keeps the entry that it had.
  lookup-bank_all_other :
      (k n : ℕ) (s : RatchetSession)
      → s.nr + k < 2 ^ 32
      → n < 2 ^ 32
      → (n < s.nr) ⊎ (s.nr + k ≤ n)
      → lookup (skip_key s.dhr_pub n) (bank_all p k s).skipped
        ≡ lookup (skip_key s.dhr_pub n) s.skipped
  unfolding bank_all bank
  lookup-bank_all_other zero n s h m out = refl
  lookup-bank_all_other (suc k) n s h m out = ground (
    arith,
    lookup-bank_all_other k n (bank p s),
    lookup-insert (skip_key s.dhr_pub s.nr) (skip_key s.dhr_pub n) (kdf_ck p s.ckr).1 s.skipped,
    skip_key-ne s.dhr_pub s.nr n,
  )

  -- The loop banks, for each number that it passes, that message's key.
  pub lookup-bank_all :
      (k j n : ℕ) (s : RatchetSession)
      → s.nr + k < 2 ^ 32
      → j < k
      → n ≡ s.nr + j
      → lookup (skip_key s.dhr_pub n) (bank_all p k s).skipped ≡ some (message_key s.ckr j)
  unfolding bank_all bank chain_key
  lookup-bank_all zero j n s h lt e = absurd (omega arith)
  lookup-bank_all (suc k) zero n s h lt e = ground (
    arith,
    lookup-bank_all_other k n (bank p s),
    lookup-insert (skip_key s.dhr_pub s.nr) (skip_key s.dhr_pub n) (kdf_ck p s.ckr).1 s.skipped,
    bytes_beq_iff (skip_key s.dhr_pub s.nr) (skip_key s.dhr_pub n),
  )
  lookup-bank_all (suc k) (suc j) n s h lt e = ground (arith, lookup-bank_all k j n (bank p s))

  -- A call that goes through, where the counter is far from its end, advances the chain to
  -- `until`, or leaves the session alone when `until` is behind or there is no chain yet.
  pub skip_to_cases :
      (s t : RatchetSession) (until : ℕ)
      → s.nr + max_skip < 2 ^ 32
      → skip_to p s until ≡ some t
      → (until ≤ s.nr + max_skip)
        × (((is_empty s.ckr ≡ true) × (t ≡ s))
            ⊎ ((is_empty s.ckr ≡ false) × (t ≡ capped p (bank_all p (until - s.nr) s))))
  unfolding skip_to
  skip_to_cases s t until h e = ground arith

  -- A gap of more than 1000 is refused, and no other.
  pub skip_to_refuses :
      (s : RatchetSession) (until : ℕ)
      → s.nr + max_skip < 2 ^ 32
      → (skip_to p s until ≡ none) ↔ (s.nr + max_skip < until)
  unfolding skip_to
  skip_to_refuses s until h = ground arith

  capped_id : (s : RatchetSession) → length s.skipped ≤ max_skipped_total → capped p s ≡ s
  capped_id s h =
      ap (λ (m : HashMap Bytes Bytes). record s { skipped = m })
        (enforce_skipped_cap_id s.dhr_pub s.skipped h)

  -- With room in the store the cap does nothing.
  pub skip_to-bank_all :
      (s t : RatchetSession) (until : ℕ)
      → s.nr + max_skip < 2 ^ 32
      → length s.skipped + max_skip ≤ max_skipped_total
      → is_empty s.ckr ≡ false
      → skip_to p s until ≡ some t
      → t ≡ bank_all p (until - s.nr) s
  skip_to-bank_all s t until h room chain e = elim (skip_to_cases s t until h e).1 [
    | inl (none_yet, _) ↦ cc
    | inr (_, same) ↦
        let gap = (skip_to_cases s t until h e).0 in
        let b = bank_all-Banked (until - s.nr) s (omega arith) in
        same ∙ capped_id (bank_all p (until - s.nr) s) (omega (arith, b.size))
  ]

  -- After a gap that is accepted every message in it can still be opened: its key is banked under
  -- its number, and the chain stands at the number that was asked for. There is a receiving chain,
  -- its counter is more than 1000 below 2 ^ 32, and the store has room for 1000 more keys.
  pub skip_to_banks :
      (s t : RatchetSession) (until n : ℕ)
      → s.nr + max_skip < 2 ^ 32
      → length s.skipped + max_skip ≤ max_skipped_total
      → is_empty s.ckr ≡ false
      → s.nr ≤ n
      → n < until
      → skip_to p s until ≡ some t
      → (lookup (skip_key s.dhr_pub n) t.skipped ≡ some (message_key s.ckr (n - s.nr)))
        × (t.nr ≡ until)
        × (t.ckr ≡ chain_key s.ckr (until - s.nr))
  skip_to_banks s t until n h room chain lo hi e =
      let same = skip_to-bank_all s t until h room chain e in
      let b = bank_all-Banked (until - s.nr) s (omega (arith, (skip_to_cases s t until h e).0)) in
      rw same (
        lookup-bank_all (until - s.nr) (n - s.nr) n s
            (omega (arith, (skip_to_cases s t until h e).0)) (omega arith) (omega arith),
        omega (arith, b.nr),
        b.ckr,
      )
