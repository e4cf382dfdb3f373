-- ===== src/Ratchet/Bound.antt =====
-- The bound on the store of skipped keys, over every step that a session takes.
use bachelor_s_thesis.Base.{
  ℕ, ◌≤◌, ◌≡◌, inl, inr, some, arith, Bytes, length, >>=-eq-some, bytes_eq, Option-cases,
}
use bachelor_s_thesis.Base.HashMap
use bachelor_s_thesis.Platform.{Platform}
use bachelor_s_thesis.Ratchet.Primitives.{skip_key}
use bachelor_s_thesis.Ratchet.Skipped.{max_skipped_total}
use bachelor_s_thesis.Ratchet.Cap.{length-enforce_skipped_cap}
use bachelor_s_thesis.Ratchet.Session.{
  RatchetSession, Frame, skip_to, dh_ratchet, turn, open_next, open_banked, open_ahead, receive,
}

abbrev pub IsBounded : RatchetSession → Type 0
IsBounded s = length s.skipped ≤ max_skipped_total

module _ (p : Platform) where
  skip_to-IsBounded :
      (s t : RatchetSession) (until : ℕ) → IsBounded s → skip_to p s until ≡ some t → IsBounded t
  unfolding skip_to
  skip_to-IsBounded s t until v h = grind (arith, length-enforce_skipped_cap)

  dh_ratchet-IsBounded :
      (s : RatchetSession) (dh_pub fresh : Bytes) → IsBounded (dh_ratchet p s dh_pub fresh)
  unfolding dh_ratchet
  dh_ratchet-IsBounded s dh_pub fresh = length-enforce_skipped_cap dh_pub _

  turn-IsBounded :
      (s t : RatchetSession) (dh_pub fresh : Bytes) (pn : ℕ)
      → IsBounded s
      → turn p s dh_pub pn fresh ≡ some t
      → IsBounded t
  unfolding turn
  turn-IsBounded s t dh_pub fresh pn v h = elim (Option-cases (skip_to p s pn)) [
    | inl e ↦ grind (arith, e)
    | inr (u, e) ↦ ground (arith, e, dh_ratchet-IsBounded u dh_pub fresh)
  ]

  open_next-IsBounded :
      (s t : RatchetSession) (cipher nonce ct ad pt : Bytes)
      → IsBounded s
      → open_next p s cipher nonce ct ad ≡ some (pt, t)
      → IsBounded t
  unfolding open_next
  open_next-IsBounded s t cipher nonce ct ad pt v h = ground arith

  open_banked-IsBounded :
      (s t : RatchetSession) (key mk cipher nonce ct ad pt : Bytes)
      → IsBounded s
      → open_banked p s key mk cipher nonce ct ad ≡ some (pt, t)
      → IsBounded t
  unfolding open_banked
  open_banked-IsBounded s t key mk cipher nonce ct ad pt v h =
      ground (arith, HashMap.length-remove key s.skipped)

  open_ahead-IsBounded :
      (s t : RatchetSession) (f : Frame) (fresh pt : Bytes)
      → IsBounded s
      → open_ahead p s f.cipher f.dh f.pn f.n f.nonce f.ct fresh ≡ some (pt, t)
      → IsBounded t
  unfolding open_ahead
  open_ahead-IsBounded s t f fresh pt v h =
      let (u, turned, h1) = >>=-eq-some (turn p s f.dh f.pn fresh) _ h in
      let (w, skipped, h2) = >>=-eq-some (skip_to p u f.n) _ h1 in
      open_next-IsBounded w t f.cipher f.nonce f.ct _ pt
        (skip_to-IsBounded u w f.n (turn-IsBounded s u f.dh fresh f.pn v turned) skipped) h2

  -- Whatever frame arrives, a session that is accepted holds at most 2000 banked keys if the
  -- session before it did.
  pub receive-IsBounded :
      (s t : RatchetSession) (f : Frame) (fresh pt : Bytes)
      → IsBounded s
      → receive p s f.cipher f.dh f.pn f.n f.nonce f.ct fresh ≡ some (pt, t)
      → IsBounded t
  unfolding receive
  receive-IsBounded s t f fresh pt v h =
      elim (Option-cases (HashMap.lookup (skip_key f.dh f.n) s.skipped)) [
        | inl e ↦ open_ahead-IsBounded s t f fresh pt v (rw (e, receive) at h)
        | inr (mk, e) ↦ open_banked-IsBounded s t _ mk _ _ _ _ pt v (rw (e, receive) at h)
      ]
