-- ===== src/Ratchet/Reorder.antt =====
-- Two frames of one chain that arrive in the wrong order (client/src/cryptobox.cpp).
use bachelor_s_thesis.Base.{
  ◌+◌, ◌^◌, ◌≤◌, ◌<◌, ◌≡◌, refl, ap, sym, ◌∙◌, none, some, arith, Bytes, length, bytes_eq, beq_refl,
}
use bachelor_s_thesis.Base.HashMap
use bachelor_s_thesis.Platform.{Platform, IsLawful}
use bachelor_s_thesis.Ratchet.Primitives.{skip_key, ad_bytes, kdf_ck, cipher_xchacha}
use bachelor_s_thesis.Ratchet.Skipped.{max_skip, max_skipped_total}
use bachelor_s_thesis.Ratchet.Session.{RatchetSession, u32, open_banked, receive}
use bachelor_s_thesis.Ratchet.Chain.{skip_to_banks}
use bachelor_s_thesis.Ratchet.Delivery.{Follows, frame_of, receive_ahead, aead_opens}

module _ (p : Platform) (law : IsLawful p) where
  -- A frame whose key is banked opens with it, uses it up and moves nothing else.
  receive_banked :
      (s r : RatchetSession) (pt nonce fresh : Bytes)
      → HashMap.lookup (skip_key s.dhs_pub s.ns) r.skipped ≡ some (kdf_ck p s.cks).1
      → let f = frame_of p s pt nonce in
        receive p r f.cipher f.dh f.pn f.n f.nonce f.ct fresh
        ≡ some (pt, record r { skipped = HashMap.remove (skip_key s.dhs_pub s.ns) r.skipped })
  unfolding receive open_banked
  receive_banked s r pt nonce fresh banked =
      rw (banked, receive)
        (rw (
          aead_opens p law (kdf_ck p s.cks).1 nonce pt
            (ad_bytes cipher_xchacha s.dhs_pub s.pn s.ns)))

  -- Of two frames of one chain the later arrives first and the earlier one after it: both open to
  -- what was sent, the key of the late one is then gone, and the chain has not moved back. The
  -- later frame is at most 1000 ahead of the receiver and no key is banked for it, the counters are
  -- more than 1000 below 2 ^ 32, and the store has room for 1000 more keys.
  pub receive_reordered :
      (s u r : RatchetSession) (pt qt nonce nonce' fresh fresh' : Bytes)
      → Follows p s r
      → Follows p u r
      → s.ns < u.ns
      → u.ns ≤ r.nr + max_skip
      → u.ns + max_skip + 1 < 2 ^ 32
      → length r.skipped + max_skip ≤ max_skipped_total
      → HashMap.lookup (skip_key u.dhs_pub u.ns) r.skipped ≡ none
      → let f = frame_of p s pt nonce in
        let g = frame_of p u qt nonce' in
        (r1 r2 : RatchetSession) × (receive p r g.cipher g.dh g.pn g.n g.nonce g.ct fresh
          ≡ some (qt, r1))
        × (receive p r1 f.cipher f.dh f.pn f.n f.nonce f.ct fresh' ≡ some (pt, r2))
        × (HashMap.lookup (skip_key f.dh f.n) r2.skipped ≡ none)
        × (r2.nr ≡ u.ns + 1)
        × (r2.ckr ≡ r1.ckr)
  receive_reordered s u r pt qt nonce nonce' fresh fresh' f g before gap range room unbanked =
      let (t, skips, opened, next) = receive_ahead p law u r qt nonce' fresh g gap range unbanked in
      let key = skip_key s.dhs_pub s.ns in
      let banked =
        (skip_to_banks p r t u.ns s.ns (omega (arith, g.behind)) room g.receiving f.behind before
          skips).0 in
      let r1 : RatchetSession = record t { ckr = (kdf_ck p u.cks).0; nr = u32 (u.ns + 1) } in
      let r2 : RatchetSession = record r1 { skipped = HashMap.remove key r1.skipped } in
      let found : HashMap.lookup key r1.skipped ≡ some (kdf_ck p s.cks).1 =
        ap (λ (d : Bytes). HashMap.lookup (skip_key d s.ns) t.skipped) f.dh
        ∙ banked
        ∙ ap (λ (c : Bytes). some (kdf_ck p c).1) (sym f.keys) in
      (
        r1,
        r2,
        opened,
        receive_banked s r1 pt nonce fresh' found,
        HashMap.lookup-remove key key r1.skipped ∙ rw (beq_refl key),
        omega arith,
        refl,
      )
