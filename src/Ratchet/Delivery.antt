-- ===== src/Ratchet/Delivery.antt =====
-- One sender and one receiver of client/src/cryptobox.cpp: frames in order, out of order, and
-- over a change of the ratchet key.
use bachelor_s_thesis.Base.{
  ℕ, zero, suc, ◌+◌, ◌-◌, ◌^◌, ◌≤◌, ◌<◌, ◌≡◌, refl, ap, sym, ◌∙◌, true, false, none, some, [], ◌∷◌,
  arith, Bytes, is_empty, is_empty_of_pos, bytes_eq, bytes_beq, bytes_beq_iff, beq_refl,
}
use bachelor_s_thesis.Base.HashMap
use bachelor_s_thesis.Platform.{Platform, IsLawful}
use bachelor_s_thesis.Ratchet.Primitives.{
  skip_key, ad_bytes, kdf_ck, aead_encrypt, aead_decrypt, cipher_xchacha,
}
use bachelor_s_thesis.Ratchet.Skipped.{max_skip}
use bachelor_s_thesis.Ratchet.Session.{
  RatchetSession, Frame, u32, bank_all, capped, skip_to, turn, open_next, open_ahead, receive, send,
}
use bachelor_s_thesis.Ratchet.Chain.{chain_key, bank_all-Banked}

module _ (p : Platform) where
  -- The receiver stands on the chain that the sender sends on, at the same place or behind it.
  pub record Follows (s r : RatchetSession) : Type 0 where
    pub dh : s.dhs_pub ≡ r.dhr_pub
    pub have_dhr : r.have_dhr ≡ true
    pub receiving : is_empty r.ckr ≡ false
    pub sending : is_empty s.cks ≡ false
    pub behind : r.nr ≤ s.ns
    pub keys : s.cks ≡ chain_key p r.ckr (s.ns - r.nr)

  -- The frame that a session sends, and the session after it.
  abbrev pub frame_of : RatchetSession → Bytes → Bytes → Frame
  frame_of s pt nonce = record {
    cipher = cipher_xchacha;
    dh = s.dhs_pub;
    pn = s.pn;
    n = s.ns;
    nonce = nonce;
    ct =
        aead_encrypt p cipher_xchacha (kdf_ck p s.cks).1 nonce pt
          (ad_bytes cipher_xchacha s.dhs_pub s.pn s.ns);
  }

  abbrev pub sent : RatchetSession → RatchetSession
  sent s = record s { cks = (kdf_ck p s.cks).0; ns = u32 (s.ns + 1) }

  pub send_lem :
      (s : RatchetSession) (pt nonce : Bytes)
      → is_empty s.cks ≡ false
      → send p s pt nonce ≡ some (frame_of s pt nonce, sent s)
  unfolding send
  send_lem s pt nonce h = rw h

  -- How far a receiver gets when it skips up to the sender.
  pub skip_to-Follows :
      (s r : RatchetSession)
      → Follows s r
      → s.ns ≤ r.nr + max_skip
      → r.nr + max_skip < 2 ^ 32
      → (t : RatchetSession) × (skip_to p r s.ns ≡ some t)
        × (t.ckr ≡ s.cks)
        × (t.nr ≡ s.ns)
        × (t.dhr_pub ≡ r.dhr_pub)
        × (t.have_dhr ≡ true)
  unfolding skip_to
  skip_to-Follows s r f gap range =
      let b = bank_all-Banked p (s.ns - r.nr) r (omega (arith, f.behind)) in
      (
        capped p (bank_all p (s.ns - r.nr) r),
        ground (arith, f.receiving),
        b.ckr ∙ sym f.keys,
        omega (arith, b.nr, f.behind),
        b.dhr_pub,
        b.have_dhr ∙ f.have_dhr,
      )

  pub turn-same :
      (r : RatchetSession) (dh_pub fresh : Bytes) (pn : ℕ)
      → r.have_dhr ≡ true
      → dh_pub ≡ r.dhr_pub
      → turn p r dh_pub pn fresh ≡ some r
  unfolding turn
  turn-same r dh_pub fresh pn h e =
      ground (arith, beq_refl r.dhr_pub, bytes_beq_iff dh_pub r.dhr_pub)

module _ (p : Platform) (law : IsLawful p) where
  open p use {scalarmult_base}

  pub aead_opens :
      (mk nonce pt ad : Bytes)
      → aead_decrypt p cipher_xchacha mk nonce (aead_encrypt p cipher_xchacha mk nonce pt ad) ad
        ≡ some pt
  unfolding aead_encrypt aead_decrypt bytes_beq
  aead_opens mk nonce pt ad = law.xchacha_open mk nonce pt ad

  pub next_chain : (ck : Bytes) → is_empty (kdf_ck p ck).0 ≡ false
  unfolding kdf_ck
  next_chain ck = is_empty_of_pos _ (omega (arith, law.length-hmac ck (0x02 ∷ [])))

  -- The receiver's last step on a session that has caught up with the sender.
  pub open_next-sent :
      (s t : RatchetSession) (pt nonce : Bytes)
      → t.ckr ≡ s.cks
      → t.nr ≡ s.ns
      → open_next p t cipher_xchacha nonce
          (frame_of p s pt nonce).ct
          (ad_bytes cipher_xchacha s.dhs_pub s.pn s.ns)
        ≡ some (pt, record t { ckr = (kdf_ck p s.cks).0; nr = u32 (s.ns + 1) })
  unfolding open_next
  open_next-sent s t pt nonce e k =
      let mk = (kdf_ck p s.cks).1 in
      ground (
        arith,
        aead_opens mk nonce pt (ad_bytes cipher_xchacha s.dhs_pub s.pn s.ns),
        ap (kdf_ck p) e,
      )

  pub chain_key-zero : (ck : Bytes) (k : ℕ) → k ≡ 0 → chain_key p ck k ≡ ck
  unfolding chain_key
  chain_key-zero ck zero h = refl
  chain_key-zero ck (suc k) h = absurd (omega arith)

  pub sent-Follows :
      (s r t : RatchetSession)
      → Follows p s r
      → s.ns + 1 < 2 ^ 32
      → t.dhr_pub ≡ r.dhr_pub
      → t.have_dhr ≡ true
      → Follows p (sent p s) (record t { ckr = (kdf_ck p s.cks).0; nr = u32 (s.ns + 1) })
  sent-Follows s r t f range same have = record {
    dh = f.dh ∙ sym same;
    have_dhr = have;
    receiving = next_chain s.cks;
    sending = next_chain s.cks;
    behind = omega arith;
    keys = sym (chain_key-zero (kdf_ck p s.cks).0 _ (omega arith));
  }

  -- A frame that the receiver has not banked a key for, on the receiver's own chain.
  pub receive_ahead :
      (s r : RatchetSession) (pt nonce fresh : Bytes)
      → Follows p s r
      → s.ns ≤ r.nr + max_skip
      → s.ns + max_skip + 1 < 2 ^ 32
      → HashMap.lookup (skip_key s.dhs_pub s.ns) r.skipped ≡ none
      → let f = frame_of p s pt nonce in
        (t : RatchetSession) × (skip_to p r s.ns ≡ some t)
        × (receive p r f.cipher f.dh f.pn f.n f.nonce f.ct fresh
            ≡ some (pt, record t { ckr = (kdf_ck p s.cks).0; nr = u32 (s.ns + 1) }))
        × Follows p (sent p s) (record t { ckr = (kdf_ck p s.cks).0; nr = u32 (s.ns + 1) })
  unfolding receive open_ahead
  receive_ahead s r pt nonce fresh f gap range unbanked =
      let (t, skips, at_key, at_nr, at_dhr, have) =
        skip_to-Follows p s r f gap (omega (arith, f.behind)) in
      (
        t,
        skips,
        rw (unbanked, receive)
            (rw (turn-same p r s.dhs_pub fresh s.pn f.have_dhr f.dh)
              (rw skips (open_next-sent s t pt nonce at_key at_nr))),
        sent-Follows s r t f (omega arith) at_dhr have,
      )

  -- A frame that is not older than the receiver's place opens to the text that was sent, whatever
  -- was lost on the way (1000 frames at most), and the receiver then stands right behind it.
  pub receive-send :
      (s r : RatchetSession) (pt nonce fresh : Bytes)
      → Follows p s r
      → s.ns ≤ r.nr + max_skip
      → s.ns + max_skip + 1 < 2 ^ 32
      → HashMap.lookup (skip_key s.dhs_pub s.ns) r.skipped ≡ none
      → (f : Frame) × (s' r' : RatchetSession) × (send p s pt nonce ≡ some (f, s'))
        × (receive p r f.cipher f.dh f.pn f.n f.nonce f.ct fresh ≡ some (pt, r'))
        × Follows p s' r'
        × (r'.nr ≡ s'.ns)
  receive-send s r pt nonce fresh f gap range unbanked =
      let (t, skips, opened, next) = receive_ahead s r pt nonce fresh f gap range unbanked in
      (
        frame_of p s pt nonce,
        sent p s,
        record t { ckr = (kdf_ck p s.cks).0; nr = u32 (s.ns + 1) },
        send_lem p s pt nonce f.sending,
        opened,
        next,
        refl,
      )
