-- ===== src/Ratchet/Turns.antt =====
-- The DH ratchet step of client/src/cryptobox.cpp at both ends.
use bachelor_s_thesis.Base.{
  ℕ, zero, suc, ◌+◌, ◌-◌, ◌≤◌, ◌≡◌, refl, ap, sym, ◌∙◌, inl, ◌⊎◌, false, none, some, [], arith,
  Bytes, drop, is_empty, is_empty_of_pos, or_empty, ◌==◌, bytes_eq, length-take, length-drop,
}
use bachelor_s_thesis.Base.HashMap
use bachelor_s_thesis.Platform.{Platform, IsLawful}
use bachelor_s_thesis.Hkdf.{hkdf}
use bachelor_s_thesis.Hkdf.Rfc5869.{length-hkdf}
use bachelor_s_thesis.Ratchet.Primitives.{skip_key, kdf_ck, kdf_rk, dh_fn, gen_keypair, root_info}
use bachelor_s_thesis.Ratchet.Skipped.{max_skip}
use bachelor_s_thesis.Ratchet.Session.{
  RatchetSession, Frame, u32, bank, bank_all, skip_to, dh_ratchet, turn, open_ahead, receive, send,
}
use bachelor_s_thesis.Ratchet.Chain.{chain_key}
use bachelor_s_thesis.Ratchet.Delivery.{
  Follows, frame_of, sent, send_lem, skip_to-Follows, open_next-sent, sent-Follows,
}

module _ (p : Platform) where
  open p use {scalarmult_base}

  -- The sender has turned the ratchet towards the receiver's current key, and the receiver has
  -- not followed yet: the step that it will make starts from its root key.
  pub record Turned (s r : RatchetSession) : Type 0 where
    pub own_pair : s.dhs_pub ≡ scalarmult_base s.dhs_priv
    pub their_pair : r.dhs_pub ≡ scalarmult_base r.dhs_priv
    pub root : s.rk ≡ (kdf_rk p r.rk (dh_fn p s.dhs_priv r.dhs_pub)).0
    pub chain : s.cks ≡ chain_key p (kdf_rk p r.rk (dh_fn p s.dhs_priv r.dhs_pub)).1 s.ns
    pub sending : is_empty s.cks ≡ false

  -- Two sessions that were just made for one another: nothing was sent yet.
  pub record Fresh (s r : RatchetSession) : Type 0 where
    pub turned : Turned s r
    pub waiting : r.have_dhr ≡ false
    pub no_chain : r.ckr ≡ []
    pub no_keys : r.skipped ≡ []
    pub at_nr : r.nr ≡ 0
    pub at_ns : s.ns ≡ 0
    pub at_pn : s.pn ≡ 0

  skip_to-Fresh : (s r : RatchetSession) → Fresh s r → skip_to p r s.pn ≡ some r
  unfolding skip_to
  skip_to-Fresh s r f = ground (arith, f.no_chain, f.at_nr, f.at_pn)

  -- Skipping touches neither the root key nor what is sent with.
  record SameRoot (r t : RatchetSession) : Type 0 where
    rk : t.rk ≡ r.rk
    dhs_priv : t.dhs_priv ≡ r.dhs_priv
    dhs_pub : t.dhs_pub ≡ r.dhs_pub
    cks : t.cks ≡ r.cks
    ns : t.ns ≡ r.ns

  bank_all-SameRoot : (k : ℕ) (r : RatchetSession) → SameRoot r (bank_all p k r)
  unfolding bank_all bank
  bank_all-SameRoot zero r = record {
    rk = refl;
    dhs_priv = refl;
    dhs_pub = refl;
    cks = refl;
    ns = refl;
  }
  bank_all-SameRoot (suc k) r = ground (arith, bank_all-SameRoot k (bank p r))

  skip_to-SameRoot : (r t : RatchetSession) (until : ℕ) → skip_to p r until ≡ some t → SameRoot r t
  unfolding skip_to
  skip_to-SameRoot r t until h = ground (arith, bank_all-SameRoot (until - r.nr) r)

lookup-nil : (key : Bytes) → HashMap.lookup {V = Bytes} key [] ≡ none
unfolding HashMap.lookup
lookup-nil key = refl

module _ (p : Platform) (law : IsLawful p) where
  open p use {scalarmult_base}

  pub dh_fn_comm : (a b : Bytes) → dh_fn p a (scalarmult_base b) ≡ dh_fn p b (scalarmult_base a)
  unfolding dh_fn
  dh_fn_comm a b = ap or_empty (law.dh_comm a b)

  pub kdf_rk_chain : (rk dh_out : Bytes) → is_empty (kdf_rk p rk dh_out).1 ≡ false
  unfolding kdf_rk
  kdf_rk_chain rk dh_out =
      let okm = hkdf p (some rk) dh_out root_info 64 in
      is_empty_of_pos _ (
        omega (
          arith,
          length-take 32 (drop 32 okm),
          length-drop 32 okm,
          length-hkdf p law (some rk) dh_out root_info 64,
        ))

  -- The receiver's ratchet step puts it on the sender's chain, and turns it in its own right: the
  -- roles are exchanged, and the sender is prepared in the same way for the next frame back.
  pub dh_ratchet_turns :
      (s r : RatchetSession) (fresh : Bytes)
      → Turned p s r
      → Follows p s (dh_ratchet p r s.dhs_pub fresh) × Turned p (dh_ratchet p r s.dhs_pub fresh) s
  unfolding dh_ratchet gen_keypair chain_key
  dh_ratchet_turns s r fresh t =
      let same : dh_fn p r.dhs_priv s.dhs_pub ≡ dh_fn p s.dhs_priv r.dhs_pub =
        ap (dh_fn p r.dhs_priv) t.own_pair
        ∙ dh_fn_comm r.dhs_priv s.dhs_priv
        ∙ ap (dh_fn p s.dhs_priv) (sym t.their_pair) in
      let root : (kdf_rk p r.rk (dh_fn p r.dhs_priv s.dhs_pub)).0 ≡ s.rk =
        ap (λ (d : Bytes). (kdf_rk p r.rk d).0) same ∙ sym t.root in
      let step : s.ns ≡ s.ns - 0 = omega arith in
      (
        record {
          dh = refl;
          have_dhr = refl;
          receiving = kdf_rk_chain r.rk _;
          sending = t.sending;
          behind = omega arith;
          keys =
              t.chain
              ∙ ap (λ (d : Bytes). chain_key p (kdf_rk p r.rk d).1 s.ns) (sym same)
              ∙ ap (chain_key p (kdf_rk p r.rk (dh_fn p r.dhs_priv s.dhs_pub)).1) step;
        },
        record {
          own_pair = refl;
          their_pair = t.own_pair;
          root = ap (λ (k : Bytes). (kdf_rk p k (dh_fn p fresh s.dhs_pub)).0) root;
          chain = ap (λ (k : Bytes). (kdf_rk p k (dh_fn p fresh s.dhs_pub)).1) root;
          sending = kdf_rk_chain _ _;
        },
      )

  Turned-same : (s r r1 : RatchetSession) → SameRoot p r r1 → Turned p s r → Turned p s r1
  Turned-same s r r1 e t = record {
    own_pair = t.own_pair;
    their_pair = e.dhs_pub ∙ t.their_pair ∙ ap scalarmult_base (sym e.dhs_priv);
    root = rw (e.rk, e.dhs_pub) t.root;
    chain = rw (e.rk, e.dhs_pub) t.chain;
    sending = t.sending;
  }

  Turned-sender :
      (s r t : RatchetSession)
      → SameRoot p r t
      → Turned p r s
      → Turned p (record t { ckr = (kdf_ck p s.cks).0; nr = u32 (s.ns + 1) }) (sent p s)
  Turned-sender s r t e h = record {
    own_pair = e.dhs_pub ∙ h.own_pair ∙ ap scalarmult_base (sym e.dhs_priv);
    their_pair = h.their_pair;
    root = rw (e.rk, e.dhs_priv) h.root;
    chain = rw (e.cks, e.dhs_priv, e.ns) h.chain;
    sending = rw e.cks h.sending;
  }

  dh_ratchet-nr : (r : RatchetSession) (dh_pub fresh : Bytes) → (dh_ratchet p r dh_pub fresh).nr ≡ 0
  unfolding dh_ratchet
  dh_ratchet-nr r dh_pub fresh = refl

  turn_new :
      (r r1 : RatchetSession) (dh_pub fresh : Bytes) (pn : ℕ)
      → (r.have_dhr ≡ false) ⊎ ((dh_pub == r.dhr_pub) ≡ false)
      → skip_to p r pn ≡ some r1
      → turn p r dh_pub pn fresh ≡ some (dh_ratchet p r1 dh_pub fresh)
  unfolding turn
  turn_new r r1 dh_pub fresh pn new h = rw h (ground arith)

  receive-Turned :
      (s r r1 : RatchetSession) (pt nonce fresh : Bytes)
      → Turned p s r
      → (r.have_dhr ≡ false) ⊎ ((s.dhs_pub == r.dhr_pub) ≡ false)
      → skip_to p r s.pn ≡ some r1
      → s.ns ≤ max_skip
      → HashMap.lookup (skip_key s.dhs_pub s.ns) r.skipped ≡ none
      → (f : Frame) × (s' r' : RatchetSession) × (send p s pt nonce ≡ some (f, s'))
        × (receive p r f.cipher f.dh f.pn f.n f.nonce f.ct fresh ≡ some (pt, r'))
        × Follows p s' r'
        × Turned p r' s'
  unfolding receive open_ahead
  receive-Turned s r r1 pt nonce fresh t new skipped small unbanked =
      let same = Turned-same s r r1 (skip_to-SameRoot p r r1 s.pn skipped) t in
      let (f, back) = dh_ratchet_turns s r1 fresh same in
      let r2 = dh_ratchet p r1 s.dhs_pub fresh in
      let start = dh_ratchet-nr r1 s.dhs_pub fresh in
      let (u, skips, at_key, at_nr, at_dhr, have) =
        skip_to-Follows p s r2 f (omega (arith, start)) (omega (arith, start)) in
      (
        frame_of p s pt nonce,
        sent p s,
        record u { ckr = (kdf_ck p s.cks).0; nr = u32 (s.ns + 1) },
        send_lem p s pt nonce t.sending,
        rw (unbanked, receive)
            (rw (turn_new r r1 s.dhs_pub fresh s.pn new skipped)
              (rw skips (open_next-sent p law s u pt nonce at_key at_nr))),
        sent-Follows p law s r2 u f (omega arith) at_dhr have,
        Turned-sender s r2 u (skip_to-SameRoot p r2 u s.ns skips) back,
      )

  -- The very first frame opens at the responder.
  pub receive_first :
      (s r : RatchetSession) (pt nonce fresh : Bytes)
      → Fresh p s r
      → (f : Frame) × (s' r' : RatchetSession) × (send p s pt nonce ≡ some (f, s'))
        × (receive p r f.cipher f.dh f.pn f.n f.nonce f.ct fresh ≡ some (pt, r'))
        × Follows p s' r'
        × Turned p r' s'
  receive_first s r pt nonce fresh f =
      receive-Turned s r r pt nonce fresh f.turned (inl f.waiting) (skip_to-Fresh p s r f)
        (omega (arith, f.at_ns))
        (ap (HashMap.lookup (skip_key s.dhs_pub s.ns)) f.no_keys
          ∙ lookup-nil (skip_key s.dhs_pub s.ns))
