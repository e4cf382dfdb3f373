-- ===== src/CryptoBox/X3dhSessions/Establish.antt =====
-- Both ends of an X3DH session of client/src/cryptobox.cpp.
use bachelor_s_thesis.Base.{
  ◌≡◌, refl, ap, sym, ◌∙◌, true, false, Option, some, arith, Bytes, length, is_empty, nat_beq,
  if◌then◌else◌, ◌==◌, bytes_eq, beq_refl, guard-eq-some, >>=-eq-some, some_inj,
}
use bachelor_s_thesis.Base.Int.{ℤ, negsuc}
use bachelor_s_thesis.Base.HashMap
use bachelor_s_thesis.Platform.{Platform, IsLawful}
use bachelor_s_thesis.X3dh
use bachelor_s_thesis.X3dh.{InitiatorResult}
use bachelor_s_thesis.X3dh.Agreement.{Published, responder-initiator}
use bachelor_s_thesis.Ratchet.Primitives.{dh_fn, kdf_rk, gen_keypair}
use bachelor_s_thesis.Ratchet.Session.{RatchetSession}
use bachelor_s_thesis.Ratchet.Chain.{chain_key}
use bachelor_s_thesis.Ratchet.Turns.{Turned, Fresh, kdf_rk_chain}
use bachelor_s_thesis.CryptoBox.State.{CryptoBox, has_x3dh_identity}
use bachelor_s_thesis.CryptoBox.Prekeys.{take_one_time_prekey}
use bachelor_s_thesis.CryptoBox.X3dhSessions.{
  Opening, bundle_of, initiator_session, begin_x3dh_session, choose_spk, consume_opk,
  responder_session, accept_with, accept_x3dh_session,
}

module _ (p : Platform) where
  -- What a call of `beginX3dhSession` that went through has done.
  pub begun :
      (box box' : CryptoBox) (peer ik spk spk_sig opk : Bytes) (opk_id : ℤ) (fresh_ek fresh : Bytes)
      (o : Opening)
      → begin_x3dh_session p box peer ik spk spk_sig opk opk_id fresh_ek fresh ≡ some (box', o)
      → (r : InitiatorResult) × (X3dh.initiator p box.identity_seed
            (bundle_of ik spk spk_sig opk opk_id)
            fresh_ek
          ≡ some r)
        × (HashMap.lookup peer box'.sessions ≡ some (initiator_session p r.sk spk fresh))
        × (o.ik_a ≡ r.ik)
        × (o.ek_a ≡ r.ek)
        × (o.opk_id ≡ (if is_empty opk then negsuc 0 else opk_id))
  unfolding begin_x3dh_session
  begun box box' peer ik spk spk_sig opk opk_id fresh_ek fresh o h =
      let (have, h1) = guard-eq-some (has_x3dh_identity box) _ h in
      let (r, made, h2) =
        >>=-eq-some
          (X3dh.initiator p box.identity_seed (bundle_of ik spk spk_sig opk opk_id) fresh_ek) _
          h1 in
      let (size, h3) = guard-eq-some (nat_beq (length r.sk) 32) _ h2 in
      let e : ◌≡◌ {A = Option (CryptoBox × Opening)}
          (some (
            record box {
              sessions = HashMap.insert peer (initiator_session p r.sk spk fresh) box.sessions;
            },
            record { ik_a = r.ik; ek_a = r.ek; opk_id = if is_empty opk then negsuc 0 else opk_id },
          ))
          (some (box', o)) =
        h3 in
      (
        r,
        made,
        ap (λ (q : CryptoBox × Opening). HashMap.lookup peer q.0.sessions) (sym (some_inj e))
            ∙ HashMap.lookup-insert_self peer (initiator_session p r.sk spk fresh) box.sessions,
        ap (λ (q : CryptoBox × Opening). q.1.ik_a) (sym (some_inj e)),
        ap (λ (q : CryptoBox × Opening). q.1.ek_a) (sym (some_inj e)),
        ap (λ (q : CryptoBox × Opening). q.1.opk_id) (sym (some_inj e)),
      )

  -- The responder holds everything that the bundle was built from.
  pub record Answers (box : CryptoBox) (ik spk spk_sig opk : Bytes) (opk_id : ℤ) : Type 0 where
    pub has_identity : has_x3dh_identity box ≡ true
    pub have_prekey : is_empty box.spk_priv ≡ false
    pub at_spk : spk ≡ box.spk_pub
    pub opk_priv : Bytes
    pub taken : CryptoBox
    pub consumed :
        consume_opk box (if is_empty opk then negsuc 0 else opk_id) ≡ some (opk_priv, taken)
    pub published :
        Published p box.identity_seed box.spk_priv opk_priv (bundle_of ik spk spk_sig opk opk_id)

-- Taking a one-time prekey changes the pool alone.
pub record SameKeys (box taken : CryptoBox) : Type 0 where
  pub spk_priv : taken.spk_priv ≡ box.spk_priv
  pub spk_pub : taken.spk_pub ≡ box.spk_pub
  pub prev_spk_priv : taken.prev_spk_priv ≡ box.prev_spk_priv
  pub prev_spk_pub : taken.prev_spk_pub ≡ box.prev_spk_pub
  pub identity_seed : taken.identity_seed ≡ box.identity_seed
  pub identity_version : taken.identity_version ≡ box.identity_version
  pub sessions : taken.sessions ≡ box.sessions

pub consume_opk-SameKeys :
    (box taken : CryptoBox) (opk_id : ℤ) (opk_priv : Bytes)
    → consume_opk box opk_id ≡ some (opk_priv, taken)
    → SameKeys box taken
unfolding consume_opk take_one_time_prekey
consume_opk-SameKeys box taken opk_id opk_priv h = ground arith

choose_spk-current :
    (box : CryptoBox) (spk : Bytes) → spk ≡ box.spk_pub → choose_spk box spk ≡ some box.spk_priv
unfolding choose_spk
choose_spk-current box spk e = ground (arith, beq_refl box.spk_pub, ap (λ b. b == box.spk_pub) e)

responder_session-pub :
    (box : CryptoBox) (sk : Bytes) → (responder_session box box.spk_priv sk).dhs_pub ≡ box.spk_pub
unfolding responder_session
responder_session-pub box sk = rw (beq_refl box.spk_priv)

module _ (p : Platform) where
  accept_with-made :
      (box : CryptoBox) (peer ik_a ek_a spk_used opk_priv priv sk : Bytes) (opk_id : ℤ)
      → choose_spk box spk_used ≡ some priv
      → X3dh.responder p box.identity_seed priv opk_priv ik_a ek_a ≡ some sk
      → accept_with p box peer ik_a ek_a opk_id spk_used opk_priv ≡ (
        record box { sessions = HashMap.insert peer (responder_session box priv sk) box.sessions },
        true,
      )
  unfolding accept_with
  accept_with-made box peer ik_a ek_a spk_used opk_priv priv sk opk_id chosen made =
      rw (chosen, accept_with) (rw made)

  pub accept_x3dh_session-consumed :
      (box taken : CryptoBox) (peer ik_a ek_a spk_used opk_priv : Bytes) (opk_id : ℤ)
      → has_x3dh_identity box ≡ true
      → is_empty box.spk_priv ≡ false
      → consume_opk box opk_id ≡ some (opk_priv, taken)
      → accept_x3dh_session p box peer ik_a ek_a opk_id spk_used
        ≡ accept_with p taken peer ik_a ek_a opk_id spk_used opk_priv
  unfolding accept_x3dh_session
  accept_x3dh_session-consumed box taken peer ik_a ek_a spk_used opk_priv opk_id has have got =
      rw (has, have) (rw got)

module _ (p : Platform) (law : IsLawful p) where
  open p use {scalarmult_base}

  -- The two first sessions fit: one secret, and the responder's pair is the signed prekey.
  initiator_session-Turned :
      (box : CryptoBox) (sk spk fresh : Bytes)
      → spk ≡ box.spk_pub
      → spk ≡ scalarmult_base box.spk_priv
      → Turned p (initiator_session p sk spk fresh) (responder_session box box.spk_priv sk)
  unfolding initiator_session gen_keypair chain_key responder_session
  initiator_session-Turned box sk spk fresh e pair =
      let same : (responder_session box box.spk_priv sk).dhs_pub ≡ spk =
        responder_session-pub box sk ∙ sym e in
      record {
        own_pair = refl;
        their_pair = same ∙ pair;
        root = ap (λ (d : Bytes). (kdf_rk p sk (dh_fn p fresh d)).0) (sym same);
        chain = ap (λ (d : Bytes). (kdf_rk p sk (dh_fn p fresh d)).1) (sym same);
        sending = kdf_rk_chain p law _ _;
      }

  agreed :
      (a_seed b_seed spk_priv opk_priv fresh_ek : Bytes) (b : X3dh.Bundle) (r : InitiatorResult)
      → Published p b_seed spk_priv opk_priv b
      → X3dh.initiator p a_seed b fresh_ek ≡ some r
      → X3dh.responder p b_seed spk_priv opk_priv r.ik r.ek ≡ some r.sk
  unfolding X3dh.initiator
  agreed a_seed b_seed spk_priv opk_priv fresh_ek b r =
      responder-initiator p law a_seed b_seed spk_priv opk_priv fresh_ek b r

  -- Alice opens a session from a bundle that was built from Bob's keys, and Bob accepts the header
  -- that she sends: his call succeeds, and the two recorded sessions are a fresh pair.
  pub accept-begin :
      (alice alice' bob : CryptoBox) (alice_name bob_name ik spk spk_sig opk : Bytes) (opk_id : ℤ)
      (fresh_ek fresh : Bytes) (o : Opening)
      → begin_x3dh_session p alice bob_name ik spk spk_sig opk opk_id fresh_ek fresh
        ≡ some (alice', o)
      → Answers p bob ik spk spk_sig opk opk_id
      → (bob' : CryptoBox) × (s r : RatchetSession) × (accept_x3dh_session p bob alice_name o.ik_a
            o.ek_a o.opk_id spk
          ≡ (bob', true))
        × (HashMap.lookup bob_name alice'.sessions ≡ some s)
        × (HashMap.lookup alice_name bob'.sessions ≡ some r)
        × Fresh p s r
  unfolding responder_session initiator_session
  accept-begin alice alice' bob alice_name bob_name ik spk spk_sig opk opk_id fresh_ek fresh o h
        ans =
      let (r, made, held, at_ik, at_ek, at_id) =
        begun p alice alice' bob_name ik spk spk_sig opk opk_id fresh_ek fresh o h in
      let same = consume_opk-SameKeys bob ans.taken _ ans.opk_priv ans.consumed in
      let at_spk = ans.at_spk ∙ sym same.spk_pub in
      let chosen = choose_spk-current ans.taken spk at_spk in
      let answered : X3dh.responder p ans.taken.identity_seed ans.taken.spk_priv ans.opk_priv o.ik_a
            o.ek_a
          ≡ some r.sk =
        rw (same.identity_seed, same.spk_priv, at_ik, at_ek)
          (agreed alice.identity_seed bob.identity_seed bob.spk_priv ans.opk_priv fresh_ek _ r
            ans.published made) in
      let r_sess = responder_session ans.taken ans.taken.spk_priv r.sk in
      (
        record ans.taken { sessions = HashMap.insert alice_name r_sess ans.taken.sessions },
        initiator_session p r.sk spk fresh,
        r_sess,
        accept_x3dh_session-consumed p bob ans.taken alice_name o.ik_a o.ek_a spk ans.opk_priv
              o.opk_id ans.has_identity ans.have_prekey (ap (consume_opk bob) at_id ∙ ans.consumed)
            ∙ accept_with-made p ans.taken alice_name o.ik_a o.ek_a spk ans.opk_priv
                ans.taken.spk_priv r.sk o.opk_id chosen answered,
        held,
        HashMap.lookup-insert_self alice_name r_sess ans.taken.sessions,
        record {
          turned =
              initiator_session-Turned ans.taken r.sk spk fresh at_spk
                (ans.published.at_spk ∙ ap p.scalarmult_base (sym same.spk_priv));
          waiting = refl;
          no_chain = refl;
          no_keys = refl;
          at_nr = refl;
          at_ns = refl;
          at_pn = refl;
        },
      )
