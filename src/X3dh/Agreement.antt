-- ===== src/X3dh/Agreement.antt =====
-- Both ends of the key agreement of client/src/x3dh.cpp.
use bachelor_s_thesis.Base.{
  ◌≡◌, sym, ◌∙◌, ap, true, false, not, ◌||◌, ◌⊎◌, inl, inr, none, some, [], ◌++◌, arith, Bytes,
  length, is_empty, nat_beq, nat_beq_iff, if◌then◌else◌, some_inj, >>=-eq-some, guard-eq-some,
  not-eq-true, is_empty_of_pos,
}
use bachelor_s_thesis.Platform.{Platform, IsLawful}
use bachelor_s_thesis.Hkdf.Rfc5869.{length-hkdf}
use bachelor_s_thesis.X3dh.Keys
use bachelor_s_thesis.X3dh.{
  Bundle, InitiatorResult, dh, kdf, with_one_time, identity_public, identity_to_x25519_private,
  identity_to_x25519_public, verify, initiator_with_ephemeral, responder, f_prefix, x3dh_info,
}

module _ (p : Platform) where
  open p use {scalarmult_base}

  -- All that an initiator has checked and computed once it returns a result.
  pub record Initiated (seed : Bytes) (b : Bundle) (ek_priv : Bytes) (r : InitiatorResult)
      : Type 0 where
    pub verified : verify p b.ik b.spk b.spk_sig ≡ true
    pub have_private : is_empty (identity_to_x25519_private p seed) ≡ false
    pub b_ik_x : Bytes
    pub converted : identity_to_x25519_public p b.ik ≡ some b_ik_x
    pub length-ek : length ek_priv ≡ 32
    pub have_dhs :
        is_empty (dh p (identity_to_x25519_private p seed) b.spk)
          || is_empty (dh p ek_priv b_ik_x)
          || is_empty (dh p ek_priv b.spk)
        ≡ false
    pub concat : Bytes
    pub joined :
        with_one_time p
          ((dh p (identity_to_x25519_private p seed) b.spk ++ dh p ek_priv b_ik_x)
            ++ dh p ek_priv b.spk)
          b.opk
          ek_priv
          b.opk
        ≡ some concat
    pub have_sk : is_empty (kdf p concat) ≡ false
    pub at_sk : r.sk ≡ kdf p concat
    pub at_ik : r.ik ≡ identity_public p seed
    pub at_ek : r.ek ≡ scalarmult_base ek_priv
    pub at_ad : r.ad ≡ identity_public p seed ++ b.ik

  pub initiated :
      (seed : Bytes) (b : Bundle) (ek_priv : Bytes) (r : InitiatorResult)
      → initiator_with_ephemeral p seed b ek_priv ≡ some r
      → Initiated seed b ek_priv r
  unfolding initiator_with_ephemeral
  initiated seed b ek_priv r h =
      let (verified, h1) = guard-eq-some (verify p b.ik b.spk b.spk_sig) _ h in
      let (have, h2) = guard-eq-some _ _ h1 in
      let (x, converted, h3) = >>=-eq-some (identity_to_x25519_public p b.ik) _ h2 in
      let (ek_size, h4) = guard-eq-some (nat_beq (length ek_priv) 32) _ h3 in
      let (dhs, h5) = guard-eq-some _ _ h4 in
      let (concat, joined, h6) = >>=-eq-some (with_one_time p _ b.opk ek_priv b.opk) _ h5 in
      let (have_sk, h7) = guard-eq-some (not (is_empty (kdf p concat))) _ h6 in
      record {
        verified = verified;
        have_private = ground arith;
        b_ik_x = x;
        converted = converted;
        length-ek = (nat_beq_iff _ _).0 ek_size;
        have_dhs = not-eq-true _ dhs;
        concat = concat;
        joined = joined;
        have_sk = not-eq-true _ have_sk;
        at_sk = ap (λ (i : InitiatorResult). i.sk) (some_inj (sym h7));
        at_ik = ap (λ (i : InitiatorResult). i.ik) (some_inj (sym h7));
        at_ek = ap (λ (i : InitiatorResult). i.ek) (some_inj (sym h7));
        at_ad = ap (λ (i : InitiatorResult). i.ad) (some_inj (sym h7));
      }

-- The public half of a one-time prekey as a bundle carries it: empty where none is offered.
abbrev pub offered : Platform → Bytes → Bytes
offered p opk_priv = if is_empty opk_priv then [] else p.scalarmult_base opk_priv

-- What a responder holds when a bundle was built from its keys.
pub record Published (p : Platform) (seed spk_priv opk_priv : Bytes) (b : Bundle) : Type 0 where
  pub at_ik : b.ik ≡ identity_public p seed
  pub at_spk : b.spk ≡ p.scalarmult_base spk_priv
  pub at_opk : b.opk ≡ offered p opk_priv
  pub length-spk : length spk_priv ≡ 32
  pub length-opk : (opk_priv ≡ []) ⊎ (length opk_priv ≡ 32)
  pub have_private : is_empty (identity_to_x25519_private p seed) ≡ false

module _ (p : Platform) (law : IsLawful p) where
  open p use {scalarmult_base}

  length-kdf : (concat : Bytes) → length (kdf p concat) ≡ 32
  unfolding kdf
  length-kdf concat = length-hkdf p law none (f_prefix ++ concat) x3dh_info 32

  -- The fourth DH is the same at both ends, and absent at both or at neither.
  with_one_time_comm :
      (concat opk_priv ek_priv : Bytes)
      → length ek_priv ≡ 32
      → (opk_priv ≡ []) ⊎ (length opk_priv ≡ 32)
      → with_one_time p concat opk_priv opk_priv (scalarmult_base ek_priv)
        ≡ with_one_time p concat (offered p opk_priv) ek_priv (offered p opk_priv)
  unfolding with_one_time
  with_one_time_comm concat opk_priv ek_priv h (inl e) = rw e
  with_one_time_comm concat opk_priv ek_priv h (inr e) = rw (
    is_empty_of_pos opk_priv (omega arith),
    is_empty_of_pos (scalarmult_base opk_priv) (omega (arith, law.length-base opk_priv)),
    Keys.dh-base_comm p law opk_priv ek_priv e h,
  )

  -- Once the initiator has its result, the responder, holding the private halves of the bundle,
  -- accepts the two keys of the header and derives the same shared secret.
  pub responder-initiator :
      (a_seed b_seed spk_priv opk_priv ek_priv : Bytes) (b : Bundle) (r : InitiatorResult)
      → Published p b_seed spk_priv opk_priv b
      → initiator_with_ephemeral p a_seed b ek_priv ≡ some r
      → responder p b_seed spk_priv opk_priv r.ik r.ek ≡ some r.sk
  unfolding responder
  responder-initiator a_seed b_seed spk_priv opk_priv ek_priv b r own h =
      let i = initiated p a_seed b ek_priv r h in
      let x = identity_to_x25519_private p a_seed in
      let y = identity_to_x25519_private p b_seed in
      let reads = Keys.identity_to_x25519_public-identity_public p law in
      let same : i.b_ik_x ≡ scalarmult_base y = some_inj (
        sym i.converted
        ∙ ap (identity_to_x25519_public p) own.at_ik
        ∙ reads b_seed own.have_private) in
      let size_x = Keys.length-private p law a_seed i.have_private in
      let size_y = Keys.length-private p law b_seed own.have_private in
      rw (i.at_ik, i.at_ek, i.at_sk, reads a_seed i.have_private, own.have_private)
        (rw
          (
            Keys.dh-base_comm p law spk_priv x own.length-spk size_x,
            Keys.dh-base_comm p law y ek_priv size_y i.length-ek,
            Keys.dh-base_comm p law spk_priv ek_priv own.length-spk i.length-ek,
            with_one_time_comm _ opk_priv ek_priv i.length-ek own.length-opk,
          )
          (rw (← own.at_spk, ← same, ← own.at_opk) (rw (i.have_dhs, i.joined) (rw i.have_sk))))

  -- A result of the initiator vouches for this: the bundle's signature was checked against the
  -- identity in it, the secret is a full key, and the header names our keys and binds both
  -- identities.
  pub initiator_vouches :
      (seed ek_priv : Bytes) (b : Bundle) (r : InitiatorResult)
      → initiator_with_ephemeral p seed b ek_priv ≡ some r
      → (verify p b.ik b.spk b.spk_sig ≡ true)
        × (length r.sk ≡ 32)
        × (r.ik ≡ identity_public p seed)
        × (r.ek ≡ scalarmult_base ek_priv)
        × (r.ad ≡ r.ik ++ b.ik)
  initiator_vouches seed ek_priv b r h =
      let i = initiated p seed b ek_priv r h in
      (i.verified, rw i.at_sk (length-kdf i.concat), i.at_ik, i.at_ek, rw (i.at_ad, i.at_ik))
