-- ===== src/CryptoBox/Sessions/Bootstrap.antt =====
-- The legacy bootstrap of client/src/cryptobox.cpp at both ends.
use bachelor_s_thesis.Base.{◌≡◌, refl, ap, sym, ◌∙◌, true, false, Bytes}
use bachelor_s_thesis.Platform.{Platform, IsLawful}
use bachelor_s_thesis.Ratchet.Primitives.{bootstrap_sk, dh_fn, kdf_rk, gen_keypair}
use bachelor_s_thesis.Ratchet.Chain.{chain_key}
use bachelor_s_thesis.Ratchet.Turns.{Fresh, dh_fn_comm, kdf_rk_chain}
use bachelor_s_thesis.CryptoBox.State.{CryptoBox, memcmp_lt}
use bachelor_s_thesis.CryptoBox.Sessions.{bootstrap_session}

module _ (p : Platform) (law : IsLawful p) where
  open p use {scalarmult_base}

  -- The two sides derive one bootstrap secret from their identity pairs.
  pub bootstrap_sk_comm :
      (a b : Bytes) → bootstrap_sk p a (scalarmult_base b) ≡ bootstrap_sk p b (scalarmult_base a)
  unfolding bootstrap_sk
  bootstrap_sk_comm a b = rw (dh_fn_comm p law a b)

  -- The bootstrap sessions of the smaller and of the larger key are a fresh pair.
  pub bootstrap_session-Fresh :
      (a b : CryptoBox) (fresh fresh' : Bytes)
      → a.public_key ≡ scalarmult_base a.private_key
      → b.public_key ≡ scalarmult_base b.private_key
      → memcmp_lt 32 a.public_key b.public_key ≡ true
      → memcmp_lt 32 b.public_key a.public_key ≡ false
      → Fresh p
          (bootstrap_session p a b.public_key fresh)
          (bootstrap_session p b a.public_key fresh')
  unfolding bootstrap_session gen_keypair chain_key
  bootstrap_session-Fresh a b fresh fresh' pair_a pair_b less greater =
      let one : bootstrap_sk p a.private_key b.public_key
          ≡ bootstrap_sk p b.private_key a.public_key =
        ap (bootstrap_sk p a.private_key) pair_b
        ∙ bootstrap_sk_comm a.private_key b.private_key
        ∙ ap (bootstrap_sk p b.private_key) (sym pair_a) in
      rw (less, greater)
        (record {
          turned = record {
            own_pair = refl;
            their_pair = pair_b;
            root = ap (λ (k : Bytes). (kdf_rk p k (dh_fn p fresh b.public_key)).0) one;
            chain = ap (λ (k : Bytes). (kdf_rk p k (dh_fn p fresh b.public_key)).1) one;
            sending = kdf_rk_chain p law _ _;
          };
          waiting = refl;
          no_chain = refl;
          no_keys = refl;
          at_nr = refl;
          at_ns = refl;
          at_pn = refl;
        })
