-- ===== src/Ratchet/Session.antt =====
-- `RatchetSession` of client/src/cryptobox.h and the steps on one session of cryptobox.cpp. The
-- counters are `quint32`, so an increment wraps around.
use bachelor_s_thesis.Base.{
  ℕ, zero, suc, ◌+◌, ◌-◌, ◌%◌, ◌^◌, Bool, true, false, not, ◌||◌, Option, none, some, [], Bytes,
  ltb, is_empty, be32, ◌==◌, bytes_eq, if◌then◌else◌, ◌>>=◌,
}
use bachelor_s_thesis.Base.HashMap.{HashMap}
use bachelor_s_thesis.Base.HashMap
use bachelor_s_thesis.Platform.{Platform}
use bachelor_s_thesis.Hkdf.{hkdf}
use bachelor_s_thesis.Ratchet.Primitives.{
  ad_bytes, skip_key, dh_fn, gen_keypair, kdf_rk, kdf_ck, aead_encrypt, aead_decrypt,
  cipher_xchacha, bootstrap_sk,
}
use bachelor_s_thesis.Ratchet.Skipped.{max_skip, purge_unreachable_skipped, enforce_skipped_cap}

pub record RatchetSession : Type 0 where
  pub dhs_priv : Bytes
  pub dhs_pub : Bytes
  pub dhr_pub : Bytes
  pub rk : Bytes
  pub cks : Bytes
  pub ckr : Bytes
  pub ns : ℕ
  pub nr : ℕ
  pub pn : ℕ
  pub have_dhr : Bool
  pub skipped : HashMap Bytes Bytes

-- RatchetSession s;
abbrev pub fresh_session : RatchetSession
fresh_session = record {
  dhs_priv = [];
  dhs_pub = [];
  dhr_pub = [];
  rk = [];
  cks = [];
  ckr = [];
  ns = 0;
  nr = 0;
  pn = 0;
  have_dhr = false;
  skipped = [];
}

abbrev pub u32 : ℕ → ℕ
u32 n = n % 2 ^ 32

module _ (p : Platform) where
  -- One round of the loop of `skipTo`.
  unfoldable pub bank : RatchetSession → RatchetSession
  bank s =
      let (ck_next, mk) = kdf_ck p s.ckr in
      record s {
        ckr = ck_next;
        skipped = HashMap.insert (skip_key s.dhr_pub s.nr) mk s.skipped;
        nr = u32 (s.nr + 1);
      }

  -- `while (s.Nr < until)`, by the rounds that are left.
  unfoldable pub bank_all : ℕ → RatchetSession → RatchetSession
  unfolding bank
  bank_all zero s = s
  bank_all (suc rounds) s = bank_all rounds (bank s)

  abbrev pub capped : RatchetSession → RatchetSession
  capped s = record s { skipped = enforce_skipped_cap s.dhr_pub s.skipped }

  -- None is the return value `false`, at which nothing was changed.
  unfoldable pub skip_to : RatchetSession → ℕ → Option RatchetSession
  skip_to s until =
      let banked = capped (bank_all (until - s.nr) s) in
      if ltb (u32 (s.nr + max_skip)) until
      then none
      else if is_empty s.ckr
      then some s
      else some banked

  -- `fresh` is the random private key of the new sending pair.
  unfoldable pub dh_ratchet : RatchetSession → Bytes → Bytes → RatchetSession
  dh_ratchet s dh_pub fresh =
      let (rk1, ckr) = kdf_rk p s.rk (dh_fn p s.dhs_priv dh_pub) in
      let (priv, pub_key) = gen_keypair p fresh in
      let (rk2, cks) = kdf_rk p rk1 (dh_fn p priv dh_pub) in
      record {
        dhs_priv = priv;
        dhs_pub = pub_key;
        dhr_pub = dh_pub;
        rk = rk2;
        cks = cks;
        ckr = ckr;
        ns = 0;
        nr = 0;
        pn = s.ns;
        have_dhr = true;
        skipped = enforce_skipped_cap dh_pub (purge_unreachable_skipped dh_pub s.dhr_pub s.skipped);
      }

  -- Step 2 of `decryptFrom`: a new peer key skips the old chain's tail and ratchets.
  unfoldable pub turn : RatchetSession → Bytes → ℕ → Bytes → Option RatchetSession
  turn s dh_pub pn fresh =
      let turned = skip_to s pn >>= λ skipped. some (dh_ratchet skipped dh_pub fresh) in
      if not s.have_dhr || not (dh_pub == s.dhr_pub) then turned else some s

  -- The last step: this message's key, tried on the ciphertext.
  unfoldable pub open_next :
      RatchetSession → Bytes → Bytes → Bytes → Bytes → Option (Bytes × RatchetSession)
  open_next s cipher nonce ct ad =
      let (ck_next, mk) = kdf_ck p s.ckr in
      do
        pt ← aead_decrypt p cipher mk nonce ct ad
        some (pt, record s { ckr = ck_next; nr = u32 (s.nr + 1) })

  -- Step 1: a message whose key is banked; the key is used up.
  unfoldable pub open_banked :
      RatchetSession
      → Bytes
      → Bytes
      → Bytes
      → Bytes
      → Bytes
      → Bytes
      → Option (Bytes × RatchetSession)
  open_banked s key mk cipher nonce ct ad = aead_decrypt p cipher mk nonce ct ad >>= λ pt.
      some (pt, record s { skipped = HashMap.remove key s.skipped })

  -- Steps 2 and 3, on the working copy.
  unfoldable pub open_ahead :
      RatchetSession
      → Bytes
      → Bytes
      → ℕ
      → ℕ
      → Bytes
      → Bytes
      → Bytes
      → Option (Bytes × RatchetSession)
  open_ahead s cipher dh_pub pn n nonce ct fresh = turn s dh_pub pn fresh >>= λ turned.
      skip_to turned n >>= λ work. open_next work cipher nonce ct (ad_bytes cipher dh_pub pn n)

  -- `decryptFrom` on a session that is there: the text and the session to commit, or none, at
  -- which the caller's session stays.
  unfoldable pub receive :
      RatchetSession
      → Bytes
      → Bytes
      → ℕ
      → ℕ
      → Bytes
      → Bytes
      → Bytes
      → Option (Bytes × RatchetSession)
  receive s cipher dh_pub pn n nonce ct fresh =
      let key = skip_key dh_pub n in
      elim (HashMap.lookup key s.skipped) [
        | some mk ↦ open_banked s key mk cipher nonce ct (ad_bytes cipher dh_pub pn n)
        | none ↦ open_ahead s cipher dh_pub pn n nonce ct fresh
      ]

-- The values that `encryptFor` hands out, before the hexadecimal coding.
pub record Frame : Type 0 where
  pub cipher : Bytes
  pub dh : Bytes
  pub pn : ℕ
  pub n : ℕ
  pub nonce : Bytes
  pub ct : Bytes

-- `encryptFor` on a session that is there; none is "not ready", without a sending chain.
unfoldable pub send : Platform → RatchetSession → Bytes → Bytes → Option (Frame × RatchetSession)
send p s plaintext nonce =
    let (ck_next, mk) = kdf_ck p s.cks in
    let ad = ad_bytes cipher_xchacha s.dhs_pub s.pn s.ns in
    let frame : Frame = record {
      cipher = cipher_xchacha;
      dh = s.dhs_pub;
      pn = s.pn;
      n = s.ns;
      nonce = nonce;
      ct = aead_encrypt p cipher_xchacha mk nonce plaintext ad;
    } in
    let s' = record s { cks = ck_next; ns = u32 (s.ns + 1) } in
    if is_empty s.cks then none else some (frame, s')

-- A test that runs the ratchet unfolds this one name.
unfoldable pub ratchet_runs : ℕ
unfolding hkdf kdf_rk kdf_ck dh_fn gen_keypair bootstrap_sk ad_bytes be32 aead_encrypt aead_decrypt
    purge_unreachable_skipped enforce_skipped_cap bank_all skip_to dh_ratchet turn open_next
    open_banked open_ahead receive send HashMap.lookup HashMap.insert HashMap.remove
ratchet_runs = 0
