-- ===== src/Hkdf.antt =====
-- `hkdf` of client/src/cryptobox.cpp (client/src/x3dh.cpp has the same text), and the one-block
-- `hkdfSha256` of client/src/filecrypto.cpp. A null salt is `none`.
pub mod Rfc5869
use bachelor_s_thesis.Base.{
  ℕ, zero, suc, ◌+◌, ◌-◌, ◌%◌, Option, none, some, [], ◌∷◌, ◌++◌, Bytes, take, length, replicate,
  ltb, leb, nat_beq, if◌then◌else◌,
}
use bachelor_s_thesis.Platform.{Platform}

module _ (p : Platform) where
  open p use {hmac}

  -- The output loop: `left` is `okmLen - done`, the counter is an `unsigned char`, and the first
  -- `t` is empty. Each round gives at least one byte, so `left` rounds of fuel are enough.
  unfoldable pub expand : ℕ → Bytes → Bytes → Bytes → ℕ → ℕ → Bytes
  expand zero prk info t counter left = []
  expand (suc fuel) prk info t counter left =
      let t' = hmac prk (t ++ info ++ counter ∷ []) in
      let n = if ltb left 32 then left else 32 in
      let rest = expand fuel prk info t' ((counter + 1) % 256) (left - n) in
      if ltb 0 left then take n t' ++ rest else []

  abbrev pub salt_or_zero : Option Bytes → Bytes
  salt_or_zero none = replicate 32 0
  salt_or_zero (some s) = s

  unfoldable pub hkdf : Option Bytes → Bytes → Bytes → ℕ → Bytes
  unfolding expand
  hkdf salt ikm info okm_len = expand okm_len (hmac (salt_or_zero salt) ikm) info [] 1 okm_len

  -- filecrypto.cpp: one block, with the counter fixed at 1.
  unfoldable pub hkdf_sha256 : Bytes → Bytes → ℕ → Bytes
  hkdf_sha256 ikm info okm_len =
      let prk = hmac (replicate 32 0) ikm in
      let t = hmac prk (info ++ 1 ∷ []) in take (if leb okm_len 32 then okm_len else 32) t
