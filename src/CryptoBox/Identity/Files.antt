-- ===== src/CryptoBox/Identity/Files.antt =====
-- The identity files of client/src/cryptobox.cpp, as they are saved and loaded.
use bachelor_s_thesis.Base.{
  ℕ, [], Bool, Option, none, ◌||◌, is_empty, is_empty_of_pos, Option-cases, ◌≡◌, refl, ap, sym, ◌∙◌,
  true, false, ◌⊎◌, inl, inr, ◌≤◌, some, ◌∷◌, ◌++◌, arith, Bytes, Text, length, take, drop, nat_beq,
  ltb, bytes_eq, if◌then◌else◌, Bool-cases, guard-eq-some, >>=-eq-some, some_inj, take_all,
  bytes_beq, take-append, drop-append, drop-append_two, length-append,
}
use bachelor_s_thesis.Platform.{Platform, IsLawful}
use bachelor_s_thesis.CryptoBox.State.{CryptoBox, has_x3dh_identity}
use bachelor_s_thesis.X3dh
use bachelor_s_thesis.CryptoBox.Identity.{
  derive_agreement_keys_from_seed, adopt_seed, adopt_legacy, load_identity, save_identity,
  save_identity_encrypted, unwrap_identity, load_identity_encrypted, is_encrypted_identity_file,
  plain_magic, wrap_magic, wrap_version, wrap_version_legacy, argon2id32, wrap_ctx,
}

-- The five parts of a wrapped identity are found again at their places.
abbrev pub wrapped : ℕ → Bytes → Bytes → Bytes → Bytes
wrapped version salt nonce sealed = wrap_magic ++ (version ∷ (salt ++ (nonce ++ sealed)))

-- The identity of one box in another: the seed, the keys and the version.
abbrev pub with_identity : CryptoBox → CryptoBox → CryptoBox
with_identity other box = record other {
  identity_seed = box.identity_seed;
  ed_public_key = box.ed_public_key;
  identity_version = box.identity_version;
  private_key = box.private_key;
  public_key = box.public_key;
}

-- An identity whose keys are those of its seed.
pub record IsSeedIdentity (p : Platform) (box : CryptoBox) : Type 0 where
  pub version : box.identity_version ≡ 2
  pub sized : length box.identity_seed ≡ 32
  pub derived : derive_agreement_keys_from_seed p box ≡ some box

-- An identity that is a private key, without a seed.
pub record IsLegacyIdentity (p : Platform) (box : CryptoBox) : Type 0 where
  pub version : box.identity_version ≡ 1
  pub no_seed : box.identity_seed ≡ []
  pub no_ed : box.ed_public_key ≡ []
  pub own_key : box.public_key ≡ p.scalarmult_base box.private_key

-- What is derived depends on the seed alone.
derive-with_keys :
    (p : Platform) (box b other : CryptoBox)
    → derive_agreement_keys_from_seed p box ≡ some b
    → derive_agreement_keys_from_seed p (record other { identity_seed = box.identity_seed })
      ≡ some (record other {
        identity_seed = box.identity_seed;
        ed_public_key = b.ed_public_key;
        private_key = b.private_key;
        public_key = b.public_key;
      })
unfolding derive_agreement_keys_from_seed
derive-with_keys p box b other h =
    let ed_pub = X3dh.identity_public p box.identity_seed in
    let x_priv = X3dh.identity_to_x25519_private p box.identity_seed in
    elim (Bool-cases (is_empty ed_pub || is_empty x_priv)) [
      | inl bare ↦ absurd (ground arith)
      | inr full ↦ elim (Option-cases (X3dh.identity_to_x25519_public p ed_pub)) [
        | inl e ↦ absurd (ground arith)
        | inr (x_pub, e) ↦
            let made : record box {
              ed_public_key = ed_pub;
              private_key = x_priv;
              public_key = x_pub;
            }
                ≡ b =
              ground arith in
            rw (full, e)
              (ap
                (λ (k : CryptoBox). some (record other {
                  identity_seed = box.identity_seed;
                  ed_public_key = k.ed_public_key;
                  private_key = k.private_key;
                  public_key = k.public_key;
                }))
                made)
      ]
    ]

abbrev the_pair : CryptoBox → CryptoBox × Bool
the_pair c = (c, true)

pair_true : {a b : CryptoBox} → a ≡ b → ◌≡◌ {A = CryptoBox × Bool} (a, true) (b, true)
pair_true h = ap (λ (c : CryptoBox). the_pair c) h

module _ (p : Platform) (box : CryptoBox) where
  has-IsSeedIdentity : IsSeedIdentity p box → has_x3dh_identity box ≡ true
  unfolding has_x3dh_identity
  has-IsSeedIdentity s =
      let v = s.version in
      let z = s.sized in ground (arith, is_empty_of_pos box.identity_seed (omega (arith, z)))

  has-IsLegacyIdentity : IsLegacyIdentity p box → has_x3dh_identity box ≡ false
  unfolding has_x3dh_identity
  has-IsLegacyIdentity s = let v = s.version in ground arith

  adopt_seed-IsSeedIdentity :
      (other : CryptoBox)
      → IsSeedIdentity p box
      → adopt_seed p other box.identity_seed ≡ (with_identity other box, true)
  adopt_seed-IsSeedIdentity other s =
      ap
        (λ (o : Option CryptoBox). elim o as (λ _. CryptoBox × Bool) [
          | none ↦ (record other { identity_seed = [] }, false)
          | some derived ↦ (record derived { identity_version = 2 }, true)
        ])
        (derive-with_keys p box box other s.derived)
      ∙ pair_true (
          ap (λ (v : ℕ). record (with_identity other box) { identity_version = v }) (sym s.version))

  adopt_legacy-IsLegacyIdentity :
      (other : CryptoBox)
      → IsLegacyIdentity p box
      → adopt_legacy p other box.private_key ≡ with_identity other box
  adopt_legacy-IsLegacyIdentity other s = rw (s.version, s.no_seed, s.no_ed, s.own_key) refl

module _ (p : Platform) where
  -- A seed that was saved in the clear is the seed that is loaded.
  pub load-save_identity :
      (box other : CryptoBox)
      → has_x3dh_identity box ≡ true
      → length box.identity_seed ≡ 32
      → load_identity p other (some (save_identity p box)) ≡ adopt_seed p other box.identity_seed
  unfolding load_identity save_identity bytes_beq
  load-save_identity box other has size =
      let saved : save_identity p box ≡ plain_magic ++ 2 ∷ box.identity_seed = ground arith in
      let size_of : length (plain_magic ++ 2 ∷ box.identity_seed) ≡ 41 = omega (arith, size) in
      rw (saved, size_of, take_all box.identity_seed 32 size) refl

  pub load-save_identity_legacy :
      (box other : CryptoBox)
      → has_x3dh_identity box ≡ false
      → length box.private_key ≡ 32
      → load_identity p other (some (save_identity p box))
        ≡ (adopt_legacy p other box.private_key, true)
  unfolding load_identity save_identity
  load-save_identity_legacy box other has size =
      let saved : save_identity p box ≡ box.private_key = ground arith in rw (saved, size) refl

  pub save_identity_encrypted-parts :
      (box : CryptoBox) (password : Text) (salt nonce blob : Bytes)
      → save_identity_encrypted p box password salt nonce ≡ some blob
      → (key : Bytes) × (argon2id32 p wrap_ctx (p.to_utf8 password) salt ≡ some key)
        × (length box.private_key ≡ 32)
        × (blob
            ≡ wrapped
                (if has_x3dh_identity box then wrap_version else wrap_version_legacy)
                salt
                nonce
                (p.secretbox
                  (if has_x3dh_identity box then box.identity_seed else box.private_key)
                  nonce
                  key))
  unfolding save_identity_encrypted
  save_identity_encrypted-parts box password salt nonce blob h =
      let (sized, h1) = guard-eq-some (nat_beq (length box.private_key) 32) _ h in
      let (key, e, h2) = >>=-eq-some (argon2id32 p wrap_ctx (p.to_utf8 password) salt) _ h1 in
      (key, e, (ground arith), sym (some_inj h2))

  unwrap_identity-wrapped :
      (version : ℕ) (salt nonce sealed secret key : Bytes) (password : Text)
      → (version ≡ 1) ⊎ (version ≡ 2)
      → length salt ≡ 16
      → length nonce ≡ 24
      → 48 ≤ length sealed
      → argon2id32 p wrap_ctx (p.to_utf8 password) salt ≡ some key
      → p.secretbox_open sealed nonce key ≡ some secret
      → unwrap_identity p (wrapped version salt nonce sealed) password
        ≡ some (secret, nat_beq version 2)
  unfolding unwrap_identity bytes_beq
  unwrap_identity-wrapped version salt nonce sealed secret key password known h k l derived opened =
      let blob = wrapped version salt nonce sealed in
      let size : ltb (length blob) 97 ≡ false = ground (
        arith,
        length-append wrap_magic (version ∷ (salt ++ (nonce ++ sealed))),
        length-append salt (nonce ++ sealed),
        length-append nonce sealed,
      ) in
      let at_salt : take 16 (drop 9 blob) ≡ salt = take-append salt (nonce ++ sealed) 16 h in
      let at_nonce : take 24 (drop 25 blob) ≡ nonce =
        ap (take 24) (drop-append salt (nonce ++ sealed) 16 h) ∙ take-append nonce sealed 24 k in
      let at_sealed : drop 49 blob ≡ sealed =
        drop-append_two salt nonce sealed 40 (omega (arith, h, k)) in
      elim known [
        | inl e ↦ rw (size, at_salt, at_nonce, at_sealed, e, derived, opened) refl
        | inr e ↦ rw (size, at_salt, at_nonce, at_sealed, e, derived, opened) refl
      ]

module _ (p : Platform) (law : IsLawful p) where
  unwrap_identity-sealed :
      (version : ℕ) (salt nonce secret key blob : Bytes) (password : Text)
      → (version ≡ 1) ⊎ (version ≡ 2)
      → length salt ≡ 16
      → length nonce ≡ 24
      → length secret ≡ 32
      → argon2id32 p wrap_ctx (p.to_utf8 password) salt ≡ some key
      → blob ≡ wrapped version salt nonce (p.secretbox secret nonce key)
      → unwrap_identity p blob password ≡ some (secret, nat_beq version 2)
  unwrap_identity-sealed version salt nonce secret key blob password known h k l derived parts =
      ap (λ b. unwrap_identity p b password) parts
      ∙ unwrap_identity-wrapped p version salt nonce (p.secretbox secret nonce key) secret key
          password known h k (omega (arith, law.length-secretbox secret nonce key, l)) derived
          (law.secretbox_opens secret nonce key)

  -- An identity that was saved under a password is loaded again under it, into whatever box: the
  -- call succeeds, and the seed, the three keys and the version are those that were saved, while
  -- the rest of the box stays. The identity is one of version 2 whose keys are those of its seed of
  -- 32 bytes, or one of version 1 without a seed; the salt has 16 bytes and the nonce 24.
  pub load-save_identity_encrypted :
      (box other : CryptoBox) (password : Text) (salt nonce blob : Bytes)
      → save_identity_encrypted p box password salt nonce ≡ some blob
      → length salt ≡ 16
      → length nonce ≡ 24
      → IsSeedIdentity p box ⊎ IsLegacyIdentity p box
      → load_identity_encrypted p other (some blob) password ≡ (with_identity other box, true)
  unfolding load_identity_encrypted
  load-save_identity_encrypted box other password salt nonce blob h at_salt at_nonce (inl seeded) =
      let (key, derived, sized, parts) =
        save_identity_encrypted-parts p box password salt nonce blob h in
      let has = has-IsSeedIdentity p box seeded in
      let opened =
        unwrap_identity-sealed 2 salt nonce box.identity_seed key blob password (inr refl) at_salt
          at_nonce seeded.sized derived (rw has at parts) in
      rw (opened, load_identity_encrypted) (adopt_seed-IsSeedIdentity p box other seeded)
  load-save_identity_encrypted box other password salt nonce blob h at_salt at_nonce (inr legacy) =
      let (key, derived, sized, parts) =
        save_identity_encrypted-parts p box password salt nonce blob h in
      let has = has-IsLegacyIdentity p box legacy in
      let opened =
        unwrap_identity-sealed 1 salt nonce box.private_key key blob password (inl refl) at_salt
          at_nonce sized derived (rw has at parts) in
      rw (opened, load_identity_encrypted)
        (pair_true (adopt_legacy-IsLegacyIdentity p box other legacy))

  -- A file that was saved under a password is recognised as such exactly when the identity was one
  -- with a seed.
  pub is_encrypted_identity_file-save :
      (box : CryptoBox) (password : Text) (salt nonce blob : Bytes)
      → save_identity_encrypted p box password salt nonce ≡ some blob
      → is_encrypted_identity_file p (some blob) ≡ has_x3dh_identity box
  unfolding is_encrypted_identity_file bytes_beq
  is_encrypted_identity_file-save box password salt nonce blob h =
      let (key, derived, sized, parts) =
        save_identity_encrypted-parts p box password salt nonce blob h in
      elim (Bool-cases (has_x3dh_identity box)) [
        | inl e ↦ rw (parts, e) refl
        | inr e ↦ rw (parts, e) refl
      ]
