-- ===== src/Platform/Toy.antt =====
-- A small platform that meets the laws: sums in place of curves and hashes. It is no model of
-- libsodium; it shows that the laws can hold together, and tests run on it.
use bachelor_s_thesis.Base.{
  ℕ, zero, suc, ◌+◌, ◌*◌, ◌%◌, ◌/◌, ◌≡◌, refl, ap, true, Option, none, some, [], ◌∷◌, ◌++◌, arith,
  Bytes, length, take, drop, bytes_beq, bytes_beq_iff, if◌then◌else◌, sym, some_inj, ◌∙◌,
  take-append, drop-append, length-append, beq_refl, bytes_eq,
}
use bachelor_s_thesis.Platform.{Platform, IsLawful}

-- Exactly `n` bytes: cut off, or filled up with zeros.
unfoldable pub fit : ℕ → Bytes → Bytes
fit zero xs = []
fit (suc n) [] = 0 ∷ fit n []
fit (suc n) (x ∷ xs) = x ∷ fit n xs

pub length-fit : (n : ℕ) (xs : Bytes) → length (fit n xs) ≡ n
unfolding fit
length-fit zero xs = refl
length-fit (suc n) [] = ap suc (length-fit n [])
length-fit (suc n) (x ∷ xs) = ap suc (length-fit n xs)

fit-fit : (n : ℕ) (xs : Bytes) → fit n (fit n xs) ≡ fit n xs
unfolding fit
fit-fit zero xs = refl
fit-fit (suc n) [] = ap (◌∷◌ 0) (fit-fit n [])
fit-fit (suc n) (x ∷ xs) = ap (◌∷◌ x) (fit-fit n xs)

unfoldable pub mix : Bytes → Bytes → Bytes
mix [] ys = []
mix (x ∷ xs) [] = []
mix (x ∷ xs) (y ∷ ys) = (x + y) % 256 ∷ mix xs ys

mix_comm : (xs ys : Bytes) → mix xs ys ≡ mix ys xs
unfolding mix
mix_comm [] [] = refl
mix_comm [] (y ∷ ys) = refl
mix_comm (x ∷ xs) [] = refl
mix_comm (x ∷ xs) (y ∷ ys) = ground (arith, mix_comm xs ys)

length-mix : (n : ℕ) (xs ys : Bytes) → length (mix (fit n xs) (fit n ys)) ≡ n
unfolding mix fit
length-mix zero xs ys = refl
length-mix (suc n) [] [] = ap suc (length-mix n [] [])
length-mix (suc n) [] (y ∷ ys) = ap suc (length-mix n [] ys)
length-mix (suc n) (x ∷ xs) [] = ap suc (length-mix n xs [])
length-mix (suc n) (x ∷ xs) (y ∷ ys) = ap suc (length-mix n xs ys)

unfoldable pub weigh : ℕ → Bytes → ℕ
weigh w [] = 0
weigh w (x ∷ xs) = (x * w + weigh (w + 2) xs) % 65536

unfoldable pub toy_hmac : Bytes → Bytes → Bytes
toy_hmac k m = let w = weigh 3 k * 5 + weigh 1 m in fit 32 (w % 256 ∷ w / 256 % 256 ∷ [])

unfoldable pub seal : Bytes → Bytes → Bytes → Bytes → Bytes
seal k n pt ad = fit 16 (toy_hmac k (n ++ ad ++ pt)) ++ pt

unfoldable pub unseal : Bytes → Bytes → Bytes → Bytes → Option Bytes
unseal k n ct ad =
    let pt = drop 16 ct in
    if bytes_beq (take 16 ct) (fit 16 (toy_hmac k (n ++ ad ++ pt))) then some pt else none

unseal-seal : (k n pt ad : Bytes) → unseal k n (seal k n pt ad) ad ≡ some pt
unfolding unseal seal
unseal-seal k n pt ad =
    rw (drop-append tag pt 16 fits, take-append tag pt 16 fits) (rw (beq_refl tag))
  where
    tag : Bytes
    tag = fit 16 (toy_hmac k (n ++ ad ++ pt))

    fits : length tag ≡ 16
    fits = length-fit 16 (toy_hmac k (n ++ ad ++ pt))

length-seal : (k n pt ad : Bytes) → length (seal k n pt ad) ≡ length pt + 16
unfolding seal
length-seal k n pt ad =
    let tag : Bytes = fit 16 (toy_hmac k (n ++ ad ++ pt)) in
    omega (arith, length-append tag pt, length-fit 16 (toy_hmac k (n ++ ad ++ pt)))

pub length-toy_hmac : (k m : Bytes) → length (toy_hmac k m) ≡ 32
unfolding toy_hmac
length-toy_hmac k m =
    let w = weigh 3 k * 5 + weigh 1 m in length-fit 32 (w % 256 ∷ w / 256 % 256 ∷ [])

-- A test that runs on the toy platform unfolds this one name.
unfoldable pub toy_runs : ℕ
unfolding fit mix weigh toy_hmac seal unseal bytes_beq
toy_runs = 0

abbrev pub toy : Platform
toy = record {
  hmac = toy_hmac;
  scalarmult = λ a b. some (mix (fit 32 a) (fit 32 b));
  scalarmult_base = fit 32;
  seed_keypair = λ seed. some (fit 32 seed, seed);
  sk_to_curve25519 = λ sk. some (fit 32 sk);
  pk_to_curve25519 = λ pk. some (fit 32 pk);
  sign_detached = λ msg sk. some (fit 64 (toy_hmac (fit 32 sk) msg));
  verify_detached = λ sig msg pk. bytes_beq sig (fit 64 (toy_hmac pk msg));
  aes_encrypt = seal;
  aes_decrypt = unseal;
  xchacha_encrypt = seal;
  xchacha_decrypt = unseal;
  pwhash = λ input salt. some (toy_hmac salt input);
  secretbox = λ pt n k. seal k n pt [];
  secretbox_open = λ ct n k. unseal k n ct [];
  sha256 = toy_hmac [];
  to_utf8 = λ t. t;
  from_utf8 = λ b. b;
  to_hex = λ b. b;
  from_hex = λ t. t;
}

-- How the pair of a seed reads.
keypair_parts :
    (seed pk sk : Bytes) → toy.seed_keypair seed ≡ some (pk, sk) → (fit 32 seed ≡ pk) × (seed ≡ sk)
keypair_parts seed pk sk h = (ap first h, ap second h)
  where
    first : Option (Bytes × Bytes) → Bytes
    first none = []
    first (some (a, b)) = a

    second : Option (Bytes × Bytes) → Bytes
    second none = []
    second (some (a, b)) = b

toy-curve_public :
    (seed pk sk x : Bytes)
    → toy.seed_keypair seed ≡ some (pk, sk)
    → toy.sk_to_curve25519 sk ≡ some x
    → toy.pk_to_curve25519 pk ≡ some (toy.scalarmult_base x)
toy-curve_public seed pk sk x h g = cc (p.0, p.1, some_inj g)
  where
    p : (fit 32 seed ≡ pk) × (seed ≡ sk)
    p = keypair_parts seed pk sk h

toy-verify-sign :
    (seed pk sk msg sig : Bytes)
    → toy.seed_keypair seed ≡ some (pk, sk)
    → toy.sign_detached msg sk ≡ some sig
    → toy.verify_detached sig msg pk ≡ true
toy-verify-sign seed pk sk msg sig h g = (bytes_beq_iff sig _).1 (cc (p.0, p.1, some_inj g))
  where
    p : (fit 32 seed ≡ pk) × (seed ≡ sk)
    p = keypair_parts seed pk sk h

pub toy-IsLawful : IsLawful toy
toy-IsLawful = record {
  length-hmac = length-toy_hmac;
  length-base = length-fit 32;
  dh_comm = λ a b. rw (fit-fit 32 b, fit-fit 32 a) (ap some (mix_comm (fit 32 a) (fit 32 b)));
  length-dh = λ a b s h. ap length (sym (some_inj h)) ∙ length-mix 32 a b;
  length-public =
      λ seed pk sk h. ap length (sym (keypair_parts seed pk sk h).0) ∙ length-fit 32 seed;
  length-curve_private = λ sk x h. ap length (sym (some_inj h)) ∙ length-fit 32 sk;
  curve_public = toy-curve_public;
  verify-sign = toy-verify-sign;
  xchacha_open = unseal-seal;
  secretbox_opens = λ pt n k. unseal-seal k n pt [];
  length-secretbox = λ pt n k. length-seal k n pt [];
  length-pwhash = λ i s h e. ap length (sym (some_inj e)) ∙ length-toy_hmac s i;
  length-sha256 = λ b. length-toy_hmac [] b;
  from_utf8-to_utf8 = λ t. refl;
  from_hex-to_hex = λ b. refl;
}
