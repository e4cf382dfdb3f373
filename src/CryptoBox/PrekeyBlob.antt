-- ===== src/CryptoBox/PrekeyBlob.antt =====
-- `serialisePrekeys` and `restorePrekeys` of client/src/cryptobox.cpp: the prekeys at rest. A read
-- past the end of a QDataStream gives zero and marks the stream, and the call then ends with false
-- before it has changed anything; so a read that fails is none.
pub mod RoundTrip
use bachelor_s_thesis.Base.{
  ℕ, zero, suc, ◌+◌, ◌-◌, ◌*◌, ◌/◌, ◌%◌, ◌^◌, Bool, true, false, not, ◌||◌, ◌&&◌, Option, none,
  some, [], ◌∷◌, ◌++◌, Bytes, codes, be32, length, take, drop, is_empty, nat_beq, ltb, ◌==◌,
  bytes_eq, if◌then◌else◌, ◌>>=◌, ◌>>◌, guard,
}
use bachelor_s_thesis.Base.Int.{ℤ, pos, negsuc, ltb_ℤ}
use bachelor_s_thesis.Base.OrderedMap
use bachelor_s_thesis.Base.OrderedMap.{OrderedMap}
use bachelor_s_thesis.Platform.{Platform}
use bachelor_s_thesis.CryptoBox.State.{CryptoBox}

abbrev pub prekey_magic : Bytes
prekey_magic = codes "CE2EPKEY"

abbrev pub prekey_version : ℕ
prekey_version = 2

abbrev pub prekey_version_v1 : ℕ
prekey_version_v1 = 1

-- A `qint64` as 64 bits, and back.
abbrev pub word_of_ℤ : ℤ → ℕ
word_of_ℤ (pos n) = n % 2 ^ 64
word_of_ℤ (negsuc n) = 2 ^ 64 - 1 - n % 2 ^ 64

abbrev pub ℤ_of_word : ℕ → ℤ
ℤ_of_word w = if ltb w (2 ^ 63) then pos w else negsuc (2 ^ 64 - 1 - w)

unfoldable pub be64 : ℤ → Bytes
be64 t = be32 (word_of_ℤ t / 2 ^ 32) ++ be32 (word_of_ℤ t % 2 ^ 32)

unfoldable pub pool_bytes : OrderedMap Bytes → Bytes
pool_bytes [] = []
pool_bytes ((id, priv) ∷ pool) = be32 id ++ (priv ++ pool_bytes pool)

unfoldable pub serialise_prekeys : CryptoBox → Bytes
serialise_prekeys box =
    if is_empty box.spk_priv
    then []
    else prekey_magic
      ++ (prekey_version
          ∷ (box.spk_priv
              ++ (box.spk_sig
                  ++ (be64 box.spk_created_ms
                      ++ (be64 box.prev_spk_retired_ms
                          ++ (be32 (length box.prev_spk_priv)
                              ++ ((if is_empty box.prev_spk_priv
                                    then []
                                    else box.prev_spk_priv ++ box.prev_spk_pub)
                                  ++ (be32 box.next_opk_id
                                      ++ (be32 (length box.opk_priv)
                                          ++ pool_bytes box.opk_priv)))))))))

-- `readRawData`, with what is left.
unfoldable pub read_raw : ℕ → Bytes → Option (Bytes × Bytes)
read_raw n b = if ltb (length b) n then none else some (take n b, drop n b)

abbrev pub number_of : Bytes → ℕ
number_of (b3 ∷ b2 ∷ b1 ∷ b0 ∷ []) = b3 * 2 ^ 24 + b2 * 2 ^ 16 + b1 * 2 ^ 8 + b0
number_of b = 0

unfoldable pub read_u32 : Bytes → Option (ℕ × Bytes)
read_u32 b = do r ← read_raw 4 b; some (number_of r.0, r.1)

unfoldable pub read_i64 : Bytes → Option (ℤ × Bytes)
read_i64 b = do
  high ← read_u32 b
  low ← read_u32 high.1
  some (ℤ_of_word (high.0 * 2 ^ 32 + low.0), low.1)

-- The loop over `count`.
unfoldable pub read_pool : ℕ → Bytes → OrderedMap Bytes → Option (OrderedMap Bytes × Bytes)
read_pool zero b pool = some (pool, b)
read_pool (suc count) b pool = read_u32 b >>= λ id.
    read_raw 32 id.1 >>= λ priv. read_pool count priv.1 (OrderedMap.insert id.0 priv.0 pool)

-- The retained key, by the length that precedes it.
unfoldable pub read_previous : ℕ → Bytes → Option ((Bytes × Bytes) × Bytes)
read_previous prev_len b =
    let both = read_raw 32 b >>= λ priv.
    read_raw 32 priv.1 >>= λ pub_key. some ((priv.0, pub_key.0), pub_key.1) in
    if nat_beq prev_len 32 then both else if nat_beq prev_len 0 then some (([], []), b) else none

-- Version 1 has neither timestamps nor a retained key.
unfoldable pub read_rotation : Bool → Bytes → Option ((ℤ × ℤ × Bytes × Bytes) × Bytes)
read_rotation is_current b =
    let all = do
      created ← read_i64 b
      retired ← read_i64 created.1
      prev_len ← read_u32 retired.1
      previous ← read_previous prev_len.0 prev_len.1
      some ((created.0, retired.0, previous.0.0, previous.0.1), previous.1)
    in if is_current then all else some ((pos 0, pos 0, [], []), b)

pub record Stored : Type 0 where
  pub spk_priv : Bytes
  pub spk_sig : Bytes
  pub is_current : Bool
  pub rotation : ℤ × ℤ × Bytes × Bytes
  pub next_opk_id : ℕ
  pub opk_priv : OrderedMap Bytes

-- The parts of a blob after the magic and the version.
unfoldable pub parse_body : Bool → Bytes → Option Stored
parse_body is_current b = do
  priv ← read_raw 32 b
  sig ← read_raw 64 priv.1
  rotation ← read_rotation is_current sig.1
  next ← read_u32 rotation.1
  count ← read_u32 next.1
  pool ← read_pool count.0 count.1 []
  some (record {
    spk_priv = priv.0;
    spk_sig = sig.0;
    is_current = is_current;
    rotation = rotation.0;
    next_opk_id = next.0;
    opk_priv = pool.0;
  })

unfoldable pub parse_prekeys : Bytes → Option Stored
parse_prekeys blob = do
  guard (not (ltb (length blob) 113))
  magic ← read_raw 8 blob
  guard (magic.0 == prekey_magic)
  version ← read_raw 1 magic.1
  guard (version.0 == prekey_version ∷ [] || version.0 == prekey_version_v1 ∷ [])
  parse_body (version.0 == prekey_version ∷ []) version.1

-- `now` is the clock, which dates a key without a time of creation.
unfoldable pub restore_prekeys : Platform → CryptoBox → Bytes → ℤ → CryptoBox × Bool
restore_prekeys p box blob now = elim (parse_prekeys blob) [
  | none ↦ (box, false)
  | some s ↦
      let (created, retired, prev_priv, prev_pub) = s.rotation in
      (
        record box {
          spk_priv = s.spk_priv;
          spk_pub = p.scalarmult_base s.spk_priv;
          spk_sig = s.spk_sig;
          spk_created_ms = if s.is_current && ltb_ℤ (pos 0) created then created else now;
          prev_spk_priv = prev_priv;
          prev_spk_pub = prev_pub;
          prev_spk_retired_ms = retired;
          opk_priv = s.opk_priv;
          next_opk_id = s.next_opk_id;
        },
        true,
      )
]
