-- ===== src/CryptoBox/Prekeys/Pool.antt =====
-- The ids of the one-time prekeys (`generatePrekeys` of client/src/cryptobox.cpp).
use bachelor_s_thesis.Base.{
  ℕ, zero, suc, ◌+◌, ◌^◌, ◌<◌, ◌≡◌, refl, ap, sym, ◌∙◌, none, some, [], arith, Bytes, ltb, leb,
  ◌&&◌, ◌-◌, if◌then◌else◌, guard-eq-some, >>=-eq-some, some_inj,
}
use bachelor_s_thesis.Base.Int.{ℤ, pos}
use bachelor_s_thesis.Base.OrderedMap
use bachelor_s_thesis.Platform.{Platform}
use bachelor_s_thesis.X3dh
use bachelor_s_thesis.CryptoBox.State.{CryptoBox, has_x3dh_identity}
use bachelor_s_thesis.CryptoBox.Prekeys.{
  generate_prekeys, retire_signed_prekey, fill_pool, add_one_time_prekey,
}

n_add_zero : (n : ℕ) → 0 + n ≡ n
n_add_zero n = omega arith

module _ (p : Platform) where
  fill_pool-next :
      (rounds i : ℕ) (fresh : ℕ → Bytes) (box : CryptoBox)
      → box.next_opk_id + rounds < 2 ^ 32
      → (fill_pool p rounds i fresh box).next_opk_id ≡ box.next_opk_id + rounds
  unfolding fill_pool
  fill_pool-next zero i fresh box h = omega arith
  fill_pool-next (suc rounds) i fresh box h = omega (
    arith,
    fill_pool-next rounds (suc i) fresh (add_one_time_prekey p box (fresh i)) (omega arith),
  )

  fill_pool-lookup :
      (rounds i : ℕ) (fresh : ℕ → Bytes) (box : CryptoBox) (id : ℕ)
      → box.next_opk_id + rounds < 2 ^ 32
      → OrderedMap.lookup id (fill_pool p rounds i fresh box).opk_priv ≡ (
          if leb box.next_opk_id id && ltb id (box.next_opk_id + rounds)
          then some (X3dh.new_one_time_prekey p (fresh (i + (id - box.next_opk_id)))).0
          else OrderedMap.lookup id box.opk_priv)
  unfolding fill_pool
  fill_pool-lookup zero i fresh box id h = ground arith
  fill_pool-lookup (suc rounds) i fresh box id h =
      let next = add_one_time_prekey p box (fresh i) in
      ground (
        arith,
        fill_pool-lookup rounds (suc i) fresh next id (omega arith),
        OrderedMap.lookup-insert box.next_opk_id id (X3dh.new_one_time_prekey p (fresh i)).0
            box.opk_priv,
      )

  retire_signed_prekey-next :
      (box : CryptoBox) (clock : ℤ)
      → (retire_signed_prekey p box clock).next_opk_id ≡ box.next_opk_id
  unfolding retire_signed_prekey
  retire_signed_prekey-next box clock = ground arith

  -- A generated pool holds exactly the next opk_count ids, each with the key drawn for it, and the
  -- next id is then past all of them, as long as the ids stay below 2 ^ 32.
  pub generate_prekeys_ids :
      (box box' : CryptoBox) (opk_count : ℕ) (fresh_spk : Bytes) (fresh : ℕ → Bytes)
      (retired created : ℤ) (id : ℕ)
      → generate_prekeys p box (pos opk_count) fresh_spk fresh retired created ≡ some box'
      → box.next_opk_id + opk_count < 2 ^ 32
      → (OrderedMap.lookup id box'.opk_priv ≡ (
          if leb box.next_opk_id id && ltb id (box.next_opk_id + opk_count)
          then some (X3dh.new_one_time_prekey p (fresh (id - box.next_opk_id))).0
          else none))
        × (box'.next_opk_id ≡ box.next_opk_id + opk_count)
  unfolding generate_prekeys OrderedMap.lookup
  generate_prekeys_ids box box' opk_count fresh_spk fresh retired created id h fits =
      let (has, h1) = guard-eq-some (has_x3dh_identity box) _ h in
      let (made, e, h2) = >>=-eq-some (X3dh.new_signed_prekey p box.identity_seed fresh_spk) _ h1 in
      let start : CryptoBox = record (retire_signed_prekey p box retired) {
        spk_priv = made.0;
        spk_pub = made.1;
        spk_sig = made.2;
        spk_created_ms = created;
        opk_priv = [];
      } in
      let at : start.next_opk_id ≡ box.next_opk_id = retire_signed_prekey-next box retired in
      let filled : fill_pool p opk_count 0 fresh start ≡ box' = some_inj h2 in
      let fits' : start.next_opk_id + opk_count < 2 ^ 32 = omega (arith, at) in
      (
        ap (λ (b : CryptoBox). OrderedMap.lookup id b.opk_priv) (sym filled)
            ∙ (fill_pool-lookup opk_count 0 fresh start id fits'
                ∙ rw (at, n_add_zero (id - box.next_opk_id)) refl),
        ap (λ (b : CryptoBox). b.next_opk_id) (sym filled)
            ∙ (fill_pool-next opk_count 0 fresh start fits' ∙ ap (λ n. n + opk_count) at),
      )
