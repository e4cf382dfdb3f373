-- ===== src/Examples/Agreement.antt =====
-- The agreement, the keys and the derivations of client/src/x3dh.cpp on two toy users.
use bachelor_s_thesis.Base.{
  ◌≡◌, refl, inr, true, some, none, Option, [], ◌++◌, arith, Bytes, length, take,
}
use bachelor_s_thesis.Base.Int.{pos}
use bachelor_s_thesis.Platform.Toy.{toy, toy-IsLawful, toy_runs}
use bachelor_s_thesis.Hkdf.{hkdf, salt_or_zero}
use bachelor_s_thesis.Hkdf.Rfc5869.{blocks, hkdf-blocks}
use bachelor_s_thesis.X3dh.{
  Bundle, InitiatorResult, initiator_with_ephemeral, responder, x3dh_runs, new_signed_prekey,
  identity_public, verify,
}
use bachelor_s_thesis.X3dh.Agreement.{Published, responder-initiator, initiator_vouches}
use bachelor_s_thesis.Examples.{alice_seed, bob_seed, spk_seed, opk_seed, ek_seed, hello}

-- Bob's bundle.
abbrev signed : Option (Bytes × Bytes × Bytes)
signed = new_signed_prekey toy bob_seed spk_seed

abbrev signature_of : Option (Bytes × Bytes × Bytes) → Bytes
signature_of none = []
signature_of (some (priv, spk, sig)) = sig

abbrev bundle : Bundle
bundle = record {
  ik = bob_seed;
  spk = spk_seed;
  spk_sig = signature_of signed;
  opk = opk_seed;
  opk_id = pos 7;
}

abbrev result_or : InitiatorResult → Option InitiatorResult → InitiatorResult
result_or d none = d
result_or d (some r) = r

abbrev no_result : InitiatorResult
no_result = record { sk = []; ik = []; ek = []; ad = []; opk_id = pos 0 }

abbrev result : InitiatorResult
result = result_or no_result (initiator_with_ephemeral toy alice_seed bundle ek_seed)

made : initiator_with_ephemeral toy alice_seed bundle ek_seed ≡ some result
unfolding toy_runs x3dh_runs
made = refl

published : Published toy bob_seed spk_seed opk_seed bundle
unfolding toy_runs x3dh_runs
published = record {
  at_ik = refl;
  at_spk = refl;
  at_opk = refl;
  length-spk = refl;
  length-opk = inr refl;
  have_private = refl;
}

responder-initiator_example :
    responder toy bob_seed spk_seed opk_seed result.ik result.ek ≡ some result.sk
responder-initiator_example =
    responder-initiator toy toy-IsLawful alice_seed bob_seed spk_seed opk_seed ek_seed bundle result
      published made

initiator_vouches_example :
    (verify toy bundle.ik bundle.spk bundle.spk_sig ≡ true)
    × (length result.sk ≡ 32)
    × (result.ik ≡ identity_public toy alice_seed)
    × (result.ek ≡ toy.scalarmult_base ek_seed)
    × (result.ad ≡ result.ik ++ bundle.ik)
initiator_vouches_example = initiator_vouches toy toy-IsLawful alice_seed ek_seed bundle result made

signs : new_signed_prekey toy bob_seed spk_seed ≡ some (spk_seed, spk_seed, bundle.spk_sig)
unfolding toy_runs x3dh_runs
signs = refl

hkdf-blocks_example :
    hkdf toy none alice_seed hello 64
    ≡ take 64 (blocks toy toy-IsLawful 2 (toy.hmac (salt_or_zero toy none) alice_seed) hello [] 1)
hkdf-blocks_example = hkdf-blocks toy toy-IsLawful none alice_seed hello 2 64 (omega arith)
