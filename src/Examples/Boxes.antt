-- ===== src/Examples/Boxes.antt =====
-- Sessions and messages of two toy users.
use bachelor_s_thesis.Base.{
  if◌then◌else◌, not, ◌&&◌, ◌==◌, ◌≡◌, refl, inr, true, Option, none, some, [], ◌∷◌, arith, Bytes,
  codes, bytes_eq,
}
use bachelor_s_thesis.Base.Int.{pos}
use bachelor_s_thesis.Base.HashMap
use bachelor_s_thesis.Base.OrderedMap
use bachelor_s_thesis.Platform.Toy.{toy, toy-IsLawful, toy_runs}
use bachelor_s_thesis.X3dh.{x3dh_runs, new_signed_prekey}
use bachelor_s_thesis.Ratchet.Session.{RatchetSession, ratchet_runs}
use bachelor_s_thesis.Ratchet.Delivery.{Follows}
use bachelor_s_thesis.Ratchet.Turns.{Turned, Fresh, dh_ratchet_turns}
use bachelor_s_thesis.CryptoBox.State.{CryptoBox, memcmp_lt, has_x3dh_identity}
use bachelor_s_thesis.CryptoBox.Prekeys.{take_one_time_prekey}
use bachelor_s_thesis.CryptoBox.Sessions.{bootstrap_session, session_for}
use bachelor_s_thesis.CryptoBox.Sessions.Bootstrap.{bootstrap_session-Fresh}
use bachelor_s_thesis.CryptoBox.X3dhSessions.{
  Opening, begin_x3dh_session, accept_x3dh_session, consume_opk,
}
use bachelor_s_thesis.CryptoBox.X3dhSessions.Establish.{Answers, accept-begin}
use bachelor_s_thesis.CryptoBox.Messages.{
  WireFrame, sealed, with_session, encrypt_for, decrypt_from,
}
use bachelor_s_thesis.CryptoBox.Messages.Exchange.{decrypt-encrypt_first, decrypt-encrypt}
use bachelor_s_thesis.CryptoBox.Messages.Untouched.{made_session, decrypt_from_untouched}
use bachelor_s_thesis.Examples.{
  alice, bob, alice_name, bob_name, alice_seed, bob_seed, spk_seed, opk_seed, ek_seed, ratchet_seed,
  other_seed, nonce, hello, opener, answerer, stepped,
}

abbrev alice_ready : CryptoBox
alice_ready = record alice { sessions = (bob_name, opener) ∷ [] }

abbrev bob_waiting : CryptoBox
bob_waiting = record bob { sessions = (alice_name, answerer) ∷ [] }

abbrev bob_stepped : CryptoBox
bob_stepped = record bob { sessions = (alice_name, stepped) ∷ [] }

holds : HashMap.lookup bob_name alice_ready.sessions ≡ some opener
unfolding toy_runs HashMap.lookup
holds = refl

waits : HashMap.lookup alice_name bob_waiting.sessions ≡ some answerer
unfolding toy_runs HashMap.lookup
waits = refl

steps : HashMap.lookup alice_name bob_stepped.sessions ≡ some stepped
unfolding toy_runs HashMap.lookup
steps = refl

first_pair : Fresh toy opener answerer
unfolding toy_runs memcmp_lt
first_pair =
    bootstrap_session-Fresh toy toy-IsLawful alice bob ratchet_seed other_seed refl refl refl refl

decrypt-encrypt_first_example :
    (w : WireFrame) × (s' r' : RatchetSession) × (encrypt_for toy alice_ready bob_name hello ek_seed
        nonce
      ≡ (with_session alice_ready bob_name s', sealed w))
    × (decrypt_from toy bob_waiting alice_name w ek_seed other_seed
        ≡ (with_session bob_waiting alice_name r', some hello))
    × Follows toy s' r'
    × Turned toy r' s'
decrypt-encrypt_first_example =
    decrypt-encrypt_first toy toy-IsLawful alice_ready bob_waiting alice_name bob_name hello ek_seed
      nonce ek_seed other_seed opener answerer holds waits first_pair

decrypt-encrypt_example :
    (w : WireFrame) × (s' r' : RatchetSession) × (encrypt_for toy alice_ready bob_name hello ek_seed
        nonce
      ≡ (with_session alice_ready bob_name s', sealed w))
    × (decrypt_from toy bob_stepped alice_name w ek_seed other_seed
        ≡ (with_session bob_stepped alice_name r', some hello))
    × Follows toy s' r'
    × (r'.nr ≡ s'.ns)
unfolding toy_runs ratchet_runs bootstrap_session memcmp_lt
decrypt-encrypt_example =
    decrypt-encrypt toy toy-IsLawful alice_ready bob_stepped alice_name bob_name hello ek_seed nonce
      ek_seed other_seed opener stepped holds steps
      (dh_ratchet_turns toy toy-IsLawful opener answerer other_seed first_pair.turned).0
      (omega arith) (omega arith) refl

-- A forged frame.
abbrev forged : WireFrame
forged = record {
  cipher = codes "xc20p1305-r1";
  dh_hex = alice_seed;
  pn = 0;
  n = 0;
  nonce_hex = nonce;
  ct_hex = hello;
}

fails : (decrypt_from toy bob_waiting alice_name forged ek_seed other_seed).1 ≡ none
unfolding toy_runs ratchet_runs bootstrap_session memcmp_lt session_for decrypt_from
fails = refl

decrypt_from_untouched_example :
    let after = (decrypt_from toy bob_waiting alice_name forged ek_seed other_seed).0 in
    (record after { sessions = bob_waiting.sessions } ≡ bob_waiting)
    × (HashMap.lookup alice_name after.sessions ≡ (
        if alice_name == alice_name && not (HashMap.contains alice_name bob_waiting.sessions)
        then made_session (session_for toy bob_waiting alice_name ek_seed)
        else HashMap.lookup alice_name bob_waiting.sessions))
decrypt_from_untouched_example =
    decrypt_from_untouched toy bob_waiting alice_name alice_name forged ek_seed other_seed fails

abbrev signature_of : Option (Bytes × Bytes × Bytes) → Bytes
signature_of none = []
signature_of (some (priv, spk, sig)) = sig

abbrev signature : Bytes
signature = signature_of (new_signed_prekey toy bob_seed spk_seed)

abbrev begun_or : Option (CryptoBox × Opening) → CryptoBox × Opening
begun_or none = (alice, record { ik_a = []; ek_a = []; opk_id = pos 0 })
begun_or (some r) = r

abbrev begun : CryptoBox × Opening
begun = begun_or (
    begin_x3dh_session toy alice bob_name bob_seed spk_seed signature opk_seed (pos 7) ek_seed
      ratchet_seed)

begins :
    begin_x3dh_session toy alice bob_name bob_seed spk_seed signature opk_seed
      (pos 7)
      ek_seed
      ratchet_seed
    ≡ some begun
unfolding toy_runs x3dh_runs begin_x3dh_session has_x3dh_identity
begins = refl

answers : Answers toy bob bob_seed spk_seed signature opk_seed (pos 7)
unfolding toy_runs x3dh_runs has_x3dh_identity consume_opk take_one_time_prekey OrderedMap.lookup
answers = record {
  has_identity = refl;
  have_prekey = refl;
  at_spk = refl;
  opk_priv = opk_seed;
  taken = (take_one_time_prekey bob 7).1;
  consumed = refl;
  published = record {
    at_ik = refl;
    at_spk = refl;
    at_opk = refl;
    length-spk = refl;
    length-opk = inr refl;
    have_private = refl;
  };
}

accept-begin_example :
    (bob' : CryptoBox) × (s r : RatchetSession) × (accept_x3dh_session toy bob alice_name
        begun.1.ik_a begun.1.ek_a begun.1.opk_id spk_seed
      ≡ (bob', true))
    × (HashMap.lookup bob_name begun.0.sessions ≡ some s)
    × (HashMap.lookup alice_name bob'.sessions ≡ some r)
    × Fresh toy s r
accept-begin_example =
    accept-begin toy toy-IsLawful alice begun.0 bob alice_name bob_name bob_seed spk_seed signature
      opk_seed (pos 7) ek_seed ratchet_seed begun.1 begins answers
