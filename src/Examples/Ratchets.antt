-- ===== src/Examples/Ratchets.antt =====
-- The double ratchet of client/src/cryptobox.cpp between two toy users.
use bachelor_s_thesis.Base.{◌+◌, ◌-◌, ◌≡◌, refl, none, some, arith, Bytes, bytes_eq}
use bachelor_s_thesis.Base.HashMap
use bachelor_s_thesis.Base.HashMap.{HashMap}
use bachelor_s_thesis.Platform.Toy.{toy, toy-IsLawful, toy_runs}
use bachelor_s_thesis.Ratchet.Primitives.{skip_key, kdf_ck}
use bachelor_s_thesis.Ratchet.Session.{RatchetSession, Frame, send, receive, skip_to, ratchet_runs}
use bachelor_s_thesis.Ratchet.Chain.{chain_key, message_key, skip_to_banks}
use bachelor_s_thesis.Ratchet.Bound.{receive-IsBounded, IsBounded}
use bachelor_s_thesis.Ratchet.Delivery.{Follows, frame_of, sent, receive-send}
use bachelor_s_thesis.Ratchet.Reorder.{receive_reordered}
use bachelor_s_thesis.Ratchet.Turns.{Turned, Fresh, dh_ratchet_turns}
use bachelor_s_thesis.CryptoBox.State.{memcmp_lt}
use bachelor_s_thesis.CryptoBox.Sessions.{bootstrap_session}
use bachelor_s_thesis.CryptoBox.Sessions.Bootstrap.{bootstrap_session-Fresh}
use bachelor_s_thesis.Examples.{
  opener, answerer, stepped, alice, bob, alice_seed, bob_seed, ratchet_seed, other_seed, nonce,
  hello,
}

first_pair : Fresh toy opener answerer
unfolding toy_runs memcmp_lt
first_pair =
    bootstrap_session-Fresh toy toy-IsLawful alice bob ratchet_seed other_seed refl refl refl refl

dh_ratchet_turns_example : Follows toy opener stepped × Turned toy stepped opener
dh_ratchet_turns_example =
    dh_ratchet_turns toy toy-IsLawful opener answerer other_seed first_pair.turned

-- A later frame of Alice's.
abbrev later : RatchetSession
later = sent toy opener

later-Follows : Follows toy later stepped
unfolding toy_runs ratchet_runs bootstrap_session memcmp_lt chain_key
later-Follows = record {
  dh = refl;
  have_dhr = refl;
  receiving = refl;
  sending = refl;
  behind = omega arith;
  keys = refl;
}

no_bank : (key : Bytes) → HashMap.lookup key stepped.skipped ≡ none
unfolding toy_runs ratchet_runs bootstrap_session memcmp_lt
no_bank key = refl

in_step : Follows toy opener stepped
in_step = (dh_ratchet_turns toy toy-IsLawful opener answerer other_seed first_pair.turned).0

receive-send_example :
    (f : Frame) × (s' r' : RatchetSession) × (send toy opener hello nonce ≡ some (f, s'))
    × (receive toy stepped f.cipher f.dh f.pn f.n f.nonce f.ct other_seed ≡ some (hello, r'))
    × Follows toy s' r'
    × (r'.nr ≡ s'.ns)
unfolding toy_runs ratchet_runs bootstrap_session memcmp_lt
receive-send_example =
    receive-send toy toy-IsLawful opener stepped hello nonce other_seed in_step (omega arith)
      (omega arith) (no_bank (skip_key opener.dhs_pub opener.ns))

-- Alice's second frame overtakes her first.
receive_reordered_example :
    let f = frame_of toy opener hello nonce in
    let g = frame_of toy later hello nonce in
    (r1 r2 : RatchetSession) × (receive toy stepped g.cipher g.dh g.pn g.n g.nonce g.ct alice_seed
      ≡ some (hello, r1))
    × (receive toy r1 f.cipher f.dh f.pn f.n f.nonce f.ct bob_seed ≡ some (hello, r2))
    × (HashMap.lookup (skip_key f.dh f.n) r2.skipped ≡ none)
    × (r2.nr ≡ later.ns + 1)
    × (r2.ckr ≡ r1.ckr)
unfolding toy_runs ratchet_runs bootstrap_session memcmp_lt
receive_reordered_example =
    receive_reordered toy toy-IsLawful opener later stepped hello hello nonce nonce alice_seed
      bob_seed in_step later-Follows (omega arith) (omega arith) (omega arith) (omega arith)
      (no_bank (skip_key later.dhs_pub later.ns))

-- Alice's first frame, as Bob receives it.
abbrev first_frame : Frame
first_frame = frame_of toy opener hello nonce

abbrev opened : RatchetSession
opened = record stepped { ckr = (kdf_ck toy opener.cks).0; nr = 1 }

opens :
    receive toy stepped first_frame.cipher first_frame.dh first_frame.pn first_frame.n
      first_frame.nonce first_frame.ct other_seed
    ≡ some (hello, opened)
unfolding toy_runs ratchet_runs bootstrap_session memcmp_lt
opens = refl

receive-IsBounded_example : IsBounded opened
unfolding toy_runs ratchet_runs bootstrap_session memcmp_lt
receive-IsBounded_example =
    receive-IsBounded toy stepped opened first_frame other_seed hello (omega arith) opens

-- A gap of three.
abbrev skipped_to : RatchetSession
skipped_to = elim (skip_to toy stepped 3) [ none ↦ stepped | some t ↦ t ]

skips : skip_to toy stepped 3 ≡ some skipped_to
unfolding toy_runs ratchet_runs bootstrap_session memcmp_lt
skips = refl

skip_to_banks_example :
    (HashMap.lookup (skip_key stepped.dhr_pub 1) skipped_to.skipped
      ≡ some (message_key toy stepped.ckr (1 - stepped.nr)))
    × (skipped_to.nr ≡ 3)
    × (skipped_to.ckr ≡ chain_key toy stepped.ckr (3 - stepped.nr))
unfolding toy_runs ratchet_runs bootstrap_session memcmp_lt
skip_to_banks_example =
    skip_to_banks toy stepped skipped_to 3 1 (omega arith) (omega arith) in_step.receiving
      (omega arith) (omega arith) skips
