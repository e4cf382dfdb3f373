-- ===== src/Examples/Transfers.antt =====
-- Bob's client, to which Alice announces a file.
use bachelor_s_thesis.Base.{
  bytes_eq, ◌≡◌, refl, true, false, some, [], ◌∷◌, codes, replicate, bytes_beq,
}
use bachelor_s_thesis.Base.Int.{pos}
use bachelor_s_thesis.Base.HashMap
use bachelor_s_thesis.Base.HashSet
use bachelor_s_thesis.Platform.Toy.{toy, toy_runs}
use bachelor_s_thesis.Ratchet.Session.{ratchet_runs, send, receive}
use bachelor_s_thesis.CryptoBox.State.{memcmp_lt}
use bachelor_s_thesis.CryptoBox.Sessions.{
  session_for, bootstrap_session, ensure_shared_key, differs,
}
use bachelor_s_thesis.CryptoBox.Messages.{
  WireFrame, Encrypted, failed, not_ready, sealed, encrypt_for, decrypt_from, to_wire,
}
use bachelor_s_thesis.Client.State.{ChatClient, frames_of, text_of}
use bachelor_s_thesis.Client.FileInit.{FileInit, is_seen, open_key, on_file_init}
use bachelor_s_thesis.Client.FileInit.Once.{on_file_init_again}
use bachelor_s_thesis.Examples.{
  alice, bob, alice_seed, alice_name, bob_name, hello, nonce, ek_seed, opener, answerer,
}
use bachelor_s_thesis.Examples.Worlds.{toy_world, client, file_id}

abbrev bobs_client : ChatClient
bobs_client = record client {
  nick = bob_name;
  crypto = record bob { sessions = (alice_name, answerer) ∷ [] };
  peer_keys = (alice_name, toy.to_hex alice_seed) ∷ [];
}

abbrev forged : WireFrame
forged = record { cipher = []; dh_hex = []; pn = 0; n = 0; nonce_hex = []; ct_hex = [] }

abbrev frame_of : Encrypted → WireFrame
frame_of failed = forged
frame_of not_ready = forged
frame_of (sealed frame) = frame

abbrev key_frame : WireFrame
key_frame =
    frame_of
      (encrypt_for toy (record alice { sessions = (bob_name, opener) ∷ [] }) bob_name hello ek_seed
        nonce).1

abbrev announced : FileInit
announced = record {
  raw = [];
  msg_id = file_id;
  sender = alice_name;
  filename = codes "notes";
  mime = codes "text/plain";
  size = pos 5;
  header = replicate 24 0;
  keyenc = some key_frame;
  replayed = true;
}

is_known : HashMap.contains announced.sender bobs_client.peer_keys ≡ true
unfolding HashMap.contains HashMap.lookup bytes_beq
is_known = refl

not_seen : is_seen announced.sender key_frame bobs_client ≡ false
unfolding frames_of HashMap.lookup HashSet.contains
not_seen = refl

key_opens : (open_key toy_world announced key_frame bobs_client).1 ≡ some (104 ∷ codes "ello")
unfolding toy_runs ratchet_runs bootstrap_session memcmp_lt session_for decrypt_from open_key
    ensure_shared_key differs text_of HashMap.lookup HashMap.insert bytes_beq encrypt_for to_wire
    send receive
key_opens = refl

on_file_init_again_example :
    let after = on_file_init toy_world announced bobs_client in
    (is_seen announced.sender key_frame after ≡ true)
    × (on_file_init toy_world announced after ≡ after)
on_file_init_again_example =
    on_file_init_again toy_world announced key_frame 104 (codes "ello") bobs_client refl is_known
      not_seen key_opens
