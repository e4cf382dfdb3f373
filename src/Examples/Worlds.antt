-- ===== src/Examples/Worlds.antt =====
-- A small world for the client: a stream that marks its chunks, and Alice's client, logged in, with a
-- session to Bob, who is online.
use bachelor_s_thesis.Base.{
  ℕ, ◌+◌, ◌≡◌, refl, subst, some_inj, Bool, true, false, Option, none, some, [], ◌∷◌, ◌++◌, Bytes,
  Text, codes, length, drop, ltb, nat_beq, arith, replicate,
}
use bachelor_s_thesis.Base.Int.{pos}
use bachelor_s_thesis.Platform.Toy.{toy}
use bachelor_s_thesis.FileCrypto.{SecretStream, IsStream, new_crypto}
use bachelor_s_thesis.FileTransfer.{IncomingFile}
use bachelor_s_thesis.UserModel.{no_users}
use bachelor_s_thesis.Client.State.{ChatClient, World, PendingOut, text}
use bachelor_s_thesis.Examples.{alice, alice_name, bob_name, bob_seed, hello, opener}

abbrev pub tag_of : Bool → ℕ
tag_of true = 1
tag_of false = 0

abbrev pub toy_pull : Bytes → Bytes → Option (Bytes × Bool × Bytes)
toy_pull st [] = none
toy_pull st (tag ∷ ct) = some (drop 16 ct, nat_beq tag 1, st)

-- The tag and 16 bytes stand before the text. It is no model of libsodium.
abbrev pub toy_stream : SecretStream
toy_stream = record {
  init_push = λ key random. some (0 ∷ [], replicate 24 0);
  push = λ st t last. some (tag_of last ∷ (replicate 16 0 ++ t), st);
  init_pull = λ header key. some (0 ∷ []);
  pull = toy_pull;
}

pull-push_toy :
    (st t ct st' : Bytes) (last : Bool)
    → toy_stream.push st t last ≡ some (ct, st')
    → toy_stream.pull st ct ≡ some (t, last, st')
pull-push_toy st t ct st' true h =
    subst (λ (r : Bytes × Bytes). toy_pull st r.0 ≡ some (t, true, r.1)) (some_inj h) refl
pull-push_toy st t ct st' false h =
    subst (λ (r : Bytes × Bytes). toy_pull st r.0 ≡ some (t, false, r.1)) (some_inj h) refl

pub toy_stream-IsStream : IsStream toy_stream
toy_stream-IsStream = record {
  init_pull-init_push = λ key random st header h. ground arith;
  length-header =
      λ key random st header h. subst (λ (r : Bytes × Bytes). length r.1 ≡ 24) (some_inj h) refl;
  pull-push = pull-push_toy;
  length-push = λ st t ct st' last h.
      subst (λ (r : Bytes × Bytes). length r.0 ≡ length t + 17) (some_inj h) (omega arith);
}

-- Shorter names come first.
abbrev pub shorter : Text → Text → Bool
shorter a b = ltb (length a) (length b)

abbrev pub toy_world : World
toy_world = record {
  platform = toy;
  draw = λ n. replicate 32 9;
  before = shorter;
  stream = toy_stream;
  to_local_file = λ url. url;
  file_exists = λ path. true;
  read_file = λ path. some hello;
  file_name = λ path. path;
  mime_type = λ path. codes "text/plain";
  uuid = λ n. replicate 36 7;
  row_id = λ calls. pos (length calls);
  app_data = [];
  can_write = λ path. true;
}

abbrev pub file_id : Text
file_id = replicate 36 7

-- A transfer from Bob that waits for its first chunk.
abbrev pub waiting_file : IncomingFile
waiting_file = record {
  msg_id = file_id;
  sender = bob_name;
  filename = codes "notes";
  mime = codes "text/plain";
  expected_size = pos 5;
  received_bytes = 0;
  next_chunk_index = 0;
  file = [];
  is_open = true;
  local_path = codes "/tmp/notes";
  crypto = record new_crypto { stream = 0 ∷ []; initialized = true };
  replayed = false;
}

abbrev pub queued : PendingOut
queued = record { db_id = pos 3; payload = text hello (codes "m1"); peer = bob_name; ts = 5 }

abbrev pub client : ChatClient
client = record {
  nick = alice_name;
  connected = true;
  welcomed = true;
  crypto = record alice { sessions = (bob_name, opener) ∷ [] };
  users = record no_users { users = bob_name ∷ []; online = bob_name ∷ [] };
  messages = [];
  active_peer = bob_name;
  peer_keys = (bob_name, toy.to_hex bob_seed) ∷ [];
  unverified_key_change = [];
  pending_bilateral = [];
  peer_verified = [];
  verify_ack_resend = [];
  pending_frames = [];
  seen_frames = [];
  peer_verified_for_identity = [];
  verified_peer_identity = [];
  last_verify_resync_ms = [];
  sent_since_ratchet = [];
  rekey_outstanding = [];
  rekey_ping_sent_at = [];
  rekey_ping_resends = [];
  pong_owed = [];
  heal_pending = [];
  rekey_kick_tries = 0;
  kick_timer_active = false;
  outbox = queued ∷ [];
  flush_in_progress = false;
  history_ready = true;
  incoming = (file_id, waiting_file) ∷ [];
  received_file_paths = [];
  sent_file_sources = [];
  signals = [];
  sent = [];
  history = [];
  draws = 0;
}
