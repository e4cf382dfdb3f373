-- ===== src/Examples/Clients.antt =====
-- Alice's client at work: its recovery, its files, its outbox and its verification.
use bachelor_s_thesis.Base.{
  ◌≡◌, refl, sym, ap, ◌∙◌, inl, true, false, some, List, [], ◌∷◌, ◌++◌, Bytes, length, arith,
  replicate, bytes_beq, bytes_eq,
}
use bachelor_s_thesis.Base.HashMap
use bachelor_s_thesis.Base.HashSet
use bachelor_s_thesis.FileCrypto.{FileCrypto, new_crypto, encrypt_chunk}
use bachelor_s_thesis.FileTransfer.{
  IncomingFile, pump, chunk_frame, receive_chunk, out_of_order, in_turn,
}
use bachelor_s_thesis.FileTransfer.InOrder.{pump_finishes}
use bachelor_s_thesis.Client.State.{ChatClient, conversation_blocked}
use bachelor_s_thesis.Client.Rekey.Allowed.{SendsAllowed}
use bachelor_s_thesis.Client.Rekey.Calls.{rekey_call, kick, rekey_call-Allowed}
use bachelor_s_thesis.Client.Files.{on_binary_message_received, on_file_end}
use bachelor_s_thesis.Client.Files.Ends.{Accepted, Refused, on_file_end_truncated}
use bachelor_s_thesis.Client.Files.Chunks.{receive_frames, file_arrives, on_binary_refuses}
use bachelor_s_thesis.Client.Outbox.{flush_outbox}
use bachelor_s_thesis.Client.Outbox.Flush.{flush_outbox-Allowed, flush_outbox_offline}
use bachelor_s_thesis.Client.Verification.Flags.{gate_of}
use bachelor_s_thesis.Client.Verification.Refine.{
  call, moves, acked, call-moves, call_opens, is_shut-gate_of,
}
use bachelor_s_thesis.Client.Verification.Gate.{step, resolved, is_shut}
use bachelor_s_thesis.Examples.{bob_name, hello}
use bachelor_s_thesis.Examples.Worlds.{
  toy_world, toy_stream, toy_stream-IsStream, client, waiting_file, file_id,
}

abbrev pinging : ChatClient
pinging = record client {
  rekey_outstanding = bob_name ∷ [];
  rekey_ping_sent_at = (bob_name, 1000) ∷ [];
  rekey_ping_resends = (bob_name, 4) ∷ [];
  sent_since_ratchet = (bob_name, 9) ∷ [];
}

rekey_call-Allowed_example : SendsAllowed pinging (rekey_call toy_world 10000 kick pinging)
rekey_call-Allowed_example = rekey_call-Allowed toy_world 10000 kick pinging

-- The same ping with its resends used up.
abbrev spent : ChatClient
spent = record pinging { rekey_ping_resends = (bob_name, 5) ∷ [] }

abbrev alone : ChatClient
alone = record pinging { users = record pinging.users { online = [] } }

abbrev sender : FileCrypto
sender = record new_crypto { stream = 0 ∷ []; initialized = true }

abbrev hello_frames : List Bytes
hello_frames = chunk_frame file_id 0 (1 ∷ (replicate 16 0 ++ hello)) ∷ []

pumped : pump toy_stream (length hello) sender file_id 0 hello ≡ (hello_frames, true)
unfolding pump encrypt_chunk
pumped = refl

waits : HashMap.lookup file_id client.incoming ≡ some waiting_file
unfolding HashMap.lookup bytes_beq
waits = refl

file_arrives_example :
    (t : IncomingFile) × (t.file ≡ hello)
    × (t.crypto.saw_final ≡ true)
    × Accepted file_id t client (receive_frames toy_world 70 file_id hello_frames client)
file_arrives_example =
    file_arrives toy_world 70 file_id hello hello_frames sender waiting_file client
      toy_stream-IsStream refl (omega arith) (omega arith) refl refl refl refl refl waits pumped

pump_finishes_example : (pump toy_stream 5 sender file_id 0 hello).1 ≡ true
pump_finishes_example =
    pump_finishes toy_stream toy_stream-IsStream 5 sender file_id 0 hello (λ st t last. refl) refl
      (omega arith)

on_file_end_truncated_example :
    Accepted file_id waiting_file client (on_file_end toy_world 70 file_id client)
on_file_end_truncated_example =
    on_file_end_truncated toy_world 70 file_id waiting_file client waits refl refl

abbrev late_frame : Bytes
late_frame = file_id ++ (0 ∷ 0 ∷ 0 ∷ 1 ∷ hello)

too_late : receive_chunk toy_stream late_frame waiting_file ≡ out_of_order
unfolding receive_chunk in_turn
too_late = refl

on_binary_refuses_example :
    Refused file_id client (on_binary_message_received toy_world 70 late_frame client)
on_binary_refuses_example =
    on_binary_refuses toy_world 70 file_id late_frame waiting_file client (refl, omega arith) waits
      (inl too_late)

flush_outbox-Allowed_example : SendsAllowed client (flush_outbox toy_world 70 client)
flush_outbox-Allowed_example = flush_outbox-Allowed toy_world 70 client

abbrev offline : ChatClient
offline = record client { connected = false }

flush_outbox_offline_example : flush_outbox toy_world 70 offline ≡ offline
flush_outbox_offline_example = flush_outbox_offline toy_world 70 offline refl

-- Alice has verified Bob's new key and waits for his ack.
abbrev halfway : ChatClient
halfway = record client { pending_bilateral = bob_name ∷ []; outbox = [] }

call-moves_example :
    gate_of (call toy_world 70 [] (acked bob_name) halfway) bob_name
    ≡ moves toy_world 70 (acked bob_name) halfway bob_name (gate_of halfway bob_name)
call-moves_example = call-moves toy_world 70 [] bob_name (acked bob_name) halfway

awaits : HashSet.contains bob_name halfway.pending_bilateral ≡ true
unfolding HashSet.contains bytes_beq
awaits = refl

opened : conversation_blocked (call toy_world 70 [] (acked bob_name) halfway) bob_name ≡ false
unfolding moves step resolved is_shut gate_of HashSet.contains bytes_beq
opened =
    sym (is_shut-gate_of (call toy_world 70 [] (acked bob_name) halfway) bob_name)
    ∙ ap is_shut (call-moves toy_world 70 [] bob_name (acked bob_name) halfway)

call_opens_example :
    HashSet.contains bob_name (call toy_world 70 [] (acked bob_name) halfway).peer_verified ≡ true
call_opens_example = call_opens toy_world 70 [] bob_name (acked bob_name) halfway awaits opened
