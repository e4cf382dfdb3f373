-- ===== src/Client/Files/Ends.antt =====
-- How an incoming transfer of client/src/chatclient.cpp ends.
use bachelor_s_thesis.Base.{
  ◌⊎◌, ℕ, ◌≡◌, refl, ◌∙◌, ap, Bool, true, false, none, some, [], ◌∷◌, ◌++◌, Text, if◌then◌else◌,
  ◌==◌, bytes_eq, beq_refl,
}
use bachelor_s_thesis.Base.HashMap
use bachelor_s_thesis.Base.HashMap.{HashMap}
use bachelor_s_thesis.FileTransfer.{IncomingFile}
use bachelor_s_thesis.Client.State.{
  ChatClient, World, emit, file_received, file_receive_failed, call_history,
}
use bachelor_s_thesis.Client.Files.{
  forget_transfer, show_file, count_file, record_file, announce_file, finish_file, on_file_end,
}

-- The transfers, what counts as received, and what the window was told.
pub record SameTransfers (c c' : ChatClient) : Type 0 where
  pub incoming : c'.incoming ≡ c.incoming
  pub paths : c'.received_file_paths ≡ c.received_file_paths
  pub signals : c'.signals ≡ c.signals

-- The file counts as received.
pub record Accepted (msg_id : Text) (t : IncomingFile) (c c' : ChatClient) : Type 0 where
  pub path : HashMap.lookup msg_id c'.received_file_paths ≡ some t.local_path
  pub signalled :
      c'.signals
      ≡ c.signals
        ++ file_received msg_id t.sender t.filename t.mime t.received_bytes t.local_path ∷ []
  pub transfers :
      (other : Text)
      → HashMap.lookup other c'.incoming
        ≡ (if msg_id == other then none else HashMap.lookup other c.incoming)

-- The transfer is forgotten, the window is told of a failure at most, and all else is as it was: no
-- row, no badge, no call on the history, no path.
pub record Refused (msg_id : Text) (c c' : ChatClient) : Type 0 where
  pub rest : record c' { incoming = c.incoming; signals = c.signals } ≡ c
  pub signals :
      (c'.signals ≡ c.signals)
      ⊎ ((why : Text) × (c'.signals ≡ c.signals ++ file_receive_failed msg_id why ∷ []))
  pub transfers :
      (other : Text)
      → HashMap.lookup other c'.incoming
        ≡ (if msg_id == other then none else HashMap.lookup other c.incoming)

-- An accepted file is no longer a transfer.
pub lookup-Accepted :
    (msg_id : Text) (t : IncomingFile) (c c' : ChatClient)
    → Accepted msg_id t c c'
    → HashMap.lookup msg_id c'.incoming ≡ none
lookup-Accepted msg_id t c c' a = a.transfers msg_id ∙ rw (beq_refl msg_id) refl

if-SameTransfers :
    (c x y : ChatClient) (b : Bool)
    → SameTransfers c x
    → SameTransfers c y
    → SameTransfers c (if b then x else y)
if-SameTransfers c x y true h k = h
if-SameTransfers c x y false h k = k

module _ (w : World) (now : ℕ) (msg_id : Text) where
  announce_file-SameTransfers :
      (t : IncomingFile) (c : ChatClient) → SameTransfers c (announce_file w now msg_id t c)
  unfolding announce_file show_file count_file call_history
  announce_file-SameTransfers t c =
      if-SameTransfers c (show_file w now msg_id t c) (count_file w now t c) _
        (record { incoming = refl; paths = refl; signals = refl })
        (record { incoming = refl; paths = refl; signals = refl })

  lookup-forget :
      (other : Text) (c : ChatClient)
      → HashMap.lookup other (forget_transfer msg_id c).incoming
        ≡ (if msg_id == other then none else HashMap.lookup other c.incoming)
  unfolding forget_transfer
  lookup-forget other c = HashMap.lookup-remove msg_id other c.incoming

  forget_paths :
      (d : ChatClient)
      → HashMap.lookup msg_id (forget_transfer msg_id d).received_file_paths
        ≡ HashMap.lookup msg_id d.received_file_paths
  unfolding forget_transfer
  forget_paths d = refl

  forget_signals : (d : ChatClient) → (forget_transfer msg_id d).signals ≡ d.signals
  unfolding forget_transfer
  forget_signals d = refl

  pub finish_file-Accepted :
      (t : IncomingFile) (c : ChatClient)
      → Accepted msg_id t c (forget_transfer msg_id (finish_file w now msg_id t c))
  unfolding finish_file record_file emit call_history
  finish_file-Accepted t c =
      let r = record_file w now msg_id t c in
      let s = announce_file-SameTransfers t r in
      let d = finish_file w now msg_id t c in
      record {
        path =
            forget_paths d
            ∙ ap (HashMap.lookup msg_id) s.paths
            ∙ HashMap.lookup-insert_self msg_id t.local_path c.received_file_paths;
        signalled = forget_signals d ∙ s.signals;
        transfers = λ other.
            lookup-forget other d
            ∙ ap
                (λ (m : HashMap Text IncomingFile).
                  if msg_id == other then none else HashMap.lookup other m)
                s.incoming;
      }

  on_file_end_open :
      (t : IncomingFile) (c : ChatClient)
      → HashMap.lookup msg_id c.incoming ≡ some t
      → t.is_open ≡ true
      → on_file_end w now msg_id c ≡ forget_transfer msg_id (finish_file w now msg_id t c)
  unfolding on_file_end
  on_file_end_open t c h o = rw (h, on_file_end) (rw o refl)

  -- A transfer whose file is open counts as received at file_end, though its final chunk was not
  -- seen.
  pub on_file_end_truncated :
      (t : IncomingFile) (c : ChatClient)
      → HashMap.lookup msg_id c.incoming ≡ some t
      → t.is_open ≡ true
      → t.crypto.saw_final ≡ false
      → Accepted msg_id t c (on_file_end w now msg_id c)
  on_file_end_truncated t c h o f = rw (on_file_end_open t c h o) (finish_file-Accepted t c)

  pub forget-Refused :
      (c d : ChatClient)
      → d.incoming ≡ c.incoming
      → record d { incoming = c.incoming; signals = c.signals } ≡ c
      → (d.signals ≡ c.signals)
        ⊎ ((why : Text) × (d.signals ≡ c.signals ++ file_receive_failed msg_id why ∷ []))
      → Refused msg_id c (forget_transfer msg_id d)
  unfolding forget_transfer
  forget-Refused c d i r s = record {
    rest = r;
    signals = s;
    transfers = λ other.
        lookup-forget other d
        ∙ ap
            (λ (m : HashMap Text IncomingFile).
              if msg_id == other then none else HashMap.lookup other m)
            i;
  }
