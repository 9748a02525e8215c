-- ===== src/Network/Whole/Effects.antt =====
-- What the handlers of src/network/mod.rs do to the behaviour of file-get/src/lib.rs, and to the ids of
-- its requests.
use file_sharing_example.Common.{
  ℕ, ◌≡◌, refl, subst, inl, inr, ◌⊎◌, Bool, List, [], ◌∷◌, lookup, insert, remove, nat_eq, arith,
  Option-cases,
}
use file_sharing_example.FileGet.Types.{
  PeerId, RequestId, FileGetMessage, Writer, Text, IoResult-cases, request_received,
  response_received,
}
use file_sharing_example.FileGet.Behaviour.{send_request}
use file_sharing_example.Command.{Command, register, list_peers, list_files, get_file}
use file_sharing_example.Network.Behaviour.{
  SwarmEvent, discovered_event, list_files_request, list_files_response, file_get_event,
}
use file_sharing_example.Network.Types.{
  CommandRequest, Rendezvous, World, join, EventLoop, returned, answer, get_peer_id,
}
use file_sharing_example.Network.Commands.{
  keep_request, refuse, request_list, request_file, run_register, run_list_peers, run_list_files,
  run_get_file, run_command, handle_command,
}
use file_sharing_example.Network.Events.{
  respond, forget, finish_get, on_list_files_response, on_response_received, on_request_received,
  on_list_files_request, on_file_get, answer_peers, on_discovered, list_peers_keys, handle_event,
}
use file_sharing_example.Network.Handled.{returned_injective}

-- The behaviour and the ids of its requests are as they were.
abbrev pub IsSame : {N : Type 0} → EventLoop N → EventLoop N → Type 0
IsSame l l' = (l'.file_get ≡ l.file_get) × (l'.pending_file_gets ≡ l.pending_file_gets)

-- One request more was sent, and its id leads to a command.
pub record Requests {N : Type 0} (l l' : EventLoop N) : Type 0 where
  pub peer : PeerId
  pub message : FileGetMessage
  pub writer : Writer
  pub key : ℕ
  pub sent : l'.file_get ≡ (send_request l.file_get peer message writer).0
  pub linked :
      l'.pending_file_gets
      ≡ insert (send_request l.file_get peer message writer).1 key l.pending_file_gets

module _ (r : Rendezvous) (w : World) where
  open r use {Namespace, to_string}

  run_get_file-Requests :
      (l : EventLoop Namespace) (req : CommandRequest) (user name : Text) {l' : EventLoop Namespace}
      → run_get_file r w req user name l ≡ returned l'
      → IsSame l l' ⊎ Requests l l'
  unfolding run_get_file request_file refuse keep_request answer
  run_get_file-Requests l req user name e =
      elim (IoResult-cases (w.open_write (join l.sharing_dir name))) [
        | inl (error, bad) ↦ cc (rw (bad, run_get_file) at e)
        | inr (writer, good) ↦ elim (Option-cases (get_peer_id r l user)) [
          | inl gone ↦ inl (
              subst (λ x. IsSame l x) (returned_injective (rw (good, run_get_file, gone) at e))
                (refl, refl))
          | inr (peer, at) ↦ inr (
              subst (λ x. Requests l x) (returned_injective (rw (good, run_get_file, at) at e))
                (record {
                  peer = peer;
                  message = record { file_name = name };
                  writer = writer;
                  key = req.command_request_id;
                  sent = refl;
                  linked = refl;
                }))
        ]
      ]

  run_command-Requests :
      (l : EventLoop Namespace) (req : CommandRequest) (c : Command) {l' : EventLoop Namespace}
      → run_command r w c req l ≡ returned l'
      → IsSame l l' ⊎ Requests l l'
  unfolding run_command run_register run_list_peers run_list_files refuse request_list keep_request
  run_command-Requests l req (register c) e = inl (ground arith, ground arith)
  run_command-Requests l req list_peers e = inl (ground arith, ground arith)
  run_command-Requests l req (list_files c) e = inl (ground arith, ground arith)
  run_command-Requests l req (get_file c) e = run_get_file-Requests l req c.user_name c.file_name e

  pub handle_command-Requests :
      (l : EventLoop Namespace) (req : CommandRequest) {l' : EventLoop Namespace}
      → handle_command r w l req ≡ returned l'
      → IsSame l l' ⊎ Requests l l'
  unfolding handle_command
  handle_command-Requests l req e = run_command-Requests l req req.command e

  answer_peers-IsSame : (ks : List ℕ) (l : EventLoop Namespace) → IsSame l (answer_peers r ks l)
  unfolding answer_peers respond forget
  answer_peers-IsSame [] l = (refl, refl)
  answer_peers-IsSame (k ∷ ks) l = elim (Option-cases (lookup k l.pending_command_requests)) [
    | inl gone ↦ rw (answer_peers, gone) (answer_peers-IsSame ks l)
    | inr (req, at) ↦ rw (answer_peers, at) (answer_peers-IsSame ks _)
  ]

  -- What an event removes from the ids of the file requests.
  abbrev pub IsOver : EventLoop Namespace → SwarmEvent Namespace → EventLoop Namespace → Type 0
  IsOver l (file_get_event (response_received p id)) l' =
      (l'.file_get ≡ l.file_get) × (l'.pending_file_gets ≡ remove id l.pending_file_gets)
  IsOver l _ l' = IsSame l l'

  on_response_received-IsOver :
      (debug : Bool) (l : EventLoop Namespace) (id : RequestId) {l' : EventLoop Namespace}
      → on_response_received debug id l ≡ returned l'
      → (l'.file_get ≡ l.file_get) × (l'.pending_file_gets ≡ remove id l.pending_file_gets)
  unfolding on_response_received finish_get respond forget
  on_response_received-IsOver debug l id e = (ground arith, ground arith)

  pub handle_event-IsOver :
      (debug : Bool) (l : EventLoop Namespace) (e : SwarmEvent Namespace) {l' : EventLoop Namespace}
      → handle_event r debug w l e ≡ returned l'
      → IsOver l e l'
  unfolding handle_event on_file_get on_discovered on_request_received on_list_files_request
      on_list_files_response respond forget
  handle_event-IsOver debug l (discovered_event regs) e =
      subst (λ x. IsSame l x) (returned_injective e)
        (answer_peers-IsSame (list_peers_keys l.pending_command_requests) _)
  handle_event-IsOver debug l (list_files_request p c) e = (ground arith, ground arith)
  handle_event-IsOver debug l (list_files_response p id names) e = (ground arith, ground arith)
  handle_event-IsOver debug l (file_get_event (request_received p id m sender)) e =
      (ground arith, ground arith)
  handle_event-IsOver debug l (file_get_event (response_received p id)) e =
      on_response_received-IsOver debug l id e
  handle_event-IsOver debug l _ e = (ground arith, ground arith)
