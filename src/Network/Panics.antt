-- ===== src/Network/Panics.antt =====
-- When a run of the event loop of src/network/mod.rs panics.
pub mod Unsolicited
use file_sharing_example.Common.{
  ℕ, ◌≡◌, ◌≢◌, refl, sym, ap, ◌∙◌, subst, inl, inr, ◌↔◌, Bool, true, false, Option, none, some,
  List, [], ◌∷◌, ◌++◌, map, keys, lookup, nat_eq, arith, Option-cases,
}
use file_sharing_example.FileGet.Types.{
  PeerId, RequestId, Text, Channel, IoResult-cases, request_received, response_received,
  response_sent, outbound_failure, inbound_failure, FileGetEvent,
}
use file_sharing_example.Command.{Command, register, list_peers, list_files, get_file}
use file_sharing_example.Network.Behaviour.{
  SwarmEvent, discovered_event, list_files_request, list_files_response, file_get_event,
}
use file_sharing_example.Network.Types.{
  CommandResult, CommandRequest, Rendezvous, World, join, EventLoop, Step, returned, failed,
  panicked, get_peer_id, answer, call,
}
use file_sharing_example.Network.Commands.{
  keep_request, refuse, request_list, request_file, run_register, run_list_peers, run_list_files,
  run_get_file, run_command, handle_command,
}
use file_sharing_example.Network.Events.{
  respond, forget, finish_get, on_list_files_response, on_response_received, on_request_received,
  on_list_files_request, on_file_get, record_registrations, answer_peers, on_discovered,
  list_peers_keys, handle_event,
}
use file_sharing_example.Network.Handled.{returned_injective}
use file_sharing_example.Network.Pending.{IsBooked, handle_command-IsBooked}
use file_sharing_example.Network.Books.{handle_event-IsBooked}
use file_sharing_example.Network.Answering.{get_file_of}
use file_sharing_example.Network.Settled.{handle_event-Settles}
use file_sharing_example.Network.Loop.{
  Input, command, event, ids, AreDifferent, run, >>=-eq-returned, ◌>>=◌,
}
use file_sharing_example.Network.Runs.{
  AreFresh, AreFresh-Settles, AreFresh-same, handle_command_other,
}

-- A step that returns leaves the rendezvous point as it is.
abbrev pub KeepsPoint : {N : Type 0} → EventLoop N → Step N → Type 0
KeepsPoint l (returned l') = l'.rendezvous_point_peer_id ≡ l.rendezvous_point_peer_id
KeepsPoint l (failed e l') = Unit
KeepsPoint l panicked = Unit

module _ (r : Rendezvous) (w : World) where
  open r use {Namespace, new, to_string}

  run_command-KeepsPoint :
      (l : EventLoop Namespace) (c : Command) (req : CommandRequest)
      → KeepsPoint l (run_command r w c req l)
  unfolding run_command run_register run_list_peers run_list_files run_get_file
  run_command-KeepsPoint l (register c) req = ground arith
  run_command-KeepsPoint l list_peers req = ground arith
  run_command-KeepsPoint l (list_files c) req = ground arith
  run_command-KeepsPoint l (get_file c) req = ground arith

  -- With a rendezvous point no command panics.
  run_command-ne-panicked :
      (l : EventLoop Namespace) (c : Command) (req : CommandRequest) {p : PeerId}
      → l.rendezvous_point_peer_id ≡ some p
      → run_command r w c req l ≢ panicked
  unfolding run_command run_register run_list_peers run_list_files run_get_file
  run_command-ne-panicked l (register c) req h = ground arith
  run_command-ne-panicked l list_peers req h = ground arith
  run_command-ne-panicked l (list_files c) req h = ground arith
  run_command-ne-panicked l (get_file c) req h = ground arith

  pub handle_command-KeepsPoint :
      (l : EventLoop Namespace) (req : CommandRequest) → KeepsPoint l (handle_command r w l req)
  unfolding handle_command
  handle_command-KeepsPoint l req = run_command-KeepsPoint l req.command req

  pub handle_command-ne-panicked :
      (l : EventLoop Namespace) (req : CommandRequest) {p : PeerId}
      → l.rendezvous_point_peer_id ≡ some p
      → handle_command r w l req ≢ panicked
  unfolding handle_command
  handle_command-ne-panicked l req h = run_command-ne-panicked l req.command req h

  answer_peers-point :
      (ks : List ℕ) (l : EventLoop Namespace)
      → (answer_peers r ks l).rendezvous_point_peer_id ≡ l.rendezvous_point_peer_id
  unfolding answer_peers respond forget
  answer_peers-point [] l = refl
  answer_peers-point (k ∷ ks) l = elim (Option-cases (lookup k l.pending_command_requests)) [
    | inl gone ↦ rw (gone, answer_peers) (answer_peers-point ks l)
    | inr (req, at) ↦
        rw (at, answer_peers)
          (answer_peers-point ks (
            respond req req.command_request_id
              (CommandResult.list_peers (map to_string (keys l.namespace_peers))) (forget k l)))
  ]

  on_file_get-KeepsPoint :
      (debug : Bool) (l : EventLoop Namespace) (e : FileGetEvent)
      → KeepsPoint l (on_file_get debug w e l)
  unfolding on_file_get on_request_received on_response_received finish_get respond forget
  on_file_get-KeepsPoint debug l (request_received p id m sender) = ground arith
  on_file_get-KeepsPoint debug l (response_received p id) = ground arith
  on_file_get-KeepsPoint debug l _ = refl

  pub handle_event-KeepsPoint :
      (debug : Bool) (l : EventLoop Namespace) (e : SwarmEvent Namespace)
      → KeepsPoint l (handle_event r debug w l e)
  unfolding handle_event on_discovered on_list_files_request on_list_files_response respond forget
  handle_event-KeepsPoint debug l (discovered_event regs) =
      answer_peers-point (list_peers_keys l.pending_command_requests) _
  handle_event-KeepsPoint debug l (list_files_request peer channel) = ground arith
  handle_event-KeepsPoint debug l (list_files_response peer id names) = ground arith
  handle_event-KeepsPoint debug l (file_get_event e) = on_file_get-KeepsPoint debug l e
  handle_event-KeepsPoint debug l _ = refl

  -- An event panics only if it is a response to a file request that is not pending.
  abbrev pub IsUnknown : EventLoop Namespace → SwarmEvent Namespace → Type 0
  IsUnknown l (file_get_event (response_received p id)) = lookup id l.pending_file_gets ≡ none
  IsUnknown l _ = ⊥

  on_response_received-unknown :
      (debug : Bool) (l : EventLoop Namespace) (id : RequestId)
      → IsBooked l
      → on_response_received debug id l ≡ panicked
      → lookup id l.pending_file_gets ≡ none
  unfolding on_response_received finish_get
  on_response_received-unknown debug l id h e =
      elim (Option-cases (lookup id l.pending_file_gets)) [
        | inl gone ↦ gone
        | inr (key, link) ↦
            let (req, at, kind) = h.gets.leads id key link in
            let (c, is_get) = get_file_of req.command kind in
            cc (rw (link, on_response_received, at, is_get, finish_get) at e)
      ]

  pub handle_event-IsUnknown :
      (debug : Bool) (l : EventLoop Namespace) (e : SwarmEvent Namespace)
      → IsBooked l
      → handle_event r debug w l e ≡ panicked
      → IsUnknown l e
  unfolding handle_event on_file_get on_request_received on_list_files_request
  handle_event-IsUnknown debug l (discovered_event regs) h e = cc
  handle_event-IsUnknown debug l (list_files_request peer channel) h e = ground arith
  handle_event-IsUnknown debug l (list_files_response peer id names) h e = cc
  handle_event-IsUnknown debug l (file_get_event (request_received p id m sender)) h e =
      ground arith
  handle_event-IsUnknown debug l (file_get_event (response_received p id)) h e =
      on_response_received-unknown debug l id h e
  handle_event-IsUnknown debug l (file_get_event (response_sent _ _)) h e = cc
  handle_event-IsUnknown debug l (file_get_event (outbound_failure _ _ _)) h e = cc
  handle_event-IsUnknown debug l (file_get_event (inbound_failure _ _ _)) h e = cc
  handle_event-IsUnknown debug l _ h e = cc
