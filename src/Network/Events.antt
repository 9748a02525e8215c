-- ===== src/Network/Events.antt =====
-- src/network/mod.rs: `handle_event`.
use file_sharing_example.Common.{
  ℕ, Bool, true, false, none, some, List, [], ◌∷◌, ◌++◌, map, Map, keys, lookup, insert, remove,
  nat_eq, if◌then◌else◌,
}
use file_sharing_example.FileGet.Types.{
  PeerId, Multiaddr, Channel, RequestId, Text, FileGetEvent, request_received, response_received,
}
use file_sharing_example.Command.{Command, list_peers, get_file, io, ok}
use file_sharing_example.Network.Behaviour.{
  Registration, SwarmEvent, discovered_event, list_files_request, list_files_response,
  file_get_event,
}
use file_sharing_example.Network.Types.{
  CommandResult, CommandResponse, CommandRequest, join, fine, io_error, DirEntry, Rendezvous, World,
  respond_files, EventLoop, Step, returned, failed, panicked, answer, call,
}

abbrev pub is_list_peers : Command → Bool
is_list_peers list_peers = true
is_list_peers _ = false

-- The first loop over the pending commands: the keys of those that list peers.
unfoldable pub list_peers_keys : Map ℕ CommandRequest → List ℕ
list_peers_keys [] = []
list_peers_keys ((key, req) ∷ m) =
    let rest = list_peers_keys m in if is_list_peers req.command then key ∷ rest else rest

-- `try_filter` and `map_ok`: the names of what is no directory.
unfoldable pub file_names : List DirEntry → List Text
file_names [] = []
file_names (entry ∷ entries) =
    let rest = file_names entries in if entry.is_dir then rest else entry.file_name ∷ rest

unfoldable pub respond :
    {N : Type 0} → CommandRequest → ℕ → CommandResult → EventLoop N → EventLoop N
unfolding answer
respond req id result l =
    let response : CommandResponse = record { command_request_id = id; result = result } in
    answer req.response_sender (ok response) l

-- `self.pending_command_requests.remove(&key)`, as the loop that is left.
unfoldable pub forget : {N : Type 0} → ℕ → EventLoop N → EventLoop N
forget key l = record l { pending_command_requests = remove key l.pending_command_requests }

unfoldable pub on_list_files_response : {N : Type 0} → ℕ → List Text → EventLoop N → EventLoop N
unfolding respond forget
on_list_files_response id names l = elim (lookup id l.pending_list_files) [
  | none ↦ l
  | some key ↦
      let l' = record l { pending_list_files = remove id l.pending_list_files } in
      elim (lookup key l.pending_command_requests) [
        | none ↦ l'
        | some req ↦ respond req key (CommandResult.list_files names) (forget key l')
      ]
]

-- The end of the arm of `ResponseReceived`; `debug` tells a debug build.
unfoldable pub finish_get :
    {N : Type 0} → Bool → ℕ → CommandRequest → Command → EventLoop N → Step N
unfolding respond
finish_get debug key req (get_file c) l =
    returned (respond req key (CommandResult.get_file c.user_name c.file_name) l)
finish_get debug key req _ l = if debug then panicked else returned l

unfoldable pub on_response_received : {N : Type 0} → Bool → RequestId → EventLoop N → Step N
unfolding finish_get forget
on_response_received debug id l = elim (lookup id l.pending_file_gets) [
  | none ↦ panicked
  | some key ↦ elim (lookup key l.pending_command_requests) [
    | none ↦ panicked
    | some req ↦
        let l' = record l { pending_file_gets = remove id l.pending_file_gets } in
        finish_get debug key req req.command (forget key l')
  ]
]

-- The arm of `RequestReceived`: the file goes out through the sender of the request.
unfoldable pub on_request_received : {N : Type 0} → World → Text → Channel → EventLoop N → Step N
on_request_received w file_name sender l = elim (w.open_read (join l.sharing_dir file_name)) [
  | io_error error ↦ failed (io error) l
  | fine file ↦ returned (record l { served = l.served ++ (sender, file) ∷ [] })
]

unfoldable pub on_list_files_request : {N : Type 0} → World → Channel → EventLoop N → Step N
unfolding call file_names
on_list_files_request w channel l = elim (w.read_dir l.sharing_dir) [
  | io_error error ↦ failed (io error) l
  | fine entries ↦ returned (call (respond_files channel (file_names entries)) l)
]

unfoldable pub on_file_get : {N : Type 0} → Bool → World → FileGetEvent → EventLoop N → Step N
unfolding on_request_received on_response_received
on_file_get debug w (request_received peer id message sender) l =
    on_request_received w message.file_name sender l
on_file_get debug w (response_received peer id) l = on_response_received debug id l
on_file_get debug w _ l = returned l

module _ (r : Rendezvous) where
  open r use {Namespace, namespace_eq, to_string}

  -- The loop over the addresses of one registration.
  unfoldable pub record_addresses :
      Registration Namespace → List Multiaddr → Map Namespace PeerId → Map Namespace PeerId
  record_addresses reg [] m = m
  record_addresses reg (address ∷ addresses) m =
      record_addresses reg addresses (insert ⦃e = namespace_eq⦄ reg.namespace reg.peer_id m)

  unfoldable pub record_registrations :
      List (Registration Namespace) → Map Namespace PeerId → Map Namespace PeerId
  unfolding record_addresses
  record_registrations [] m = m
  record_registrations (reg ∷ regs) m =
      record_registrations regs (record_addresses reg reg.addresses m)

  -- The second loop: each of the keys is answered with all namespaces that are known.
  unfoldable pub answer_peers : List ℕ → EventLoop Namespace → EventLoop Namespace
  unfolding respond forget
  answer_peers [] l = l
  answer_peers (key ∷ rest) l = elim (lookup key l.pending_command_requests) [
    | none ↦ answer_peers rest l
    | some req ↦ answer_peers rest (
        respond req req.command_request_id
          (CommandResult.list_peers (map to_string (keys l.namespace_peers))) (forget key l))
  ]

  unfoldable pub on_discovered :
      List (Registration Namespace) → EventLoop Namespace → EventLoop Namespace
  unfolding record_registrations list_peers_keys answer_peers
  on_discovered regs l =
      let l' = record l { namespace_peers = record_registrations regs l.namespace_peers } in
      answer_peers (list_peers_keys l'.pending_command_requests) l'

  unfoldable pub handle_event :
      Bool → World → EventLoop Namespace → SwarmEvent Namespace → Step Namespace
  unfolding on_discovered on_list_files_request on_list_files_response on_file_get
  handle_event debug w l (discovered_event regs) = returned (on_discovered regs l)
  handle_event debug w l (list_files_request _ channel) = on_list_files_request w channel l
  handle_event debug w l (list_files_response _ id names) =
      returned (on_list_files_response id names l)
  handle_event debug w l (file_get_event event) = on_file_get debug w event l
  handle_event debug w l _ = returned l
