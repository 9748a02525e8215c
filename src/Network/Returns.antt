-- ===== src/Network/Returns.antt =====
-- When the handlers of src/network/mod.rs return, and so the loop goes on.
use file_sharing_example.Common.{
  ℕ, ◌≡◌, refl, ◌↔◌, inl, inr, Bool, true, false, ◌&&◌, Option, none, some, [], ◌∷◌, ◌++◌, lookup,
  nat_eq, Option-cases,
}
use file_sharing_example.FileGet.Types.{
  PeerId, RequestId, Channel, FileGetMessage, IoResult, fine, io_error, IoResult-cases,
  FileGetEvent, request_received, response_received,
}
use file_sharing_example.Command.{Command, register, list_peers, list_files, get_file}
use file_sharing_example.Network.Types.{
  CommandRequest, Rendezvous, World, is_absolute, join, EventLoop, Step, returned, get_peer_id,
}
use file_sharing_example.Network.Commands.{
  run_register, run_list_peers, run_list_files, run_get_file, run_command, handle_command,
}
use file_sharing_example.Network.Behaviour.{
  SwarmEvent, discovered_event, list_files_request, file_get_event,
}
use file_sharing_example.Network.Events.{
  on_request_received, on_response_received, on_list_files_request, on_file_get, finish_get,
  handle_event,
}
use file_sharing_example.Network.Pending.{IsBooked}
use file_sharing_example.Network.Answering.{get_file_of}

abbrev pub is_some : {A : Type 0} → Option A → Bool
is_some none = false
is_some (some _) = true

abbrev pub is_fine : {A : Type 0} → IoResult A → Bool
is_fine (fine _) = true
is_fine (io_error _) = false

-- A handler returns.
abbrev pub Returns : {N : Type 0} → Step N → Type 0
Returns {N} s = (l' : EventLoop N) × (s ≡ returned l')

module _ (r : Rendezvous) (w : World) where
  open r use {Namespace, new}

  -- To register, the name must fit and the rendezvous point be known; to list the peers, the point
  -- must be known; to get a file, the local file must open; to list files, nothing is needed.
  abbrev pub can_handle : EventLoop Namespace → Command → Bool
  can_handle l (register c) = is_some (new c.user_name) && is_some l.rendezvous_point_peer_id
  can_handle l list_peers = is_some l.rendezvous_point_peer_id
  can_handle l (list_files c) = true
  can_handle l (get_file c) = is_fine (w.open_write (join l.sharing_dir c.file_name))

  run_command-Returns_iff :
      (l : EventLoop Namespace) (c : Command) (req : CommandRequest)
      → Returns (run_command r w c req l) ↔ (can_handle l c ≡ true)
  unfolding run_command run_register run_list_peers run_list_files run_get_file
  run_command-Returns_iff l (register c) req = elim (Option-cases (new c.user_name)) [
    | inl long ↦ rw (long, run_register) (λ p. cc, λ q. cc)
    | inr (n, fits) ↦ elim (Option-cases l.rendezvous_point_peer_id) [
      | inl gone ↦ rw (fits, run_register, gone) (λ p. cc, λ q. cc)
      | inr (point, at) ↦ rw (fits, run_register, at) (λ p. refl, λ q. (_, refl))
    ]
  ]
  run_command-Returns_iff l list_peers req = elim (Option-cases l.rendezvous_point_peer_id) [
    | inl gone ↦ rw (run_list_peers, gone) (λ p. cc, λ q. cc)
    | inr (point, at) ↦ rw (run_list_peers, at) (λ p. refl, λ q. (_, refl))
  ]
  run_command-Returns_iff l (list_files c) req = elim (Option-cases (get_peer_id r l c.user_name)) [
    | inl gone ↦ rw (run_list_files, gone) (λ p. refl, λ q. (_, refl))
    | inr (peer, at) ↦ rw (run_list_files, at) (λ p. refl, λ q. (_, refl))
  ]
  run_command-Returns_iff l (get_file c) req =
      elim (IoResult-cases (w.open_write (join l.sharing_dir c.file_name))) [
        | inl (e, bad) ↦ rw (bad, run_get_file) (λ p. cc, λ q. cc)
        | inr (writer, good) ↦ elim (Option-cases (get_peer_id r l c.user_name)) [
          | inl gone ↦ rw (good, run_get_file, gone) (λ p. refl, λ q. (_, refl))
          | inr (peer, at) ↦ rw (good, run_get_file, at) (λ p. refl, λ q. (_, refl))
        ]
      ]

  -- A command is handled, and the loop goes on, exactly when: for a registration the name fits a
  -- namespace and the rendezvous point is known, for a list of the peers the point is known, for a
  -- file the local file opens for writing, and for a list of files always.
  pub handle_command-Returns_iff :
      (l : EventLoop Namespace) (req : CommandRequest)
      → Returns (handle_command r w l req) ↔ (can_handle l req.command ≡ true)
  unfolding handle_command
  handle_command-Returns_iff l req = run_command-Returns_iff l req.command req

  abbrev can_take_file : EventLoop Namespace → FileGetEvent → Bool
  can_take_file l (request_received p id m sender) =
      is_fine (w.open_read (join l.sharing_dir m.file_name))
  can_take_file l (response_received p id) = is_some (lookup id l.pending_file_gets)
  can_take_file l _ = true

  abbrev pub can_take : EventLoop Namespace → SwarmEvent Namespace → Bool
  can_take l (list_files_request peer channel) = is_fine (w.read_dir l.sharing_dir)
  can_take l (file_get_event e) = can_take_file l e
  can_take l _ = true

  on_file_get-Returns_iff :
      (debug : Bool) (l : EventLoop Namespace) (e : FileGetEvent)
      → IsBooked l
      → Returns (on_file_get debug w e l) ↔ (can_take_file l e ≡ true)
  unfolding on_file_get on_request_received on_response_received finish_get
  on_file_get-Returns_iff debug l (request_received p id m sender) h =
      elim (IoResult-cases (w.open_read (join l.sharing_dir m.file_name))) [
        | inl (e, bad) ↦ rw (bad, on_request_received) (λ p. cc, λ q. cc)
        | inr (file, good) ↦ rw (good, on_request_received) (λ p. refl, λ q. (_, refl))
      ]
  on_file_get-Returns_iff debug l (response_received p id) h =
      elim (Option-cases (lookup id l.pending_file_gets)) [
        | inl gone ↦ rw (gone, on_response_received) (λ p. cc, λ q. cc)
        | inr (key, link) ↦
            let (req, at, kind) = h.gets.leads id key link in
            let (c, is_get) = get_file_of req.command kind in
            rw (link, on_response_received, at, is_get, finish_get) (λ p. refl, λ q. (_, refl))
      ]
  on_file_get-Returns_iff debug l _ h = (λ p. refl, λ q. (_, refl))

  -- With the books in order, an event is handled, and the loop goes on, exactly when: for a request
  -- for the list of files the directory can be read, for a request for a file the file that it names
  -- opens, for a response to a file request that request is pending, and for all others always.
  pub handle_event-Returns_iff :
      (debug : Bool) (l : EventLoop Namespace) (e : SwarmEvent Namespace)
      → IsBooked l
      → Returns (handle_event r debug w l e) ↔ (can_take l e ≡ true)
  unfolding handle_event on_list_files_request
  handle_event-Returns_iff debug l (list_files_request peer channel) h =
      elim (IoResult-cases (w.read_dir l.sharing_dir)) [
        | inl (e, bad) ↦ rw (bad, on_list_files_request) (λ p. cc, λ q. cc)
        | inr (entries, good) ↦ rw (good, on_list_files_request) (λ p. refl, λ q. (_, refl))
      ]
  handle_event-Returns_iff debug l (discovered_event regs) h = (λ p. refl, λ q. (_, refl))
  handle_event-Returns_iff debug l (file_get_event e) h = on_file_get-Returns_iff debug l e h
  handle_event-Returns_iff debug l _ h = (λ p. refl, λ q. (_, refl))

  -- A remote peer gets any file of the machine that opens: when the name that it sends is an absolute
  -- path, the file of that path is sent to it, whatever the sharing directory is.
  pub absolute_name_escapes :
      (debug : Bool) (l : EventLoop Namespace) (p : PeerId) (id : RequestId) (m : FileGetMessage)
      (sender : Channel) (file : ℕ)
      → is_absolute m.file_name ≡ true
      → w.open_read m.file_name ≡ fine file
      → handle_event r debug w l (file_get_event (request_received p id m sender))
        ≡ returned (record l { served = l.served ++ (sender, file) ∷ [] })
  unfolding handle_event on_file_get on_request_received join
  absolute_name_escapes debug l p id m sender file absolute opens =
      rw (on_request_received, join, absolute, opens)
