-- ===== src/Network/Commands.antt =====
-- src/network/mod.rs: `handle_command`.
use file_sharing_example.Common.{none, some, insert, nat_eq}
use file_sharing_example.FileGet.Types.{PeerId, Writer, Text}
use file_sharing_example.FileGet.Behaviour.{send_request}
use file_sharing_example.Command.{
  Command, register, list_peers, list_files, get_file, io, namespace_too_long, user_not_registered,
  ok, err,
}
use file_sharing_example.Network.Types.{
  CommandResult, CommandResponse, CommandRequest, join, Rendezvous, World, fine, io_error,
  register_at, discover_at, request_files, EventLoop, Step, returned, failed, panicked, answer,
  call, get_peer_id,
}

-- `pending_command_requests.insert(command_request_id, request)`
unfoldable pub keep_request : {N : Type 0} → CommandRequest → EventLoop N → EventLoop N
keep_request req l = record l {
  pending_command_requests = insert req.command_request_id req l.pending_command_requests;
}

-- The answer where the user is not known.
unfoldable pub refuse : {N : Type 0} → CommandRequest → Text → EventLoop N → EventLoop N
unfolding answer
refuse req user_name l = answer req.response_sender (err (user_not_registered user_name)) l

-- The arms of `ListFiles` and of `GetFile` where the user is known.
unfoldable pub request_list :
    {N : Type 0} → World → CommandRequest → PeerId → EventLoop N → EventLoop N
unfolding call keep_request
request_list w req peer l =
    let l' = keep_request req (call (request_files peer w.list_request_id) l) in
    record l' {
      pending_list_files = insert w.list_request_id req.command_request_id l'.pending_list_files;
    }

unfoldable pub request_file :
    {N : Type 0} → CommandRequest → PeerId → Text → Writer → EventLoop N → EventLoop N
unfolding keep_request
request_file req peer file_name writer l =
    let (fg, id) = send_request l.file_get peer (record { file_name = file_name }) writer in
    let l' = keep_request req (record l { file_get = fg }) in
    record l' { pending_file_gets = insert id req.command_request_id l'.pending_file_gets }

module _ (r : Rendezvous) (w : World) where
  open r use {Namespace, new}

  unfoldable pub run_register : CommandRequest → Text → EventLoop Namespace → Step Namespace
  unfolding call answer
  run_register req user_name l = elim (new user_name) [
    | none ↦ failed namespace_too_long l
    | some namespace ↦ elim l.rendezvous_point_peer_id [
      | none ↦ panicked
      | some point ↦
          let response : CommandResponse = record {
            command_request_id = req.command_request_id;
            result = CommandResult.register;
          } in
          returned (answer req.response_sender (ok response) (call (register_at namespace point) l))
    ]
  ]

  unfoldable pub run_list_peers : CommandRequest → EventLoop Namespace → Step Namespace
  unfolding call keep_request
  run_list_peers req l = elim l.rendezvous_point_peer_id [
    | none ↦ panicked
    | some point ↦ returned (keep_request req (call (discover_at point) l))
  ]

  unfoldable pub run_list_files : CommandRequest → Text → EventLoop Namespace → Step Namespace
  unfolding request_list refuse get_peer_id
  run_list_files req user_name l = elim (get_peer_id r l user_name) [
    | some peer ↦ returned (request_list w req peer l)
    | none ↦ returned (refuse req user_name l)
  ]

  -- The local file is opened, and made, before the user is looked up.
  unfoldable pub run_get_file : CommandRequest → Text → Text → EventLoop Namespace → Step Namespace
  unfolding request_file refuse get_peer_id
  run_get_file req user_name file_name l = elim (w.open_write (join l.sharing_dir file_name)) [
    | io_error error ↦ failed (io error) l
    | fine writer ↦ elim (get_peer_id r l user_name) [
      | some peer ↦ returned (request_file req peer file_name writer l)
      | none ↦ returned (refuse req user_name l)
    ]
  ]

  unfoldable pub run_command : Command → CommandRequest → EventLoop Namespace → Step Namespace
  unfolding run_register run_list_peers run_list_files run_get_file
  run_command (register c) req l = run_register req c.user_name l
  run_command list_peers req l = run_list_peers req l
  run_command (list_files c) req l = run_list_files req c.user_name l
  run_command (get_file c) req l = run_get_file req c.user_name c.file_name l

  unfoldable pub handle_command : EventLoop Namespace → CommandRequest → Step Namespace
  unfolding run_command
  handle_command l req = run_command req.command req l
