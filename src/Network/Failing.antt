-- ===== src/Network/Failing.antt =====
-- What an error of src/network/mod.rs leaves of the event loop.
use file_sharing_example.Common.{◌≡◌, Bool, nat_eq, arith}
use file_sharing_example.FileGet.Types.{request_received, response_received}
use file_sharing_example.Command.{
  Command, FileSharingError, register, list_peers, list_files, get_file,
}
use file_sharing_example.Network.Behaviour.{SwarmEvent, list_files_request, file_get_event}
use file_sharing_example.Network.Types.{CommandRequest, Rendezvous, World, EventLoop, failed}
use file_sharing_example.Network.Commands.{
  run_register, run_list_peers, run_list_files, run_get_file, run_command, handle_command,
}
use file_sharing_example.Network.Events.{
  on_response_received, on_request_received, on_list_files_request, on_file_get, handle_event,
}

module _ (r : Rendezvous) (w : World) (l : EventLoop r.Namespace) where
  run_command-failed :
      (req : CommandRequest) (c : Command) {error : FileSharingError} {l' : EventLoop r.Namespace}
      → run_command r w c req l ≡ failed error l'
      → l' ≡ l
  unfolding run_command run_register run_list_peers run_list_files run_get_file
  run_command-failed req (register c) e = ground arith
  run_command-failed req list_peers e = ground arith
  run_command-failed req (list_files c) e = ground arith
  run_command-failed req (get_file c) e = ground arith

  -- A command that fails changes nothing.
  pub handle_command-failed :
      (req : CommandRequest) {error : FileSharingError} {l' : EventLoop r.Namespace}
      → handle_command r w l req ≡ failed error l'
      → l' ≡ l
  unfolding handle_command
  handle_command-failed req e = run_command-failed req req.command e

  -- An event that fails changes nothing.
  pub handle_event-failed :
      (debug : Bool) (event : SwarmEvent r.Namespace) {error : FileSharingError}
      {l' : EventLoop r.Namespace}
      → handle_event r debug w l event ≡ failed error l'
      → l' ≡ l
  unfolding handle_event on_file_get on_request_received on_list_files_request on_response_received
  handle_event-failed debug (file_get_event (request_received p id m sender)) e = ground arith
  handle_event-failed debug (file_get_event (response_received p id)) e = ground arith
  handle_event-failed debug (list_files_request p channel) e = ground arith
  handle_event-failed debug _ e = ground arith
