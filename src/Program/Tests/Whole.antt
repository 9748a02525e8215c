-- ===== src/Program/Tests/Whole.antt =====
-- A run of the event loop of src/network/mod.rs with the behaviour of file-get/src/lib.rs.
use file_sharing_example.Common.{
  ◌≡◌, ◌≢◌, refl, arith, contains, set_insert, set_remove, List, [], ◌∷◌, lookup, insert, list_eq,
  nat_eq,
}
use file_sharing_example.FileGet.Types.{Text}
use file_sharing_example.FileGet.Behaviour.{
  Outcome, done, panicked as behaviour_panicked, from_config, send_request, try_send_request, entry,
}
use file_sharing_example.Command.{Command, ok, codes}
use file_sharing_example.Network.Types.{CommandResult, EventLoop, Step, panicked}
use file_sharing_example.Network.Behaviour.{discovered_event}
use file_sharing_example.Network.Commands.{handle_command}
use file_sharing_example.Network.Events.{handle_event}
use file_sharing_example.Network.Whole.{Turn, command, told, reported, polled, other, turns}
use file_sharing_example.Network.Whole.Unpanicked.{turns-ne-panicked}
use file_sharing_example.FileGet.Handler.{response}
use file_sharing_example.FileGet.Connections.{new_connection, find_connection}
use file_sharing_example.FileGet.Swarm.{
  dialer, connection_established, on_swarm_event, on_connection_established,
}
use file_sharing_example.FileGet.Reports.{on_connection_handler_event, poll}
use file_sharing_example.Program.Tests.{names, world, ready, ready-IsReady, loop_of}

-- The user gets a file from a peer.
abbrev fetching : List (Turn Text)
fetching =
    other world
      (discovered_event
        ((record { namespace = codes "ann"; peer_id = 7; addresses = 3 ∷ [] }) ∷ []))
      refl
    ∷ command world (record {
      command_request_id = 0;
      command = Command.get_file (record { user_name = codes "ann"; file_name = codes "f" });
      response_sender = 0;
    })
    ∷ polled world
    ∷ told (connection_established 7 4 (dialer 3) 0)
    ∷ polled world
    ∷ reported 7 4 (response 1)
    ∷ polled world
    ∷ []

turns-ne-panicked_example : turns names ready fetching ≢ done panicked
turns-ne-panicked_example =
    turns-ne-panicked names fetching ready 9 ready-IsReady refl (tt, tt) (omega arith)

-- The command was answered, and nothing is pending any more.
abbrev fetched : Outcome (Step Text) → EventLoop Text
fetched (done s) = loop_of s
fetched behaviour_panicked = ready

fetching_answers :
    (fetched (turns names ready fetching)).answers
    ≡ (
      0,
      ok (record {
        command_request_id = 0;
        result = CommandResult.get_file (codes "ann") (codes "f");
      }),
    )
      ∷ []
unfolding turns handle_event handle_command on_swarm_event on_connection_established
    on_connection_handler_event send_request poll lookup insert entry contains set_remove set_insert
    from_config new_connection try_send_request find_connection
fetching_answers = refl
