-- ===== src/Network/Tests/Runs.antt =====
-- Small runs of the event loop of src/network/mod.rs, over several inputs.
use file_sharing_example.Common.{
  ◌≡◌, refl, ◌⊎◌, true, some, List, [], ◌∷◌, any, lookup, insert, nat_eq, list_eq, ◌==◌, arith,
}
use file_sharing_example.FileGet.Types.{Text, response_received}
use file_sharing_example.FileGet.Behaviour.{from_config, send_request}
use file_sharing_example.Command.{list_peers}
use file_sharing_example.Network.Types.{EventLoop, returned}
use file_sharing_example.Network.Commands.{handle_command}
use file_sharing_example.Network.Behaviour.{file_get_event, discovered_event}
use file_sharing_example.Network.Events.{handle_event}
use file_sharing_example.Network.Loop.{Input, command, event, ids, AreDifferent, run}
use file_sharing_example.Network.Runs.{AreFresh, command_never_lost}
use file_sharing_example.Network.Client.{new_client, send_all, request_ids, send_all-AreDifferent}
use file_sharing_example.Network.Tests.{
  names, world, idle, idle-IsBooked, after, fetch, peers_req, bob_found,
}

-- While a file is fetched, the peers are asked for and found; then the file comes.
abbrev later : List (Input Text)
later =
    command world peers_req
    ∷ event world (discovered_event bob_found)
    ∷ event world (file_get_event (response_received 7 1))
    ∷ []

abbrev ended : EventLoop Text
ended = after (run names true idle (command world fetch ∷ later))

ids_differ : AreDifferent (ids (command world fetch ∷ later))
ids_differ = (((λ e. omega arith), tt), (tt, tt))

fresh_start : AreFresh idle (ids (command world fetch ∷ later))
unfolding lookup
fresh_start = (refl, (refl, tt))

idle_runs : run names true idle (command world fetch ∷ later) ≡ returned ended
unfolding run handle_command handle_event lookup insert from_config send_request
idle_runs = refl

command_never_lost_example :
    (lookup 1 ended.pending_command_requests ≡ some fetch)
    ⊎ (any (λ a. a.0 == 11) ended.answers ≡ true)
command_never_lost_example =
    command_never_lost names true world idle fetch later idle-IsBooked ids_differ fresh_start
      idle_runs

send_all-AreDifferent_example :
    AreDifferent (request_ids (send_all new_client ((list_peers, 11) ∷ (list_peers, 12) ∷ [])))
unfolding new_client
send_all-AreDifferent_example =
    send_all-AreDifferent ((list_peers, 11) ∷ (list_peers, 12) ∷ []) new_client (omega arith)
      (omega arith)
