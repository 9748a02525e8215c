-- ===== src/Program/Tests.antt =====
-- The start of src/network/mod.rs, and a small session of src/bin/file-sharing.rs.
mod Whole
use file_sharing_example.Common.{
  any, ◌≡◌, ◌≢◌, refl, arith, contains, set_insert, set_remove, true, none, some, List, [], ◌∷◌,
  any, lookup, insert, list_eq, nat_eq,
}
use file_sharing_example.FileGet.Types.{Text, request_received}
use file_sharing_example.FileGet.Behaviour.{
  Outcome, done, panicked as behaviour_panicked, from_config, send_request, entry,
}
use file_sharing_example.Command.{Command, Result, ok, from_str, codes}
use file_sharing_example.Network.Types.{
  CommandResult, CommandRequest, CommandResponse, Rendezvous, World, fine, io_error, EventLoop,
  Step, returned, failed, panicked,
}
use file_sharing_example.Network.Behaviour.{
  SwarmEvent, IdentifyEvent, new_listen_addr, behaviour, ComposedEvent, discovered_event,
  file_get_event,
}
use file_sharing_example.Network.Client.{Client, new_client, send_command}
use file_sharing_example.Network.Commands.{handle_command}
use file_sharing_example.Network.Events.{handle_event}
use file_sharing_example.Network.Startup.{Host, Select, swarm, delay, new_swarm, new_network}
use file_sharing_example.Network.Startup.Ends.{IsReady, IsStart, new_network_ends}
use file_sharing_example.Network.Startup.Ends
use file_sharing_example.Network.Whole.{Turn, command, told, reported, polled, other, turns}
use file_sharing_example.Network.Whole.Unpanicked.{turns-ne-panicked}
use file_sharing_example.FileGet.Handler.{response}
use file_sharing_example.FileGet.Connections.{new_connection}
use file_sharing_example.FileGet.Swarm.{
  dialer, connection_established, on_swarm_event, on_connection_established,
}
use file_sharing_example.FileGet.Reports.{on_connection_handler_event, poll}
use file_sharing_example.Program.{
  received, running, ended, reading, crashed, Session, new_session, handle_input, finish_command,
  after, Moves, line, receive, event, reply, Reaches, here, next,
}
use file_sharing_example.Program.Sound.{IsSound}
use file_sharing_example.Program.Safety.{Reaches-IsSound, Reaches-ne-crashed}
use file_sharing_example.Program.Dialogue.{resting, dialogue_of, Leads, Reaches-Leads}
use file_sharing_example.Program.Ending.{command_after_end_crashes}

abbrev names : Rendezvous
names = record { Namespace = Text; namespace_eq = list_eq; new = λ t. some t; to_string = λ n. n }

-- No file can be read.
abbrev world : World
world = record {
  open_write = λ path. fine 1;
  open_read = λ path. io_error 2;
  read_dir = λ path. fine [];
  list_request_id = 30;
}

abbrev host : Host
host = record {
  from_bytes = λ bytes. some 1;
  from_secret_key = λ key. key;
  generate_ed25519 = 2;
  tokio_development_transport = λ keys. some keys;
  local_address = 20;
  dial = λ address. none;
}

abbrev listens : List (Select Text)
listens = swarm (new_listen_addr 20) ∷ delay ∷ []

-- Peer 9 is the rendezvous point.
abbrev connects : List (Select Text)
connects = swarm (behaviour (ComposedEvent.identify (IdentifyEvent.received 9))) ∷ delay ∷ []

host-IsSound : Ends.IsSound host
host-IsSound = record { accepts = λ bytes e f. cc; transports = λ keys f. cc }

new_network_ends_example :
    (result : Result (Client × EventLoop Text)) × (new_network host 21
        (some 5)
        (b'd' ∷ [])
        listens
        connects
      ≡ done (some result))
    × IsStart host 21 listens connects result
unfolding any
new_network_ends_example =
    new_network_ends host 21 (some 5) (b'd' ∷ []) listens connects host-IsSound refl refl

-- The loop that starts so.
abbrev ready : EventLoop Text
ready = record {
  file_get = from_config (record { timeout = 1800 });
  rendezvous_point_address = 21;
  rendezvous_point_peer_id = some 9;
  namespace_peers = [];
  pending_command_requests = [];
  pending_list_files = [];
  pending_file_gets = [];
  sharing_dir = b'd' ∷ [];
  calls = [];
  answers = [];
  served = [];
}

ready_starts :
    new_network host 21 (some 5) (b'd' ∷ []) listens connects ≡ done (some (ok (new_client, ready)))
unfolding new_network from_config
ready_starts = refl

ready-IsReady : IsReady ready
unfolding lookup new_swarm from_config
ready-IsReady = record {
  booked = record {
    unique = tt;
    keyed = λ k q e. cc;
    gets = record { leads = λ i k e. cc; apart = λ i j k e f. cc };
    lists = record { leads = λ i k e. cc; apart = λ i j k e f. cc };
  };
  idle = refl;
  unlinked = (refl, refl);
  silent = refl;
  untouched = refl;
}

abbrev ask : Text
ask = codes "ls_peers"

ask_parses : from_str ask ≡ ok Command.list_peers
unfolding from_str
ask_parses = refl

-- The loop after a step that returns.
abbrev loop_of : Step Text → EventLoop Text
loop_of (returned l) = l
loop_of (failed e l) = l
loop_of panicked = ready

-- The user lists the peers; the loop takes the command; the rendezvous point knows nobody; the
-- answer comes.
abbrev start : Session Text
start = new_session new_client ready

abbrev asked : Session Text
asked = handle_input ask start

abbrev asking : CommandRequest
asking = (send_command new_client Command.list_peers 0).1

abbrev asking_loop : EventLoop Text
asking_loop = loop_of (handle_command names world ready asking)

abbrev taken : Session Text
taken = after ready (handle_command names world ready asking) [] asked

abbrev found : Session Text
found =
    after asking_loop (handle_event names true world asking_loop (discovered_event [])) taken.inbox
      taken

abbrev nobody : Result CommandResponse
nobody = ok (record { command_request_id = 0; result = CommandResult.list_peers [] })

abbrev answered : Session Text
answered = finish_command asking nobody found

answered_reached : Reaches names true start answered
unfolding new_session new_client handle_input from_str send_command handle_command handle_event
    lookup insert finish_command after
answered_reached =
    next
      (next (next (next here (line ask refl)) (receive world ready asking [] refl refl))
        (event world asking_loop (discovered_event []) refl))
      (reply asking nobody refl refl)

Reaches-IsSound_example : IsSound answered
Reaches-IsSound_example = Reaches-IsSound names true new_client ready ready-IsReady answered_reached

answered_output : answered.output ≡ received asking nobody ∷ []
unfolding new_session new_client handle_input from_str send_command handle_command handle_event
    lookup insert finish_command after
answered_output = refl

answered_runs :
    answered.task
    ≡ running (loop_of (handle_event names true world asking_loop (discovered_event [])))
unfolding new_session new_client handle_input from_str send_command handle_command handle_event
    lookup insert finish_command after
answered_runs = refl

Reaches-ne-crashed_example : answered.status ≢ crashed
Reaches-ne-crashed_example =
    Reaches-ne-crashed names true new_client ready
      (loop_of (handle_event names true world asking_loop (discovered_event []))) ready-IsReady
      answered_reached answered_runs

Reaches-Leads_example : Leads (record { phase = resting; history = [] }) (dialogue_of answered)
Reaches-Leads_example = Reaches-Leads names true new_client ready ready-IsReady answered_reached

-- A peer asks for a file that cannot be read, which ends the task.
abbrev request : SwarmEvent Text
request = file_get_event (request_received 7 1 (record { file_name = b'f' ∷ [] }) 40)

abbrev broken : Session Text
broken = after ready (handle_event names true world ready request) [] start

broken_reached : Reaches names true start broken
unfolding new_session
broken_reached = next here (event world ready request refl)

broken_ended : broken.task ≡ ended []
unfolding handle_event after
broken_ended = refl

broken_reads : broken.status ≡ reading
unfolding handle_event after new_session
broken_reads = refl

command_after_end_crashes_example :
    ((t : Session Text) × Moves names true (handle_input ask broken) t)
    × ((t : Session Text) → Moves names true (handle_input ask broken) t → t.status ≡ crashed)
command_after_end_crashes_example =
    command_after_end_crashes names true new_client ready [] ask Command.list_peers ready-IsReady
      broken_reached broken_ended broken_reads ask_parses
