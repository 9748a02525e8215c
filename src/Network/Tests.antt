-- ===== src/Network/Tests.antt =====
-- Small runs of the event loop of src/network/mod.rs.
mod Runs
mod Wire
mod Returns
mod Panics
use file_sharing_example.Common.{
  ◌≡◌, refl, true, none, some, List, [], ◌∷◌, ◌++◌, map, lookup, insert, list_eq, nat_eq,
}
use file_sharing_example.FileGet.Types.{Text, response_received}
use file_sharing_example.FileGet.Behaviour.{from_config, send_request}
use file_sharing_example.Command.{list_peers, list_files, get_file, GetFile}
use file_sharing_example.Network.Types.{
  CommandResult, CommandRequest, Rendezvous, World, fine, EventLoop, Step, returned, failed,
  panicked,
}
use file_sharing_example.Network.Commands.{handle_command}
use file_sharing_example.Network.Behaviour.{
  Registration, discovered_event, list_files_response, file_get_event,
}
use file_sharing_example.Network.Events.{record_registrations, on_discovered, handle_event}
use file_sharing_example.Network.Pending.{IsBooked, handle_command-IsBooked}
use file_sharing_example.Network.Answering.{
  Answers, response_received-Answers, list_files_response-Answers,
}
use file_sharing_example.Network.Discovery.{known_peer, listing, reply, on_discovered_lem}
use file_sharing_example.Network.Books.{handle_event-IsBooked}

-- Every text is a namespace.
abbrev names : Rendezvous
names = record { Namespace = Text; namespace_eq = list_eq; new = λ t. some t; to_string = λ n. n }

abbrev world : World
world = record {
  open_write = λ path. fine 1;
  open_read = λ path. fine 2;
  read_dir = λ path. fine [];
  list_request_id = 30;
}

abbrev ann : Text
ann = b'a' ∷ []

-- The user ann is peer 7, and nothing is pending.
abbrev idle : EventLoop Text
idle = record {
  file_get = from_config (record { timeout = 10 });
  rendezvous_point_address = 21;
  rendezvous_point_peer_id = some 9;
  namespace_peers = (ann, 7) ∷ [];
  pending_command_requests = [];
  pending_list_files = [];
  pending_file_gets = [];
  sharing_dir = b'd' ∷ [];
  calls = [];
  answers = [];
  served = [];
}

idle-IsBooked : IsBooked idle
unfolding lookup
idle-IsBooked = record {
  unique = tt;
  keyed = λ k q e. cc;
  gets = record { leads = λ i k e. cc; apart = λ i j k e f. cc };
  lists = record { leads = λ i k e. cc; apart = λ i j k e f. cc };
}

-- The loop after a step that returns.
abbrev after : Step Text → EventLoop Text
after (returned l) = l
after (failed e l) = l
after panicked = idle

abbrev fetch : CommandRequest
fetch = record {
  command_request_id = 1;
  command = get_file (record { user_name = ann; file_name = b'r' ∷ [] });
  response_sender = 11;
}

abbrev fetching : EventLoop Text
fetching = after (handle_command names world idle fetch)

no_pending : lookup 1 idle.pending_command_requests ≡ none
unfolding lookup
no_pending = refl

fetch_returns : handle_command names world idle fetch ≡ returned fetching
unfolding handle_command from_config lookup
fetch_returns = refl

handle_command-IsBooked_example : IsBooked fetching
handle_command-IsBooked_example =
    handle_command-IsBooked names world idle fetch no_pending idle-IsBooked fetch_returns

fetch_linked : lookup 1 fetching.pending_file_gets ≡ some 1
unfolding handle_command from_config lookup insert send_request
fetch_linked = refl

response_received-Answers_example :
    (c : GetFile) × (req : CommandRequest) × (l' : EventLoop Text) × (lookup 1
        fetching.pending_command_requests
      ≡ some req)
    × (req.command ≡ get_file c)
    × (handle_event names true world fetching (file_get_event (response_received 7 1))
        ≡ returned l')
    × Answers fetching l' 1 (CommandResult.get_file c.user_name c.file_name)
    × (lookup 1 l'.pending_file_gets ≡ none)
response_received-Answers_example =
    response_received-Answers names true world fetching 7 1 1
      (handle_command-IsBooked names world idle fetch no_pending idle-IsBooked fetch_returns)
      fetch_linked

abbrev look : CommandRequest
look = record {
  command_request_id = 2;
  command = list_files (record { user_name = ann });
  response_sender = 12;
}

abbrev looking : EventLoop Text
looking = after (handle_command names world idle look)

look_free : lookup 2 idle.pending_command_requests ≡ none
unfolding lookup
look_free = refl

look_returns : handle_command names world idle look ≡ returned looking
unfolding handle_command lookup
look_returns = refl

look_linked : lookup 30 looking.pending_list_files ≡ some 2
unfolding handle_command lookup insert
look_linked = refl

abbrev peers_req : CommandRequest
peers_req = record { command_request_id = 3; command = list_peers; response_sender = 13 }

abbrev finding : EventLoop Text
finding = after (handle_command names world idle peers_req)

peers_free : lookup 3 idle.pending_command_requests ≡ none
unfolding lookup
peers_free = refl

peers_returns : handle_command names world idle peers_req ≡ returned finding
unfolding handle_command
peers_returns = refl

abbrev bob_found : List (Registration Text)
bob_found =
    record { namespace = b'b' ∷ []; peer_id = 8; addresses = 5 ∷ [] }
    ∷ record { namespace = b'b' ∷ []; peer_id = 9; addresses = [] }
    ∷ []

on_discovered_lem_example :
    let l' = on_discovered names bob_found finding in
    ((n : Text)
      → lookup n l'.namespace_peers
        ≡ known_peer names n bob_found (lookup n finding.namespace_peers))
    × (l'.answers
        ≡ finding.answers
          ++ map (reply names l'.namespace_peers) (listing finding.pending_command_requests))
    × IsBooked l'
on_discovered_lem_example =
    on_discovered_lem names bob_found finding
      (handle_command-IsBooked names world idle peers_req peers_free idle-IsBooked peers_returns)

abbrev found : EventLoop Text
found = after (handle_event names true world finding (discovered_event bob_found))

found_returns : handle_event names true world finding (discovered_event bob_found) ≡ returned found
unfolding handle_event
found_returns = refl

handle_event-IsBooked_example : IsBooked found
handle_event-IsBooked_example =
    handle_event-IsBooked names true world finding (discovered_event bob_found)
      (handle_command-IsBooked names world idle peers_req peers_free idle-IsBooked peers_returns)
      found_returns
