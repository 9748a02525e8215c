-- ===== src/FileGet/Tests.antt =====
-- Small runs of the behaviour of file-get/src/lib.rs.
use file_sharing_example.Common.{
  ◌≡◌, ◌≢◌, ◌↔◌, ◌⊎◌, refl, true, false, none, some, List, [], ◌∷◌, ◌++◌, map, any, contains,
  lookup, length, replicate, nat_eq, ◌==◌,
}
use file_sharing_example.FileGet.Types.{PeerId, ConnectionId, RequestId, FileGetMessage}
use file_sharing_example.FileGet.Protocol.{FileGetOutboundProtocol}
use file_sharing_example.FileGet.Connections.{Connection, find_connection}
use file_sharing_example.FileGet.Behaviour.{
  FileGet, Action, dial, notify_handler, behaviour_new_handler, Outcome, done, panicked,
  from_config, entry, send_request, try_send_request,
}
use file_sharing_example.FileGet.Handler.{response}
use file_sharing_example.FileGet.Swarm.{
  dialer, connection_established, connection_closed, on_connection_established,
  on_connection_closed, one_dial_failure, on_swarm_event,
}
use file_sharing_example.FileGet.Reports.{on_connection_handler_event}
use file_sharing_example.FileGet.Driver.{Call, swarm_event, polls, apply, run}
use file_sharing_example.FileGet.Tracking.{waiting, awaiting}
use file_sharing_example.FileGet.Tracking.Sending.{send_request_tracks}
use file_sharing_example.FileGet.Contracts.Queue.{Appends}
use file_sharing_example.FileGet.Contracts.Order.{run-Appends, run-polls}
use file_sharing_example.FileGet.Contracts.Opening.{first_connection_sends_all}
use file_sharing_example.FileGet.Contracts.Commuting.{
  request_of, send_request-on_connection_established,
}
use file_sharing_example.FileGet.Contracts.Closing.{
  tell_outbound, tell_inbound, tell_dial, is_inbound_closed, is_outbound_closed,
  on_connection_closed_known, closing_misreports, one_dial_failure_lem,
}
use file_sharing_example.FileGet.Contracts.Panics.{
  names_unknown, is_unexpected, on_swarm_event-panics_iff, on_connection_handler_event-panics_iff,
}

abbrev start : FileGet
start = from_config (record { timeout = 10 })

abbrev readme : FileGetMessage
readme = record { file_name = b'r' ∷ [] }

-- Peer 7 was asked for a file.
abbrev asked : FileGet
asked = (send_request start 7 readme 5).0

abbrev ask : FileGetOutboundProtocol
ask = record { request_id = 1; file_name = b'r' ∷ []; file_writer = 5 }

-- A connection to peer 7 waits for the response to request 1.
abbrev opened : Connection
opened = record {
  id = 4;
  address = some 3;
  pending_outbound_responses = [];
  pending_inbound_responses = 1 ∷ [];
}

abbrev connected_state : FileGet
connected_state = record start { connected = (7, opened ∷ []) ∷ [] }

abbrev opens_then_polls : List Call
opens_then_polls = swarm_event (connection_established 7 4 (dialer 3) 0) ∷ polls ∷ []

-- The state and the actions of a run, or the start where the run panics.
abbrev ended : Outcome (FileGet × List Action) → FileGet × List Action
ended (done result) = result
ended panicked = (start, [])

run-asked : run true asked opens_then_polls ≡ done (ended (run true asked opens_then_polls))
unfolding run apply on_swarm_event on_connection_established from_config send_request
run-asked = refl

send_request_tracks_example :
    let (fg', id) = send_request connected_state 7 readme 5 in
    ((entry 7 connected_state.connected ≡ []) × (waiting fg' 7 id ≡ true))
    ⊎ ((entry 7 connected_state.connected ≢ []) × (awaiting fg' 7 id ≡ true))
send_request_tracks_example = send_request_tracks connected_state 7 readme 5

no_connection : entry 7 asked.connected ≡ []
unfolding from_config send_request entry lookup try_send_request
no_connection = refl

first_connection_sends_all_example :
    let reqs = entry 7 asked.pending_outbound_requests in
    let fg' = on_connection_established asked 7 4 (dialer 3) 0 in
    (fg'.pending_events ≡ asked.pending_events ++ map (notify_handler 7 4) reqs)
    × (entry 7 fg'.pending_outbound_requests ≡ [])
    × ((id : RequestId) → awaiting fg' 7 id ≡ any (λ r. r.request_id == id) reqs)
first_connection_sends_all_example = first_connection_sends_all asked 7 4 (dialer 3) no_connection

send_request-on_connection_established_example :
    let before = on_connection_established (send_request asked 7 readme 6).0 7 4 (dialer 3) 0 in
    let after = (send_request (on_connection_established asked 7 4 (dialer 3) 0) 7 readme 6).0 in
    let reqs = entry 7 asked.pending_outbound_requests ++ request_of asked 7 readme 6 ∷ [] in
    (before.connected ≡ after.connected)
    × (before.pending_outbound_requests ≡ after.pending_outbound_requests)
    × (before.requset_id_generator ≡ after.requset_id_generator)
    × (before.pending_events
        ≡ asked.pending_events
          ++ dial 7 (behaviour_new_handler asked) ∷ map (notify_handler 7 4) reqs)
    × (after.pending_events ≡ asked.pending_events ++ map (notify_handler 7 4) reqs)
send_request-on_connection_established_example =
    send_request-on_connection_established asked 7 readme 6 4 (dialer 3) no_connection

run-Appends_example :
    let (fg', out) = ended (run true asked opens_then_polls) in
    Appends asked.pending_events (out ++ fg'.pending_events)
run-Appends_example = run-Appends true opens_then_polls asked run-asked

abbrev two_actions : List Action
two_actions = notify_handler 7 4 ask ∷ notify_handler 8 2 ask ∷ []

run-polls_example :
    run true (record start { pending_events = two_actions }) (replicate (length two_actions) polls)
    ≡ done (
      record (record start { pending_events = two_actions }) { pending_events = [] },
      two_actions,
    )
run-polls_example = run-polls true two_actions (record start { pending_events = two_actions }) refl

opened_found : find_connection 4 (entry 7 connected_state.connected) ≡ some opened
unfolding from_config entry find_connection lookup
opened_found = refl

-- The connection stands between two others.
abbrev numbered : ConnectionId → Connection
numbered id = record {
  id = id;
  address = none;
  pending_outbound_responses = [];
  pending_inbound_responses = [];
}

abbrev crowded : FileGet
crowded = record start { connected = (7, numbered 2 ∷ opened ∷ numbered 6 ∷ []) ∷ [] }

crowded_at : entry 7 crowded.connected ≡ (numbered 2 ∷ []) ++ opened ∷ numbered 6 ∷ []
unfolding from_config entry lookup
crowded_at = refl

crowded_before : any (λ (d : Connection). d.id == 4) (numbered 2 ∷ []) ≡ false
unfolding any
crowded_before = refl

on_connection_closed_known_example :
    (fg' : FileGet) × (on_connection_closed crowded 7 4 ≡ done fg')
    × (entry 7 fg'.connected ≡ numbered 2 ∷ numbered 6 ∷ [])
    × ((q : PeerId) → q ≢ 7 → entry q fg'.connected ≡ entry q crowded.connected)
    × (fg'.pending_outbound_requests ≡ crowded.pending_outbound_requests)
    × (fg'.pending_events
        ≡ crowded.pending_events
          ++ (map (tell_outbound 7) opened.pending_outbound_responses
              ++ map (tell_inbound 7) opened.pending_inbound_responses))
on_connection_closed_known_example =
    on_connection_closed_known crowded 7 4 opened (numbered 2 ∷ []) (numbered 6 ∷ []) crowded_at
      crowded_before refl

abbrev closed : FileGet
closed = (ended (run true connected_state (swarm_event (connection_closed 7 4) ∷ []))).0

opened_closes : on_connection_closed connected_state 7 4 ≡ done closed
unfolding run apply on_swarm_event on_connection_closed from_config lookup find_connection
opened_closes = refl

opened_awaits : contains opened.pending_inbound_responses 1 ≡ true
unfolding contains
opened_awaits = refl

opened_owes_none : contains opened.pending_outbound_responses 1 ≡ false
unfolding contains
opened_owes_none = refl

closing_misreports_example :
    (any (is_inbound_closed 7 1) closed.pending_events ≡ true)
    × (any (is_outbound_closed 7 1) closed.pending_events
        ≡ any (is_outbound_closed 7 1) connected_state.pending_events)
closing_misreports_example =
    closing_misreports connected_state 7 4 opened 1 opened_found opened_awaits opened_owes_none
      opened_closes

one_dial_failure_lem_example :
    let fg' = one_dial_failure asked (some 7) in
    (fg'.pending_events
      ≡ asked.pending_events ++ map (tell_dial 7) (entry 7 asked.pending_outbound_requests))
    × (entry 7 fg'.pending_outbound_requests ≡ [])
    × (fg'.connected ≡ asked.connected)
one_dial_failure_lem_example = one_dial_failure_lem asked 7

on_swarm_event-panics_iff_example :
    (on_swarm_event start (connection_closed 7 4) ≡ panicked)
    ↔ (names_unknown start (connection_closed 7 4) ≡ true)
on_swarm_event-panics_iff_example = on_swarm_event-panics_iff start (connection_closed 7 4)

on_connection_handler_event-panics_iff_example :
    (on_connection_handler_event true connected_state 7 4 (response 1) ≡ panicked)
    ↔ ((true ≡ true) × (is_unexpected connected_state 7 4 (response 1) ≡ true))
on_connection_handler_event-panics_iff_example =
    on_connection_handler_event-panics_iff true connected_state 7 4 (response 1)
