-- ===== src/FileGet/Reports.antt =====
-- file-get/src/lib.rs: `on_connection_handler_event` and `poll`.
use file_sharing_example.Common.{
  Bool, true, false, Option, none, some, List, [], ◌∷◌, lookup, insert, contains, nat_eq,
}
use file_sharing_example.FileGet.Types.{
  PeerId, ConnectionId, Channel, RequestId, FileGetMessage, OutboundFailure, InboundFailure,
  FileGetEvent, request_received, response_received, response_sent, outbound_failure,
  inbound_failure,
}
use file_sharing_example.FileGet.Handler.{
  FileGetHandlerEvent, request, response, response_sent as sent, response_omission,
  outbound_timeout, outbound_unsupported_protocols, inbound_timeout, inbound_unsupported_protocols,
  Poll, ready, pending,
}
use file_sharing_example.FileGet.Connections.{
  Connection, find_connection, update_connection, owe_response, drop_inbound, drop_outbound,
}
use file_sharing_example.FileGet.Behaviour.{
  FileGet, Action, generate_event, Outcome, done, panicked, push_action,
}

-- A write through `connected.get_mut(peer).and_then(|cs| cs.iter_mut().find(..))`, if there is one.
unfoldable pub with_connection :
    FileGet → PeerId → ConnectionId → (Connection → Connection) → FileGet
with_connection fg peer id f = elim (lookup peer fg.connected) [
  | none ↦ fg
  | some conns ↦ record fg { connected = insert peer (update_connection id f conns) fg.connected }
]

-- What that expression finds.
unfoldable pub get_connection : FileGet → PeerId → ConnectionId → Option Connection
get_connection fg peer id = elim (lookup peer fg.connected) [
  | none ↦ none
  | some conns ↦ find_connection id conns
]

-- `HashSet::remove` answers whether the id was there; `unwrap_or(false)` if there is no connection.
unfoldable pub remove_pending_inbound_response :
    FileGet → PeerId → ConnectionId → RequestId → FileGet × Bool
unfolding with_connection get_connection
remove_pending_inbound_response fg peer conn id = (
  with_connection fg peer conn (drop_inbound id),
  elim (get_connection fg peer conn) [
    | none ↦ false
    | some c ↦ contains c.pending_inbound_responses id
  ],
)

unfoldable pub remove_pending_outbound_response :
    FileGet → PeerId → ConnectionId → RequestId → FileGet × Bool
unfolding with_connection get_connection
remove_pending_outbound_response fg peer conn id = (
  with_connection fg peer conn (drop_outbound id),
  elim (get_connection fg peer conn) [
    | none ↦ false
    | some c ↦ contains c.pending_outbound_responses id
  ],
)

-- `debug_assert!(removed)`, then an event. The assertion counts in a debug build only.
unfoldable pub assert_then : Bool → FileGet × Bool → FileGetEvent → Outcome FileGet
unfolding push_action
assert_then true (fg, false) event = panicked
assert_then true (fg, true) event = done (push_action (generate_event event) fg)
assert_then false (fg, removed) event = done (push_action (generate_event event) fg)

-- The arm of `Request`.
unfoldable pub on_request :
    FileGet → PeerId → ConnectionId → RequestId → FileGetMessage → Channel → FileGet
unfolding push_action owe_response get_connection with_connection
on_request fg peer conn id message sender =
    let fg' = push_action (generate_event (request_received peer id message sender)) fg in
    elim (get_connection fg' peer conn) [
      | some _ ↦ with_connection fg' peer conn (owe_response id)
      | none ↦
          push_action (generate_event (inbound_failure peer id InboundFailure.connection_closed))
            fg'
    ]

-- `debug` tells a debug build from a release build.
unfoldable pub on_connection_handler_event :
    Bool → FileGet → PeerId → ConnectionId → FileGetHandlerEvent → Outcome FileGet
unfolding on_request assert_then remove_pending_inbound_response remove_pending_outbound_response
on_connection_handler_event debug fg peer conn (request id message sender) =
    done (on_request fg peer conn id message sender)
on_connection_handler_event debug fg peer conn (response id) =
    assert_then debug (remove_pending_inbound_response fg peer conn id) (response_received peer id)
on_connection_handler_event debug fg peer conn (sent id) =
    assert_then debug (remove_pending_outbound_response fg peer conn id) (response_sent peer id)
on_connection_handler_event debug fg peer conn (response_omission id) =
    assert_then debug (remove_pending_outbound_response fg peer conn id)
      (inbound_failure peer id InboundFailure.response_omission)
on_connection_handler_event debug fg peer conn (outbound_timeout id) =
    assert_then false (remove_pending_inbound_response fg peer conn id)
      (outbound_failure peer id OutboundFailure.timeout)
on_connection_handler_event debug fg peer conn (outbound_unsupported_protocols id) =
    assert_then false (remove_pending_inbound_response fg peer conn id)
      (outbound_failure peer id OutboundFailure.unsupported_protocols)
on_connection_handler_event debug fg peer conn (inbound_timeout id) =
    assert_then false (remove_pending_outbound_response fg peer conn id)
      (inbound_failure peer id InboundFailure.timeout)
on_connection_handler_event debug fg peer conn (inbound_unsupported_protocols id) =
    assert_then false (remove_pending_outbound_response fg peer conn id)
      (inbound_failure peer id InboundFailure.unsupported_protocols)

pop_action : FileGet → List Action → FileGet × Poll Action
pop_action fg (action ∷ rest) = (record fg { pending_events = rest }, ready action)
pop_action fg [] = (fg, pending)

-- `shrink_to_fit` leaves the contents of the queue alone, and is left out.
unfoldable pub poll : FileGet → FileGet × Poll Action
unfolding pop_action
poll fg = pop_action fg fg.pending_events
