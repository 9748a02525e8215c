-- ===== src/FileGet/Contracts/Panics.antt =====
-- When a call of file-get/src/lib.rs panics, and when it returns.
use file_sharing_example.Common.{
  ◌≡◌, ◌↔◌, Bool, true, false, Option, none, some, List, nat_eq, contains, arith,
}
use mathlib.Core.Bool.{not}
use file_sharing_example.FileGet.Types.{PeerId, ConnectionId, RequestId}
use file_sharing_example.FileGet.Handler.{
  FileGetHandlerEvent, request, response, response_sent as sent, response_omission,
}
use file_sharing_example.FileGet.Connections.{Connection}
use file_sharing_example.FileGet.Behaviour.{FileGet, panicked}
use file_sharing_example.FileGet.Swarm.{
  FromSwarm, connection_closed, address_change, on_connection_closed, on_address_change,
  on_swarm_event,
}
use file_sharing_example.FileGet.Reports.{get_connection, on_connection_handler_event}

abbrev is_none : {A : Type 0} → Option A → Bool
is_none none = true
is_none (some _) = false

abbrev held_by : Option Connection → (Connection → List RequestId) → RequestId → Bool
held_by none set id = false
held_by (some c) set id = contains (set c) id

-- The connection waits for the response to the request, or owes one.
abbrev awaited : FileGet → PeerId → ConnectionId → RequestId → Bool
awaited fg p conn id = held_by (get_connection fg p conn) (λ c. c.pending_inbound_responses) id

abbrev owed : FileGet → PeerId → ConnectionId → RequestId → Bool
owed fg p conn id = held_by (get_connection fg p conn) (λ c. c.pending_outbound_responses) id

-- The event names a connection that is not in the books.
abbrev pub names_unknown : FileGet → FromSwarm → Bool
names_unknown fg (connection_closed p conn) = is_none (get_connection fg p conn)
names_unknown fg (address_change p conn new) = is_none (get_connection fg p conn)
names_unknown fg _ = false

-- An event of the swarm panics exactly when it closes, or changes the address of, a connection that
-- is not in the books.
pub on_swarm_event-panics_iff :
    (fg : FileGet) (event : FromSwarm)
    → (on_swarm_event fg event ≡ panicked) ↔ (names_unknown fg event ≡ true)
unfolding on_swarm_event on_connection_closed on_address_change get_connection
on_swarm_event-panics_iff fg (connection_closed p conn) = ground arith
on_swarm_event-panics_iff fg (address_change p conn new) = ground arith
on_swarm_event-panics_iff fg _ = ground arith

-- The debug assertion of the event fails: the request is in no set of the connection that should
-- hold it.
abbrev pub is_unexpected : FileGet → PeerId → ConnectionId → FileGetHandlerEvent → Bool
is_unexpected fg p conn (response id) = not (awaited fg p conn id)
is_unexpected fg p conn (sent id) = not (owed fg p conn id)
is_unexpected fg p conn (response_omission id) = not (owed fg p conn id)
is_unexpected fg p conn _ = false

-- A report of a handler panics exactly when it is a debug build and the report is that a response
-- was received, sent or omitted for a request that the connection does not hold.
pub on_connection_handler_event-panics_iff :
    (debug : Bool) (fg : FileGet) (p : PeerId) (conn : ConnectionId) (event : FileGetHandlerEvent)
    → (on_connection_handler_event debug fg p conn event ≡ panicked)
      ↔ ((debug ≡ true) × (is_unexpected fg p conn event ≡ true))
unfolding on_connection_handler_event
on_connection_handler_event-panics_iff debug fg p conn (request id message sender) = ground arith
on_connection_handler_event-panics_iff debug fg p conn _ = ground arith
