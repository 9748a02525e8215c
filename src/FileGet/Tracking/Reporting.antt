-- ===== src/FileGet/Tracking/Reporting.antt =====
-- What the handler of a connection reports.
use file_sharing_example.Common.{
  ◌≡◌, ◌⊎◌, ◌==◌, ◌||◌, Bool, nat_eq, refl, inl, inr, true, false, some, subst, lookup, arith,
  Bool-cases, Option-cases,
}
use file_sharing_example.FileGet.Types.{
  PeerId, ConnectionId, RequestId, Channel, FileGetMessage, OutboundFailure, InboundFailure,
  FileGetEvent, outbound_failure, inbound_failure, response_received, response_sent,
  request_received,
}
use file_sharing_example.FileGet.Handler.{
  FileGetHandlerEvent, request, response, response_sent as sent, response_omission,
  outbound_timeout, outbound_unsupported_protocols, inbound_timeout, inbound_unsupported_protocols,
}
use file_sharing_example.FileGet.Connections.{
  Connection, update_connection, owe_response, drop_inbound, drop_outbound,
}
use file_sharing_example.FileGet.Connections.Laws.{awaits-drop}
use file_sharing_example.FileGet.Behaviour.{FileGet, generate_event, done, push_action}
use file_sharing_example.FileGet.Behaviour.Entries.{entry-insert, entry_of_some}
use file_sharing_example.FileGet.Reports.{
  with_connection, remove_pending_inbound_response, remove_pending_outbound_response, assert_then,
  on_request, on_connection_handler_event,
}
use file_sharing_example.FileGet.Tracking.{accounted, concludes}
use file_sharing_example.FileGet.Tracking.Closing.{push_action-accounted, written-accounted}

with_connection-accounted :
    (fg : FileGet) (peer p : PeerId) (id : RequestId) (conn : ConnectionId)
    (f : Connection → Connection)
    → ((c : Connection) → (f c).pending_inbound_responses ≡ c.pending_inbound_responses)
    → accounted (with_connection fg p conn f) peer id ≡ accounted fg peer id
unfolding with_connection
with_connection-accounted fg peer p id conn f same = elim (Option-cases (lookup p fg.connected)) [
  | inl e ↦ rw (e, with_connection)
  | inr (conns, e) ↦ rw (e, with_connection) (written-accounted fg peer p id conn f conns same e)
]

-- Taking a request off a connection loses track of that request only.
dropped-accounted :
    (fg : FileGet) (peer p : PeerId) (id j : RequestId) (conn : ConnectionId)
    → accounted fg peer id ≡ true
    → (accounted (with_connection fg p conn (drop_inbound j)) peer id ≡ true)
      ⊎ ((p ≡ peer) × (j ≡ id))
unfolding with_connection accounted
dropped-accounted fg peer p id j conn h = elim (Option-cases (lookup p fg.connected)) [
  | inl e ↦ inl (rw (e, with_connection) h)
  | inr (conns, e) ↦ elim (Bool-cases (p == peer)) [
    | inr other ↦ inl (
        ground
          (arith, entry-insert p peer (update_connection conn (drop_inbound j) conns) fg.connected))
    | inl hit ↦
        let same : p ≡ peer = ground arith in
        let at_peer : lookup peer fg.connected ≡ some conns =
          subst (λ k. lookup k fg.connected ≡ some conns) same e in
        elim (Bool-cases (j == id)) [
          | inl eq ↦ inr (same, ground arith)
          | inr ne ↦ inl (
              ground (
                arith,
                entry_of_some peer fg.connected at_peer,
                awaits-drop id j conn conns,
                entry-insert p peer (update_connection conn (drop_inbound j) conns) fg.connected,
              ))
        ]
  ]
]

assert_then-accounted :
    (debug removed : Bool) (fg : FileGet) (event : FileGetEvent) (peer : PeerId) (id : RequestId)
    {fg' : FileGet}
    → assert_then debug (fg, removed) event ≡ done fg'
    → accounted fg' peer id ≡ (concludes peer id (generate_event event) || accounted fg peer id)
unfolding assert_then
assert_then-accounted debug removed fg event peer id e =
    ground (arith, push_action-accounted fg (generate_event event) peer id)

-- An arm that takes the request off its connection and tells how it ended.
concluding-accounted :
    (debug : Bool) (fg : FileGet) (event : FileGetEvent) (peer p : PeerId) (id j : RequestId)
    (conn : ConnectionId) {fg' : FileGet}
    → concludes p j (generate_event event) ≡ true
    → assert_then debug (remove_pending_inbound_response fg p conn j) event ≡ done fg'
    → accounted fg peer id ≡ true
    → accounted fg' peer id ≡ true
unfolding remove_pending_inbound_response
concluding-accounted debug fg event peer p id j conn tells e h =
    let fg1 = with_connection fg p conn (drop_inbound j) in
    elim (dropped-accounted fg peer p id j conn h) [
      | inl kept ↦ ground (arith, assert_then-accounted debug _ fg1 event peer id e)
      | inr (same, eq) ↦
          let tells_id : concludes peer id (generate_event event) ≡ true =
            subst (λ k. concludes peer k (generate_event event) ≡ true) eq
              (subst (λ q. concludes q j (generate_event event) ≡ true) same tells) in
          ground (arith, assert_then-accounted debug _ fg1 event peer id e)
    ]

-- An arm about a request of the remote peer.
serving-accounted :
    (debug : Bool) (fg : FileGet) (event : FileGetEvent) (peer p : PeerId) (id j : RequestId)
    (conn : ConnectionId) {fg' : FileGet}
    → assert_then debug (remove_pending_outbound_response fg p conn j) event ≡ done fg'
    → accounted fg peer id ≡ true
    → accounted fg' peer id ≡ true
unfolding remove_pending_outbound_response
serving-accounted debug fg event peer p id j conn e h =
    let fg1 = with_connection fg p conn (drop_outbound j) in
    ground (
      arith,
      with_connection-accounted fg peer p id conn (drop_outbound j) (λ c. refl),
      assert_then-accounted debug _ fg1 event peer id e,
    )

on_request-accounted :
    (fg : FileGet) (peer p : PeerId) (id j : RequestId) (conn : ConnectionId)
    (message : FileGetMessage) (sender : Channel)
    → accounted fg peer id ≡ true
    → accounted (on_request fg p conn j message sender) peer id ≡ true
unfolding on_request
on_request-accounted fg peer p id j conn message sender h =
    let a = generate_event (request_received p j message sender) in
    let b = generate_event (inbound_failure p j InboundFailure.connection_closed) in
    let fg1 = push_action a fg in
    ground (
      arith,
      push_action-accounted fg a peer id,
      push_action-accounted fg1 b peer id,
      with_connection-accounted fg1 peer p id conn (owe_response j) (λ c. refl),
    )

-- Whatever the handler reports, no request is lost track of.
pub on_connection_handler_event-accounted :
    (debug : Bool) (fg : FileGet) (peer p : PeerId) (id : RequestId) (conn : ConnectionId)
    (event : FileGetHandlerEvent) {fg' : FileGet}
    → on_connection_handler_event debug fg p conn event ≡ done fg'
    → accounted fg peer id ≡ true
    → accounted fg' peer id ≡ true
unfolding on_connection_handler_event
on_connection_handler_event-accounted debug fg peer p id conn (request j message sender) e h =
    ground (arith, on_request-accounted fg peer p id j conn message sender h)
on_connection_handler_event-accounted debug fg peer p id conn (response j) e h =
    concluding-accounted debug fg (response_received p j) peer p id j conn (ground arith) e h
on_connection_handler_event-accounted debug fg peer p id conn (sent j) e h =
    serving-accounted debug fg (response_sent p j) peer p id j conn e h
on_connection_handler_event-accounted debug fg peer p id conn (response_omission j) e h =
    serving-accounted debug fg (inbound_failure p j InboundFailure.response_omission) peer p id j
      conn e h
on_connection_handler_event-accounted debug fg peer p id conn (outbound_timeout j) e h =
    concluding-accounted false fg (outbound_failure p j OutboundFailure.timeout) peer p id j conn
      (ground arith) e h
on_connection_handler_event-accounted debug fg peer p id conn (outbound_unsupported_protocols j) e
      h =
    concluding-accounted false fg (outbound_failure p j OutboundFailure.unsupported_protocols) peer
      p id j conn (ground arith) e h
on_connection_handler_event-accounted debug fg peer p id conn (inbound_timeout j) e h =
    serving-accounted false fg (inbound_failure p j InboundFailure.timeout) peer p id j conn e h
on_connection_handler_event-accounted debug fg peer p id conn (inbound_unsupported_protocols j) e
      h =
    serving-accounted false fg (inbound_failure p j InboundFailure.unsupported_protocols) peer p id
      j conn e h
