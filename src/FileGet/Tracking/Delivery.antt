-- ===== src/FileGet/Tracking/Delivery.antt =====
-- Every call keeps a request waiting or moves it on: for the behaviour of file-get/src/lib.rs.
use file_sharing_example.FileGet.Contracts.Closing.{tell_dial, fail_pending-Queued}
use file_sharing_example.Common.{
  ℕ, map, ◌≡◌, refl, ◌∙◌, subst, Bool, true, Option, none, some, List, [], ◌∷◌, any, any-append,
  ◌==◌, nat_eq, lookup, remove, arith, Bool-cases, Option-cases, inl, inr,
}
use file_sharing_example.FileGet.Types.{
  PeerId, ConnectionId, RequestId, OutboundFailure, outbound_failure, FileGetEvent,
}
use file_sharing_example.FileGet.Protocol.{FileGetOutboundProtocol}
use file_sharing_example.FileGet.Handler.{FileGetHandlerEvent}
use file_sharing_example.FileGet.Connections.{
  Connection, new_connection, find_connection, remove_connection,
}
use file_sharing_example.FileGet.Behaviour.{FileGet, generate_event, done, push_action, push_entry}
use file_sharing_example.FileGet.Swarm.{
  ConnectedPoint, FromSwarm, connection_established, connection_closed, address_change,
  dial_failure, dialed_address, on_connection_established, on_connection_closed, on_address_change,
  report, drop_connection, fail_pending, one_dial_failure, on_swarm_event,
}
use file_sharing_example.FileGet.Reports.{
  with_connection, assert_then, on_request, on_connection_handler_event,
}
use file_sharing_example.FileGet.Tracking.{waiting}
use file_sharing_example.FileGet.Tracking.Opening.{push_entry-ne-nil}
use file_sharing_example.FileGet.Tracking.Handing.{
  moves, moved, taken-waiting, Delivered, waiting-same, flush_pending-Delivered,
}

fail_pending-waits :
    (p : PeerId) (reqs : List FileGetOutboundProtocol) (fg : FileGet)
    → (fail_pending fg p reqs).pending_outbound_requests ≡ fg.pending_outbound_requests
unfolding fail_pending push_action
fail_pending-waits p [] fg = refl
fail_pending-waits p (req ∷ reqs) fg = fail_pending-waits p reqs (
    push_action (generate_event (outbound_failure p req.request_id OutboundFailure.dial_failure))
      fg)

told_dial :
    (p : PeerId) (id : RequestId) (reqs : List FileGetOutboundProtocol)
    → any (λ r. r.request_id == id) reqs ≡ true
    → any (moves p id) (map (tell_dial p) reqs) ≡ true
unfolding any
told_dial p id [] h = cc
told_dial p id (req ∷ reqs) h = ground (arith, told_dial p id reqs)

fail_pending-moved :
    (p : PeerId) (id : RequestId) (reqs : List FileGetOutboundProtocol) (fg : FileGet)
    → any (λ r. r.request_id == id) reqs ≡ true
    → moved (fail_pending fg p reqs) p id ≡ true
unfolding moved
fail_pending-moved p id reqs fg h =
    let q = fail_pending-Queued p reqs fg in
    rw q.queue (
      ground (
        arith,
        any-append (moves p id) fg.pending_events (map (tell_dial p) reqs),
        told_dial p id reqs,
      ))

one_dial_failure-Delivered :
    (fg : FileGet) (peer : PeerId) (failed : Option PeerId) (id : RequestId)
    → waiting fg peer id ≡ true
    → Delivered (one_dial_failure fg failed) peer id
unfolding one_dial_failure
one_dial_failure-Delivered fg peer none id h = inl h
one_dial_failure-Delivered fg peer (some p) id h =
    elim (Option-cases (lookup p fg.pending_outbound_requests)) [
      | inl e ↦ rw (e, one_dial_failure) (inl h)
      | inr (reqs, e) ↦
          let fg' = record fg {
            pending_outbound_requests = remove p fg.pending_outbound_requests;
          } in
          rw (e, one_dial_failure)
            (elim (taken-waiting fg peer p id reqs e h) [
              | inl kept ↦ inl (
                  waiting-same fg' (fail_pending fg' p reqs) peer id (fail_pending-waits p reqs fg')
                  ∙ kept)
              | inr (same, hit) ↦ inr (
                  subst (λ k. moved (fail_pending fg' p reqs) k id ≡ true) same
                    (fail_pending-moved p id reqs fg' hit))
            ])
    ]

on_connection_established-Delivered :
    (fg : FileGet) (peer p : PeerId) (id : RequestId) (conn : ConnectionId)
    (endpoint : ConnectedPoint) (others : ℕ)
    → waiting fg peer id ≡ true
    → Delivered (on_connection_established fg p conn endpoint others) peer id
unfolding on_connection_established
on_connection_established-Delivered fg peer p id conn endpoint others h =
    let c = new_connection conn (dialed_address endpoint) in
    let fg' = record fg { connected = push_entry p c fg.connected } in
    let waits = waiting-same fg fg' peer id refl ∙ h in
    elim (Bool-cases (others == 0)) [
      | inl first ↦
          rw first (flush_pending-Delivered fg' peer p id (push_entry-ne-nil p c fg) waits)
      | inr later ↦ rw later (inl waits)
    ]

report-waits :
    (event : RequestId → FileGetEvent) (ids : List RequestId) (fg : FileGet)
    → (report event ids fg).pending_outbound_requests ≡ fg.pending_outbound_requests
unfolding report push_action
report-waits event [] fg = refl
report-waits event (i ∷ ids) fg = report-waits event ids (push_action (generate_event (event i)) fg)

drop_connection-waits :
    (fg : FileGet) (p : PeerId) (c : Connection) (rest : List Connection)
    → (drop_connection fg p c rest).pending_outbound_requests ≡ fg.pending_outbound_requests
unfolding drop_connection
drop_connection-waits fg p c rest =
    report-waits _ c.pending_inbound_responses _ ∙ report-waits _ c.pending_outbound_responses _

on_connection_closed-waits :
    (fg : FileGet) (p : PeerId) (conn : ConnectionId) {fg' : FileGet}
    → on_connection_closed fg p conn ≡ done fg'
    → fg'.pending_outbound_requests ≡ fg.pending_outbound_requests
unfolding on_connection_closed
on_connection_closed-waits fg p conn e = elim (Option-cases (lookup p fg.connected)) [
  | inl missing ↦ cc (rw (missing, on_connection_closed) at e)
  | inr (conns, at) ↦ elim (Option-cases (find_connection conn conns)) [
    | inl missing ↦ cc (rw (at, on_connection_closed, missing) at e)
    | inr (c, found) ↦ ground (arith, drop_connection-waits fg p c (remove_connection conn conns))
  ]
]

on_address_change-waits :
    (fg : FileGet) (p : PeerId) (conn : ConnectionId) (new : ConnectedPoint) {fg' : FileGet}
    → on_address_change fg p conn new ≡ done fg'
    → fg'.pending_outbound_requests ≡ fg.pending_outbound_requests
unfolding on_address_change
on_address_change-waits fg p conn new e = ground arith

with_connection-waits :
    (fg : FileGet) (p : PeerId) (conn : ConnectionId) (f : Connection → Connection)
    → (with_connection fg p conn f).pending_outbound_requests ≡ fg.pending_outbound_requests
unfolding with_connection
with_connection-waits fg p conn f = ground arith

pub on_connection_handler_event-waits :
    (debug : Bool) (fg : FileGet) (p : PeerId) (conn : ConnectionId) (event : FileGetHandlerEvent)
    {fg' : FileGet}
    → on_connection_handler_event debug fg p conn event ≡ done fg'
    → fg'.pending_outbound_requests ≡ fg.pending_outbound_requests
unfolding on_connection_handler_event assert_then on_request with_connection push_action
on_connection_handler_event-waits debug fg p conn event e = ground arith

pub on_swarm_event-Delivered :
    (fg : FileGet) (peer : PeerId) (id : RequestId) (event : FromSwarm) {fg' : FileGet}
    → on_swarm_event fg event ≡ done fg'
    → waiting fg peer id ≡ true
    → Delivered fg' peer id
unfolding on_swarm_event
on_swarm_event-Delivered fg peer id (connection_established p conn endpoint others) {fg'} e h =
    let eq : on_connection_established fg p conn endpoint others ≡ fg' = cc in
    subst (λ x. Delivered x peer id) eq
      (on_connection_established-Delivered fg peer p id conn endpoint others h)
on_swarm_event-Delivered fg peer id (connection_closed p conn) {fg'} e h =
    inl (waiting-same fg fg' peer id (on_connection_closed-waits fg p conn e) ∙ h)
on_swarm_event-Delivered fg peer id (address_change p conn new) {fg'} e h =
    inl (waiting-same fg fg' peer id (on_address_change-waits fg p conn new e) ∙ h)
on_swarm_event-Delivered fg peer id (dial_failure p) {fg'} e h =
    let eq : one_dial_failure fg p ≡ fg' = cc in
    subst (λ x. Delivered x peer id) eq (one_dial_failure-Delivered fg peer p id h)
on_swarm_event-Delivered fg peer id _ {fg'} e h =
    let eq : fg ≡ fg' = cc in subst (λ x. Delivered x peer id) eq (inl h)
