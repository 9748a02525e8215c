-- ===== src/FileGet/Live/Ids.antt =====
-- Only `send_request` of file-get/src/lib.rs takes an id for a request.
use file_sharing_example.Common.{
  ℕ, ◌≡◌, refl, ap, ◌∙◌, Bool, true, false, none, some, Option, List, [], ◌∷◌, lookup, remove, ◌==◌,
  nat_eq, arith, Option-cases, Bool-cases, inl, inr,
}
use file_sharing_example.FileGet.Types.{
  PeerId, ConnectionId, RequestId, Channel, FileGetEvent, request_received, RequestIdGenerator,
  FileGetMessage, Writer, next_id,
}
use file_sharing_example.FileGet.Protocol.{FileGetOutboundProtocol}
use file_sharing_example.FileGet.Handler.{
  FileGetHandlerEvent, request, response, response_sent as sent, response_omission,
  outbound_timeout, outbound_unsupported_protocols, inbound_timeout, inbound_unsupported_protocols,
}
use file_sharing_example.FileGet.Connections.{
  Connection, find_connection, remove_connection, owe_response,
}
use file_sharing_example.FileGet.Behaviour.{
  FileGet, generate_event, done, entry, push_action, try_send_request, dial_and_keep, send_request,
}
use file_sharing_example.FileGet.Swarm.{
  FromSwarm, ConnectedPoint, report, drop_connection, flush_pending, on_connection_established,
  fail_pending, one_dial_failure, on_connection_closed, on_address_change, on_swarm_event,
}
use file_sharing_example.FileGet.Reports.{
  with_connection, get_connection, on_request, assert_then, remove_pending_inbound_response,
  remove_pending_outbound_response, on_connection_handler_event, poll,
}
use file_sharing_example.FileGet.Contracts.Flushing.{
  flush_is, send_pending-generator, try_send_request-generator,
}
use file_sharing_example.FileGet.Live.Reports.{done_eq}

abbrev pub ids_of : FileGet → RequestIdGenerator
ids_of fg = fg.requset_id_generator

flush_pending-ids : (fg : FileGet) (p : PeerId) → ids_of (flush_pending fg p) ≡ ids_of fg
flush_pending-ids fg p =
    ap ids_of (flush_is fg p)
    ∙ send_pending-generator p (entry p fg.pending_outbound_requests)
        (record fg { pending_outbound_requests = remove p fg.pending_outbound_requests })

on_connection_established-ids :
    (fg : FileGet) (p : PeerId) (conn : ConnectionId) (endpoint : ConnectedPoint) (others : ℕ)
    → ids_of (on_connection_established fg p conn endpoint others) ≡ ids_of fg
unfolding on_connection_established
on_connection_established-ids fg p conn endpoint others = elim (Bool-cases (others == 0)) [
  | inl first ↦ rw first (flush_pending-ids _ p)
  | inr more ↦ rw more refl
]

report-ids :
    (event : RequestId → FileGetEvent) (ids : List RequestId) (fg : FileGet)
    → ids_of (report event ids fg) ≡ ids_of fg
unfolding report push_action
report-ids event [] fg = refl
report-ids event (i ∷ ids) fg = report-ids event ids (push_action _ fg)

drop_connection-ids :
    (fg : FileGet) (p : PeerId) (c : Connection) (rest : List Connection)
    → ids_of (drop_connection fg p c rest) ≡ ids_of fg
unfolding drop_connection
drop_connection-ids fg p c rest =
    report-ids _ c.pending_inbound_responses _ ∙ report-ids _ c.pending_outbound_responses _

fail_pending-ids :
    (p : PeerId) (reqs : List FileGetOutboundProtocol) (fg : FileGet)
    → ids_of (fail_pending fg p reqs) ≡ ids_of fg
unfolding fail_pending push_action
fail_pending-ids p [] fg = refl
fail_pending-ids p (req ∷ reqs) fg = fail_pending-ids p reqs (push_action _ fg)

one_dial_failure-ids :
    (fg : FileGet) (p : Option PeerId) → ids_of (one_dial_failure fg p) ≡ ids_of fg
unfolding one_dial_failure
one_dial_failure-ids fg none = refl
one_dial_failure-ids fg (some p) = elim (Option-cases (lookup p fg.pending_outbound_requests)) [
  | inl e ↦ rw (e, one_dial_failure) refl
  | inr (reqs, e) ↦ rw (e, one_dial_failure) (fail_pending-ids p reqs _)
]

pub on_swarm_event-ids :
    (fg : FileGet) (event : FromSwarm) {fg' : FileGet}
    → on_swarm_event fg event ≡ done fg'
    → ids_of fg' ≡ ids_of fg
unfolding on_swarm_event on_connection_closed on_address_change
on_swarm_event-ids fg (FromSwarm.connection_established p conn endpoint others) e =
    rw (← done_eq e) (on_connection_established-ids fg p conn endpoint others)
on_swarm_event-ids fg (FromSwarm.connection_closed p conn) e =
    elim (Option-cases (lookup p fg.connected)) [
      | inl gone ↦ cc (rw (gone, on_connection_closed) at e)
      | inr (cs, at) ↦ elim (Option-cases (find_connection conn cs)) [
        | inl gone ↦ cc (rw (at, on_connection_closed, gone) at e)
        | inr (c, found) ↦
            rw (← done_eq (rw (at, on_connection_closed, found) at e))
              (drop_connection-ids fg p c (remove_connection conn cs))
      ]
    ]
on_swarm_event-ids fg (FromSwarm.address_change p conn new) e = ground arith
on_swarm_event-ids fg (FromSwarm.dial_failure p) e = rw (← done_eq e) (one_dial_failure-ids fg p)
on_swarm_event-ids fg _ e = rw (← done_eq e) refl

with_connection-ids :
    (fg : FileGet) (p : PeerId) (conn : ConnectionId) (f : Connection → Connection)
    → ids_of (with_connection fg p conn f) ≡ ids_of fg
unfolding with_connection
with_connection-ids fg p conn f = ground arith

on_request-ids :
    (fg : FileGet) (p : PeerId) (conn : ConnectionId) (i : RequestId) (m : FileGetMessage)
    (sender : Channel)
    → ids_of (on_request fg p conn i m sender) ≡ ids_of fg
unfolding on_request push_action
on_request-ids fg p conn i m sender =
    let fg1 = push_action (generate_event (request_received p i m sender)) fg in
    elim (Option-cases (get_connection fg1 p conn)) [
      | inl e ↦ rw (on_request, e) refl
      | inr (c, e) ↦ rw (on_request, e) (with_connection-ids fg1 p conn (owe_response i))
    ]

assert_then-ids :
    (debug : Bool) (tried : FileGet × Bool) (event : FileGetEvent) {fg' : FileGet}
    → assert_then debug tried event ≡ done fg'
    → ids_of fg' ≡ ids_of tried.0
unfolding assert_then push_action
assert_then-ids true (fg, false) event e = cc
assert_then-ids true (fg, true) event e = rw (← done_eq e) refl
assert_then-ids false (fg, removed) event e = rw (← done_eq e) refl

pub on_connection_handler_event-ids :
    (debug : Bool) (fg : FileGet) (p : PeerId) (conn : ConnectionId) (event : FileGetHandlerEvent)
    {fg' : FileGet}
    → on_connection_handler_event debug fg p conn event ≡ done fg'
    → ids_of fg' ≡ ids_of fg
unfolding on_connection_handler_event remove_pending_inbound_response
    remove_pending_outbound_response on_request push_action
on_connection_handler_event-ids debug fg p conn (request i m sender) e =
    rw (← done_eq e) (on_request-ids fg p conn i m sender)
on_connection_handler_event-ids debug fg p conn (response i) e =
    assert_then-ids debug _ _ e ∙ with_connection-ids fg p conn _
on_connection_handler_event-ids debug fg p conn (sent i) e =
    assert_then-ids debug _ _ e ∙ with_connection-ids fg p conn _
on_connection_handler_event-ids debug fg p conn (response_omission i) e =
    assert_then-ids debug _ _ e ∙ with_connection-ids fg p conn _
on_connection_handler_event-ids debug fg p conn (outbound_timeout i) e =
    assert_then-ids false (remove_pending_inbound_response fg p conn i) _ e
    ∙ with_connection-ids fg p conn _
on_connection_handler_event-ids debug fg p conn (outbound_unsupported_protocols i) e =
    assert_then-ids false (remove_pending_inbound_response fg p conn i) _ e
    ∙ with_connection-ids fg p conn _
on_connection_handler_event-ids debug fg p conn (inbound_timeout i) e =
    assert_then-ids false (remove_pending_outbound_response fg p conn i) _ e
    ∙ with_connection-ids fg p conn _
on_connection_handler_event-ids debug fg p conn (inbound_unsupported_protocols i) e =
    assert_then-ids false (remove_pending_outbound_response fg p conn i) _ e
    ∙ with_connection-ids fg p conn _

pub poll-ids : (fg : FileGet) → ids_of (poll fg).0 ≡ ids_of fg
unfolding poll
poll-ids fg = ground arith

dial_and_keep-ids :
    (p : PeerId) (tried : FileGet × Option FileGetOutboundProtocol)
    → ids_of (dial_and_keep p tried) ≡ ids_of tried.0
unfolding dial_and_keep push_action
dial_and_keep-ids p (x, none) = refl
dial_and_keep-ids p (x, some req) = refl

pub send_request-ids :
    (fg : FileGet) (p : PeerId) (m : FileGetMessage) (w : Writer)
    → ids_of (send_request fg p m w).0 ≡ (next_id (ids_of fg)).0
unfolding send_request
send_request-ids fg p m w =
    dial_and_keep-ids p (try_send_request _ p _) ∙ try_send_request-generator p _ _
