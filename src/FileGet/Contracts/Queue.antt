-- ===== src/FileGet/Contracts/Queue.antt =====
-- The queue of actions: every call appends to it, and `poll` takes from its front.
use file_sharing_example.Common.{
  ◌≡◌, refl, sym, ◌∙◌, subst, Bool, true, false, ◌==◌, Bool-cases, Option, none, some, List, [],
  ◌∷◌, ◌++◌, ℕ, nat_eq, lookup, arith, Option-cases, inl, inr,
}
use mathlib.Core.List.{append-nil, append_assoc}
use file_sharing_example.FileGet.Types.{PeerId, ConnectionId, RequestId, FileGetEvent}
use file_sharing_example.FileGet.Protocol.{FileGetOutboundProtocol}
use file_sharing_example.FileGet.Connections.{Connection, find_connection}
use file_sharing_example.FileGet.Behaviour.{
  FileGet, Action, done, push_action, try_send_request, dial_and_keep,
}
use file_sharing_example.FileGet.Swarm.{
  ConnectedPoint, FromSwarm, connection_established, connection_closed, address_change,
  dial_failure, report, drop_connection, send_pending, flush_pending, on_connection_established,
  on_connection_closed, on_address_change, fail_pending, one_dial_failure, on_swarm_event,
}
use file_sharing_example.FileGet.Reports.{assert_then, with_connection}

-- The new queue is the old one with more behind it.
pub record Appends (old new : List Action) : Type 0 where
  pub added : List Action
  pub grown : new ≡ old ++ added

pub same : (old : List Action) → Appends old old
same old = record { added = []; grown = sym (append-nil old) }

pub Appends-trans : {a b c : List Action} → Appends a b → Appends b c → Appends a c
Appends-trans {a} p q = record {
  added = p.added ++ q.added;
  grown = q.grown ∙ rw p.grown (append_assoc a p.added q.added);
}

pub pushed : (old : List Action) (a : Action) → Appends old (old ++ a ∷ [])
pushed old a = record { added = a ∷ []; grown = refl }

pub try_send_request-Appends :
    (fg : FileGet) (p : PeerId) (req : FileGetOutboundProtocol)
    → Appends fg.pending_events (try_send_request fg p req).0.pending_events
unfolding try_send_request
try_send_request-Appends fg p req = elim (Option-cases (lookup p fg.connected)) [
  | inl e ↦ rw (e, try_send_request) (same fg.pending_events)
  | inr ([], e) ↦ rw (e, try_send_request) (same fg.pending_events)
  | inr (c ∷ cs, e) ↦ rw (e, try_send_request) (pushed _ _)
]

pub dial_and_keep-Appends :
    (old : List Action) (p : PeerId) (tried : FileGet × Option FileGetOutboundProtocol)
    → Appends old tried.0.pending_events
    → Appends old (dial_and_keep p tried).pending_events
unfolding dial_and_keep
dial_and_keep-Appends old p (fg, none) h = h
dial_and_keep-Appends old p (fg, some req) h = Appends-trans h (pushed fg.pending_events _)

pub send_pending-Appends :
    (p : PeerId) (reqs : List FileGetOutboundProtocol) (fg : FileGet)
    → Appends fg.pending_events (send_pending fg p reqs).pending_events
unfolding send_pending
send_pending-Appends p [] fg = same fg.pending_events
send_pending-Appends p (req ∷ reqs) fg =
    Appends-trans (try_send_request-Appends fg p req)
      (send_pending-Appends p reqs (try_send_request fg p req).0)

flush_pending-Appends :
    (fg : FileGet) (p : PeerId) → Appends fg.pending_events (flush_pending fg p).pending_events
unfolding flush_pending
flush_pending-Appends fg p = elim (Option-cases (lookup p fg.pending_outbound_requests)) [
  | inl e ↦ rw (e, flush_pending) (same fg.pending_events)
  | inr (reqs, e) ↦ rw (e, flush_pending) (send_pending-Appends p reqs _)
]

report-Appends :
    (event : RequestId → FileGetEvent) (ids : List RequestId) (fg : FileGet)
    → Appends fg.pending_events (report event ids fg).pending_events
unfolding report
report-Appends event [] fg = same fg.pending_events
report-Appends event (id ∷ ids) fg =
    Appends-trans (pushed fg.pending_events _) (report-Appends event ids (push_action _ fg))

fail_pending-Appends :
    (p : PeerId) (reqs : List FileGetOutboundProtocol) (fg : FileGet)
    → Appends fg.pending_events (fail_pending fg p reqs).pending_events
unfolding fail_pending
fail_pending-Appends p [] fg = same fg.pending_events
fail_pending-Appends p (req ∷ reqs) fg =
    Appends-trans (pushed fg.pending_events _) (fail_pending-Appends p reqs (push_action _ fg))

drop_connection-Appends :
    (fg : FileGet) (p : PeerId) (c : Connection) (rest : List Connection)
    → Appends fg.pending_events (drop_connection fg p c rest).pending_events
unfolding drop_connection
drop_connection-Appends fg p c rest =
    Appends-trans (report-Appends _ c.pending_outbound_responses _)
      (report-Appends _ c.pending_inbound_responses _)

pub returned :
    (old : List Action) {fg fg' : FileGet}
    → done fg ≡ done fg'
    → Appends old fg.pending_events
    → Appends old fg'.pending_events
returned old {fg} {fg'} e h =
    let eq : fg ≡ fg' = cc in subst (λ q. Appends old q.pending_events) eq h

on_connection_closed-Appends :
    (fg : FileGet) (p : PeerId) (conn : ConnectionId) {fg' : FileGet}
    → on_connection_closed fg p conn ≡ done fg'
    → Appends fg.pending_events fg'.pending_events
unfolding on_connection_closed
on_connection_closed-Appends fg p conn e = elim (Option-cases (lookup p fg.connected)) [
  | inl missing ↦ cc (rw (missing, on_connection_closed) at e)
  | inr (conns, at) ↦ elim (Option-cases (find_connection conn conns)) [
    | inl missing ↦ cc (rw (at, on_connection_closed, missing) at e)
    | inr (c, found) ↦
        returned fg.pending_events (rw (at, on_connection_closed, found) at e)
          (drop_connection-Appends fg p c _)
  ]
]

on_address_change-queue :
    (fg : FileGet) (p : PeerId) (conn : ConnectionId) (new : ConnectedPoint) {fg' : FileGet}
    → on_address_change fg p conn new ≡ done fg'
    → fg'.pending_events ≡ fg.pending_events
unfolding on_address_change
on_address_change-queue fg p conn new e = ground arith

on_connection_established-Appends :
    (fg : FileGet) (p : PeerId) (conn : ConnectionId) (endpoint : ConnectedPoint) (others : ℕ)
    → Appends fg.pending_events (on_connection_established fg p conn endpoint others).pending_events
unfolding on_connection_established
on_connection_established-Appends fg p conn endpoint others = elim (Bool-cases (others == 0)) [
  | inl first ↦ rw first (flush_pending-Appends _ p)
  | inr later ↦ rw later (same fg.pending_events)
]

one_dial_failure-Appends :
    (fg : FileGet) (failed : Option PeerId)
    → Appends fg.pending_events (one_dial_failure fg failed).pending_events
unfolding one_dial_failure
one_dial_failure-Appends fg none = same fg.pending_events
one_dial_failure-Appends fg (some p) = elim (Option-cases (lookup p fg.pending_outbound_requests)) [
  | inl e ↦ rw (e, one_dial_failure) (same fg.pending_events)
  | inr (reqs, e) ↦ rw (e, one_dial_failure) (fail_pending-Appends p reqs _)
]

pub on_swarm_event-Appends :
    (fg : FileGet) (event : FromSwarm) {fg' : FileGet}
    → on_swarm_event fg event ≡ done fg'
    → Appends fg.pending_events fg'.pending_events
unfolding on_swarm_event
on_swarm_event-Appends fg (connection_established p conn endpoint others) e =
    returned fg.pending_events e (on_connection_established-Appends fg p conn endpoint others)
on_swarm_event-Appends fg (connection_closed p conn) e = on_connection_closed-Appends fg p conn e
on_swarm_event-Appends fg (address_change p conn new) e =
    rw (on_address_change-queue fg p conn new e) (same fg.pending_events)
on_swarm_event-Appends fg (dial_failure p) e =
    returned fg.pending_events e (one_dial_failure-Appends fg p)
on_swarm_event-Appends fg _ e = returned fg.pending_events e (same fg.pending_events)

pub with_connection-queue :
    (fg : FileGet) (p : PeerId) (conn : ConnectionId) (f : Connection → Connection)
    → (with_connection fg p conn f).pending_events ≡ fg.pending_events
unfolding with_connection
with_connection-queue fg p conn f = ground arith

pub assert_then-Appends :
    (debug removed : Bool) (fg : FileGet) (event : FileGetEvent) {fg' : FileGet}
    → assert_then debug (fg, removed) event ≡ done fg'
    → Appends fg.pending_events fg'.pending_events
unfolding assert_then
assert_then-Appends true false fg event e = cc
assert_then-Appends true true fg event e = returned fg.pending_events e (pushed fg.pending_events _)
assert_then-Appends false removed fg event e =
    returned fg.pending_events e (pushed fg.pending_events _)
