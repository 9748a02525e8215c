-- ===== src/FileGet/Tracking/Closing.antt =====
-- A closed connection, a changed address and a failed dial.
use file_sharing_example.Common.{
  ◌≡◌, ◌⊎◌, ◌==◌, ◌||◌, nat_eq, Option, refl, inl, inr, true, false, none, some, List, [], ◌∷◌, Map,
  any, any-append, subst, lookup, insert, remove, is_empty, arith, Bool-cases, Option-cases,
  if◌then◌else◌,
}
use file_sharing_example.FileGet.Types.{
  PeerId, ConnectionId, RequestId, OutboundFailure, InboundFailure, FileGetEvent, outbound_failure,
  inbound_failure,
}
use file_sharing_example.FileGet.Protocol.{FileGetOutboundProtocol}
use file_sharing_example.FileGet.Connections.{
  Connection, find_connection, update_connection, remove_connection,
}
use file_sharing_example.FileGet.Connections.Laws.{awaits-update}
use file_sharing_example.FileGet.Behaviour.{
  FileGet, Action, generate_event, done, push_action, entry,
}
use file_sharing_example.FileGet.Behaviour.Entries.{entry-insert, entry-remove, entry_of_some}
use file_sharing_example.FileGet.Swarm.{
  ConnectedPoint, dialed_address, report, drop_connection, on_connection_closed, on_address_change,
  fail_pending, one_dial_failure,
}
use file_sharing_example.FileGet.Tracking.{accounted, concludes}
use file_sharing_example.FileGet.Tracking.Opening.{taken-accounted}

pub push_action-accounted :
    (fg : FileGet) (a : Action) (peer : PeerId) (id : RequestId)
    → accounted (push_action a fg) peer id ≡ (concludes peer id a || accounted fg peer id)
unfolding accounted push_action
push_action-accounted fg a peer id =
    ground (arith, any-append (concludes peer id) fg.pending_events (a ∷ []))

-- `report` loses track of nothing.
report-accounted :
    (event : RequestId → FileGetEvent) (ids : List RequestId) (fg : FileGet) (peer : PeerId)
    (id : RequestId)
    → accounted fg peer id ≡ true
    → accounted (report event ids fg) peer id ≡ true
unfolding report
report-accounted event [] fg peer id h = h
report-accounted event (i ∷ ids) fg peer id h =
    report-accounted event ids (push_action (generate_event (event i)) fg) peer id
      (ground (arith, push_action-accounted fg (generate_event (event i)) peer id))

-- A peer whose last connection closes has no entry, which reads as the empty list.
entry-left :
    (p j : PeerId) (rest : List Connection) (m : Map PeerId (List Connection))
    → entry j (if is_empty rest then remove p m else insert p rest m)
      ≡ (if p == j then rest else entry j m)
entry-left p j [] m = entry-remove p j m
entry-left p j (c ∷ cs) m = entry-insert p j (c ∷ cs) m

left-accounted :
    (fg : FileGet) (peer p : PeerId) (id : RequestId) (rest : List Connection)
    → (p == peer) ≡ false
    → accounted fg peer id ≡ true
    → accounted
        (record fg {
          connected = if is_empty rest then remove p fg.connected else insert p rest fg.connected;
        })
        peer
        id
      ≡ true
unfolding accounted
left-accounted fg peer p id rest other h = ground (arith, entry-left p peer rest fg.connected)

-- The close of a connection to another peer.
drop_connection-accounted :
    (fg : FileGet) (peer p : PeerId) (id : RequestId) (c : Connection) (rest : List Connection)
    → (p == peer) ≡ false
    → accounted fg peer id ≡ true
    → accounted (drop_connection fg p c rest) peer id ≡ true
unfolding drop_connection
drop_connection-accounted fg peer p id c rest other h =
    let connected = if is_empty rest then remove p fg.connected else insert p rest fg.connected in
    report-accounted (λ i. inbound_failure p i InboundFailure.connection_closed)
      c.pending_inbound_responses _ peer id
      (report-accounted (λ i. outbound_failure p i OutboundFailure.connection_closed)
        c.pending_outbound_responses (record fg { connected = connected }) peer id
        (left-accounted fg peer p id rest other h))

-- `on_connection_closed` loses track of no request to another peer.
pub on_connection_closed-accounted :
    (fg : FileGet) (peer p : PeerId) (id : RequestId) (conn : ConnectionId) {fg' : FileGet}
    → (p == peer) ≡ false
    → on_connection_closed fg p conn ≡ done fg'
    → accounted fg peer id ≡ true
    → accounted fg' peer id ≡ true
unfolding on_connection_closed
on_connection_closed-accounted fg peer p id conn {fg'} other e h =
    elim (Option-cases (lookup p fg.connected)) [
      | inl missing ↦ ground arith
      | inr (conns, at) ↦ elim (Option-cases (find_connection conn conns)) [
        | inl missing ↦ ground arith
        | inr (c, found) ↦
            ground (
              arith,
              drop_connection-accounted fg peer p id c (remove_connection conn conns) other h,
            )
      ]
    ]

-- A write to one connection that leaves the set of awaited responses alone.
pub written-accounted :
    (fg : FileGet) (peer p : PeerId) (id : RequestId) (conn : ConnectionId)
    (f : Connection → Connection) (conns : List Connection)
    → ((c : Connection) → (f c).pending_inbound_responses ≡ c.pending_inbound_responses)
    → lookup p fg.connected ≡ some conns
    → accounted
        (record fg { connected = insert p (update_connection conn f conns) fg.connected })
        peer
        id
      ≡ accounted fg peer id
unfolding accounted
written-accounted fg peer p id conn f conns same at = elim (Bool-cases (p == peer)) [
  | inl hit ↦
      let eq : p ≡ peer = ground arith in
      ground (
        arith,
        entry_of_some peer fg.connected (subst (λ k. lookup k fg.connected ≡ some conns) eq at),
        awaits-update id conn f conns same,
        entry-insert p peer (update_connection conn f conns) fg.connected,
      )
  | inr other ↦ ground (arith, entry-insert p peer (update_connection conn f conns) fg.connected)
]

pub on_address_change-accounted :
    (fg : FileGet) (peer p : PeerId) (id : RequestId) (conn : ConnectionId) (new : ConnectedPoint)
    {fg' : FileGet}
    → on_address_change fg p conn new ≡ done fg'
    → accounted fg' peer id ≡ accounted fg peer id
unfolding on_address_change
on_address_change-accounted fg peer p id conn new e = elim (Option-cases (lookup p fg.connected)) [
  | inl missing ↦ ground arith
  | inr (conns, at) ↦
      let f = λ (c : Connection). record c { address = dialed_address new } in
      ground (arith, written-accounted fg peer p id conn f conns (λ c. refl) at)
]

fail_pending-accounted :
    (p : PeerId) (reqs : List FileGetOutboundProtocol) (fg : FileGet) (peer : PeerId)
    (id : RequestId)
    → (accounted fg peer id ≡ true) ⊎ ((p ≡ peer) × (any (λ r. r.request_id == id) reqs ≡ true))
    → accounted (fail_pending fg p reqs) peer id ≡ true
unfolding fail_pending any
fail_pending-accounted p [] fg peer id (inl h) = h
fail_pending-accounted p [] fg peer id (inr h) = cc
fail_pending-accounted p (req ∷ reqs) fg peer id h =
    let a = generate_event (outbound_failure p req.request_id OutboundFailure.dial_failure) in
    fail_pending-accounted p reqs (push_action a fg) peer id
      (elim (Bool-cases (accounted (push_action a fg) peer id)) [
        | inl kept ↦ inl kept
        | inr lost ↦ inr (ground (arith, push_action-accounted fg a peer id))
      ])

pub one_dial_failure-accounted :
    (fg : FileGet) (peer : PeerId) (failed : Option PeerId) (id : RequestId)
    → accounted fg peer id ≡ true
    → accounted (one_dial_failure fg failed) peer id ≡ true
unfolding one_dial_failure
one_dial_failure-accounted fg peer none id h = h
one_dial_failure-accounted fg peer (some p) id h =
    elim (Option-cases (lookup p fg.pending_outbound_requests)) [
      | inl e ↦ rw (e, one_dial_failure) h
      | inr (reqs, e) ↦
          rw (e, one_dial_failure)
            (fail_pending-accounted p reqs _ peer id (taken-accounted fg peer p id reqs e h))
    ]
