-- ===== src/FileGet/Contracts/Closing.antt =====
-- What a closed connection and a failed dial tell the application.
use file_sharing_example.Common.{
  ◌≡◌, ◌≢◌, Map, refl, sym, ◌∙◌, Bool, true, false, ◌&&◌, some, List, [], ◌∷◌, ◌++◌, map, any,
  any-append, ◌==◌, nat_eq, lookup, insert, remove, contains, is_empty, arith, Option-cases, inl,
  inr, if◌then◌else◌,
}
use mathlib.Core.List.{append-nil, append_assoc}
use file_sharing_example.FileGet.Types.{
  PeerId, ConnectionId, RequestId, OutboundFailure, InboundFailure, FileGetEvent, outbound_failure,
  inbound_failure,
}
use file_sharing_example.FileGet.Protocol.{FileGetOutboundProtocol}
use file_sharing_example.FileGet.Connections.{Connection, find_connection, remove_connection}
use file_sharing_example.FileGet.Connections.Laws.{find_connection-split}
use file_sharing_example.FileGet.Behaviour.{
  FileGet, Action, generate_event, done, push_action, entry,
}
use file_sharing_example.FileGet.Behaviour.Entries.{
  entry-insert, entry-remove, entry_of_none, entry_of_some,
}
use file_sharing_example.FileGet.Swarm.{
  report, drop_connection, on_connection_closed, fail_pending, one_dial_failure,
}

-- `fg'` is `fg` with more actions queued.
pub record Queued (fg fg' : FileGet) (actions : List Action) : Type 0 where
  pub queue : fg'.pending_events ≡ fg.pending_events ++ actions
  pub books : fg'.connected ≡ fg.connected
  pub waits : fg'.pending_outbound_requests ≡ fg.pending_outbound_requests

report-Queued :
    (event : RequestId → FileGetEvent) (ids : List RequestId) (fg : FileGet)
    → Queued fg (report event ids fg) (map (λ id. generate_event (event id)) ids)
unfolding report
report-Queued event [] fg = record {
  queue = sym (append-nil fg.pending_events);
  books = refl;
  waits = refl;
}
report-Queued event (id ∷ ids) fg =
    let q = report-Queued event ids (push_action (generate_event (event id)) fg) in
    record {
      queue =
          q.queue
          ∙ append_assoc fg.pending_events (generate_event (event id) ∷ [])
              (map (λ i. generate_event (event i)) ids);
      books = q.books;
      waits = q.waits;
    }

abbrev pub tell_outbound : PeerId → RequestId → Action
tell_outbound p id = generate_event (outbound_failure p id OutboundFailure.connection_closed)

abbrev pub tell_dial : PeerId → FileGetOutboundProtocol → Action
tell_dial p req = generate_event (outbound_failure p req.request_id OutboundFailure.dial_failure)

abbrev pub tell_inbound : PeerId → RequestId → Action
tell_inbound p id = generate_event (inbound_failure p id InboundFailure.connection_closed)

known_lookup :
    (fg : FileGet) (p : PeerId) (conn : ConnectionId) (c : Connection)
    → find_connection conn (entry p fg.connected) ≡ some c
    → lookup p fg.connected ≡ some (entry p fg.connected)
unfolding entry find_connection
known_lookup fg p conn c found = ground arith

-- The entries after the connections of `p` are replaced, where the empty list removes the entry.
entry-left :
    (p j : PeerId) (rest : List Connection) (m : Map PeerId (List Connection))
    → entry j (if is_empty rest then remove p m else insert p rest m)
      ≡ (if p == j then rest else entry j m)
entry-left p j [] m = entry-remove p j m
entry-left p j (c ∷ cs) m = entry-insert p j (c ∷ cs) m

-- `fg'` is `fg` where the peer has the connections `rest`, and with more actions queued.
record Left (fg fg' : FileGet) (p : PeerId) (rest : List Connection) (actions : List Action)
    : Type 0 where
  queue : fg'.pending_events ≡ fg.pending_events ++ actions
  books : (q : PeerId) → entry q fg'.connected ≡ (if p == q then rest else entry q fg.connected)
  waits : fg'.pending_outbound_requests ≡ fg.pending_outbound_requests

abbrev closed_actions : PeerId → Connection → List Action
closed_actions p c =
    map (tell_outbound p) c.pending_outbound_responses
    ++ map (tell_inbound p) c.pending_inbound_responses

drop_connection-Left :
    (fg : FileGet) (p : PeerId) (c : Connection) (rest : List Connection)
    → Left fg (drop_connection fg p c rest) p rest (closed_actions p c)
unfolding drop_connection
drop_connection-Left fg p c rest =
    let connected = if is_empty rest then remove p fg.connected else insert p rest fg.connected in
    let fg1 = record fg { connected = connected } in
    let event1 = λ (id : RequestId). outbound_failure p id OutboundFailure.connection_closed in
    let event2 = λ (id : RequestId). inbound_failure p id InboundFailure.connection_closed in
    let q1 = report-Queued event1 c.pending_outbound_responses fg1 in
    let fg2 = report event1 c.pending_outbound_responses fg1 in
    let q2 = report-Queued event2 c.pending_inbound_responses fg2 in
    record {
      queue =
          q2.queue
          ∙ rw q1.queue (
              append_assoc fg.pending_events (map (tell_outbound p) c.pending_outbound_responses)
                (map (tell_inbound p) c.pending_inbound_responses));
      books = λ q. rw (q2.books, q1.books) (entry-left p q rest fg.connected);
      waits = q2.waits ∙ q1.waits;
    }

closed-Left :
    (fg : FileGet) (p : PeerId) (conn : ConnectionId) (c : Connection)
    → find_connection conn (entry p fg.connected) ≡ some c
    → (fg' : FileGet) × (on_connection_closed fg p conn ≡ done fg')
      × Left fg fg' p (remove_connection conn (entry p fg.connected)) (closed_actions p c)
unfolding on_connection_closed
closed-Left fg p conn c found =
    let rest = remove_connection conn (entry p fg.connected) in
    (
      drop_connection fg p c rest,
      ground (arith, known_lookup fg p conn c found),
      drop_connection-Left fg p c rest,
    )

-- What `on_connection_closed` does when a connection closes that stands between others of its peer,
-- none of those before it with its number: the call returns, the peer has the connections before and
-- after it, in order, every other peer has its connections, the requests that wait for a connection
-- still wait, and the queue gains one failure for each request on the connection, and nothing else:
-- an outbound failure for each response that was owed, then an inbound failure for each response that
-- was awaited. These kinds are what the code does and not what it means: the documents of the two
-- failures, in file-get/src/lib.rs, give each to the other set.
pub on_connection_closed_known :
    (fg : FileGet) (p : PeerId) (conn : ConnectionId) (c : Connection)
    (before behind : List Connection)
    → entry p fg.connected ≡ before ++ c ∷ behind
    → any (λ (d : Connection). d.id == conn) before ≡ false
    → c.id ≡ conn
    → (fg' : FileGet) × (on_connection_closed fg p conn ≡ done fg')
      × (entry p fg'.connected ≡ before ++ behind)
      × ((q : PeerId) → q ≢ p → entry q fg'.connected ≡ entry q fg.connected)
      × (fg'.pending_outbound_requests ≡ fg.pending_outbound_requests)
      × (fg'.pending_events
          ≡ fg.pending_events
            ++ (map (tell_outbound p) c.pending_outbound_responses
                ++ map (tell_inbound p) c.pending_inbound_responses))
on_connection_closed_known fg p conn c before behind conns fresh own =
    let (found, left) = find_connection-split conn c before behind fresh own in
    let (fg', returns, after) = closed-Left fg p conn c (rw conns found) in
    (
      fg',
      returns,
      ground (arith, after.books p),
      λ q other. ground (arith, after.books q),
      after.waits,
      after.queue,
    )

-- The action is the outbound failure, or the inbound failure, of a closed connection.
abbrev pub is_outbound_closed : PeerId → RequestId → Action → Bool
is_outbound_closed p id (generate_event (outbound_failure q i OutboundFailure.connection_closed)) =
    q == p && i == id
is_outbound_closed p id _ = false

abbrev pub is_inbound_closed : PeerId → RequestId → Action → Bool
is_inbound_closed p id (generate_event (inbound_failure q i InboundFailure.connection_closed)) =
    q == p && i == id
is_inbound_closed p id _ = false

told_inbound :
    (p : PeerId) (id : RequestId) (ids : List RequestId)
    → (any (is_inbound_closed p id) (map (tell_inbound p) ids) ≡ contains ids id)
      × (any (is_outbound_closed p id) (map (tell_inbound p) ids) ≡ false)
unfolding any contains
told_inbound p id [] = (refl, refl)
told_inbound p id (i ∷ ids) = ground (arith, told_inbound p id ids)

told_outbound :
    (p : PeerId) (id : RequestId) (ids : List RequestId)
    → any (is_outbound_closed p id) (map (tell_outbound p) ids) ≡ contains ids id
unfolding any contains
told_outbound p id [] = refl
told_outbound p id (i ∷ ids) = ground (arith, told_outbound p id ids)

-- The two sets are swapped: when a connection closes that waits for the response to a request of
-- this peer's, and owes no response under the same number, then the application is told of an
-- inbound failure, and of no outbound failure beyond those that were queued before.
pub closing_misreports :
    (fg : FileGet) (p : PeerId) (conn : ConnectionId) (c : Connection) (id : RequestId)
    {fg' : FileGet}
    → find_connection conn (entry p fg.connected) ≡ some c
    → contains c.pending_inbound_responses id ≡ true
    → contains c.pending_outbound_responses id ≡ false
    → on_connection_closed fg p conn ≡ done fg'
    → (any (is_inbound_closed p id) fg'.pending_events ≡ true)
      × (any (is_outbound_closed p id) fg'.pending_events
          ≡ any (is_outbound_closed p id) fg.pending_events)
closing_misreports fg p conn c id {fg'} found awaited free e =
    let (next, called, left) = closed-Left fg p conn c found in
    let same : next ≡ fg' = ground arith in
    let outs = map (tell_outbound p) c.pending_outbound_responses in
    let ins = map (tell_inbound p) c.pending_inbound_responses in
    rw (← same, left.queue)
      (ground (
        arith,
        any-append (is_inbound_closed p id) fg.pending_events (outs ++ ins),
        any-append (is_inbound_closed p id) outs ins,
        any-append (is_outbound_closed p id) fg.pending_events (outs ++ ins),
        any-append (is_outbound_closed p id) outs ins,
        told_inbound p id c.pending_inbound_responses,
        told_outbound p id c.pending_outbound_responses,
      ))

pub fail_pending-Queued :
    (p : PeerId) (reqs : List FileGetOutboundProtocol) (fg : FileGet)
    → Queued fg (fail_pending fg p reqs) (map (tell_dial p) reqs)
unfolding fail_pending
fail_pending-Queued p [] fg = record {
  queue = sym (append-nil fg.pending_events);
  books = refl;
  waits = refl;
}
fail_pending-Queued p (req ∷ reqs) fg =
    let q = fail_pending-Queued p reqs (push_action (tell_dial p req) fg) in
    record {
      queue =
          q.queue ∙ append_assoc fg.pending_events (tell_dial p req ∷ []) (map (tell_dial p) reqs);
      books = q.books;
      waits = q.waits;
    }

-- When a dial to a known peer fails, each request that waited for the peer is reported, in order,
-- as a dial failure, and nothing else is; none of them waits any longer, and the connections stay.
pub one_dial_failure_lem :
    (fg : FileGet) (p : PeerId)
    → let fg' = one_dial_failure fg (some p) in
      (fg'.pending_events
        ≡ fg.pending_events ++ map (tell_dial p) (entry p fg.pending_outbound_requests))
      × (entry p fg'.pending_outbound_requests ≡ [])
      × (fg'.connected ≡ fg.connected)
unfolding one_dial_failure
one_dial_failure_lem fg p = elim (Option-cases (lookup p fg.pending_outbound_requests)) [
  | inl missing ↦
      rw (entry_of_none p fg.pending_outbound_requests missing, missing, one_dial_failure)
        (
          sym (append-nil fg.pending_events),
          entry_of_none p fg.pending_outbound_requests missing,
          refl,
        )
  | inr (reqs, found) ↦
      let fg1 = record fg { pending_outbound_requests = remove p fg.pending_outbound_requests } in
      let q = fail_pending-Queued p reqs fg1 in
      rw (entry_of_some p fg.pending_outbound_requests found, found, one_dial_failure)
        (
          q.queue,
          rw q.waits (ground (arith, entry-remove p p fg.pending_outbound_requests)),
          q.books,
        )
]
