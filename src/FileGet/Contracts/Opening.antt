-- ===== src/FileGet/Contracts/Opening.antt =====
-- The first connection to a peer, and the requests that waited for it.
use file_sharing_example.Common.{
  ◌≡◌, refl, sym, ◌∙◌, Bool, ◌||◌, some, List, [], ◌∷◌, ◌++◌, map, any, ◌%◌, ◌==◌, nat_eq, lookup,
  remove, contains, lookup-insert, contains-set_insert, arith, Option-cases, inl, inr,
}
use mathlib.Core.List.{append-nil, append_assoc}
use file_sharing_example.FileGet.Types.{PeerId, ConnectionId, RequestId, usize_mod}
use file_sharing_example.FileGet.Protocol.{FileGetOutboundProtocol}
use file_sharing_example.FileGet.Connections.{Connection, new_connection, await_response}
use file_sharing_example.FileGet.Connections.Laws.{awaits}
use file_sharing_example.FileGet.Behaviour.{
  FileGet, notify_handler, entry, push_entry, try_send_request,
}
use file_sharing_example.FileGet.Behaviour.Entries.{entry-remove, entry_of_none, entry_of_some}
use file_sharing_example.FileGet.Swarm.{
  ConnectedPoint, dialed_address, send_pending, flush_pending, on_connection_established,
}
use file_sharing_example.FileGet.Tracking.{awaiting}

-- The only connection `c` of the peer after a request went over it.
try_send_request_single :
    (fg : FileGet) (p : PeerId) (req : FileGetOutboundProtocol) (c : Connection)
    → lookup p fg.connected ≡ some (c ∷ [])
    → let fg' = (try_send_request fg p req).0 in
      (lookup p fg'.connected ≡ some (await_response req.request_id c ∷ []))
      × (fg'.pending_events ≡ fg.pending_events ++ notify_handler p c.id req ∷ [])
      × (fg'.pending_outbound_requests ≡ fg.pending_outbound_requests)
unfolding try_send_request
try_send_request_single fg p req c e =
    let at : req.request_id % usize_mod % 1 ≡ 0 = omega arith in
    rw (e, try_send_request, at)
      (ground (arith, lookup-insert p p (await_response req.request_id c ∷ []) fg.connected))

abbrev waits_for : RequestId → List FileGetOutboundProtocol → Bool
waits_for id reqs = any (λ r. r.request_id == id) reqs

record Sent (fg fg' : FileGet) (p : PeerId) (conn : ConnectionId) (held : RequestId → Bool)
    (reqs : List FileGetOutboundProtocol) : Type 0 where
  queue : fg'.pending_events ≡ fg.pending_events ++ map (notify_handler p conn) reqs
  waits : fg'.pending_outbound_requests ≡ fg.pending_outbound_requests
  books : (id : RequestId) → awaiting fg' p id ≡ (waits_for id reqs || held id)

send_pending_single :
    (reqs : List FileGetOutboundProtocol) (fg : FileGet) (p : PeerId) (c : Connection)
    → lookup p fg.connected ≡ some (c ∷ [])
    → Sent fg (send_pending fg p reqs) p c.id (contains c.pending_inbound_responses) reqs
unfolding send_pending any awaiting awaits await_response
send_pending_single [] fg p c e = record {
  queue = sym (append-nil _);
  waits = refl;
  books = λ id. ground (arith, entry_of_some p fg.connected e);
}
send_pending_single (req ∷ reqs) fg p c e =
    let fg' = (try_send_request fg p req).0 in
    let (at, queued, same) = try_send_request_single fg p req c e in
    let rest = send_pending_single reqs fg' p (await_response req.request_id c) at in
    record {
      queue =
          rest.queue
          ∙ rw queued (
              append_assoc fg.pending_events (notify_handler p c.id req ∷ [])
                (map (notify_handler p c.id) reqs));
      waits = rest.waits ∙ same;
      books = λ id.
          ground (
            arith,
            rest.books id,
            contains-set_insert req.request_id id c.pending_inbound_responses,
          );
    }

flush_pending_single :
    (fg : FileGet) (p : PeerId) (c : Connection)
    → lookup p fg.connected ≡ some (c ∷ [])
    → let reqs = entry p fg.pending_outbound_requests in
      let fg' = flush_pending fg p in
      (fg'.pending_events ≡ fg.pending_events ++ map (notify_handler p c.id) reqs)
      × (entry p fg'.pending_outbound_requests ≡ [])
      × ((id : RequestId)
          → awaiting fg' p id ≡ (waits_for id reqs || contains c.pending_inbound_responses id))
unfolding flush_pending any awaiting awaits
flush_pending_single fg p c e = elim (Option-cases (lookup p fg.pending_outbound_requests)) [
  | inl missing ↦
      rw (entry_of_none p fg.pending_outbound_requests missing, missing, flush_pending)
        (
          sym (append-nil fg.pending_events),
          entry_of_none p fg.pending_outbound_requests missing,
          λ id. ground (arith, entry_of_some p fg.connected e),
        )
  | inr (reqs, found) ↦
      let fg1 = record fg { pending_outbound_requests = remove p fg.pending_outbound_requests } in
      let done = send_pending_single reqs fg1 p c e in
      rw (entry_of_some p fg.pending_outbound_requests found, found, flush_pending)
        (
          done.queue,
          rw done.waits (ground (arith, entry-remove p p fg.pending_outbound_requests)),
          done.books,
        )
]

-- When the first connection to a peer is established, the requests that waited for the peer, and no
-- others, are handed to that connection in the order in which they were made, none of them waits any
-- longer, and the responses that the connection waits for are exactly theirs.
pub first_connection_sends_all :
    (fg : FileGet) (p : PeerId) (conn : ConnectionId) (endpoint : ConnectedPoint)
    → entry p fg.connected ≡ []
    → let reqs = entry p fg.pending_outbound_requests in
      let fg' = on_connection_established fg p conn endpoint 0 in
      (fg'.pending_events ≡ fg.pending_events ++ map (notify_handler p conn) reqs)
      × (entry p fg'.pending_outbound_requests ≡ [])
      × ((id : RequestId) → awaiting fg' p id ≡ any (λ r. r.request_id == id) reqs)
unfolding on_connection_established new_connection contains
first_connection_sends_all fg p conn endpoint e =
    let c = new_connection conn (dialed_address endpoint) in
    let fg1 = record fg { connected = push_entry p c fg.connected } in
    let at : lookup p fg1.connected ≡ some (c ∷ []) =
      ground (arith, lookup-insert p p (entry p fg.connected ++ c ∷ []) fg.connected, e) in
    let (queue, waits, books) = flush_pending_single fg1 p c at in
    (queue, waits, λ id. ground (arith, books id))
