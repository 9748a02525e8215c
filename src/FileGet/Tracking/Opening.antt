-- ===== src/FileGet/Tracking/Opening.antt =====
-- A new connection, and the requests that waited for it.
use file_sharing_example.Common.{
  ℕ, ◌≡◌, ◌≢◌, subst, ◌⊎◌, ◌==◌, nat_eq, inl, inr, true, some, List, [], ◌∷◌, ◌++◌, ◌%◌, length,
  modify, any, any-append, lookup, remove, contains, arith, Bool-cases, Option-cases,
}
use file_sharing_example.FileGet.Types.{PeerId, ConnectionId, RequestId, usize_mod}
use file_sharing_example.FileGet.Protocol.{FileGetOutboundProtocol}
use file_sharing_example.FileGet.Connections.{Connection, await_response, new_connection}
use file_sharing_example.FileGet.Connections.Laws.{awaits}
use file_sharing_example.FileGet.Behaviour.{FileGet, entry, push_entry, send_over, try_send_request}
use file_sharing_example.FileGet.Behaviour.Entries.{
  entry-insert, entry-remove, entry-push_entry, entry_of_some, try_send_request_cases,
}
use file_sharing_example.FileGet.Swarm.{
  ConnectedPoint, dialed_address, send_pending, flush_pending, on_connection_established,
}
use file_sharing_example.FileGet.Tracking.{awaiting, accounted}
use file_sharing_example.FileGet.Tracking.Sending.{
  try_send_request-accounted, try_send_request-awaiting,
}

modify-ne-nil :
    (c : Connection) (cs : List Connection) (i : ℕ) (f : Connection → Connection)
    → modify (c ∷ cs) i f ≢ []
modify-ne-nil c cs ℕ.zero f e = cc
modify-ne-nil c cs (ℕ.suc i) f e = cc

-- A peer with a connection still has one after a request was sent.
pub try_send_request_connected :
    (fg : FileGet) (p : PeerId) (req : FileGetOutboundProtocol)
    → entry p fg.connected ≢ []
    → entry p (try_send_request fg p req).0.connected ≢ []
unfolding send_over
try_send_request_connected fg p req h = elim (try_send_request_cases fg p req) [
  | inl (empty, _) ↦ absurd (h empty)
  | inr (c, cs, _, e) ↦
      let at = req.request_id % usize_mod % length (c ∷ cs) in
      let f = await_response req.request_id in
      rw e (λ empty.
        modify-ne-nil c cs at f
          (ground (arith, entry-insert p p (modify (c ∷ cs) at f) fg.connected, empty)))
]

awaiting-accounted :
    (fg : FileGet) (p : PeerId) (id : RequestId)
    → awaiting fg p id ≡ true
    → accounted fg p id ≡ true
unfolding accounted
awaiting-accounted fg p id h = ground arith

pub send_pending-accounted :
    (fg : FileGet) (peer p : PeerId) (id : RequestId) (reqs : List FileGetOutboundProtocol)
    → accounted fg peer id ≡ true
    → accounted (send_pending fg p reqs) peer id ≡ true
unfolding send_pending
send_pending-accounted fg peer p id [] h = h
send_pending-accounted fg peer p id (req ∷ reqs) h =
    send_pending-accounted (try_send_request fg p req).0 peer p id reqs
      (try_send_request-accounted fg peer p id req h)

-- With a connection to the peer, each of the requests is accounted for once all are sent.
send_pending_sent :
    (fg : FileGet) (p : PeerId) (id : RequestId) (reqs : List FileGetOutboundProtocol)
    → entry p fg.connected ≢ []
    → any (λ r. r.request_id == id) reqs ≡ true
    → accounted (send_pending fg p reqs) p id ≡ true
unfolding any send_pending
send_pending_sent fg p id [] conn h = cc
send_pending_sent fg p id (req ∷ reqs) conn h = elim (Bool-cases (req.request_id == id)) [
  | inl hit ↦
      let same : req.request_id ≡ id = ground arith in
      let fg' = (try_send_request fg p req).0 in
      send_pending-accounted fg' p p id reqs (
        awaiting-accounted fg' p id
          (subst (λ k. awaiting fg' p k ≡ true) same (try_send_request-awaiting fg p req conn)))
  | inr miss ↦
      send_pending_sent (try_send_request fg p req).0 p id reqs
        (try_send_request_connected fg p req conn) (ground arith)
]

-- `self.pending_outbound_requests.remove(&peer_id)` loses track of the requests that it takes only.
pub taken-accounted :
    (fg : FileGet) (peer p : PeerId) (id : RequestId) (reqs : List FileGetOutboundProtocol)
    → lookup p fg.pending_outbound_requests ≡ some reqs
    → accounted fg peer id ≡ true
    → (accounted
          (record fg { pending_outbound_requests = remove p fg.pending_outbound_requests })
          peer
          id
        ≡ true)
      ⊎ ((p ≡ peer) × (any (λ r. r.request_id == id) reqs ≡ true))
unfolding any accounted
taken-accounted fg peer p id reqs e h = elim (Bool-cases (p == peer)) [
  | inl hit ↦ elim (Bool-cases (any (λ r. r.request_id == id) reqs)) [
    | inl found ↦ inr (ground arith, found)
    | inr lost ↦
        let same : p ≡ peer = ground arith in
        let at_peer : lookup peer fg.pending_outbound_requests ≡ some reqs =
          subst (λ k. lookup k fg.pending_outbound_requests ≡ some reqs) same e in
        inl (ground (arith, entry_of_some peer fg.pending_outbound_requests at_peer, lost))
  ]
  | inr other ↦ inl (ground (arith, entry-remove p peer fg.pending_outbound_requests))
]

flush_pending-accounted :
    (fg : FileGet) (peer p : PeerId) (id : RequestId)
    → entry p fg.connected ≢ []
    → accounted fg peer id ≡ true
    → accounted (flush_pending fg p) peer id ≡ true
unfolding flush_pending
flush_pending-accounted fg peer p id conn h =
    elim (Option-cases (lookup p fg.pending_outbound_requests)) [
      | inl e ↦ rw (e, flush_pending) h
      | inr (reqs, e) ↦
          let fg' = record fg {
            pending_outbound_requests = remove p fg.pending_outbound_requests;
          } in
          rw (e, flush_pending)
            (elim (taken-accounted fg peer p id reqs e h) [
              | inl kept ↦ send_pending-accounted fg' peer p id reqs kept
              | inr (same, hit) ↦
                  subst (λ k. accounted (send_pending fg' p reqs) k id ≡ true) same
                    (send_pending_sent fg' p id reqs conn hit)
            ])
    ]

pub push_entry-ne-nil :
    (p : PeerId) (c : Connection) (fg : FileGet) → entry p (push_entry p c fg.connected) ≢ []
push_entry-ne-nil p c fg e =
    elim (entry p fg.connected) as (λ l. l ++ c ∷ [] ≡ [] → ⊥) [ [] ↦ λ h. cc | x ∷ xs ↦ λ h. cc ]
      (ground (arith, entry-push_entry p p c fg.connected, e))

pushed-accounted :
    (fg : FileGet) (peer p : PeerId) (id : RequestId) (c : Connection)
    → accounted fg peer id ≡ true
    → accounted (record fg { connected = push_entry p c fg.connected }) peer id ≡ true
unfolding any accounted awaits
pushed-accounted fg peer p id c h = ground (
  arith,
  entry-push_entry p peer c fg.connected,
  any-append (λ (x : Connection). contains x.pending_inbound_responses id) (entry peer fg.connected)
      (c ∷ []),
)

pub on_connection_established-accounted :
    (fg : FileGet) (peer p : PeerId) (id : RequestId) (conn : ConnectionId)
    (endpoint : ConnectedPoint) (others : ℕ)
    → accounted fg peer id ≡ true
    → accounted (on_connection_established fg p conn endpoint others) peer id ≡ true
unfolding on_connection_established
on_connection_established-accounted fg peer p id conn endpoint others h =
    let c = new_connection conn (dialed_address endpoint) in
    let fg' = record fg { connected = push_entry p c fg.connected } in
    ground (
      arith,
      flush_pending-accounted fg' peer p id (push_entry-ne-nil p c fg),
      pushed-accounted fg peer p id c h,
    )
