-- ===== src/FileGet/Tracking/Handing.antt =====
-- A request that waits goes on waiting, or is handed to a connection, or its failure is told: for the
-- behaviour of file-get/src/lib.rs.
use file_sharing_example.Common.{
  ◌≡◌, ◌≢◌, ◌⊎◌, refl, ◌∙◌, subst, Bool, true, false, ◌&&◌, ◌||◌, some, List, [], ◌∷◌, ◌%◌, length,
  get_or, any, any-append, ◌==◌, nat_eq, lookup, remove, arith, Bool-cases, Option-cases, inl, inr,
}
use file_sharing_example.FileGet.Types.{PeerId, RequestId, usize_mod}
use file_sharing_example.FileGet.Protocol.{FileGetOutboundProtocol}
use file_sharing_example.FileGet.Connections.{Connection}
use file_sharing_example.FileGet.Behaviour.{
  FileGet, Action, notify_handler, entry, send_over, try_send_request,
}
use file_sharing_example.FileGet.Behaviour.Entries.{
  entry-remove, entry_of_some, try_send_request_cases,
}
use file_sharing_example.FileGet.Swarm.{send_pending, flush_pending}
use file_sharing_example.FileGet.Contracts.Queue.{Appends, send_pending-Appends}
use file_sharing_example.FileGet.Tracking.{waiting, concludes}
use file_sharing_example.FileGet.Tracking.Opening.{try_send_request_connected}

-- The action hands the request to the handler of a connection to the peer.
abbrev pub hands : PeerId → RequestId → Action → Bool
hands peer id (notify_handler p _ req) = p == peer && req.request_id == id
hands peer id _ = false

-- It does so, or tells the application how the request ended.
abbrev pub moves : PeerId → RequestId → Action → Bool
moves peer id a = concludes peer id a || hands peer id a

unfoldable pub moved : FileGet → PeerId → RequestId → Bool
unfolding any
moved fg peer id = any (moves peer id) fg.pending_events

pub Appends-any :
    (test : Action → Bool) {old new : List Action}
    → Appends old new
    → any test old ≡ true
    → any test new ≡ true
Appends-any test {old} {new} a h = rw a.grown (ground (arith, any-append test old a.added))

-- The waiting requests are the same.
pub waiting-same :
    (fg fg' : FileGet) (peer : PeerId) (id : RequestId)
    → fg'.pending_outbound_requests ≡ fg.pending_outbound_requests
    → waiting fg' peer id ≡ waiting fg peer id
unfolding waiting
waiting-same fg fg' peer id e = rw e refl

pub try_send_request-waits :
    (fg : FileGet) (p : PeerId) (req : FileGetOutboundProtocol)
    → (try_send_request fg p req).0.pending_outbound_requests ≡ fg.pending_outbound_requests
unfolding send_over
try_send_request-waits fg p req = elim (try_send_request_cases fg p req) [
  | inl (_, e) ↦ rw e refl
  | inr (c, cs, conns, e) ↦ rw e refl
]

pub send_over-moved :
    (fg : FileGet) (p : PeerId) (req : FileGetOutboundProtocol) (c : Connection)
    (cs : List Connection)
    → moved (send_over fg p req c cs) p req.request_id ≡ true
unfolding moved send_over
send_over-moved fg p req c cs =
    let at = req.request_id % usize_mod % length (c ∷ cs) in
    let sent = notify_handler p (get_or (c ∷ cs) at c).id req in
    ground (arith, any-append (moves p req.request_id) fg.pending_events (sent ∷ []))

pub try_send_request-moved :
    (fg : FileGet) (p : PeerId) (req : FileGetOutboundProtocol)
    → entry p fg.connected ≢ []
    → moved (try_send_request fg p req).0 p req.request_id ≡ true
try_send_request-moved fg p req h = elim (try_send_request_cases fg p req) [
  | inl (empty, _) ↦ absurd (h empty)
  | inr (c, cs, _, e) ↦ rw e (send_over-moved fg p req c cs)
]

send_pending-waits :
    (fg : FileGet) (p : PeerId) (reqs : List FileGetOutboundProtocol)
    → (send_pending fg p reqs).pending_outbound_requests ≡ fg.pending_outbound_requests
unfolding send_pending
send_pending-waits fg p [] = refl
send_pending-waits fg p (req ∷ reqs) =
    send_pending-waits (try_send_request fg p req).0 p reqs ∙ try_send_request-waits fg p req

-- With a connection to the peer, each of the requests is handed over.
send_pending-moved :
    (fg : FileGet) (p : PeerId) (id : RequestId) (reqs : List FileGetOutboundProtocol)
    → entry p fg.connected ≢ []
    → any (λ r. r.request_id == id) reqs ≡ true
    → moved (send_pending fg p reqs) p id ≡ true
unfolding any send_pending moved
send_pending-moved fg p id [] conn h = cc
send_pending-moved fg p id (req ∷ reqs) conn h = elim (Bool-cases (req.request_id == id)) [
  | inl hit ↦
      let same : req.request_id ≡ id = ground arith in
      let fg' = (try_send_request fg p req).0 in
      Appends-any (moves p id) (send_pending-Appends p reqs fg')
        (subst (λ k. moved fg' p k ≡ true) same (try_send_request-moved fg p req conn))
  | inr miss ↦
      send_pending-moved (try_send_request fg p req).0 p id reqs
        (try_send_request_connected fg p req conn) (ground arith)
]

-- The requests of one peer are taken from those that wait; the rest wait on.
pub taken-waiting :
    (fg : FileGet) (peer p : PeerId) (id : RequestId) (reqs : List FileGetOutboundProtocol)
    → lookup p fg.pending_outbound_requests ≡ some reqs
    → waiting fg peer id ≡ true
    → (waiting
          (record fg { pending_outbound_requests = remove p fg.pending_outbound_requests })
          peer
          id
        ≡ true)
      ⊎ ((p ≡ peer) × (any (λ r. r.request_id == id) reqs ≡ true))
unfolding waiting
taken-waiting fg peer p id reqs e h = elim (Bool-cases (p == peer)) [
  | inl hit ↦
      let same : p ≡ peer = ground arith in
      let at_peer : lookup peer fg.pending_outbound_requests ≡ some reqs =
        subst (λ k. lookup k fg.pending_outbound_requests ≡ some reqs) same e in
      inr (same, ground (arith, entry_of_some peer fg.pending_outbound_requests at_peer))
  | inr other ↦ inl (ground (arith, entry-remove p peer fg.pending_outbound_requests))
]

-- The request waits, or has moved on.
abbrev pub Delivered : FileGet → PeerId → RequestId → Type 0
Delivered fg peer id = (waiting fg peer id ≡ true) ⊎ (moved fg peer id ≡ true)

pub flush_pending-Delivered :
    (fg : FileGet) (peer p : PeerId) (id : RequestId)
    → entry p fg.connected ≢ []
    → waiting fg peer id ≡ true
    → Delivered (flush_pending fg p) peer id
unfolding flush_pending
flush_pending-Delivered fg peer p id conn h =
    elim (Option-cases (lookup p fg.pending_outbound_requests)) [
      | inl e ↦ rw (e, flush_pending) (inl h)
      | inr (reqs, e) ↦
          let fg' = record fg {
            pending_outbound_requests = remove p fg.pending_outbound_requests;
          } in
          rw (e, flush_pending)
            (elim (taken-waiting fg peer p id reqs e h) [
              | inl kept ↦ inl (
                  waiting-same fg' (send_pending fg' p reqs) peer id (send_pending-waits fg' p reqs)
                  ∙ kept)
              | inr (same, hit) ↦ inr (
                  subst (λ k. moved (send_pending fg' p reqs) k id ≡ true) same
                    (send_pending-moved fg' p id reqs conn hit))
            ])
    ]
