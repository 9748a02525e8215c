-- ===== src/FileGet/Tracking/Sending.antt =====
-- Sending keeps track of every request.
use file_sharing_example.Common.{
  ◌≡◌, ◌≢◌, ◌⊎◌, ◌==◌, nat_eq, Option, refl, inl, inr, true, none, some, List, [], ◌∷◌, ◌%◌, length,
  get_or, modify, any, any-append, arith,
}
use file_sharing_example.FileGet.Types.{
  PeerId, RequestId, RequestIdGenerator, Writer, FileGetMessage, usize_mod, next_id,
}
use file_sharing_example.FileGet.Protocol.{FileGetOutboundProtocol}
use file_sharing_example.FileGet.Connections.{Connection, await_response}
use file_sharing_example.FileGet.Connections.Laws.{awaits-modify}
use file_sharing_example.FileGet.Behaviour.{
  FileGet, dial, behaviour_new_handler, notify_handler, entry, send_over, dial_and_keep,
  try_send_request, send_request,
}
use file_sharing_example.FileGet.Behaviour.Entries.{
  entry-insert, entry-push_entry, place-lt, try_send_request_cases,
}
use file_sharing_example.FileGet.Tracking.{waiting, awaiting, accounted, concludes}

send_over-accounted :
    (fg : FileGet) (peer p : PeerId) (id : RequestId) (req : FileGetOutboundProtocol)
    (c : Connection) (cs : List Connection)
    → entry p fg.connected ≡ c ∷ cs
    → accounted fg peer id ≡ true
    → accounted (send_over fg p req c cs) peer id ≡ true
unfolding accounted send_over
send_over-accounted fg peer p id req c cs e h =
    let at = req.request_id % usize_mod % length (c ∷ cs) in
    let conns = modify (c ∷ cs) at (await_response req.request_id) in
    let sent = notify_handler p (get_or (c ∷ cs) at c).id req in
    ground (
      arith,
      entry-insert p peer conns fg.connected,
      awaits-modify id req.request_id (c ∷ cs) at (place-lt req.request_id c cs),
      any-append (concludes peer id) fg.pending_events (sent ∷ []),
    )

send_over-awaiting :
    (fg : FileGet) (p : PeerId) (req : FileGetOutboundProtocol) (c : Connection)
    (cs : List Connection)
    → awaiting (send_over fg p req c cs) p req.request_id ≡ true
unfolding awaiting send_over
send_over-awaiting fg p req c cs =
    let at = req.request_id % usize_mod % length (c ∷ cs) in
    let conns = modify (c ∷ cs) at (await_response req.request_id) in
    ground (
      arith,
      entry-insert p p conns fg.connected,
      awaits-modify req.request_id req.request_id (c ∷ cs) at (place-lt req.request_id c cs),
    )

pub try_send_request-accounted :
    (fg : FileGet) (peer p : PeerId) (id : RequestId) (req : FileGetOutboundProtocol)
    → accounted fg peer id ≡ true
    → accounted (try_send_request fg p req).0 peer id ≡ true
try_send_request-accounted fg peer p id req h = elim (try_send_request_cases fg p req) [
  | inl (_, e) ↦ rw e h
  | inr (c, cs, conns, e) ↦ rw e (send_over-accounted fg peer p id req c cs conns h)
]

-- With a connection to the peer, the request is sent and waited for.
pub try_send_request-awaiting :
    (fg : FileGet) (p : PeerId) (req : FileGetOutboundProtocol)
    → entry p fg.connected ≢ []
    → awaiting (try_send_request fg p req).0 p req.request_id ≡ true
try_send_request-awaiting fg p req h = elim (try_send_request_cases fg p req) [
  | inl (empty, _) ↦ absurd (h empty)
  | inr (c, cs, _, e) ↦ rw e (send_over-awaiting fg p req c cs)
]

dial_and_keep-accounted :
    (peer p : PeerId) (id : RequestId) (tried : FileGet × Option FileGetOutboundProtocol)
    → accounted tried.0 peer id ≡ true
    → accounted (dial_and_keep p tried) peer id ≡ true
unfolding accounted dial_and_keep
dial_and_keep-accounted peer p id (fg, none) h = h
dial_and_keep-accounted peer p id (fg, some req) h = ground (
  arith,
  entry-push_entry p peer req fg.pending_outbound_requests,
  any-append (λ (r : FileGetOutboundProtocol). r.request_id == id)
      (entry peer fg.pending_outbound_requests) (req ∷ []),
  any-append (concludes peer id) fg.pending_events (dial p (behaviour_new_handler fg) ∷ []),
)

pub kept-waiting :
    (fg : FileGet) (p : PeerId) (req : FileGetOutboundProtocol)
    (tried : FileGet × Option FileGetOutboundProtocol)
    → tried ≡ (fg, some req)
    → waiting (dial_and_keep p tried) p req.request_id ≡ true
unfolding any waiting dial_and_keep
kept-waiting fg p req tried e = rw e (
    ground (
      arith,
      entry-push_entry p p req fg.pending_outbound_requests,
      any-append (λ (r : FileGetOutboundProtocol). r.request_id == req.request_id)
          (entry p fg.pending_outbound_requests) (req ∷ []),
    ))

sent-awaiting :
    (fg : FileGet) (p : PeerId) (req : FileGetOutboundProtocol) (c : Connection)
    (cs : List Connection) (tried : FileGet × Option FileGetOutboundProtocol)
    → tried ≡ (send_over fg p req c cs, none)
    → awaiting (dial_and_keep p tried) p req.request_id ≡ true
unfolding dial_and_keep
sent-awaiting fg p req c cs tried e = rw e (send_over-awaiting fg p req c cs)

accounted_of_generator :
    (fg : FileGet) (g : RequestIdGenerator) (peer : PeerId) (id : RequestId)
    → accounted (record fg { requset_id_generator = g }) peer id ≡ accounted fg peer id
unfolding accounted
accounted_of_generator fg g peer id = refl

pub send_request-accounted :
    (fg : FileGet) (p peer : PeerId) (message : FileGetMessage) (w : Writer) (id : RequestId)
    → accounted fg peer id ≡ true
    → accounted (send_request fg p message w).0 peer id ≡ true
unfolding send_request
send_request-accounted fg p peer message w id h =
    let g = (next_id fg.requset_id_generator).0 in
    dial_and_keep-accounted peer p id _ (
      try_send_request-accounted (record fg { requset_id_generator = g }) peer p id _
        (rw (accounted_of_generator fg g peer id) h))

-- The request that `send_request` returns the id of is tracked from then on: with the waiting
-- requests if the peer has no connection, else on a connection.
pub send_request_tracks :
    (fg : FileGet) (p : PeerId) (message : FileGetMessage) (w : Writer)
    → let (fg', id) = send_request fg p message w in
      ((entry p fg.connected ≡ []) × (waiting fg' p id ≡ true))
      ⊎ ((entry p fg.connected ≢ []) × (awaiting fg' p id ≡ true))
unfolding send_request
send_request_tracks fg p message w =
    let (g, id) = next_id fg.requset_id_generator in
    let req : FileGetOutboundProtocol = record {
      request_id = id;
      file_name = message.file_name;
      file_writer = w;
    } in
    let fg' = record fg { requset_id_generator = g } in
    elim (try_send_request_cases fg' p req) [
      | inl (e, kept) ↦ inl (e, kept-waiting fg' p req _ kept)
      | inr (c, cs, e, sent) ↦ inr (λ empty. cc, sent-awaiting fg' p req c cs _ sent)
    ]
