-- ===== src/FileGet/Tracking/Asking.antt =====
-- `send_request` of file-get/src/lib.rs keeps the request waiting or hands it to a connection.
use file_sharing_example.Common.{
  ◌≡◌, ◌∙◌, true, Option, none, some, List, [], ◌∷◌, any-append, ◌==◌, nat_eq, arith, inl, inr,
}
use file_sharing_example.FileGet.Types.{PeerId, RequestId, Writer, FileGetMessage, next_id}
use file_sharing_example.FileGet.Protocol.{FileGetOutboundProtocol}
use file_sharing_example.FileGet.Connections.{Connection}
use file_sharing_example.FileGet.Behaviour.{
  FileGet, entry, send_over, dial_and_keep, try_send_request, send_request,
}
use file_sharing_example.FileGet.Behaviour.Entries.{entry-push_entry, try_send_request_cases}
use file_sharing_example.FileGet.Tracking.{waiting}
use file_sharing_example.FileGet.Tracking.Sending.{kept-waiting}
use file_sharing_example.FileGet.Tracking.Handing.{
  try_send_request-waits, moved, Delivered, waiting-same, send_over-moved,
}

dial_and_keep-waiting :
    (peer p : PeerId) (id : RequestId) (tried : FileGet × Option FileGetOutboundProtocol)
    → waiting tried.0 peer id ≡ true
    → waiting (dial_and_keep p tried) peer id ≡ true
unfolding waiting dial_and_keep
dial_and_keep-waiting peer p id (fg, none) h = h
dial_and_keep-waiting peer p id (fg, some req) h = ground (
  arith,
  entry-push_entry p peer req fg.pending_outbound_requests,
  any-append (λ (r : FileGetOutboundProtocol). r.request_id == id)
      (entry peer fg.pending_outbound_requests) (req ∷ []),
)

-- What waits for any peer waits on.
pub send_request-waiting :
    (fg : FileGet) (p peer : PeerId) (message : FileGetMessage) (w : Writer) (id : RequestId)
    → waiting fg peer id ≡ true
    → waiting (send_request fg p message w).0 peer id ≡ true
unfolding send_request
send_request-waiting fg p peer message w id h =
    let (g, i) = next_id fg.requset_id_generator in
    let req : FileGetOutboundProtocol = record {
      request_id = i;
      file_name = message.file_name;
      file_writer = w;
    } in
    let fg' = record fg { requset_id_generator = g } in
    dial_and_keep-waiting peer p id (try_send_request fg' p req) (
      waiting-same fg (try_send_request fg' p req).0 peer id (try_send_request-waits fg' p req) ∙ h)

sent-moved :
    (fg : FileGet) (p : PeerId) (req : FileGetOutboundProtocol) (c : Connection)
    (cs : List Connection) (tried : FileGet × Option FileGetOutboundProtocol)
    → tried ≡ (send_over fg p req c cs, none)
    → moved (dial_and_keep p tried) p req.request_id ≡ true
unfolding dial_and_keep
sent-moved fg p req c cs tried e = rw e (send_over-moved fg p req c cs)

-- The request itself waits, or is handed over.
pub send_request-Delivered :
    (fg : FileGet) (p : PeerId) (message : FileGetMessage) (w : Writer)
    → let (fg', id) = send_request fg p message w in Delivered fg' p id
unfolding send_request
send_request-Delivered fg p message w =
    let (g, id) = next_id fg.requset_id_generator in
    let req : FileGetOutboundProtocol = record {
      request_id = id;
      file_name = message.file_name;
      file_writer = w;
    } in
    let fg' = record fg { requset_id_generator = g } in
    elim (try_send_request_cases fg' p req) [
      | inl (e, kept) ↦ inl (kept-waiting fg' p req _ kept)
      | inr (c, cs, e, sent) ↦ inr (sent-moved fg' p req c cs _ sent)
    ]
