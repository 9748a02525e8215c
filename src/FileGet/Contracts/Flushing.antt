-- ===== src/FileGet/Contracts/Flushing.antt =====
-- How the requests that wait are sent, in file-get/src/lib.rs: one after the other.
use file_sharing_example.Common.{
  ◌%◌, ◌≡◌, refl, ◌∙◌, inl, inr, none, some, Option, List, [], ◌∷◌, ◌++◌, lookup, remove,
  remove_absent, nat_eq, arith, Option-cases,
}
use file_sharing_example.FileGet.Types.{PeerId, ConnectionId, usize_mod}
use file_sharing_example.FileGet.Protocol.{FileGetOutboundProtocol}
use file_sharing_example.FileGet.Behaviour.{
  FileGet, notify_handler, entry, push_action, send_over, try_send_request, dial_and_keep,
}
use file_sharing_example.FileGet.Behaviour.Entries.{
  entry_of_none, entry_of_some, try_send_request_cases,
}
use file_sharing_example.FileGet.Swarm.{send_pending, flush_pending}
use file_sharing_example.FileGet.Open.{open_ids}

pub flush_is :
    (fg : FileGet) (p : PeerId)
    → flush_pending fg p
      ≡ send_pending
          (record fg { pending_outbound_requests = remove p fg.pending_outbound_requests })
          p
          (entry p fg.pending_outbound_requests)
unfolding flush_pending send_pending
flush_is fg p = elim (Option-cases (lookup p fg.pending_outbound_requests)) [
  | inl e ↦
      rw
        (
          e,
          flush_pending,
          entry_of_none p fg.pending_outbound_requests e,
          remove_absent p fg.pending_outbound_requests e,
        )
        refl
  | inr (reqs, e) ↦ rw (e, flush_pending, entry_of_some p fg.pending_outbound_requests e) refl
]

pub send_pending-append :
    (p : PeerId) (reqs : List FileGetOutboundProtocol) (req : FileGetOutboundProtocol)
    (fg : FileGet)
    → send_pending fg p (reqs ++ req ∷ []) ≡ (try_send_request (send_pending fg p reqs) p req).0
unfolding send_pending
send_pending-append p [] req fg = refl
send_pending-append p (r ∷ reqs) req fg = send_pending-append p reqs req (try_send_request fg p r).0

pub try_send_request-connected :
    (p : PeerId) (req : FileGetOutboundProtocol) (fg fg' : FileGet)
    → fg.connected ≡ fg'.connected
    → (try_send_request fg p req).0.connected ≡ (try_send_request fg' p req).0.connected
unfolding try_send_request send_over push_action
try_send_request-connected p req fg fg' e = ground arith

pub send_pending-connected :
    (p : PeerId) (reqs : List FileGetOutboundProtocol) (fg fg' : FileGet)
    → fg.connected ≡ fg'.connected
    → (send_pending fg p reqs).connected ≡ (send_pending fg' p reqs).connected
unfolding send_pending
send_pending-connected p [] fg fg' e = e
send_pending-connected p (r ∷ reqs) fg fg' e =
    send_pending-connected p reqs (try_send_request fg p r).0 (try_send_request fg' p r).0
      (try_send_request-connected p r fg fg' e)

dial_and_keep-connected :
    (p : PeerId) (tried : FileGet × Option FileGetOutboundProtocol)
    → (dial_and_keep p tried).connected ≡ tried.0.connected
unfolding dial_and_keep push_action
dial_and_keep-connected p (fg, none) = refl
dial_and_keep-connected p (fg, some req) = refl

-- What does not depend on the requests that are sent.
module _ (p : PeerId) where
  pub try_send_request-generator :
      (fg : FileGet) (req : FileGetOutboundProtocol)
      → (try_send_request fg p req).0.requset_id_generator ≡ fg.requset_id_generator
  unfolding send_over push_action
  try_send_request-generator fg req = elim (try_send_request_cases fg p req) [
    | inl (e, kept) ↦ rw kept refl
    | inr (c, cs, e, over) ↦ rw over refl
  ]

  pub send_pending-generator :
      (reqs : List FileGetOutboundProtocol) (fg : FileGet)
      → (send_pending fg p reqs).requset_id_generator ≡ fg.requset_id_generator
  unfolding send_pending
  send_pending-generator [] fg = refl
  send_pending-generator (r ∷ reqs) fg =
      send_pending-generator reqs (try_send_request fg p r).0 ∙ try_send_request-generator fg r

pub not_kept :
    (p : PeerId) (conn : ConnectionId) (x : FileGet) (req : FileGetOutboundProtocol)
    → open_ids x p ≡ conn ∷ []
    → dial_and_keep p (try_send_request x p req) ≡ (try_send_request x p req).0
unfolding dial_and_keep
not_kept p conn x req one = elim (try_send_request_cases x p req) [
  | inl (e, kept) ↦ cc (rw e at one)
  | inr (c, cs, e, over) ↦ rw over refl
]

pub over_single :
    (p : PeerId) (conn : ConnectionId) (x : FileGet) (req : FileGetOutboundProtocol)
    → open_ids x p ≡ conn ∷ []
    → (try_send_request x p req).0.pending_events
      ≡ x.pending_events ++ notify_handler p conn req ∷ []
unfolding send_over push_action
over_single p conn x req one = elim (try_send_request_cases x p req) [
  | inl (e, kept) ↦ cc (rw e at one)
  | inr (c, [], e, over) ↦
      let same : c.id ≡ conn = cc (rw e at one) in
      let first : req.request_id % usize_mod % 1 ≡ 0 = omega arith in rw (over, first, same) refl
  | inr (c, d ∷ cs, e, over) ↦ cc (rw e at one)
]
