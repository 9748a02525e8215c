-- ===== src/FileGet/Contracts/Commuting.antt =====
-- A request that is made before the first connection to its peer in
-- file-get/src/lib.rs, and one that is made after it.
use file_sharing_example.Common.{
  ◌≡◌, refl, sym, ap, ◌∙◌, inl, inr, List, [], ◌∷◌, ◌++◌, map, insert, remove, remove_twice, nat_eq,
  arith,
}
use file_sharing_example.FileGet.Types.{PeerId, ConnectionId, FileGetMessage, Writer, next_id}
use file_sharing_example.FileGet.Protocol.{FileGetOutboundProtocol}
use file_sharing_example.FileGet.Connections.{new_connection}
use file_sharing_example.FileGet.Behaviour.{
  FileGet, Action, dial, notify_handler, entry, push_entry, push_action, behaviour_new_handler,
  try_send_request, dial_and_keep, send_request,
}
use file_sharing_example.FileGet.Behaviour.Entries.{entry-push_entry, try_send_request_cases}
use file_sharing_example.FileGet.Swarm.{
  ConnectedPoint, dialed_address, send_pending, on_connection_established,
}
use file_sharing_example.FileGet.Open.{ids_of, open_ids}
use file_sharing_example.FileGet.Open.Kept.{open_ids-on_connection_established}
use file_sharing_example.FileGet.Open.Waiting.{try_send_request-waiting, send_pending-waiting}
use file_sharing_example.FileGet.Contracts.Opening.{first_connection_sends_all}
use mathlib.Core.List.{append_assoc, map-append}
use file_sharing_example.FileGet.Contracts.Flushing.{
  flush_is, send_pending-append, try_send_request-connected, send_pending-connected,
  try_send_request-generator, send_pending-generator, not_kept, over_single,
}

module _ (fg : FileGet) (p : PeerId) (m : FileGetMessage) (w : Writer) where
  -- The request that `send_request` makes.
  abbrev pub request_of : FileGetOutboundProtocol
  request_of = record {
    request_id = (next_id fg.requset_id_generator).1;
    file_name = m.file_name;
    file_writer = w;
  }

  abbrev numbered : FileGet
  numbered = record fg { requset_id_generator = (next_id fg.requset_id_generator).0 }

  -- Without a connection the peer is dialed, and the request waits.
  abbrev dialed : FileGet
  dialed = record numbered {
    pending_events = fg.pending_events ++ dial p (behaviour_new_handler fg) ∷ [];
    pending_outbound_requests = push_entry p request_of fg.pending_outbound_requests;
  }

  send_request-dialed : entry p fg.connected ≡ [] → (send_request fg p m w).0 ≡ dialed
  unfolding send_request dial_and_keep push_action behaviour_new_handler
  send_request-dialed e = elim (try_send_request_cases numbered p request_of) [
    | inl (_, kept) ↦ rw kept refl
    | inr (c, cs, some_open, _) ↦ cc
  ]

  module _ (conn : ConnectionId) (endpoint : ConnectedPoint)
      (shut : entry p fg.connected ≡ []) where
    abbrev reqs : List FileGetOutboundProtocol
    reqs = entry p fg.pending_outbound_requests

    abbrev pub before : FileGet
    before = on_connection_established (send_request fg p m w).0 p conn endpoint 0

    abbrev connected_first : FileGet
    connected_first = on_connection_established fg p conn endpoint 0

    abbrev opened : FileGet → FileGet
    opened x = record x {
      connected = push_entry p (new_connection conn (dialed_address endpoint)) fg.connected;
      pending_outbound_requests = remove p fg.pending_outbound_requests;
    }

    removed :
        remove p (push_entry p request_of fg.pending_outbound_requests)
        ≡ remove p fg.pending_outbound_requests
    unfolding push_entry insert remove
    removed = ground (arith, remove_twice p fg.pending_outbound_requests)

    entered :
        entry p (push_entry p request_of fg.pending_outbound_requests) ≡ reqs ++ request_of ∷ []
    entered = ground (arith, entry-push_entry p p request_of fg.pending_outbound_requests)

    before_is : before ≡ (try_send_request (send_pending (opened dialed) p reqs) p request_of).0
    unfolding on_connection_established
    before_is =
        ap (λ x. on_connection_established x p conn endpoint 0) (send_request-dialed shut)
        ∙ flush_is
            (record dialed {
              connected = push_entry p (new_connection conn (dialed_address endpoint)) fg.connected;
            })
            p
        ∙ rw (removed, entered) refl
        ∙ send_pending-append p reqs request_of (opened dialed)

    connected_first_is : connected_first ≡ send_pending (opened fg) p reqs
    unfolding on_connection_established
    connected_first_is = flush_is _ p

    abbrev after : FileGet
    after = (send_request connected_first p m w).0

    single : open_ids connected_first p ≡ conn ∷ []
    single =
        open_ids-on_connection_established p fg p conn endpoint 0 ∙ ground (arith, ap ids_of shut)

    sent_over :
        (x : FileGet)
        → open_ids x p ≡ conn ∷ []
        → x.requset_id_generator ≡ fg.requset_id_generator
        → (send_request x p m w).0
          ≡ (try_send_request
              (record x { requset_id_generator = (next_id fg.requset_id_generator).0 })
              p
              request_of).0
    unfolding send_request
    sent_over x one same = rw (← same) (not_kept p conn _ _ one)

    after_is :
        after
        ≡ (try_send_request
            (record (send_pending (opened fg) p reqs) {
              requset_id_generator = (next_id fg.requset_id_generator).0;
            })
            p
            request_of).0
    after_is =
        ap (λ x. (send_request x p m w).0) connected_first_is
        ∙ sent_over (send_pending (opened fg) p reqs)
            (ap (λ x. open_ids x p) (sym connected_first_is) ∙ single)
            (send_pending-generator p reqs (opened fg))

    connected_same : before.connected ≡ after.connected
    connected_same =
        ap (λ x. x.connected) before_is
        ∙ try_send_request-connected p request_of _ _
            (send_pending-connected p reqs (opened dialed) (opened fg) refl)
        ∙ ap (λ x. x.connected) (sym after_is)

    abbrev handed : List Action
    handed = map (notify_handler p conn) (reqs ++ request_of ∷ [])

    before_events :
        before.pending_events ≡ fg.pending_events ++ dial p (behaviour_new_handler fg) ∷ handed
    before_events =
        ap (λ x. (on_connection_established x p conn endpoint 0).pending_events)
          (send_request-dialed shut)
        ∙ (first_connection_sends_all dialed p conn endpoint shut).0
        ∙ rw entered (append_assoc fg.pending_events _ _)

    after_events : after.pending_events ≡ fg.pending_events ++ handed
    after_events =
        ap (λ x. x.pending_events) after_is
        ∙ over_single p conn _ request_of (ap (λ x. open_ids x p) (sym connected_first_is) ∙ single)
        ∙ ap (λ x. x ++ notify_handler p conn request_of ∷ [])
            (ap (λ x. x.pending_events) (sym connected_first_is)
              ∙ (first_connection_sends_all fg p conn endpoint shut).0)
        ∙ append_assoc fg.pending_events (map (notify_handler p conn) reqs) _
        ∙ rw (map-append (notify_handler p conn) reqs (request_of ∷ [])) refl

    waiting_same : before.pending_outbound_requests ≡ after.pending_outbound_requests
    waiting_same =
        ap (λ x. x.pending_outbound_requests) before_is
        ∙ try_send_request-waiting _ p request_of
        ∙ send_pending-waiting p reqs (opened dialed)
        ∙ sym (send_pending-waiting p reqs (opened fg))
        ∙ sym (try_send_request-waiting _ p request_of)
        ∙ ap (λ x. x.pending_outbound_requests) (sym after_is)

    generator_same : before.requset_id_generator ≡ after.requset_id_generator
    generator_same =
        ap (λ x. x.requset_id_generator) before_is
        ∙ try_send_request-generator p _ request_of
        ∙ send_pending-generator p reqs (opened dialed)
        ∙ sym (try_send_request-generator p _ request_of)
        ∙ ap (λ x. x.requset_id_generator) (sym after_is)

-- A request that is made before the first connection to its peer is established, and one that is made
-- just after it, come to the same: the same connections wait for the same responses, the same requests
-- still wait, the next request gets the same id, and the same requests are handed to the connection in
-- the same order; only the first also dials the peer.
pub send_request-on_connection_established :
    (fg : FileGet) (p : PeerId) (m : FileGetMessage) (w : Writer) (conn : ConnectionId)
    (endpoint : ConnectedPoint)
    → entry p fg.connected ≡ []
    → let before = on_connection_established (send_request fg p m w).0 p conn endpoint 0 in
      let after = (send_request (on_connection_established fg p conn endpoint 0) p m w).0 in
      let reqs = entry p fg.pending_outbound_requests ++ request_of fg p m w ∷ [] in
      (before.connected ≡ after.connected)
      × (before.pending_outbound_requests ≡ after.pending_outbound_requests)
      × (before.requset_id_generator ≡ after.requset_id_generator)
      × (before.pending_events
          ≡ fg.pending_events
            ++ dial p (behaviour_new_handler fg) ∷ map (notify_handler p conn) reqs)
      × (after.pending_events ≡ fg.pending_events ++ map (notify_handler p conn) reqs)
send_request-on_connection_established fg p m w conn endpoint shut = (
  connected_same fg p m w conn endpoint shut,
  waiting_same fg p m w conn endpoint shut,
  generator_same fg p m w conn endpoint shut,
  before_events fg p m w conn endpoint shut,
  after_events fg p m w conn endpoint shut,
)
