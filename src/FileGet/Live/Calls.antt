-- ===== src/FileGet/Live/Calls.antt =====
-- What each call of file-get/src/lib.rs does to the number of times that a request may be answered.
use file_sharing_example.Common.{
  ℕ, ◌+◌, ◌%◌, ◌≤◌, ◌≡◌, refl, ap, ◌∙◌, false, none, some, Option, List, [], ◌∷◌, ◌++◌, lookup,
  remove, modify, length, get_or, is_empty, ◌==◌, nat_eq, arith, Option-cases, Bool-cases, inl, inr,
}
use file_sharing_example.FileGet.Types.{
  PeerId, ConnectionId, RequestId, FileGetEvent, FileGetMessage, Writer, usize_mod, next_id,
}
use file_sharing_example.FileGet.Protocol.{FileGetOutboundProtocol}
use file_sharing_example.FileGet.Connections.{
  Connection, new_connection, remove_connection, await_response,
}
use file_sharing_example.FileGet.Behaviour.{
  FileGet, Action, generate_event, notify_handler, dial, entry, push_entry, push_action, send_over,
  try_send_request, dial_and_keep, behaviour_new_handler, send_request,
}
use file_sharing_example.FileGet.Behaviour.Entries.{entry_of_some, try_send_request_cases}
use file_sharing_example.FileGet.Swarm.{
  ConnectedPoint, dialed_address, report, drop_connection, send_pending, flush_pending,
  on_connection_established, fail_pending, one_dial_failure,
}
use file_sharing_example.FileGet.Contracts.Flushing.{flush_is}
use file_sharing_example.FileGet.Live.{
  one_if, count, total-append, total-remove, total-insert, in_reqs, in_conns, is_response,
  in_events, live, in_conns-modify, in_conns-remove,
}

module _ (id : RequestId) where
  -- An action at the end of the queue.
  pub in_events-push :
      (action : Action) (actions : List Action)
      → in_events id (actions ++ action ∷ [])
        ≡ in_events id actions + one_if (is_response id action)
  in_events-push action actions =
      omega (arith, total-append (λ a. one_if (is_response id a)) actions (action ∷ []))

  try_send_request-live :
      (fg : FileGet) (p : PeerId) (req : FileGetOutboundProtocol)
      → live id (try_send_request fg p req).0 ≤ one_if (req.request_id == id) + live id fg
  unfolding send_over push_action
  try_send_request-live fg p req = elim (try_send_request_cases fg p req) [
    | inl (e, kept) ↦ rw kept (omega arith)
    | inr (c, cs, e, over) ↦
        let i = req.request_id % usize_mod % length (c ∷ cs) in
        let room =
          total-insert (in_conns id) refl p (modify (c ∷ cs) i (await_response req.request_id))
            fg.connected in
        let more = in_conns-modify id req.request_id (c ∷ cs) i in
        let before = ap (in_conns id) e in
        let told =
          in_events-push (notify_handler p (get_or (c ∷ cs) i c).id req) fg.pending_events in
        rw over (omega (arith, room, more, before, told))
  ]

  pub dial_and_keep-live :
      (fg : FileGet) (p : PeerId) (req : FileGetOutboundProtocol)
      → live id (dial_and_keep p (try_send_request fg p req))
        ≤ one_if (req.request_id == id) + live id fg
  unfolding dial_and_keep push_action push_entry
  dial_and_keep-live fg p req = elim (try_send_request_cases fg p req) [
    | inl (e, kept) ↦
        let reqs = entry p fg.pending_outbound_requests in
        let room =
          total-insert (in_reqs id) refl p (reqs ++ req ∷ []) fg.pending_outbound_requests in
        let more =
          total-append (λ (r : FileGetOutboundProtocol). one_if (r.request_id == id)) reqs
            (req ∷ []) in
        let told = in_events-push (dial p (behaviour_new_handler fg)) fg.pending_events in
        rw kept (omega (arith, room, more, told))
    | inr (c, cs, e, over) ↦
        let same : dial_and_keep p (try_send_request fg p req) ≡ (try_send_request fg p req).0 =
          rw over refl in
        rw same (try_send_request-live fg p req)
  ]

  send_pending-live :
      (p : PeerId) (reqs : List FileGetOutboundProtocol) (fg : FileGet)
      → live id (send_pending fg p reqs) ≤ in_reqs id reqs + live id fg
  unfolding send_pending
  send_pending-live p [] fg = omega arith
  send_pending-live p (req ∷ reqs) fg =
      let fg' = (try_send_request fg p req).0 in
      let rest : live id (send_pending fg' p reqs) ≤ in_reqs id reqs + live id fg' =
        send_pending-live p reqs fg' in
      let first : live id fg' ≤ one_if (req.request_id == id) + live id fg =
        try_send_request-live fg p req in
      omega (arith, rest, first)

  flush_pending-live : (fg : FileGet) (p : PeerId) → live id (flush_pending fg p) ≤ live id fg
  flush_pending-live fg p =
      let left = record fg { pending_outbound_requests = remove p fg.pending_outbound_requests } in
      let reqs = entry p fg.pending_outbound_requests in
      let sent : live id (send_pending left p reqs) ≤ in_reqs id reqs + live id left =
        send_pending-live p reqs left in
      let room = total-remove (in_reqs id) refl p fg.pending_outbound_requests in
      rw (flush_is fg p) (omega (arith, sent, room))

  pub on_connection_established-live :
      (fg : FileGet) (p : PeerId) (conn : ConnectionId) (endpoint : ConnectedPoint) (others : ℕ)
      → live id (on_connection_established fg p conn endpoint others) ≤ live id fg
  unfolding on_connection_established push_entry new_connection
  on_connection_established-live fg p conn endpoint others =
      let c = new_connection conn (dialed_address endpoint) in
      let conns = entry p fg.connected in
      let fg' = record fg { connected = push_entry p c fg.connected } in
      let room = total-insert (in_conns id) refl p (conns ++ c ∷ []) fg.connected in
      let more =
        total-append (λ (x : Connection). count id x.pending_inbound_responses) conns (c ∷ []) in
      let pushed : live id fg' ≤ live id fg = omega (arith, room, more) in
      elim (Bool-cases (others == 0)) [
        | inl first ↦ rw first (omega (arith, flush_pending-live fg' p, pushed))
        | inr later ↦ rw later pushed
      ]

  report-live :
      (event : RequestId → FileGetEvent) (ids : List RequestId) (fg : FileGet)
      → ((i : RequestId) → is_response id (generate_event (event i)) ≡ false)
      → live id (report event ids fg) ≡ live id fg
  unfolding report push_action
  report-live event [] fg quiet = refl
  report-live event (i ∷ ids) fg quiet =
      let fg' = push_action (generate_event (event i)) fg in
      let rest : live id (report event ids fg') ≡ live id fg' = report-live event ids fg' quiet in
      let told = in_events-push (generate_event (event i)) fg.pending_events in
      let none_more = ap one_if (quiet i) in omega (arith, rest, told, none_more)

  pub drop_connection-live :
      (fg : FileGet) (p : PeerId) (conn : ConnectionId) (c : Connection) {cs : List Connection}
      → lookup p fg.connected ≡ some cs
      → live id (drop_connection fg p c (remove_connection conn cs)) ≤ live id fg
  unfolding drop_connection
  drop_connection-live fg p conn c {cs} at =
      let rest = remove_connection conn cs in
      let fewer = in_conns-remove id conn cs in
      let before = ap (in_conns id) (entry_of_some p fg.connected at) in
      rw
        (
          report-live _ c.pending_inbound_responses _ (λ i. refl),
          report-live _ c.pending_outbound_responses _ (λ i. refl),
        )
        (elim (Bool-cases (is_empty rest)) [
          | inl last ↦ rw last (omega (arith, total-remove (in_conns id) refl p fg.connected))
          | inr more ↦
              rw more
                (omega (arith, total-insert (in_conns id) refl p rest fg.connected, fewer, before))
        ])

  fail_pending-live :
      (p : PeerId) (reqs : List FileGetOutboundProtocol) (fg : FileGet)
      → live id (fail_pending fg p reqs) ≡ live id fg
  unfolding fail_pending push_action
  fail_pending-live p [] fg = refl
  fail_pending-live p (req ∷ reqs) fg =
      fail_pending-live p reqs (push_action _ fg)
      ∙ omega (arith, in_events-push _ fg.pending_events)

  pub one_dial_failure-live :
      (fg : FileGet) (p : Option PeerId) → live id (one_dial_failure fg p) ≤ live id fg
  unfolding one_dial_failure
  one_dial_failure-live fg none = omega arith
  one_dial_failure-live fg (some p) = elim (Option-cases (lookup p fg.pending_outbound_requests)) [
    | inl e ↦ rw (e, one_dial_failure) (omega arith)
    | inr (reqs, e) ↦
        rw (e, one_dial_failure, fail_pending-live p reqs _)
          (omega (arith, total-remove (in_reqs id) refl p fg.pending_outbound_requests))
  ]

  -- Only the id of the request itself may become live.
  pub send_request-live :
      (fg : FileGet) (p : PeerId) (m : FileGetMessage) (w : Writer)
      → live id (send_request fg p m w).0 ≤ one_if ((send_request fg p m w).1 == id) + live id fg
  unfolding send_request
  send_request-live fg p m w =
      dial_and_keep-live (record fg { requset_id_generator = (next_id fg.requset_id_generator).0 })
        p _
