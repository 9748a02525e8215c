-- ===== src/FileGet/Live/Events.antt =====
-- What an event of the swarm, or a report of a handler, does in file-get/src/lib.rs to the number of
-- times that a request may be answered.
use file_sharing_example.Common.{
  ◌+◌, ◌≤◌, ◌≡◌, refl, ap, true, false, lookup, nat_eq, arith, Option-cases, Bool-cases, inl, inr,
}
use file_sharing_example.FileGet.Types.{PeerId, ConnectionId, RequestId, FileGetEvent}
use file_sharing_example.FileGet.Handler.{
  FileGetHandlerEvent, request, response, response_sent as sent, response_omission,
  outbound_timeout, outbound_unsupported_protocols, inbound_timeout, inbound_unsupported_protocols,
}
use file_sharing_example.FileGet.Connections.{
  Connection, find_connection, update_connection, drop_outbound,
}
use file_sharing_example.FileGet.Behaviour.{FileGet, generate_event, done, push_action}
use file_sharing_example.FileGet.Swarm.{
  FromSwarm, connection_established, connection_closed, address_change, dial_failure,
  dialed_address, on_connection_closed, on_address_change, on_swarm_event,
}
use file_sharing_example.FileGet.Reports.{
  with_connection, assert_then, remove_pending_inbound_response, remove_pending_outbound_response,
  on_connection_handler_event,
}
use file_sharing_example.FileGet.Live.{one_if, is_response, live, in_conns-update}
use file_sharing_example.FileGet.Live.Calls.{
  on_connection_established-live, drop_connection-live, one_dial_failure-live,
}
use file_sharing_example.FileGet.Live.Reports.{
  done_eq, push-live, insert-live, drop-live, owed-live, on_request-live, response-live,
}

module _ (id : RequestId) where
  written-live :
      (event : FileGetEvent) (fg fg1 : FileGet)
      → live id fg1 ≤ live id fg
      → is_response id (generate_event event) ≡ false
      → {fg' : FileGet} → done (push_action (generate_event event) fg1) ≡ done fg'
      → live id fg' ≤ live id fg
  written-live event fg fg1 less quiet e =
      let told : live id (push_action (generate_event event) fg1)
          ≡ live id fg1 + one_if (is_response id (generate_event event)) =
        push-live id event fg1 in
      rw (← done_eq e) (omega (arith, told, ap one_if quiet))

  owed_then-live :
      (event : FileGetEvent) (fg : FileGet) (p : PeerId) (conn : ConnectionId) (j : RequestId)
      → is_response id (generate_event event) ≡ false
      → {fg' : FileGet}
      → assert_then true (remove_pending_outbound_response fg p conn j) event ≡ done fg'
      → live id fg' ≤ live id fg
  unfolding remove_pending_outbound_response assert_then
  owed_then-live event fg p conn j quiet e =
      elim (Bool-cases (remove_pending_outbound_response fg p conn j).1) [
        | inl had ↦
            written-live event fg (with_connection fg p conn (drop_outbound j))
              (owed-live id fg p conn j) quiet (rw (had, assert_then) at e)
        | inr missing ↦ cc (rw (missing, assert_then) at e)
      ]

  -- A report of a handler never lets a request be answered more often, in a debug build.
  pub on_connection_handler_event-live :
      (fg : FileGet) (p : PeerId) (conn : ConnectionId) (event : FileGetHandlerEvent)
      {fg' : FileGet}
      → on_connection_handler_event true fg p conn event ≡ done fg'
      → live id fg' ≤ live id fg
  unfolding on_connection_handler_event assert_then remove_pending_inbound_response
      remove_pending_outbound_response
  on_connection_handler_event-live fg p conn (request i m sender) e =
      rw (← done_eq e) (on_request-live id fg p conn i m sender)
  on_connection_handler_event-live fg p conn (response i) e = response-live id fg p conn i e
  on_connection_handler_event-live fg p conn (sent i) e = owed_then-live _ fg p conn i refl e
  on_connection_handler_event-live fg p conn (response_omission i) e =
      owed_then-live _ fg p conn i refl e
  on_connection_handler_event-live fg p conn (outbound_timeout i) e =
      written-live _ fg _ (drop-live id fg p conn i) refl e
  on_connection_handler_event-live fg p conn (outbound_unsupported_protocols i) e =
      written-live _ fg _ (drop-live id fg p conn i) refl e
  on_connection_handler_event-live fg p conn (inbound_timeout i) e =
      written-live _ fg _ (owed-live id fg p conn i) refl e
  on_connection_handler_event-live fg p conn (inbound_unsupported_protocols i) e =
      written-live _ fg _ (owed-live id fg p conn i) refl e

  -- Nor does an event of the swarm.
  pub on_swarm_event-live :
      (fg : FileGet) (event : FromSwarm) {fg' : FileGet}
      → on_swarm_event fg event ≡ done fg'
      → live id fg' ≤ live id fg
  unfolding on_swarm_event on_connection_closed on_address_change
  on_swarm_event-live fg (connection_established p conn endpoint others) e =
      rw (← done_eq e) (on_connection_established-live id fg p conn endpoint others)
  on_swarm_event-live fg (connection_closed p conn) e =
      elim (Option-cases (lookup p fg.connected)) [
        | inl gone ↦ cc (rw (gone, on_connection_closed) at e)
        | inr (cs, at) ↦ elim (Option-cases (find_connection conn cs)) [
          | inl gone ↦ cc (rw (at, on_connection_closed, gone) at e)
          | inr (c, found) ↦
              rw (← done_eq (rw (at, on_connection_closed, found) at e))
                (drop_connection-live id fg p conn c at)
        ]
      ]
  on_swarm_event-live fg (address_change p conn new) e =
      elim (Option-cases (lookup p fg.connected)) [
        | inl gone ↦ cc (rw (gone, on_address_change) at e)
        | inr (cs, at) ↦ elim (Option-cases (find_connection conn cs)) [
          | inl gone ↦ cc (rw (at, on_address_change, gone) at e)
          | inr (c, found) ↦
              let write = λ (x : Connection). record x { address = dialed_address new } in
              rw (← done_eq (rw (at, on_address_change, found) at e)) (
                insert-live id fg p (update_connection conn write cs) at
                  (in_conns-update id conn write cs (λ x. omega arith)))
        ]
      ]
  on_swarm_event-live fg (dial_failure p) e = rw (← done_eq e) (one_dial_failure-live id fg p)
  on_swarm_event-live fg _ e = rw (← done_eq e) (omega arith)
