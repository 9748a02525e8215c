-- ===== src/FileGet/Swarm.antt =====
-- file-get/src/lib.rs: `on_swarm_event` and the methods that it calls.
use file_sharing_example.Common.{
  ℕ, Option, none, some, List, [], ◌∷◌, lookup, insert, remove, is_empty, ◌==◌, nat_eq,
  if◌then◌else◌,
}
use file_sharing_example.FileGet.Types.{
  PeerId, ConnectionId, Multiaddr, RequestId, OutboundFailure, InboundFailure, FileGetEvent,
  outbound_failure, inbound_failure,
}
use file_sharing_example.FileGet.Protocol.{FileGetOutboundProtocol}
use file_sharing_example.FileGet.Connections.{
  Connection, new_connection, find_connection, update_connection, remove_connection,
}
use file_sharing_example.FileGet.Behaviour.{
  FileGet, generate_event, Outcome, done, panicked, push_action, push_entry, try_send_request,
}

-- `libp2p_core::ConnectedPoint`
pub data ConnectedPoint : Type 0 where
  dialer listener : Multiaddr → ConnectedPoint

-- `libp2p_swarm::FromSwarm`: the fields that the code reads.
pub data FromSwarm : Type 0 where
  connection_established : PeerId → ConnectionId → ConnectedPoint → ℕ → FromSwarm
  connection_closed : PeerId → ConnectionId → FromSwarm
  address_change : PeerId → ConnectionId → ConnectedPoint → FromSwarm
  dial_failure : Option PeerId → FromSwarm
  listen_failure new_listener new_listen_addr expired_listen_addr : FromSwarm
  listener_error listener_closed new_external_addr expired_external_addr : FromSwarm

abbrev pub dialed_address : ConnectedPoint → Option Multiaddr
dialed_address (dialer address) = some address
dialed_address (listener address) = none

-- The loop over the requests that waited for the connection.
unfoldable pub send_pending : FileGet → PeerId → List FileGetOutboundProtocol → FileGet
send_pending fg peer [] = fg
send_pending fg peer (req ∷ reqs) = send_pending (try_send_request fg peer req).0 peer reqs

-- `if let Some(pending) = self.pending_outbound_requests.remove(&peer_id)` of the same method.
unfoldable pub flush_pending : FileGet → PeerId → FileGet
unfolding send_pending
flush_pending fg peer = elim (lookup peer fg.pending_outbound_requests) [
  | none ↦ fg
  | some reqs ↦
      send_pending
        (record fg { pending_outbound_requests = remove peer fg.pending_outbound_requests }) peer
        reqs
]

unfoldable pub on_connection_established :
    FileGet → PeerId → ConnectionId → ConnectedPoint → ℕ → FileGet
unfolding flush_pending push_entry
on_connection_established fg peer id endpoint other_established =
    let conn = new_connection id (dialed_address endpoint) in
    let fg' = record fg { connected = push_entry peer conn fg.connected } in
    if other_established == 0 then flush_pending fg' peer else fg'

-- `for request_id in ids { pending_events.push_back(GenerateEvent(event)) }`
unfoldable pub report : (RequestId → FileGetEvent) → List RequestId → FileGet → FileGet
unfolding push_action
report event [] fg = fg
report event (id ∷ ids) fg = report event ids (push_action (generate_event (event id)) fg)

-- What follows the two `expect`s of `on_connection_closed`.
unfoldable pub drop_connection : FileGet → PeerId → Connection → List Connection → FileGet
unfolding report
drop_connection fg peer conn rest =
    let connected =
      if is_empty rest then remove peer fg.connected else insert peer rest fg.connected in
    let fg' =
      report (λ id. outbound_failure peer id OutboundFailure.connection_closed)
        conn.pending_outbound_responses (record fg { connected = connected }) in
    report (λ id. inbound_failure peer id InboundFailure.connection_closed)
      conn.pending_inbound_responses fg'

unfoldable pub on_connection_closed : FileGet → PeerId → ConnectionId → Outcome FileGet
unfolding drop_connection
on_connection_closed fg peer id = elim (lookup peer fg.connected) [
  | none ↦ panicked
  | some conns ↦ elim (find_connection id conns) [
    | none ↦ panicked
    | some conn ↦ done (drop_connection fg peer conn (remove_connection id conns))
  ]
]

unfoldable pub on_address_change :
    FileGet → PeerId → ConnectionId → ConnectedPoint → Outcome FileGet
on_address_change fg peer id new = elim (lookup peer fg.connected) [
  | none ↦ panicked
  | some conns ↦ elim (find_connection id conns) [
    | none ↦ panicked
    | some _ ↦
        let write = λ (c : Connection). record c { address = dialed_address new } in
        done (record fg { connected = insert peer (update_connection id write conns) fg.connected })
  ]
]

-- The loop of `one_dial_failure`.
unfoldable pub fail_pending : FileGet → PeerId → List FileGetOutboundProtocol → FileGet
unfolding push_action
fail_pending fg peer [] = fg
fail_pending fg peer (req ∷ reqs) =
    let event = outbound_failure peer req.request_id OutboundFailure.dial_failure in
    fail_pending (push_action (generate_event event) fg) peer reqs

unfoldable pub one_dial_failure : FileGet → Option PeerId → FileGet
unfolding fail_pending
one_dial_failure fg none = fg
one_dial_failure fg (some peer) = elim (lookup peer fg.pending_outbound_requests) [
  | none ↦ fg
  | some reqs ↦
      fail_pending
        (record fg { pending_outbound_requests = remove peer fg.pending_outbound_requests }) peer
        reqs
]

unfoldable pub on_swarm_event : FileGet → FromSwarm → Outcome FileGet
on_swarm_event fg (connection_established peer id endpoint others) =
    done (on_connection_established fg peer id endpoint others)
on_swarm_event fg (connection_closed peer id) = on_connection_closed fg peer id
on_swarm_event fg (address_change peer id new) = on_address_change fg peer id new
on_swarm_event fg (dial_failure peer) = done (one_dial_failure fg peer)
on_swarm_event fg listen_failure = done fg
on_swarm_event fg new_listener = done fg
on_swarm_event fg new_listen_addr = done fg
on_swarm_event fg expired_listen_addr = done fg
on_swarm_event fg listener_error = done fg
on_swarm_event fg listener_closed = done fg
on_swarm_event fg new_external_addr = done fg
on_swarm_event fg expired_external_addr = done fg
