-- ===== src/FileGet/Connections.antt =====
-- file-get/src/lib.rs: `Connection` and the searches in a peer's list of connections.
pub mod Laws
use file_sharing_example.Common.{
  Bool, true, false, Option, none, some, List, [], ◌∷◌, set_insert, set_remove, ◌==◌, nat_eq,
  if◌then◌else◌,
}
use file_sharing_example.FileGet.Types.{ConnectionId, Multiaddr, RequestId}

pub record Connection : Type 0 where
  pub id : ConnectionId
  pub address : Option Multiaddr
  pub pending_outbound_responses : List RequestId
  pub pending_inbound_responses : List RequestId

unfoldable pub new_connection : ConnectionId → Option Multiaddr → Connection
new_connection id address = record {
  id = id;
  address = address;
  pending_outbound_responses = [];
  pending_inbound_responses = [];
}

-- `iter_mut().find(|c| c.id == connection_id)`: what is found,
unfoldable pub find_connection : ConnectionId → List Connection → Option Connection
find_connection id [] = none
find_connection id (c ∷ cs) = if c.id == id then some c else find_connection id cs

-- and the list after a write through it.
unfoldable pub update_connection :
    ConnectionId → (Connection → Connection) → List Connection → List Connection
update_connection id f [] = []
update_connection id f (c ∷ cs) = if c.id == id then f c ∷ cs else c ∷ update_connection id f cs

-- `position` and `remove`: the list without the connection that `find_connection` finds.
unfoldable pub remove_connection : ConnectionId → List Connection → List Connection
remove_connection id [] = []
remove_connection id (c ∷ cs) = if c.id == id then cs else c ∷ remove_connection id cs

-- `conn.pending_inbound_responses.insert(id)`, and the same for the other set.
unfoldable pub await_response : RequestId → Connection → Connection
await_response id c = record c {
  pending_inbound_responses = set_insert id c.pending_inbound_responses;
}

unfoldable pub owe_response : RequestId → Connection → Connection
owe_response id c = record c {
  pending_outbound_responses = set_insert id c.pending_outbound_responses;
}

-- `conn.pending_inbound_responses.remove(id)`, and the same for the other set.
abbrev pub drop_inbound : RequestId → Connection → Connection
drop_inbound id c = record c {
  pending_inbound_responses = set_remove id c.pending_inbound_responses;
}

abbrev pub drop_outbound : RequestId → Connection → Connection
drop_outbound id c = record c {
  pending_outbound_responses = set_remove id c.pending_outbound_responses;
}
