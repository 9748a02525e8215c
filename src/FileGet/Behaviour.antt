-- ===== src/FileGet/Behaviour.antt =====
-- file-get/src/lib.rs: `FileGet`, its methods and its `NetworkBehaviour`.
pub mod Entries
use file_sharing_example.Common.{
  ◌%◌, Option, none, some, List, [], ◌∷◌, ◌++◌, Map, lookup, insert, remove, length, get_or, modify,
  is_empty, ◌==◌, nat_eq, if◌then◌else◌,
}
use file_sharing_example.FileGet.Types.{
  PeerId, ConnectionId, Multiaddr, Writer, RequestId, usize_mod, FileGetMessage, FileGetEvent,
  FileGetConfig, RequestIdGenerator, new_generator, next_id,
}
use file_sharing_example.FileGet.Protocol.{FileGetOutboundProtocol}
use file_sharing_example.FileGet.Handler.{Handler, new_handler}
use file_sharing_example.FileGet.Connections.{Connection, await_response}

-- `libp2p_swarm::NetworkBehaviourAction`, as far as the code builds it.
pub data Action : Type 0 where
  generate_event : FileGetEvent → Action
  dial : PeerId → Handler → Action
  notify_handler : PeerId → ConnectionId → FileGetOutboundProtocol → Action

-- The state of the shared `inbound_id_generator` is kept here.
pub record FileGet : Type 0 where
  pub requset_id_generator : RequestIdGenerator
  pub inbound_id_generator : RequestIdGenerator
  pub config : FileGetConfig
  pub connected : Map PeerId (List Connection)
  pub pending_events : List Action
  pub pending_outbound_requests : Map PeerId (List FileGetOutboundProtocol)
  pub addresses : Map PeerId (List Multiaddr)

-- What an `expect` or a `debug_assert!` makes of a call.
pub data Outcome (A : Type 0) : Type 0 where
  done : A → Outcome A
  panicked : Outcome A

unfoldable pub from_config : FileGetConfig → FileGet
unfolding new_generator
from_config config = record {
  requset_id_generator = new_generator;
  inbound_id_generator = new_generator;
  config = config;
  connected = [];
  pending_events = [];
  pending_outbound_requests = [];
  addresses = [];
}

-- `pending_events.push_back`
unfoldable pub push_action : Action → FileGet → FileGet
push_action a fg = record fg { pending_events = fg.pending_events ++ a ∷ [] }

-- `entry(key).or_default()`: the list at the key.
unfoldable pub entry : {V : Type 0} → PeerId → Map PeerId (List V) → List V
entry peer m = elim (lookup peer m) [ none ↦ [] | some vs ↦ vs ]

-- `entry(key).or_default().push(value)`
unfoldable pub push_entry : {V : Type 0} → PeerId → V → Map PeerId (List V) → Map PeerId (List V)
unfolding entry insert
push_entry peer v m = insert peer (entry peer m ++ v ∷ []) m

unfoldable pub behaviour_new_handler : FileGet → Handler
unfolding new_handler
behaviour_new_handler fg = new_handler fg.config.timeout

-- The branch of `try_send_request` where the list `c ∷ cs` of connections is not empty. The index
-- is in range, so the default `c` of `get_or` is never taken.
unfoldable pub send_over :
    FileGet → PeerId → FileGetOutboundProtocol → Connection → List Connection → FileGet
unfolding await_response push_action
send_over fg peer req c cs =
    let idx = req.request_id % usize_mod % length (c ∷ cs) in
    let conns = modify (c ∷ cs) idx (await_response req.request_id) in
    push_action (notify_handler peer (get_or (c ∷ cs) idx c).id req)
      (record fg { connected = insert peer conns fg.connected })

unfoldable pub try_send_request :
    FileGet → PeerId → FileGetOutboundProtocol → FileGet × Option FileGetOutboundProtocol
unfolding send_over
try_send_request fg peer req = elim (lookup peer fg.connected) [
  | none ↦ (fg, some req)
  | some [] ↦ (fg, some req)
  | some (c ∷ cs) ↦ (send_over fg peer req c cs, none)
]

-- The `if let Some(request)` of `send_request`: dial, and keep the request.
unfoldable pub dial_and_keep : PeerId → FileGet × Option FileGetOutboundProtocol → FileGet
unfolding push_action behaviour_new_handler push_entry
dial_and_keep peer (fg, none) = fg
dial_and_keep peer (fg, some req) =
    let fg' = push_action (dial peer (behaviour_new_handler fg)) fg in
    record fg' { pending_outbound_requests = push_entry peer req fg'.pending_outbound_requests }

unfoldable pub send_request : FileGet → PeerId → FileGetMessage → Writer → FileGet × RequestId
unfolding dial_and_keep next_id
send_request fg peer message file_writer =
    let (g, id) = next_id fg.requset_id_generator in
    let req : FileGetOutboundProtocol = record {
      request_id = id;
      file_name = message.file_name;
      file_writer = file_writer;
    } in
    (dial_and_keep peer (try_send_request (record fg { requset_id_generator = g }) peer req), id)

unfoldable pub add_address : FileGet → PeerId → Multiaddr → FileGet
unfolding push_entry
add_address fg peer address = record fg { addresses = push_entry peer address fg.addresses }

-- `retain(|addr| addr != address)`
retain_other : Multiaddr → List Multiaddr → List Multiaddr
retain_other address [] = []
retain_other address (a ∷ rest_of) =
    let rest = retain_other address rest_of in if a == address then rest else a ∷ rest

unfoldable pub remove_address : FileGet → PeerId → Multiaddr → FileGet
unfolding retain_other
remove_address fg peer address = elim (lookup peer fg.addresses) [
  | none ↦ fg
  | some addresses ↦
      let kept = retain_other address addresses in
      if is_empty kept
      then record fg { addresses = remove peer fg.addresses }
      else record fg { addresses = insert peer kept fg.addresses }
]
