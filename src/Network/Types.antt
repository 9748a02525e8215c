-- ===== src/Network/Types.antt =====
-- src/command.rs and src/network/mod.rs: requests, answers and the state of the event loop.
use file_sharing_example.Common.{
  ℕ, Bool, true, false, Option, none, some, List, [], ◌∷◌, ◌++◌, Map, Eq, lookup, ◌==◌, nat_eq,
  if◌then◌else◌,
}
pub use file_sharing_example.FileGet.Types.{IoResult, fine, io_error}
use file_sharing_example.FileGet.Types.{PeerId, Multiaddr, Channel, Writer, RequestId, Text}
use file_sharing_example.FileGet.Behaviour.{FileGet}
use file_sharing_example.Command.{Command, FileSharingError, Result}

pub data CommandResult : Type 0 where
  register : CommandResult
  list_peers list_files : List Text → CommandResult
  get_file : Text → Text → CommandResult

pub record CommandResponse : Type 0 where
  pub command_request_id : ℕ
  pub result : CommandResult

pub record CommandRequest : Type 0 where
  pub command_request_id : ℕ
  pub command : Command
  pub response_sender : Channel

-- A path, as the code points of its text.
abbrev pub FilePath : Type 0
FilePath = Text

ends_open : FilePath → Bool
ends_open [] = true
ends_open (c ∷ []) = c == b'/'
ends_open (c ∷ d ∷ p) = ends_open (d ∷ p)

unfoldable pub is_absolute : FilePath → Bool
is_absolute [] = false
is_absolute (c ∷ p) = c == b'/'

-- `PathBuf::push` and `join` on Unix: an absolute path takes the place of the directory.
unfoldable pub join : FilePath → Text → FilePath
unfolding ends_open is_absolute
join dir name =
    if is_absolute name then name else if ends_open dir then dir ++ name else dir ++ b'/' ∷ name

-- `libp2p::rendezvous::Namespace`, of another crate: `new` refuses a name that is too long.
pub record Rendezvous : Type 1 where
  pub Namespace : Type 0
  pub namespace_eq : Eq Namespace
  pub new : Text → Option Namespace
  pub to_string : Namespace → Text

-- `tokio::fs::DirEntry`: its name, read by `to_string_lossy`, and whether its path is a directory.
pub record DirEntry : Type 0 where
  pub file_name : Text
  pub is_dir : Bool

-- What the world answers while an event is handled: the file system, and the id that the
-- `RequestResponse` behaviour gives to a request. A number stands for an `io::Error`, or for a file.
pub record World : Type 0 where
  pub open_write : FilePath → IoResult Writer
  pub open_read : FilePath → IoResult ℕ
  pub read_dir : FilePath → IoResult (List DirEntry)
  pub list_request_id : ℕ

-- What the loop asks of the other behaviours of the swarm.
pub data SwarmCall (N : Type 0) : Type 0 where
  register_at : N → PeerId → SwarmCall N
  discover_at : PeerId → SwarmCall N
  request_files : PeerId → ℕ → SwarmCall N
  respond_files : Channel → List Text → SwarmCall N

-- `calls`, `answers` and `served` record what was sent: to the other behaviours, to the clients
-- through their response senders, and to remote peers.
pub record EventLoop (N : Type 0) : Type 0 where
  pub file_get : FileGet
  pub rendezvous_point_address : Multiaddr
  pub rendezvous_point_peer_id : Option PeerId
  pub namespace_peers : Map N PeerId
  pub pending_command_requests : Map ℕ CommandRequest
  pub pending_list_files : Map ℕ ℕ
  pub pending_file_gets : Map RequestId ℕ
  pub sharing_dir : FilePath
  pub calls : List (SwarmCall N)
  pub answers : List (Channel × Result CommandResponse)
  pub served : List (Channel × ℕ)

-- A handler returns, or fails, which ends the loop, or panics.
pub data Step (N : Type 0) : Type 0 where
  returned : EventLoop N → Step N
  failed : FileSharingError → EventLoop N → Step N
  panicked : Step N

-- `response_sender.send(answer)`
unfoldable pub answer : {N : Type 0} → Channel → Result CommandResponse → EventLoop N → EventLoop N
answer sender a l = record l { answers = l.answers ++ (sender, a) ∷ [] }

unfoldable pub call : {N : Type 0} → SwarmCall N → EventLoop N → EventLoop N
call c l = record l { calls = l.calls ++ c ∷ [] }

module _ (r : Rendezvous) where
  open r use {Namespace, namespace_eq, new}

  unfoldable pub get_peer_id : EventLoop Namespace → Text → Option PeerId
  get_peer_id l user_name = elim (new user_name) [
    | none ↦ none
    | some namespace ↦ lookup ⦃e = namespace_eq⦄ namespace l.namespace_peers
  ]
