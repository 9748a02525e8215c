-- ===== src/Network/Answering.antt =====
-- How the event loop of src/network/mod.rs answers the commands that are pending.
use file_sharing_example.Common.{
  ℕ, ◌≡◌, refl, Bool, true, none, some, List, [], ◌∷◌, ◌++◌, lookup, remove, lookup-remove, nat_eq,
  arith,
}
use file_sharing_example.FileGet.Types.{PeerId, RequestId, Text, response_received}
use file_sharing_example.Command.{Command, register, list_peers, list_files, get_file, GetFile, ok}
use file_sharing_example.Network.Types.{
  CommandResult, CommandRequest, Rendezvous, World, EventLoop, returned,
}
use file_sharing_example.Network.Behaviour.{list_files_response, file_get_event}
use file_sharing_example.Network.Events.{
  respond, forget, finish_get, on_list_files_response, on_response_received, on_file_get,
  handle_event,
}
use file_sharing_example.Network.Pending.{is_get_file, IsBooked}

pub get_file_of : (c : Command) → is_get_file c ≡ true → (g : GetFile) × (c ≡ get_file g)
get_file_of (get_file g) h = (g, refl)
get_file_of (register _) h = cc
get_file_of list_peers h = cc
get_file_of (list_files _) h = cc

-- `l'` is `l` with one more answer, and without the pending command under `key`.
pub record Answers {N : Type 0} (l l' : EventLoop N) (key : ℕ) (result : CommandResult)
    : Type 0 where
  pub request : CommandRequest
  pub waited : lookup key l.pending_command_requests ≡ some request
  pub said :
      l'.answers
      ≡ l.answers
        ++ (request.response_sender, ok (record { command_request_id = key; result = result })) ∷ []
  pub gone : lookup key l'.pending_command_requests ≡ none

-- A response to a file request that is pending never panics, in a debug build or a release build: it
-- answers the command that asked for the file, once, with the user and the file that the command
-- named, and the command and its request are no longer pending.
pub response_received-Answers :
    (r : Rendezvous) (debug : Bool) (w : World) (l : EventLoop r.Namespace) (peer : PeerId)
    (id : RequestId) (key : ℕ)
    → IsBooked l
    → lookup id l.pending_file_gets ≡ some key
    → (c : GetFile) × (req : CommandRequest) × (l' : EventLoop r.Namespace) × (lookup key
          l.pending_command_requests
        ≡ some req)
      × (req.command ≡ get_file c)
      × (handle_event r debug w l (file_get_event (response_received peer id)) ≡ returned l')
      × Answers l l' key (CommandResult.get_file c.user_name c.file_name)
      × (lookup id l'.pending_file_gets ≡ none)
unfolding handle_event on_file_get on_response_received finish_get respond forget
response_received-Answers r debug w l peer id key h link =
    let (req, waited, kind) = h.gets.leads id key link in
    let (c, is_get) = get_file_of req.command kind in
    let l' =
      respond req key (CommandResult.get_file c.user_name c.file_name)
        (forget key (record l { pending_file_gets = remove id l.pending_file_gets })) in
    (
      c,
      req,
      l',
      waited,
      is_get,
      rw (link, on_response_received, waited, is_get, finish_get),
      record {
        request = req;
        waited = waited;
        said = refl;
        gone = ground (arith, lookup-remove key key l.pending_command_requests);
      },
      ground (arith, lookup-remove id id l.pending_file_gets),
    )

-- A response to a list request that is pending answers the command that asked for the list, once,
-- with the names of the response, and the command and its request are no longer pending.
pub list_files_response-Answers :
    (r : Rendezvous) (debug : Bool) (w : World) (l : EventLoop r.Namespace) (peer : PeerId)
    (id key : ℕ) (names : List Text)
    → IsBooked l
    → lookup id l.pending_list_files ≡ some key
    → (l' : EventLoop r.Namespace) × (handle_event r debug w l (list_files_response peer id names)
        ≡ returned l')
      × Answers l l' key (CommandResult.list_files names)
      × (lookup id l'.pending_list_files ≡ none)
unfolding handle_event on_list_files_response respond forget
list_files_response-Answers r debug w l peer id key names h link =
    let (req, waited, kind) = h.lists.leads id key link in
    let l' =
      respond req key (CommandResult.list_files names)
        (forget key (record l { pending_list_files = remove id l.pending_list_files })) in
    (
      l',
      rw (link, on_list_files_response, waited),
      record {
        request = req;
        waited = waited;
        said = refl;
        gone = ground (arith, lookup-remove key key l.pending_command_requests);
      },
      ground (arith, lookup-remove id id l.pending_list_files),
    )
