-- ===== src/Network/Outcomes.antt =====
-- How `handle_command` of src/network/mod.rs may leave a command: answered, or asked for and pending.
use file_sharing_example.Common.{◌≡◌, [], ◌∷◌, ◌++◌, none, some, insert, lookup, nat_eq}
use file_sharing_example.FileGet.Types.{PeerId, Text, Writer, fine}
use file_sharing_example.FileGet.Behaviour.{send_request}
use file_sharing_example.Command.{
  Command, register, list_peers, list_files, get_file, Register, ListFiles, GetFile,
  user_not_registered, Result, err,
}
use file_sharing_example.Network.Types.{
  CommandResponse, CommandRequest, Rendezvous, World, join, EventLoop, register_at, discover_at,
  request_files,
}
use file_sharing_example.Network.Replies.{IsReply}

module _ (r : Rendezvous) (w : World) where
  open r use {Namespace, namespace_eq, new}

  -- The user name is that of a namespace, and the loop knows its peer.
  pub record IsAt (l : EventLoop Namespace) (user_name : Text) (peer : PeerId) : Type 0 where
    pub namespace : Namespace
    pub named : new user_name ≡ some namespace
    pub found : lookup ⦃e = namespace_eq⦄ namespace l.namespace_peers ≡ some peer

  -- The loop knows no peer for the user name.
  abbrev pub IsNowhere : EventLoop Namespace → Text → Type 0
  IsNowhere l user_name =
      (ns : Namespace)
      → new user_name ≡ some ns
      → lookup ⦃e = namespace_eq⦄ ns l.namespace_peers ≡ none

  module _ (l : EventLoop Namespace) (req : CommandRequest) (l' : EventLoop Namespace) where
    -- The registration is passed to the rendezvous point, under the namespace of the user name.
    pub record Registers (c : Register) : Type 0 where
      pub namespace : Namespace
      pub named : new c.user_name ≡ some namespace
      pub point : PeerId
      pub at : l.rendezvous_point_peer_id ≡ some point
      pub asked : l'.calls ≡ l.calls ++ register_at namespace point ∷ []

    -- Why a command was answered at once, and what was asked for it.
    abbrev pub Settles : Command → Result CommandResponse → Type 0
    Settles (register c) result = Registers c
    Settles list_peers result = ⊥
    Settles (list_files c) result =
        IsNowhere l c.user_name
        × (l'.calls ≡ l.calls)
        × (result ≡ err (user_not_registered c.user_name))
    Settles (get_file c) result =
        IsNowhere l c.user_name
        × (l'.calls ≡ l.calls)
        × (result ≡ err (user_not_registered c.user_name))

    -- The command was answered at once, and the books are as they were.
    pub record IsAnswered (c : Command) : Type 0 where
      pub result : Result CommandResponse
      pub fits : IsReply req.command_request_id c result
      pub why : Settles c result
      pub said : l'.answers ≡ l.answers ++ (req.response_sender, result) ∷ []
      pub same : l'.file_get ≡ l.file_get
      pub pend : l'.pending_command_requests ≡ l.pending_command_requests
      pub gets : l'.pending_file_gets ≡ l.pending_file_gets
      pub lists : l'.pending_list_files ≡ l.pending_list_files

    -- The rendezvous point is asked for the peers.
    pub record AsksPeers : Type 0 where
      pub point : PeerId
      pub at : l.rendezvous_point_peer_id ≡ some point
      pub asked : l'.calls ≡ l.calls ++ discover_at point ∷ []
      pub gets : l'.pending_file_gets ≡ l.pending_file_gets
      pub lists : l'.pending_list_files ≡ l.pending_list_files

    -- The user's peer is asked for its files, and the id of this request leads to the command.
    pub record AsksFiles (c : ListFiles) : Type 0 where
      pub peer : PeerId
      pub at : IsAt l c.user_name peer
      pub asked : l'.calls ≡ l.calls ++ request_files peer w.list_request_id ∷ []
      pub gets : l'.pending_file_gets ≡ l.pending_file_gets
      pub lists :
          l'.pending_list_files
          ≡ insert w.list_request_id req.command_request_id l.pending_list_files

    -- The user's peer is asked for the file, to be written to the local file of that name, and the id
    -- that `send_request` gives leads to the command.
    pub record AsksFile (c : GetFile) : Type 0 where
      pub peer : PeerId
      pub at : IsAt l c.user_name peer
      pub writer : Writer
      pub opened : w.open_write (join l.sharing_dir c.file_name) ≡ fine writer
      pub asked :
          l'.file_get ≡ (send_request l.file_get peer (record { file_name = c.file_name }) writer).0
      pub gets :
          l'.pending_file_gets
          ≡ insert
              (send_request l.file_get peer (record { file_name = c.file_name }) writer).1
              req.command_request_id
              l.pending_file_gets
      pub lists : l'.pending_list_files ≡ l.pending_list_files

    -- What was asked for a command that was not answered.
    abbrev pub Asks : Command → Type 0
    Asks (register _) = ⊥
    Asks list_peers = AsksPeers
    Asks (list_files c) = AsksFiles c
    Asks (get_file c) = AsksFile c

    -- The command is pending under its id, and what it needs was asked.
    pub record IsKept (c : Command) : Type 0 where
      pub silent : l'.answers ≡ l.answers
      pub pend :
          l'.pending_command_requests ≡ insert req.command_request_id req l.pending_command_requests
      pub asks : Asks c
