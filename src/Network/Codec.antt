-- ===== src/Network/Codec.antt =====
-- src/network/protocol.rs: `ListFilesCodec`, and a list of files from one peer to another.
use file_sharing_example.Common.{
  ℕ, ◌≡◌, refl, Bool, true, false, arith, none, some, List, [], ◌∷◌, ◌++◌, lookup, nat_eq,
}
use file_sharing_example.FileGet.Types.{PeerId, Text, Channel, IoResult, fine, io_error}
use file_sharing_example.FileGet.Upgrades.{Bytes, Framing, unexpected_eof}
use file_sharing_example.FileGet.Upgrades.Exchange.{IsFaithful}
use file_sharing_example.Network.Types.{
  CommandResult, Rendezvous, World, DirEntry, respond_files, EventLoop, returned, call,
}
use file_sharing_example.Network.Behaviour.{list_files_request, list_files_response}
use file_sharing_example.Network.Events.{file_names, on_list_files_request, handle_event}
use file_sharing_example.Network.Pending.{IsBooked}
use file_sharing_example.Network.Answering.{Answers, list_files_response-Answers}

pub record ListFilesRequest : Type 0 where

pub record ListFilesResponse : Type 0 where
  pub file_names : List Text

-- The request is empty, so nothing is read for it and nothing written.
abbrev read_request : Bytes → IoResult ListFilesRequest
read_request wire = fine (record {})

abbrev write_request : ListFilesRequest → IoResult Bytes
write_request request = fine []

-- `if let Some(buf) = reader.next().await`, where an error of the reader is the answer.
unfoldable pub read_response : Framing ListFilesResponse → Bytes → IoResult ListFilesResponse
read_response f wire = elim (f.next wire) [
  | io_error e ↦ io_error e
  | fine none ↦ io_error unexpected_eof
  | fine (some bytes) ↦ elim (f.decode bytes) [
    | none ↦ io_error unexpected_eof
    | some response ↦ fine response
  ]
]

-- `encode` into a buffer that grows does not fail.
unfoldable pub write_response : Framing ListFilesResponse → ListFilesResponse → IoResult Bytes
write_response f response = f.send (f.encode response)

-- A list of files that could be sent is read as it was sent.
pub read_response-write_response :
    (f : Framing ListFilesResponse) (response : ListFilesResponse) (wire : Bytes)
    → IsFaithful f
    → write_response f response ≡ fine wire
    → read_response f wire ≡ fine response
unfolding read_response write_response
read_response-write_response f response wire h e =
    rw (h.next-send (f.encode response) wire e, read_response, h.decode-encode response)

-- The names are those of the entries that are no directories, in the order of the entries.
pub data IsListing : List DirEntry → List Text → Type 0 where
  nothing : IsListing [] []
  directory :
      {entry : DirEntry} {entries : List DirEntry} {names : List Text}
      → entry.is_dir ≡ true
      → IsListing entries names
      → IsListing (entry ∷ entries) names
  file :
      {entry : DirEntry} {entries : List DirEntry} {names : List Text}
      → entry.is_dir ≡ false
      → IsListing entries names
      → IsListing (entry ∷ entries) (entry.file_name ∷ names)

file_names-eq :
    {entries : List DirEntry} {names : List Text}
    → IsListing entries names
    → file_names entries ≡ names
unfolding file_names
file_names-eq nothing = refl
file_names-eq (directory is h) = ground (arith, file_names-eq h)
file_names-eq (file is h) = ground (arith, file_names-eq h)

-- A list of files from end to end. Let the names be those of the entries of a directory that are no
-- directories, in order. A peer whose sharing directory holds these entries answers a request, once,
-- with these names; if they can be sent, the peer that asked reads exactly them, and, when the request
-- is one of its pending ones, the event answers the command that asked, once, with these names.
pub list_files_end_to_end :
    (f : Framing ListFilesResponse) (r : Rendezvous) (debug : Bool) (w : World)
    (serves asks : EventLoop r.Namespace) (from to : PeerId) (channel : Channel)
    (entries : List DirEntry) (names : List Text) (wire : Bytes) (id key : ℕ)
    → IsFaithful f
    → IsListing entries names
    → w.read_dir serves.sharing_dir ≡ fine entries
    → write_response f (record { file_names = names }) ≡ fine wire
    → IsBooked asks
    → lookup id asks.pending_list_files ≡ some key
    → ((s : EventLoop r.Namespace) × (handle_event r debug w serves
            (list_files_request from channel)
          ≡ returned s)
        × (s.calls ≡ serves.calls ++ respond_files channel names ∷ []))
      × ((response : ListFilesResponse) × (read_response f wire ≡ fine response)
          × ((a : EventLoop r.Namespace) × (handle_event r debug w asks
                  (list_files_response to id response.file_names)
                ≡ returned a)
              × Answers asks a key (CommandResult.list_files names)))
unfolding handle_event on_list_files_request call
list_files_end_to_end f r debug w serves asks from to channel entries names wire id key h lists dir
      sent booked link =
    let response : ListFilesResponse = record { file_names = names } in
    let (a, returns, answers, _) =
      list_files_response-Answers r debug w asks to id key names booked link in
    (
      (
        call (respond_files channel names) serves,
        rw (dir, on_list_files_request, file_names-eq lists),
        refl,
      ),
      (response, read_response-write_response f response wire h sent, (a, returns, answers)),
    )
