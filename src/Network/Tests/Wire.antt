-- ===== src/Network/Tests/Wire.antt =====
-- A list of files from one peer to another, with a simple encoding: each code point plus one, and a
-- zero behind each name.
use file_sharing_example.Common.{
  ℕ, suc, zero, ◌≡◌, refl, ap, ◌∙◌, true, false, Option, none, some, List, [], ◌∷◌, ◌++◌, nat_eq,
  arith,
}
use file_sharing_example.FileGet.Types.{Text, IoResult, fine}
use file_sharing_example.FileGet.Upgrades.{Bytes, Framing}
use file_sharing_example.FileGet.Upgrades.Exchange.{IsFaithful}
use file_sharing_example.Network.Types.{
  CommandResult, DirEntry, World, respond_files, EventLoop, returned,
}
use file_sharing_example.Network.Behaviour.{list_files_request, list_files_response}
use file_sharing_example.Network.Events.{handle_event}
use file_sharing_example.Network.Pending.{handle_command-IsBooked}
use file_sharing_example.Network.Answering.{Answers}
use file_sharing_example.Network.Codec.{
  ListFilesResponse, read_response, write_response, read_response-write_response,
  list_files_end_to_end, IsListing, nothing, directory, file,
}
use file_sharing_example.Network.Tests.{
  names, world, idle, idle-IsBooked, look, looking, look_free, look_returns, look_linked,
}

abbrev write_name : Text → Bytes → Bytes
write_name [] rest = 0 ∷ rest
write_name (c ∷ cs) rest = suc c ∷ write_name cs rest

abbrev write_names : List Text → Bytes
write_names [] = []
write_names (t ∷ ts) = write_name t (write_names ts)

abbrev onto_first : ℕ → List Text → List Text
onto_first c [] = (c ∷ []) ∷ []
onto_first c (t ∷ ts) = (c ∷ t) ∷ ts

abbrev read_names : Bytes → List Text
read_names [] = []
read_names (zero ∷ bytes) = [] ∷ read_names bytes
read_names (suc c ∷ bytes) = onto_first c (read_names bytes)

read_names-write_name :
    (t : Text) (rest : Bytes) → read_names (write_name t rest) ≡ t ∷ read_names rest
read_names-write_name [] rest = refl
read_names-write_name (c ∷ cs) rest = ap (onto_first c) (read_names-write_name cs rest)

read_names-write_names : (ts : List Text) → read_names (write_names ts) ≡ ts
read_names-write_names [] = refl
read_names-write_names (t ∷ ts) =
    read_names-write_name t (write_names ts) ∙ ap (λ x. t ∷ x) (read_names-write_names ts)

abbrev unframe : Bytes → IoResult (Option Bytes)
unframe [] = fine none
unframe (_ ∷ bytes) = fine (some bytes)

abbrev plain : Framing ListFilesResponse
plain = record {
  encode = λ m. write_names m.file_names;
  decode = λ bytes. some (record { file_names = read_names bytes });
  send = λ bytes. fine (0 ∷ bytes);
  next = unframe;
}

plain-IsFaithful : IsFaithful plain
plain-IsFaithful = record {
  decode-encode =
      λ m. ap (λ x. some (record { file_names = x })) (read_names-write_names m.file_names);
  next-send = λ bytes wire e. ground arith;
}

abbrev dir_entries : List DirEntry
dir_entries =
    record { file_name = b'r' ∷ []; is_dir = false }
    ∷ record { file_name = b's' ∷ []; is_dir = true }
    ∷ []

abbrev shares : World
shares = record world { read_dir = λ path. fine dir_entries }

abbrev wire : Bytes
wire = 0 ∷ write_names ((b'r' ∷ []) ∷ [])

-- The file, and not the directory.
abbrev shown : List Text
shown = (b'r' ∷ []) ∷ []

shown-IsListing : IsListing dir_entries shown
shown-IsListing = file refl (directory refl nothing)

wire_sent : write_response plain (record { file_names = shown }) ≡ fine wire
unfolding write_response
wire_sent = refl

read_response-write_response_example :
    read_response plain wire ≡ fine (record { file_names = shown })
read_response-write_response_example =
    read_response-write_response plain (record { file_names = shown }) wire plain-IsFaithful
      wire_sent

list_files_end_to_end_example :
    ((s : EventLoop Text) × (handle_event names true shares idle (list_files_request 7 20)
        ≡ returned s)
      × (s.calls ≡ idle.calls ++ respond_files 20 shown ∷ []))
    × ((response : ListFilesResponse) × (read_response plain wire ≡ fine response)
        × ((a : EventLoop Text) × (handle_event names true shares looking
                (list_files_response 7 30 response.file_names)
              ≡ returned a)
            × Answers looking a 2 (CommandResult.list_files shown)))
list_files_end_to_end_example =
    list_files_end_to_end plain names true shares idle looking 7 7 20 dir_entries shown wire 30 2
      plain-IsFaithful shown-IsListing refl wire_sent
      (handle_command-IsBooked names world idle look look_free idle-IsBooked look_returns)
      look_linked
