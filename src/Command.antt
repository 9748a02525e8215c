-- ===== src/Command.antt =====
-- src/command.rs and src/error.rs: commands, their results, and how a line is read.
mod Split
pub mod Words
pub mod Arrows
pub mod RoundTrip
pub mod Sound
mod Tests
pub use Split.{codes}
use file_sharing_example.Common.{ℕ, List, [], ◌∷◌, ◌++◌, drop, ◌==◌, list_eq, if◌then◌else◌}
use file_sharing_example.FileGet.Types.{Text, Multiaddr}
use Split.{split_whitespace, starts_with, split_arrow}

pub record Register : Type 0 where
  pub user_name : Text

pub record ListFiles : Type 0 where
  pub user_name : Text

pub record GetFile : Type 0 where
  pub user_name : Text
  pub file_name : Text

pub data Command : Type 0 where
  register : Register → Command
  list_peers : Command
  list_files : ListFiles → Command
  get_file : GetFile → Command

-- The payloads of `io` and `dial_error` are values of other crates.
pub data FileSharingError : Type 0 where
  invalid_command : FileSharingError
  io dial_error : ℕ → FileSharingError
  rendezvous_point_not_connected namespace_too_long : FileSharingError
  listen_error : Multiaddr → FileSharingError
  user_not_registered : Text → FileSharingError

pub data Result (A : Type 0) : Type 0 where
  ok : A → Result A
  err : FileSharingError → Result A

infixl 5 ◌>>=◌
abbrev pub ◌>>=◌ : {A B : Type 0} → Result A → (A → Result B) → Result B
ok a >>= f = f a
err e >>= f = err e

-- `parts.next().ok_or(InvalidCommand)?`, with the parts that are left.
abbrev next_part : List Text → Result (Text × List Text)
next_part [] = err invalid_command
next_part (part ∷ parts) = ok (part, parts)

parse_register : List Text → Result Command
parse_register parts = do
  (user_name, _) ← next_part parts
  ok (register (record { user_name = user_name }))

parse_get : List Text → Result Command
parse_get parts = do
  (user_name, rest) ← next_part parts
  (file_name, _) ← next_part rest
  ok (get_file (record { user_name = user_name; file_name = file_name }))

-- The `match` of `from_str` on the first word.
pub parse_command : Text → List Text → Result Command
unfolding parse_register parse_get starts_with split_arrow
parse_command command parts =
    if command == codes "register"
    then parse_register parts
    else if command == codes "ls_peers"
    then ok list_peers
    else if starts_with (codes "ls@") command
    then ok (list_files (record { user_name = drop 3 command }))
    else if starts_with (codes "get@") command
    then parse_get (split_arrow (drop 4 command))
    else err invalid_command

unfoldable pub from_str : Text → Result Command
unfolding parse_command split_whitespace
from_str s = do (command, parts) ← next_part (split_whitespace s); parse_command command parts
