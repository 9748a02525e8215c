-- ===== src/Network/Replies.antt =====
-- Which answers of src/network/mod.rs fit a command of src/command.rs.
use file_sharing_example.Common.{ℕ, ◌≡◌}
use file_sharing_example.FileGet.Types.{Text}
use file_sharing_example.Command.{
  Command, register, list_peers, list_files, get_file, user_not_registered, Result, ok, err,
}
use file_sharing_example.Network.Types.{CommandResult, CommandResponse}

-- The result is one for the command: of its kind, and for a file with the user and the file that the
-- command names.
abbrev pub IsResult : Command → CommandResult → Type 0
IsResult (register _) CommandResult.register = Unit
IsResult list_peers (CommandResult.list_peers _) = Unit
IsResult (list_files _) (CommandResult.list_files _) = Unit
IsResult (get_file c) (CommandResult.get_file user_name file_name) =
    (user_name ≡ c.user_name) × (file_name ≡ c.file_name)
IsResult _ _ = ⊥

-- The command names the user.
abbrev pub Names : Command → Text → Type 0
Names (list_files c) user_name = user_name ≡ c.user_name
Names (get_file c) user_name = user_name ≡ c.user_name
Names _ _ = ⊥

-- A reply to the command with the id: a result for it, with its id, or that the user whom it names is
-- not registered.
abbrev pub IsReply : ℕ → Command → Result CommandResponse → Type 0
IsReply id c (ok response) = (response.command_request_id ≡ id) × IsResult c response.result
IsReply id c (err (user_not_registered user_name)) = Names c user_name
IsReply id c (err _) = ⊥
