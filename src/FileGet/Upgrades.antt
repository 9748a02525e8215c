-- ===== src/FileGet/Upgrades.antt =====
-- file-get/src/protocol.rs: the upgrades of a substream, which ask for a file and send it.
pub mod Exchange
mod Tests
use file_sharing_example.Common.{ℕ, Bool, true, false, Option, none, some, List, [], ◌++◌}
use file_sharing_example.FileGet.Types.{RequestId, FileGetMessage, IoResult, fine, io_error}
use file_sharing_example.FileGet.Protocol.{FileGetOutboundProtocol}
use file_sharing_example.FileGet.Behaviour.{Outcome, done, panicked}

abbrev pub Bytes : Type 0
Bytes = List ℕ

-- A message of `prost` and the `LengthDelimitedCodec` of `tokio_util`: `send` gives the bytes that a
-- `FramedWrite` puts on the wire for one frame, `next` what a `FramedRead` makes of the bytes on it.
pub record Framing (Message : Type 0) : Type 0 where
  pub encode : Message → Bytes
  pub decode : Bytes → Option Message
  pub send : Bytes → IoResult Bytes
  pub next : Bytes → IoResult (Option Bytes)

-- `tokio::io::copy`: from the bytes that the reader gives until it ends, those that the writer took.
abbrev pub Copy : Type 0
Copy = Bytes → IoResult Bytes

infixl 5 ◌>>=◌
abbrev ◌>>=◌ : {A B : Type 0} → IoResult A → (A → IoResult B) → IoResult B
fine a >>= f = f a
io_error e >>= f = io_error e

-- `ErrorKind::UnexpectedEof`
abbrev pub unexpected_eof : ℕ
unexpected_eof = 0

-- `FileGetMessage::decode(data).map_err(..)`, and the `Err` where no frame has come.
unfoldable pub decode_frame : {Message : Type 0} → Framing Message → Option Bytes → IoResult Message
decode_frame f none = io_error unexpected_eof
decode_frame f (some bytes) = elim (f.decode bytes) [
  | none ↦ io_error unexpected_eof
  | some message ↦ fine message
]

unfoldable pub receive_message : {Message : Type 0} → Framing Message → Bytes → IoResult Message
unfolding decode_frame
receive_message f wire = do frame ← f.next wire; decode_frame f frame

unfoldable pub send_message : {Message : Type 0} → Framing Message → Message → IoResult Bytes
send_message f message = f.send (f.encode message)

-- `upgrade_outbound`, where the remote peer sends `incoming` until it closes: the bytes that go out,
-- and those that the file gets.
unfoldable pub upgrade_outbound :
    Framing FileGetMessage → Copy → FileGetOutboundProtocol → Bytes → IoResult (Bytes × Bytes)
unfolding send_message
upgrade_outbound f copy req incoming = do
  wire ← send_message f (record { file_name = req.file_name })
  file ← copy incoming
  fine (wire, file)

-- The end of `upgrade_inbound`, on what the receiver of the response gives: none if its sender was
-- dropped, which the `expect` makes a panic, else the contents of the file.
unfoldable pub send_file : Copy → Option Bytes → Outcome (IoResult (Bool × Bytes))
send_file copy none = panicked
send_file copy (some contents) = done (do out ← copy contents; fine (true, out))

-- `upgrade_inbound`: the request that goes to the handler, and how the upgrade ends, with the bytes
-- that go out.
unfoldable pub upgrade_inbound :
    Framing FileGetMessage
    → Copy
    → RequestId
    → Bytes
    → Option Bytes
    → Option (RequestId × FileGetMessage) × Outcome (IoResult (Bool × Bytes))
unfolding receive_message send_file
upgrade_inbound f copy id wire response = elim (receive_message f wire) [
  | io_error e ↦ (none, done (io_error e))
  | fine message ↦ (some (id, message), send_file copy response)
]
