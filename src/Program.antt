-- ===== src/Program.antt =====
-- src/bin/file-sharing.rs: the loop over the lines of the user, with the client and the task of the
-- event loop of src/network/mod.rs that it starts, and the channels between them.
pub mod Sound
pub mod Safety
pub mod Ending
pub mod Dialogue
mod Tests
use file_sharing_example.Common.{
  ℕ, ◌+◌, ◌≡◌, ◌≢◌, Bool, none, some, List, [], ◌∷◌, ◌++◌, All, lookup, nat_eq,
}
use file_sharing_example.FileGet.Types.{Channel, Text}
use file_sharing_example.Command.{Command, FileSharingError, Result, ok, err, from_str}
use file_sharing_example.Network.Types.{
  CommandResponse, CommandRequest, Rendezvous, World, EventLoop, Step, returned, failed, panicked,
}
use file_sharing_example.Network.Behaviour.{SwarmEvent}
use file_sharing_example.Network.Client.{Client, send_command}
use file_sharing_example.Network.Commands.{handle_command}
use file_sharing_example.Network.Events.{handle_event}

-- The task that `tokio::spawn(event_loop.run())` starts. When it ends, the loop and the receiver of
-- the commands are dropped, and what it has answered can still be received.
pub data Task (N : Type 0) : Type 0 where
  running : EventLoop N → Task N
  ended : List (Channel × Result CommandResponse) → Task N

-- What the program prints: that a line is no command, or what `send_command` received for its request.
pub data Printed : Type 0 where
  not_a_command : FileSharingError → Printed
  received : CommandRequest → Result CommandResponse → Printed

-- Where the loop of `main` is: it awaits a line, or `send_command` awaits `response_receiver` of the
-- request, or its `unwrap` has panicked.
pub data Status : Type 0 where
  reading : Status
  waiting : CommandRequest → Status
  crashed : Status

-- `inbox` is what the channel of the commands holds, `output` what was printed; `next_channel` numbers
-- the `oneshot` channels.
pub record Session (N : Type 0) : Type 0 where
  pub client : Client
  pub task : Task N
  pub inbox : List CommandRequest
  pub status : Status
  pub next_channel : Channel
  pub output : List Printed

module _ {N : Type 0} where
  abbrev pub answers_of : Task N → List (Channel × Result CommandResponse)
  answers_of (running l) = l.answers
  answers_of (ended answers) = answers

  -- `main` once `new_network` has returned the client and the loop.
  unfoldable pub new_session : Client → EventLoop N → Session N
  new_session client l = record {
    client = client;
    task = running l;
    inbox = [];
    status = reading;
    next_channel = 0;
    output = [];
  }

  -- `command_request_sender.send`: without a receiver it fails, and the request is dropped.
  unfoldable pub send : CommandRequest → Task N → List CommandRequest → List CommandRequest
  send req (running l) inbox = inbox ++ req ∷ []
  send req (ended answers) inbox = inbox

  -- `send_command`, up to `response_receiver.await`.
  unfoldable pub begin_command : Command → Session N → Session N
  unfolding send_command send
  begin_command command s =
      let (client, req) = send_command s.client command s.next_channel in
      record s {
        client = client;
        inbox = send req s.task s.inbox;
        status = waiting req;
        next_channel = s.next_channel + 1;
      }

  unfoldable pub print_line : Printed → Session N → Session N
  print_line printed s = record s { output = s.output ++ printed ∷ [] }

  -- `handle_input`, and what `main` does with its error.
  unfoldable pub handle_input : Text → Session N → Session N
  unfolding from_str begin_command print_line
  handle_input line s = elim (from_str line) [
    | err error ↦ print_line (not_a_command error) s
    | ok command ↦ begin_command command s
  ]

  -- The end of `send_command`, once the answer is there.
  unfoldable pub finish_command : CommandRequest → Result CommandResponse → Session N → Session N
  unfolding print_line
  finish_command req answer s = print_line (received req answer) (record s { status = reading })

  -- What is left of the task and of the channel once a handler is through: an error ends `run`, and
  -- so does a panic, which sends nothing.
  unfoldable pub after : EventLoop N → Step N → List CommandRequest → Session N → Session N
  after l (returned l') inbox s = record s { task = running l'; inbox = inbox }
  after l (failed error l') inbox s = record s { task = ended l'.answers; inbox = [] }
  after l panicked inbox s = record s { task = ended l.answers; inbox = [] }

  abbrev pub IsClosedIn : CommandRequest → Task N → Type 0
  IsClosedIn req (running l) =
      All (λ (p : ℕ × CommandRequest). p.1.response_sender ≢ req.response_sender)
        l.pending_command_requests
  IsClosedIn req (ended answers) = Unit

  -- No request that is alive holds the sender of the request: the channel is closed.
  abbrev pub IsClosed : CommandRequest → Session N → Type 0
  IsClosed req s =
      All (λ (q : CommandRequest). q.response_sender ≢ req.response_sender) s.inbox
      × IsClosedIn req s.task

module _ (r : Rendezvous) (debug : Bool) where
  open r use {Namespace}

  -- One step of the program: of `main`, or of the task.
  pub data Moves : Session Namespace → Session Namespace → Type 0 where
    line :
        {s : Session Namespace} (text : Text) → s.status ≡ reading → Moves s (handle_input text s)
    receive :
        {s : Session Namespace} (w : World) (l : EventLoop Namespace) (req : CommandRequest)
        (rest : List CommandRequest)
        → s.task ≡ running l
        → s.inbox ≡ req ∷ rest
        → Moves s (after l (handle_command r w l req) rest s)
    event :
        {s : Session Namespace} (w : World) (l : EventLoop Namespace) (e : SwarmEvent Namespace)
        → s.task ≡ running l
        → Moves s (after l (handle_event r debug w l e) s.inbox s)
    reply :
        {s : Session Namespace} (req : CommandRequest) (answer : Result CommandResponse)
        → s.status ≡ waiting req
        → lookup req.response_sender (answers_of s.task) ≡ some answer
        → Moves s (finish_command req answer s)
    cancel :
        {s : Session Namespace} (req : CommandRequest)
        → s.status ≡ waiting req
        → lookup req.response_sender (answers_of s.task) ≡ none
        → IsClosed req s
        → Moves s (record s { status = crashed })

  pub data Reaches (s : Session Namespace) : Session Namespace → Type 0 where
    here : Reaches s s
    next : {t u : Session Namespace} → Reaches s t → Moves t u → Reaches s u
