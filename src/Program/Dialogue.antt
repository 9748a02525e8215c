-- ===== src/Program/Dialogue.antt =====
-- What src/bin/file-sharing.rs is for its user, without ids, channels and tasks: a dialogue of lines
-- and answers; and that the program implements it.
use mathlib.Core.List.{map-append}
use file_sharing_example.Common.{◌≡◌, refl, sym, ap, subst, Bool, List, [], ◌∷◌, ◌++◌, map, nat_eq}
use file_sharing_example.FileGet.Types.{Text}
use file_sharing_example.Command.{
  Command, FileSharingError, user_not_registered, Result, ok, err, from_str,
}
use file_sharing_example.Network.Types.{
  CommandResult, CommandResponse, CommandRequest, Rendezvous, EventLoop, Step, returned, failed,
  panicked,
}
use file_sharing_example.Network.Replies.{IsResult, Names, IsReply}
use file_sharing_example.Network.Client.{Client, send_command}
use file_sharing_example.Network.Commands.{handle_command}
use file_sharing_example.Network.Events.{handle_event}
use file_sharing_example.Network.Startup.Ends.{IsReady}
use file_sharing_example.Program.{
  Printed, not_a_command, received, Status, reading, waiting, crashed, Session, new_session,
  begin_command, print_line, handle_input, finish_command, after, Moves, line, receive, event,
  reply, cancel, Reaches, here, next,
}
use file_sharing_example.Program.Sound.{IsSound}
use file_sharing_example.Program.Safety.{at_status, found_answer, Reaches-IsSound}

-- What the user has heard: that a line was refused, or the answer to a command.
pub data Heard : Type 0 where
  refused : FileSharingError → Heard
  heard : Command → Result CommandResult → Heard

pub data Phase : Type 0 where
  resting : Phase
  asked : Command → Phase
  dead : Phase

pub record Dialogue : Type 0 where
  pub phase : Phase
  pub history : List Heard

-- An answer that fits the command: a result for it, or that the user whom it names is not registered.
abbrev pub Answers : Command → Result CommandResult → Type 0
Answers c (ok result) = IsResult c result
Answers c (err (user_not_registered user_name)) = Names c user_name
Answers c (err _) = ⊥

-- A step of the dialogue. A command is answered before the next one is asked for, or never.
pub data Says : Dialogue → Dialogue → Type 0 where
  refuse :
      {h : List Heard} (text : Text) (error : FileSharingError)
      → from_str text ≡ err error
      → Says
          (record { phase = resting; history = h })
          (record { phase = resting; history = h ++ refused error ∷ [] })
  ask :
      {h : List Heard} (text : Text) (c : Command)
      → from_str text ≡ ok c
      → Says (record { phase = resting; history = h }) (record { phase = asked c; history = h })
  answer :
      {h : List Heard} (c : Command) (a : Result CommandResult)
      → Answers c a
      → Says
          (record { phase = asked c; history = h })
          (record { phase = resting; history = h ++ heard c a ∷ [] })
  die :
      {h : List Heard} (c : Command)
      → Says (record { phase = asked c; history = h }) (record { phase = dead; history = h })

pub data Leads (d : Dialogue) : Dialogue → Type 0 where
  start : Leads d d
  then : {e f : Dialogue} → Leads d e → Says e f → Leads d f

abbrev result_of : Result CommandResponse → Result CommandResult
result_of (ok response) = ok response.result
result_of (err error) = err error

abbrev pub heard_of : Printed → Heard
heard_of (not_a_command error) = refused error
heard_of (received req a) = heard req.command (result_of a)

abbrev pub phase_of : Status → Phase
phase_of reading = resting
phase_of (waiting req) = asked req.command
phase_of crashed = dead

-- The dialogue that a session stands for.
abbrev pub dialogue_of : {N : Type 0} → Session N → Dialogue
dialogue_of s = record { phase = phase_of s.status; history = map heard_of s.output }

reply-Answers :
    (req : CommandRequest) (a : Result CommandResponse)
    → IsReply req.command_request_id req.command a
    → Answers req.command (result_of a)
reply-Answers req (ok response) fits = fits.1
reply-Answers req (err (user_not_registered user_name)) fits = fits
reply-Answers req (err _) fits = absurd fits

module _ {N : Type 0} (s : Session N) where
  -- The same dialogue, its phase known.
  at_phase :
      {status : Status}
      → s.status ≡ status
      → dialogue_of s ≡ record { phase = phase_of status; history = map heard_of s.output }
  at_phase e = ap (λ x. record { phase = phase_of x; history = map heard_of s.output }) e

  after-dialogue :
      (l : EventLoop N) (m : Step N) (inbox : List CommandRequest)
      → dialogue_of (after l m inbox s) ≡ dialogue_of s
  unfolding after
  after-dialogue l (returned l') inbox = refl
  after-dialogue l (failed error l') inbox = refl
  after-dialogue l panicked inbox = refl

  input-Leads :
      (d : Dialogue) (text : Text)
      → s.status ≡ reading
      → Leads d (dialogue_of s)
      → Leads d (dialogue_of (handle_input text s))
  unfolding handle_input print_line begin_command send_command
  input-Leads d text e leads = parsed (from_str text) refl
    where
      parsed :
          (p : Result Command) → from_str text ≡ p → Leads d (dialogue_of (handle_input text s))
      parsed (err error) p =
          let said : Leads d
              (record { phase = resting; history = map heard_of s.output ++ refused error ∷ [] }) =
            then (subst (Leads d) (at_phase e) leads) (refuse text error p) in
          rw (p, handle_input, e, map-append heard_of s.output (not_a_command error ∷ [])) said
      parsed (ok c) p =
          rw (p, handle_input) (then (subst (Leads d) (at_phase e) leads) (ask text c p))

  reply-Leads :
      (d : Dialogue) (req : CommandRequest) (a : Result CommandResponse)
      → s.status ≡ waiting req
      → IsReply req.command_request_id req.command a
      → Leads d (dialogue_of s)
      → Leads d (dialogue_of (finish_command req a s))
  unfolding finish_command print_line
  reply-Leads d req a e fits leads = rw (map-append heard_of s.output (received req a ∷ [])) (
      then (subst (Leads d) (at_phase e) leads)
        (answer req.command (result_of a) (reply-Answers req a fits)))

module _ (r : Rendezvous) (debug : Bool) where
  move-Leads :
      (d : Dialogue) {s t : Session r.Namespace}
      → IsSound s
      → Moves r debug s t
      → Leads d (dialogue_of s)
      → Leads d (dialogue_of t)
  move-Leads d h (line {s} text e) leads = input-Leads s d text e leads
  move-Leads d h (receive {s} w l req rest runs held) leads =
      subst (Leads d) (sym (after-dialogue s l (handle_command r w l req) rest)) leads
  move-Leads d h (event {s} w l ev runs) leads =
      subst (Leads d) (sym (after-dialogue s l (handle_event r debug w l ev) s.inbox)) leads
  move-Leads d h (reply {s} req a e found) leads =
      let ((_, stage), _) = at_status s h e in
      reply-Leads s d req a e (found_answer req a s.task s.inbox stage found).1 leads
  move-Leads d h (cancel {s} req e silent closed) leads =
      then (subst (Leads d) (at_phase s e) leads) (die req.command)

  -- The program implements the dialogue: whatever it prints, in whatever order its steps interleave,
  -- each line of the user is refused, if it is no command, or is a command that is answered, by an
  -- answer that fits it, before the next line is read, unless the program dies while it waits.
  pub Reaches-Leads :
      (client : Client) (l : EventLoop r.Namespace) {s : Session r.Namespace}
      → IsReady l
      → Reaches r debug (new_session client l) s
      → Leads (record { phase = resting; history = [] }) (dialogue_of s)
  unfolding new_session
  Reaches-Leads client l ready here = start
  Reaches-Leads client l ready (next steps step) =
      move-Leads _ (Reaches-IsSound r debug client l ready steps) step
        (Reaches-Leads client l ready steps)
