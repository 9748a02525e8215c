-- ===== src/Program/Safety.antt =====
-- What a user of src/bin/file-sharing.rs can rely on, however the steps of the program interleave.
use file_sharing_example.Common.{
  ℕ, ◌≡◌, ◌≢◌, Bool, refl, subst, none, some, List, [], ◌∷◌, ◌++◌, All, lookup, nat_eq, arith,
}
use file_sharing_example.FileGet.Types.{Text}
use file_sharing_example.Command.{Command, Result, ok, err, from_str}
use file_sharing_example.Network.Types.{
  CommandResponse, CommandRequest, Rendezvous, World, EventLoop, Step, returned, failed, panicked,
}
use file_sharing_example.Network.Replies.{IsReply}
use file_sharing_example.Network.Behaviour.{SwarmEvent}
use file_sharing_example.Network.Client.{Client, send_command}
use file_sharing_example.Network.Commands.{handle_command}
use file_sharing_example.Network.Events.{handle_event}
use file_sharing_example.Network.Failing.{handle_command-failed, handle_event-failed}
use file_sharing_example.Network.Startup.Ends.{IsReady}
use file_sharing_example.Program.{
  Task, running, ended, Printed, Status, reading, waiting, crashed, Session, answers_of,
  new_session, begin_command, print_line, handle_input, finish_command, after, IsClosed, IsClosedIn,
  Moves, line, receive, event, reply, cancel, Reaches, here, next,
}
use file_sharing_example.Program.Sound.{
  IsFitting, IsIdle, IsBusy, HasEnded, Stage, queued, pending, answered, lost, IsGood, IsSound,
  begin-Stage, end-IsGood, command-IsGood, event-IsGood,
}

All-snoc :
    (printed : Printed) (output : List Printed)
    → All IsFitting output
    → IsFitting printed
    → All IsFitting (output ++ printed ∷ [])
All-snoc printed [] h fits = (fits, tt)
All-snoc printed (p ∷ output) h fits = (h.0, All-snoc printed output h.1 fits)

-- The answer that the client finds is one for its request, and nothing is left behind.
pub found_answer :
    {N : Type 0} (req : CommandRequest) (answer : Result CommandResponse) (task : Task N)
    (inbox : List CommandRequest)
    → Stage req task inbox
    → lookup req.response_sender (answers_of task) ≡ some answer
    → ((inbox ≡ []) × IsIdle task) × IsReply req.command_request_id req.command answer
found_answer req answer task inbox (queued _ _ silent) e = cc
found_answer req answer task inbox (pending _ _ silent) e = cc
found_answer req answer task inbox (answered a empty idle said fits) e =
    let same : a ≡ answer = cc in ((empty, idle), rw (← same) fits)
found_answer req answer task inbox (lost _ _ silent) e = cc

closed_busy :
    {N : Type 0} (req : CommandRequest) (task : Task N) → IsBusy req task → IsClosedIn req task → ⊥
closed_busy req (running l) (booked, one) closed =
    (subst (All (λ (p : ℕ × CommandRequest). p.1.response_sender ≢ req.response_sender)) one
        closed).0
      refl
closed_busy req (ended answers) busy closed = busy

-- If no answer is there and none can come, the task has ended.
no_answer :
    {N : Type 0} (req : CommandRequest) (s : Session N)
    → Stage req s.task s.inbox
    → lookup req.response_sender (answers_of s.task) ≡ none
    → IsClosed req s
    → HasEnded s.task
no_answer req s (queued own _ _) e (closed, _) = absurd (
    (subst (All (λ (q : CommandRequest). q.response_sender ≢ req.response_sender)) own closed).0
      refl)
no_answer req s (pending _ busy _) e (_, closed) = absurd (closed_busy req s.task busy closed)
no_answer req s (answered a _ _ said _) e closed = cc
no_answer req s (lost _ over _) e closed = over

module _ {N : Type 0} (s : Session N) (h : IsSound s) where
  pub at_status :
      {status : Status} → s.status ≡ status → IsGood status s.task s.inbox s.next_channel
  at_status e = subst (λ x. IsGood x s.task s.inbox s.next_channel) e h.good

  at_task : {task : Task N} → s.task ≡ task → IsGood s.status task s.inbox s.next_channel
  at_task e = subst (λ x. IsGood s.status x s.inbox s.next_channel) e h.good

  begin_command-IsSound :
      (command : Command) → s.status ≡ reading → IsSound (begin_command command s)
  unfolding begin_command send_command
  begin_command-IsSound command e =
      let ((empty, idle), fresh) = at_status e in
      record {
        good = (
          (
            omega arith,
            begin-Stage _ s.task s.inbox empty idle (fresh s.next_channel (omega arith)),
          ),
          (λ c le. fresh c (omega arith)),
        );
        printed = h.printed;
      }

  handle_input-IsSound : (text : Text) → s.status ≡ reading → IsSound (handle_input text s)
  unfolding handle_input print_line
  handle_input-IsSound text e = input (from_str text) refl
    where
      input : (parsed : Result Command) → from_str text ≡ parsed → IsSound (handle_input text s)
      input (err error) p =
          rw (p, handle_input)
            (record { good = h.good; printed = All-snoc _ s.output h.printed tt })
      input (ok command) p = rw (p, handle_input) (begin_command-IsSound command e)

  finish_command-IsSound :
      (req : CommandRequest) (answer : Result CommandResponse)
      → s.status ≡ waiting req
      → lookup req.response_sender (answers_of s.task) ≡ some answer
      → IsSound (finish_command req answer s)
  unfolding finish_command print_line
  finish_command-IsSound req answer e found =
      let ((lt, stage), fresh) = at_status e in
      let (still, fits) = found_answer req answer s.task s.inbox stage found in
      record { good = (still, fresh); printed = All-snoc _ s.output h.printed fits }

module _ (r : Rendezvous) (debug : Bool) (w : World) (l : EventLoop r.Namespace)
    (s : Session r.Namespace) (h : IsSound s) (runs : s.task ≡ running l) where
  after_command-IsSound :
      (req : CommandRequest) (rest : List CommandRequest)
      → s.inbox ≡ req ∷ rest
      → (m : Step r.Namespace) → handle_command r w l req ≡ m
      → IsSound (after l m rest s)
  unfolding after
  after_command-IsSound req rest held m e = taken m e
    where
      good : IsGood {N = r.Namespace} s.status (running l) (req ∷ rest) s.next_channel
      good = subst (λ x. IsGood s.status (running l) x s.next_channel) held (at_task s h runs)

      over : IsGood {N = r.Namespace} s.status (ended l.answers) [] s.next_channel
      over = end-IsGood l s.next_channel s.status (req ∷ rest) good

      taken : (m : Step r.Namespace) → handle_command r w l req ≡ m → IsSound (after l m rest s)
      taken (returned l') e = record {
        good = command-IsGood r w l s.next_channel s.status req rest good e;
        printed = h.printed;
      }
      taken (failed error l') e =
          rw (handle_command-failed r w l req e) (record { good = over; printed = h.printed })
      taken panicked e = record { good = over; printed = h.printed }

  after_event-IsSound :
      (ev : SwarmEvent r.Namespace) (m : Step r.Namespace)
      → handle_event r debug w l ev ≡ m
      → IsSound (after l m s.inbox s)
  unfolding after
  after_event-IsSound ev (returned l') e = record {
    good = event-IsGood r w l s.next_channel debug ev s.status s.inbox (at_task s h runs) e;
    printed = h.printed;
  }
  after_event-IsSound ev (failed error l') e = rw (handle_event-failed r w l debug ev e) (record {
    good = end-IsGood l s.next_channel s.status s.inbox (at_task s h runs);
    printed = h.printed;
  })
  after_event-IsSound ev panicked e = record {
    good = end-IsGood l s.next_channel s.status s.inbox (at_task s h runs);
    printed = h.printed;
  }

module _ (r : Rendezvous) (debug : Bool) where
  move-IsSound : {s t : Session r.Namespace} → Moves r debug s t → IsSound s → IsSound t
  move-IsSound (line {s} text e) h = handle_input-IsSound s h text e
  move-IsSound (receive {s} w l req rest runs held) h =
      after_command-IsSound r debug w l s h runs req rest held (handle_command r w l req) refl
  move-IsSound (event {s} w l ev runs) h =
      after_event-IsSound r debug w l s h runs ev (handle_event r debug w l ev) refl
  move-IsSound (reply {s} req answer e found) h = finish_command-IsSound s h req answer e found
  move-IsSound (cancel {s} req e silent closed) h =
      let ((lt, stage), fresh) = at_status s h e in
      record { good = (no_answer req s stage silent closed, fresh); printed = h.printed }

  new_session-IsSound :
      (client : Client) (l : EventLoop r.Namespace) → IsReady l → IsSound (new_session client l)
  unfolding new_session lookup
  new_session-IsSound client l ready = record {
    good = ((refl, (ready.booked, ready.idle)), λ c le. rw ready.silent refl);
    printed = tt;
  }

  -- However the lines, the commands, the events and the answers interleave, in every session that the
  -- program reaches from a loop that is ready: each reply that it printed has the id of its command and
  -- fits it; while it reads a line, no command is in the channel or pending; and while it waits for an
  -- answer, the one command in the channel or pending is the one that it waits for, or that command was
  -- answered by a reply that fits it, or the task of the event loop has ended without an answer.
  pub Reaches-IsSound :
      (client : Client) (l : EventLoop r.Namespace) {s : Session r.Namespace}
      → IsReady l
      → Reaches r debug (new_session client l) s
      → IsSound s
  Reaches-IsSound client l ready here = new_session-IsSound client l ready
  Reaches-IsSound client l ready (next steps step) =
      move-IsSound step (Reaches-IsSound client l ready steps)

  -- The `unwrap` of `send_command` panics only once the task of the event loop has ended: in no session
  -- that the program reaches from a loop that is ready has it panicked while the task runs.
  pub Reaches-ne-crashed :
      (client : Client) (l l' : EventLoop r.Namespace) {s : Session r.Namespace}
      → IsReady l
      → Reaches r debug (new_session client l) s
      → s.task ≡ running l'
      → s.status ≢ crashed
  Reaches-ne-crashed client l l' {s} ready steps runs e =
      let h = Reaches-IsSound client l ready steps in subst HasEnded runs (at_status s h e).0
