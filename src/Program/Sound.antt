-- ===== src/Program/Sound.antt =====
-- What a session of src/bin/file-sharing.rs keeps: which request is where, and what was answered.
use file_sharing_example.Common.{
  ◌≤◌, ◌<◌, ◌≡◌, ◌∙◌, Bool, refl, sym, subst, inl, inr, none, some, List, [], ◌∷◌, ◌++◌, All,
  lookup, insert, remove, lookup-append, nat_eq, arith,
}
use file_sharing_example.FileGet.Types.{Channel}
use file_sharing_example.Command.{Result}
use file_sharing_example.Network.Types.{
  CommandResponse, CommandRequest, Rendezvous, World, EventLoop, returned,
}
use file_sharing_example.Network.Replies.{IsReply}
use file_sharing_example.Network.Behaviour.{SwarmEvent}
use file_sharing_example.Network.Commands.{handle_command}
use file_sharing_example.Network.Events.{handle_event}
use file_sharing_example.Network.Handled.{handle_command_cases}
use file_sharing_example.Network.Pending.{IsBooked, handle_command-IsBooked}
use file_sharing_example.Network.Books.{handle_event-IsBooked}
use file_sharing_example.Network.Alone.{event_alone, event_idle}
use file_sharing_example.Program.{
  Task, running, ended, Printed, not_a_command, received, Status, reading, waiting, crashed,
  Session, answers_of, send,
}

abbrev pub Answers : Type 0
Answers = List (Channel × Result CommandResponse)

-- The reply that was printed is one for its command.
abbrev pub IsFitting : Printed → Type 0
IsFitting (not_a_command error) = Unit
IsFitting (received req answer) = IsReply req.command_request_id req.command answer

-- No channel that is still to be made has an answer.
abbrev pub AreFresh : Answers → Channel → Type 0
AreFresh answers n = (c : Channel) → n ≤ c → lookup c answers ≡ none

module _ {N : Type 0} where
  -- Nothing is pending.
  abbrev pub IsIdle : Task N → Type 0
  IsIdle (running l) = IsBooked l × (l.pending_command_requests ≡ [])
  IsIdle (ended answers) = Unit

  -- The request is the one that is pending, under its id.
  abbrev pub IsBusy : CommandRequest → Task N → Type 0
  IsBusy req (running l) =
      IsBooked l × (l.pending_command_requests ≡ (req.command_request_id, req) ∷ [])
  IsBusy req (ended answers) = ⊥

  abbrev pub HasEnded : Task N → Type 0
  HasEnded (running l) = ⊥
  HasEnded (ended answers) = Unit

  -- Where the request that the client waits for is: in the channel, pending, answered by a reply that
  -- fits it, or lost since the task has ended.
  pub data Stage (req : CommandRequest) (task : Task N) (inbox : List CommandRequest) : Type 0 where
    queued :
        inbox ≡ req ∷ []
        → IsIdle task
        → lookup req.response_sender (answers_of task) ≡ none
        → Stage req task inbox
    pending :
        inbox ≡ []
        → IsBusy req task
        → lookup req.response_sender (answers_of task) ≡ none
        → Stage req task inbox
    answered :
        (answer : Result CommandResponse)
        → inbox ≡ []
        → IsIdle task
        → lookup req.response_sender (answers_of task) ≡ some answer
        → IsReply req.command_request_id req.command answer
        → Stage req task inbox
    lost :
        inbox ≡ []
        → HasEnded task
        → lookup req.response_sender (answers_of task) ≡ none
        → Stage req task inbox

  abbrev pub Fits : Status → Task N → List CommandRequest → Channel → Type 0
  Fits reading task inbox n = (inbox ≡ []) × IsIdle task
  Fits (waiting req) task inbox n = (req.response_sender < n) × Stage req task inbox
  Fits crashed task inbox n = HasEnded task

  abbrev pub IsGood : Status → Task N → List CommandRequest → Channel → Type 0
  IsGood status task inbox n = Fits status task inbox n × AreFresh (answers_of task) n

  pub record IsSound (s : Session N) : Type 0 where
    pub good : IsGood s.status s.task s.inbox s.next_channel
    pub printed : All IsFitting s.output

  pub begin-Stage :
      (req : CommandRequest) (task : Task N) (inbox : List CommandRequest)
      → inbox ≡ []
      → IsIdle task
      → lookup req.response_sender (answers_of task) ≡ none
      → Stage req task (send req task inbox)
  unfolding send
  begin-Stage req (running l) inbox e idle silent = queued (rw e refl) idle silent
  begin-Stage req (ended answers) inbox e idle silent = lost e tt silent

-- One answer more.
module _ (answers answers' : Answers) (sender n : Channel) (answer : Result CommandResponse)
    (said : answers' ≡ answers ++ (sender, answer) ∷ []) where
  said_here : lookup sender answers ≡ none → lookup sender answers' ≡ some answer
  said_here silent = rw said (ground (arith, lookup-append sender sender answer answers silent))

  said-AreFresh : sender < n → AreFresh answers n → AreFresh answers' n
  said-AreFresh lt h c le = rw said (ground (arith, lookup-append sender c answer answers (h c le)))

module _ {N : Type 0} (l : EventLoop N) (n : Channel) where
  -- When the task ends, what it was asked for is lost, and what it has answered stays.
  pub end-IsGood :
      (status : Status) (inbox : List CommandRequest)
      → IsGood status (running l) inbox n
      → IsGood {N = N} status (ended l.answers) [] n
  end-IsGood reading inbox (h, fresh) = ((refl, tt), fresh)
  end-IsGood (waiting req) inbox ((lt, queued e idle silent), fresh) =
      ((lt, lost refl tt silent), fresh)
  end-IsGood (waiting req) inbox ((lt, pending e busy silent), fresh) =
      ((lt, lost refl tt silent), fresh)
  end-IsGood (waiting req) inbox ((lt, answered answer e idle said fits), fresh) =
      ((lt, answered answer refl tt said fits), fresh)
  end-IsGood (waiting req) inbox ((lt, lost e over silent), fresh) = absurd over
  end-IsGood crashed inbox (over, fresh) = absurd over

module _ (r : Rendezvous) (w : World) (l : EventLoop r.Namespace) (n : Channel) where
  -- The request that is taken from the channel is the one that the client waits for.
  take_command :
      (req : CommandRequest) {l' : EventLoop r.Namespace}
      → req.response_sender < n
      → IsIdle (running l)
      → lookup req.response_sender l.answers ≡ none
      → AreFresh l.answers n
      → handle_command r w l req ≡ returned l'
      → IsGood (waiting req) (running l') [] n
  unfolding insert remove lookup
  take_command req {l'} lt (booked, idle) silent fresh e =
      let booked' = handle_command-IsBooked r w l req (rw idle refl) booked e in
      elim (handle_command_cases r w l req e) [
        | inl a ↦ (
          (
            lt,
            answered a.result refl (booked', a.pend ∙ idle)
                (said_here l.answers l'.answers req.response_sender n a.result a.said silent)
                a.fits,
          ),
          said-AreFresh l.answers l'.answers req.response_sender n a.result a.said lt fresh,
        )
        | inr k ↦ (
          (lt, pending refl (booked', k.pend ∙ rw idle refl) (rw k.silent silent)),
          rw k.silent fresh,
        )
      ]

  pub command-IsGood :
      (status : Status) (req : CommandRequest) (rest : List CommandRequest)
      {l' : EventLoop r.Namespace}
      → IsGood status (running l) (req ∷ rest) n
      → handle_command r w l req ≡ returned l'
      → IsGood status (running l') rest n
  command-IsGood reading req rest ((empty, idle), fresh) e = cc
  command-IsGood (waiting req') req rest {l'} ((lt, queued own idle silent), fresh) e =
      let same : req ≡ req' = cc in
      let last : rest ≡ [] = cc in
      subst (λ x. IsGood (waiting req') (running l') x n) (sym last)
        (take_command req' lt idle silent fresh (rw (← same) e))
  command-IsGood (waiting req') req rest ((lt, pending empty _ _), fresh) e = cc
  command-IsGood (waiting req') req rest ((lt, answered _ empty _ _ _), fresh) e = cc
  command-IsGood (waiting req') req rest ((lt, lost empty _ _), fresh) e = cc
  command-IsGood crashed req rest (over, fresh) e = absurd over

  stay-IsIdle :
      (debug : Bool) (event : SwarmEvent r.Namespace) {l' : EventLoop r.Namespace}
      → IsIdle (running l)
      → handle_event r debug w l event ≡ returned l'
      → IsIdle (running l') × (l'.answers ≡ l.answers)
  stay-IsIdle debug event (booked, idle) e =
      let (same, silent) = event_idle r debug w l event booked idle e in
      ((handle_event-IsBooked r debug w l event booked e, same ∙ idle), silent)

  pub event-IsGood :
      (debug : Bool) (event : SwarmEvent r.Namespace) (status : Status)
      (inbox : List CommandRequest) {l' : EventLoop r.Namespace}
      → IsGood status (running l) inbox n
      → handle_event r debug w l event ≡ returned l'
      → IsGood status (running l') inbox n
  event-IsGood debug event reading inbox ((empty, idle), fresh) e =
      let (idle', same) = stay-IsIdle debug event idle e in ((empty, idle'), rw same fresh)
  event-IsGood debug event (waiting req) inbox ((lt, queued own idle silent), fresh) e =
      let (idle', same) = stay-IsIdle debug event idle e in
      ((lt, queued own idle' (rw same silent)), rw same fresh)
  event-IsGood debug event (waiting req) inbox ((lt, answered a empty idle said fits), fresh) e =
      let (idle', same) = stay-IsIdle debug event idle e in
      ((lt, answered a empty idle' (rw same said) fits), rw same fresh)
  event-IsGood debug event (waiting req) inbox {l'}
        ((lt, pending empty (booked, one) silent), fresh) e =
      let booked' = handle_event-IsBooked r debug w l event booked e in
      elim (event_alone r debug w l req.command_request_id req event booked one e) [
        | inl (same, quiet) ↦
            ((lt, pending empty (booked', same ∙ one) (rw quiet silent)), rw quiet fresh)
        | inr (gone, (result, said, fits)) ↦ (
          (
            lt,
            answered _ empty (booked', gone)
                (said_here l.answers l'.answers req.response_sender n _ said silent) (refl, fits),
          ),
          said-AreFresh l.answers l'.answers req.response_sender n _ said lt fresh,
        )
      ]
  event-IsGood debug event (waiting req) inbox ((lt, lost _ over _), fresh) e = absurd over
  event-IsGood debug event crashed inbox (over, fresh) e = absurd over
