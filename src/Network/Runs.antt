-- ===== src/Network/Runs.antt =====
-- Runs of the event loop of src/network/mod.rs: commands and events in any order.
use mathlib.Core.List.{append-nil, append_assoc}
use file_sharing_example.Common.{
  ◌∙◌, ℕ, ◌≡◌, ◌≢◌, ap, sym, subst, inl, inr, ◌⊎◌, Bool, true, none, some, List, [], ◌∷◌, ◌++◌, any,
  any-append, All, lookup, lookup-insert, nat_eq, ◌==◌, arith,
}
use file_sharing_example.FileGet.Types.{Channel}
use file_sharing_example.Command.{Result, ok, err}
use file_sharing_example.Network.Types.{
  CommandRequest, CommandResponse, Rendezvous, World, EventLoop, returned,
}
use file_sharing_example.Network.Commands.{handle_command}
use file_sharing_example.Network.Events.{handle_event}
use file_sharing_example.Network.Handled.{returned_injective, handle_command_cases}
use file_sharing_example.Network.Pending.{IsBooked, handle_command-IsBooked}
use file_sharing_example.Network.Books.{handle_event-IsBooked}
use file_sharing_example.Network.Settling.{is_answered, Settles-old, is_answered-more, LoopSettles}
use file_sharing_example.Network.Loop.{
  Input, command, event, ids, AreDifferent, run, >>=-eq-returned,
}
use file_sharing_example.Network.Settled.{handle_event-Settles}

-- None of the ids is the id of a pending command.
abbrev pub AreFresh : {N : Type 0} → EventLoop N → List ℕ → Type 0
AreFresh l ks = All (λ k. lookup k l.pending_command_requests ≡ none) ks

-- The command is pending under its id, or it has been answered.
abbrev pub IsTracked : {N : Type 0} → EventLoop N → CommandRequest → Type 0
IsTracked l req =
    (lookup req.command_request_id l.pending_command_requests ≡ some req)
    ⊎ (is_answered req l.answers ≡ true)

pub AreFresh-Settles :
    {N : Type 0} (l l' : EventLoop N) (ks : List ℕ)
    → LoopSettles l l'
    → AreFresh l ks
    → AreFresh l' ks
AreFresh-Settles l l' [] s h = tt
AreFresh-Settles l l' (k ∷ ks) s (h, hs) = (s.fresh k h, AreFresh-Settles l l' ks s hs)

IsTracked-Settles :
    {N : Type 0} (l l' : EventLoop N) (req : CommandRequest)
    → LoopSettles l l'
    → IsTracked l req
    → IsTracked l' req
IsTracked-Settles l l' req s (inl at) = s.kept req.command_request_id req at
IsTracked-Settles l l' req s (inr told) = inr (Settles-old s req told)

module _ (r : Rendezvous) (w : World) (l : EventLoop r.Namespace) (next : CommandRequest) where
  -- A command leaves the binding of another id as it is, and the answers that were given.
  pub handle_command_other :
      {l' : EventLoop r.Namespace}
      → handle_command r w l next ≡ returned l'
      → ((k : ℕ)
          → next.command_request_id ≢ k
          → lookup k l'.pending_command_requests ≡ lookup k l.pending_command_requests)
        × ((more : List (Channel × Result CommandResponse)) × (l'.answers ≡ l.answers ++ more))
  handle_command_other e = elim (handle_command_cases r w l next e) [
    | inl a ↦
        (λ k other. ap (λ m. lookup k m) a.pend, ((next.response_sender, a.result) ∷ [], a.said))
    | inr kept ↦ (
      λ k other.
          rw kept.pend (
            ground
              (arith, lookup-insert next.command_request_id k next l.pending_command_requests)),
      ([], rw kept.silent (sym (append-nil l.answers))),
    )
  ]

pub AreFresh-same :
    {N : Type 0} (l l' : EventLoop N) (n : ℕ) (ks : List ℕ)
    → ((k : ℕ) → n ≢ k → lookup k l'.pending_command_requests ≡ lookup k l.pending_command_requests)
    → All (λ j. n ≢ j) ks
    → AreFresh l ks
    → AreFresh l' ks
AreFresh-same l l' n [] same d h = tt
AreFresh-same l l' n (k ∷ ks) same (d, ds) (h, hs) =
    (same k d ∙ h, AreFresh-same l l' n ks same ds hs)

-- No command is lost: in any run of commands and events that returns, if the books are in order at
-- the start and the ids of the commands that come in are different from each other, from those that
-- are pending and from the id of a tracked command, then that command stays tracked: it is pending
-- under its id, or it has been answered, with its id and through its own sender. The books are in
-- order in the end.
pub run-IsTracked :
    (r : Rendezvous) (debug : Bool) (inputs : List (Input r.Namespace)) (l : EventLoop r.Namespace)
    (req : CommandRequest) {l' : EventLoop r.Namespace}
    → IsBooked l
    → AreDifferent (req.command_request_id ∷ ids inputs)
    → AreFresh l (ids inputs)
    → IsTracked l req
    → run r debug l inputs ≡ returned l'
    → IsTracked l' req × IsBooked l'
unfolding run
run-IsTracked r debug [] l req h d f t e =
    let same = returned_injective e in (subst (λ x. IsTracked x req) same t, subst IsBooked same h)
run-IsTracked r debug (event w ev ∷ inputs) l req h d f t e =
    let (l1, first, later) = >>=-eq-returned (handle_event r debug w l ev) _ e in
    let s = handle_event-Settles r debug w l ev h first in
    run-IsTracked r debug inputs l1 req (handle_event-IsBooked r debug w l ev h first) d
      (AreFresh-Settles l l1 (ids inputs) s f) (IsTracked-Settles l l1 req s t) later
run-IsTracked r debug (command w next ∷ inputs) l req h (d, ds) f t e =
    let (l1, first, later) = >>=-eq-returned (handle_command r w l next) _ e in
    let (same, (more, grown)) = handle_command_other r w l next first in
    let tracked : IsTracked l1 req = elim t [
      | inl at ↦ inl (same req.command_request_id (λ eq. d.0 (sym eq)) ∙ at)
      | inr told ↦ inr (rw grown (is_answered-more req l.answers more told))
    ] in
    run-IsTracked r debug inputs l1 req (handle_command-IsBooked r w l next f.0 h first) (d.1, ds.1)
      (AreFresh-same l l1 next.command_request_id (ids inputs) same ds.0 f.1) tracked later

any_told :
    (sender : Channel) (result : Result CommandResponse)
    (before more : List (Channel × Result CommandResponse))
    → any (λ a. a.0 == sender) ((before ++ (sender, result) ∷ []) ++ more) ≡ true
unfolding any
any_told sender result before more = ground (
  arith,
  any-append (λ a. a.0 == sender) (before ++ (sender, result) ∷ []) more,
  any-append (λ a. a.0 == sender) before ((sender, result) ∷ []),
)

is_answered-told :
    (req : CommandRequest) (answers : List (Channel × Result CommandResponse))
    → is_answered req answers ≡ true
    → any (λ a. a.0 == req.response_sender) answers ≡ true
unfolding is_answered any
is_answered-told req [] h = h
is_answered-told req ((sender, ok response) ∷ answers) h =
    ground (arith, is_answered-told req answers)
is_answered-told req ((sender, err _) ∷ answers) h = ground (arith, is_answered-told req answers)

run-answers :
    (r : Rendezvous) (debug : Bool) (inputs : List (Input r.Namespace)) (l : EventLoop r.Namespace)
    {l' : EventLoop r.Namespace}
    → IsBooked l
    → AreDifferent (ids inputs)
    → AreFresh l (ids inputs)
    → run r debug l inputs ≡ returned l'
    → (more : List (Channel × Result CommandResponse)) × (l'.answers ≡ l.answers ++ more)
unfolding run
run-answers r debug [] l h d f e = (
  [],
  subst (λ x. x.answers ≡ l.answers ++ []) (returned_injective e) (sym (append-nil l.answers)),
)
run-answers r debug (event w ev ∷ inputs) l h d f e =
    let (l1, first, later) = >>=-eq-returned (handle_event r debug w l ev) _ e in
    let s = handle_event-Settles r debug w l ev h first in
    let (more, grown) =
      run-answers r debug inputs l1 (handle_event-IsBooked r debug w l ev h first) d
        (AreFresh-Settles l l1 (ids inputs) s f) later in
    (s.more ++ more, grown ∙ rw s.grown (append_assoc l.answers s.more more))
run-answers r debug (command w next ∷ inputs) l h d f e =
    let (l1, first, later) = >>=-eq-returned (handle_command r w l next) _ e in
    let (same, (more1, grown1)) = handle_command_other r w l next first in
    let (more, grown) =
      run-answers r debug inputs l1 (handle_command-IsBooked r w l next f.0 h first) d.1
        (AreFresh-same l l1 next.command_request_id (ids inputs) same d.0 f.1) later in
    (more1 ++ more, grown ∙ rw grown1 (append_assoc l.answers more1 more))

-- Each command is answered or pending: in any run that returns and that begins with a command, if
-- the books are in order at the start and the ids of the commands that come in are different from
-- each other and from those that are pending, then in the end the command is pending under its id, or
-- an answer has gone through its sender.
pub command_never_lost :
    (r : Rendezvous) (debug : Bool) (w : World) (l : EventLoop r.Namespace) (req : CommandRequest)
    (inputs : List (Input r.Namespace)) {l' : EventLoop r.Namespace}
    → IsBooked l
    → AreDifferent (ids (command w req ∷ inputs))
    → AreFresh l (ids (command w req ∷ inputs))
    → run r debug l (command w req ∷ inputs) ≡ returned l'
    → (lookup req.command_request_id l'.pending_command_requests ≡ some req)
      ⊎ (any (λ a. a.0 == req.response_sender) l'.answers ≡ true)
unfolding run
command_never_lost r debug w l req inputs {l'} h d f e =
    let (l1, first, later) = >>=-eq-returned (handle_command r w l req) _ e in
    let (same, (more1, grown1)) = handle_command_other r w l req first in
    let booked = handle_command-IsBooked r w l req f.0 h first in
    let fresh = AreFresh-same l l1 req.command_request_id (ids inputs) same d.0 f.1 in
    elim (handle_command_cases r w l req first) [
      | inl a ↦
          let (more, grown) = run-answers r debug inputs l1 booked d.1 fresh later in
          inr (rw (grown, a.said) (any_told req.response_sender a.result l.answers more))
      | inr kept ↦
          let at : lookup req.command_request_id l1.pending_command_requests ≡ some req =
            rw kept.pend (
              ground (
                arith,
                lookup-insert req.command_request_id req.command_request_id req
                    l.pending_command_requests,
              )) in
          elim (run-IsTracked r debug inputs l1 req booked d fresh (inl at) later).0 [
            | inl pending ↦ inl pending
            | inr told ↦ inr (is_answered-told req l'.answers told)
          ]
    ]
