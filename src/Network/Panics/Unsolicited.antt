-- ===== src/Network/Panics/Unsolicited.antt =====
-- The panics of a run of the event loop of src/network/mod.rs.
use file_sharing_example.Common.{
  ◌≡◌, refl, ap, ◌∙◌, subst, inl, inr, ◌⊎◌, ◌↔◌, Bool, none, some, List, [], ◌∷◌, ◌++◌, lookup,
  nat_eq,
}
use file_sharing_example.FileGet.Types.{
  PeerId, RequestId, request_received, response_received, response_sent, outbound_failure,
  inbound_failure,
}
use file_sharing_example.Command.{FileSharingError}
use file_sharing_example.Network.Behaviour.{SwarmEvent, file_get_event}
use file_sharing_example.Network.Types.{
  Rendezvous, World, EventLoop, Step, returned, failed, panicked,
}
use file_sharing_example.Network.Commands.{handle_command}
use file_sharing_example.Network.Events.{on_response_received, on_file_get, handle_event}
use file_sharing_example.Network.Handled.{returned_injective}
use file_sharing_example.Network.Pending.{IsBooked, handle_command-IsBooked}
use file_sharing_example.Network.Books.{handle_event-IsBooked}
use file_sharing_example.Network.Settled.{handle_event-Settles}
use file_sharing_example.Network.Loop.{
  Input, command, event, ids, AreDifferent, run, >>=-eq-returned,
}
use file_sharing_example.Network.Runs.{
  AreFresh, AreFresh-Settles, AreFresh-same, handle_command_other,
}
use file_sharing_example.Network.Panics.{
  KeepsPoint, IsUnknown, handle_command-KeepsPoint, handle_command-ne-panicked,
  handle_event-KeepsPoint, handle_event-IsUnknown,
}

pub KeepsPoint-returned :
    {N : Type 0} (l : EventLoop N) (s : Step N) {l' : EventLoop N}
    → KeepsPoint l s
    → s ≡ returned l'
    → l'.rendezvous_point_peer_id ≡ l.rendezvous_point_peer_id
KeepsPoint-returned l s h e = subst (KeepsPoint l) e h

-- To split on a step and keep the equation.
pub Step-cases :
    {N : Type 0} (s : Step N)
    → ((l : EventLoop N) × (s ≡ returned l))
      ⊎ ((e : FileSharingError) × (l : EventLoop N) × (s ≡ failed e l))
      ⊎ (s ≡ panicked)
Step-cases (returned l) = inl (l, refl)
Step-cases (failed e l) = inr (inl (e, l, refl))
Step-cases panicked = inr (inr refl)

-- The loop came to a response to a file request that was not pending.
pub record HasUnsolicited (r : Rendezvous) (debug : Bool) (l : EventLoop r.Namespace)
    (inputs : List (Input r.Namespace)) : Type 0 where
  pub before : List (Input r.Namespace)
  pub after : List (Input r.Namespace)
  pub world : World
  pub peer : PeerId
  pub id : RequestId
  pub stop : EventLoop r.Namespace
  pub split : inputs ≡ before ++ event world (file_get_event (response_received peer id)) ∷ after
  pub ran : run r debug l before ≡ returned stop
  pub unknown : lookup id stop.pending_file_gets ≡ none

module _ (r : Rendezvous) (debug : Bool) where
  open r use {Namespace}

  -- A run goes on from where its first input leads.
  HasUnsolicited-later :
      (l l1 : EventLoop Namespace) (input : Input Namespace) (inputs : List (Input Namespace))
      → ((rest : List (Input Namespace)) → run r debug l (input ∷ rest) ≡ run r debug l1 rest)
      → HasUnsolicited r debug l1 inputs
      → HasUnsolicited r debug l (input ∷ inputs)
  HasUnsolicited-later l l1 input inputs goes u = record {
    before = input ∷ u.before;
    after = u.after;
    world = u.world;
    peer = u.peer;
    id = u.id;
    stop = u.stop;
    split = ap (λ t. input ∷ t) u.split;
    ran = goes u.before ∙ u.ran;
    unknown = u.unknown;
  }

  run-append :
      (before after : List (Input Namespace)) (l : EventLoop Namespace) {stop : EventLoop Namespace}
      → run r debug l before ≡ returned stop
      → run r debug l (before ++ after) ≡ run r debug stop after
  unfolding run
  run-append [] after l e = ap (λ x. run r debug x after) (returned_injective e)
  run-append (command w req ∷ before) after l e =
      let (l1, first, later) = >>=-eq-returned (handle_command r w l req) _ e in
      rw first (run-append before after l1 later)
  run-append (event w ev ∷ before) after l e =
      let (l1, first, later) = >>=-eq-returned (handle_event r debug w l ev) _ e in
      rw first (run-append before after l1 later)

  unsolicited_panics :
      (w : World) (l : EventLoop Namespace) (p : PeerId) (id : RequestId)
      (after : List (Input Namespace))
      → lookup id l.pending_file_gets ≡ none
      → run r debug l (event w (file_get_event (response_received p id)) ∷ after) ≡ panicked
  unfolding run handle_event on_file_get on_response_received
  unsolicited_panics w l p id after gone = rw (run, on_response_received, gone)

  HasUnsolicited-panics :
      (l : EventLoop Namespace) (inputs : List (Input Namespace))
      → HasUnsolicited r debug l inputs
      → run r debug l inputs ≡ panicked
  HasUnsolicited-panics l inputs u = rw u.split (
      run-append u.before _ l u.ran
      ∙ unsolicited_panics u.world u.stop u.peer u.id u.after u.unknown)

  unsolicited_here :
      (w : World) (l : EventLoop Namespace) (ev : SwarmEvent Namespace)
      (after : List (Input Namespace))
      → IsUnknown r w l ev
      → HasUnsolicited r debug l (event w ev ∷ after)
  unfolding run
  unsolicited_here w l (file_get_event (response_received p id)) after gone = record {
    before = [];
    after = after;
    world = w;
    peer = p;
    id = id;
    stop = l;
    split = refl;
    ran = refl;
    unknown = gone;
  }
  unsolicited_here w l (file_get_event (request_received _ _ _ _)) after gone = absurd gone
  unsolicited_here w l (file_get_event (response_sent _ _)) after gone = absurd gone
  unsolicited_here w l (file_get_event (outbound_failure _ _ _)) after gone = absurd gone
  unsolicited_here w l (file_get_event (inbound_failure _ _ _)) after gone = absurd gone
  unsolicited_here w l _ after gone = absurd gone

  panics-HasUnsolicited :
      (inputs : List (Input Namespace)) (l : EventLoop Namespace) {p : PeerId}
      → IsBooked l
      → AreDifferent (ids inputs)
      → AreFresh l (ids inputs)
      → l.rendezvous_point_peer_id ≡ some p
      → run r debug l inputs ≡ panicked
      → HasUnsolicited r debug l inputs
  unfolding run
  panics-HasUnsolicited [] l h d f at e = cc
  panics-HasUnsolicited (event w ev ∷ inputs) l h d f at e =
      elim (Step-cases (handle_event r debug w l ev)) [
        | inl (l1, first) ↦
            let s = handle_event-Settles r debug w l ev h first in
            let point = KeepsPoint-returned l _ (handle_event-KeepsPoint r w debug l ev) first in
            HasUnsolicited-later l l1 (event w ev) inputs (λ rest. rw first)
              (panics-HasUnsolicited inputs l1 (handle_event-IsBooked r debug w l ev h first) d
                (AreFresh-Settles l l1 (ids inputs) s f) (point ∙ at) (rw first at e))
        | inr (inl (error, l1, fails)) ↦ cc (rw fails at e)
        | inr (inr panics) ↦
            unsolicited_here w l ev inputs (handle_event-IsUnknown r w debug l ev h panics)
      ]
  panics-HasUnsolicited (command w req ∷ inputs) l h (d, ds) (f, fs) at e =
      elim (Step-cases (handle_command r w l req)) [
        | inl (l1, first) ↦
            let (same, _) = handle_command_other r w l req first in
            let point = KeepsPoint-returned l _ (handle_command-KeepsPoint r w l req) first in
            HasUnsolicited-later l l1 (command w req) inputs (λ rest. rw first)
              (panics-HasUnsolicited inputs l1 (handle_command-IsBooked r w l req f h first) ds
                (AreFresh-same l l1 req.command_request_id (ids inputs) same d fs) (point ∙ at)
                (rw first at e))
        | inr (inl (error, l1, fails)) ↦ cc (rw fails at e)
        | inr (inr panics) ↦ absurd (handle_command-ne-panicked r w l req at panics)
      ]

  -- Once the rendezvous point is known, a run panics exactly when it comes to a response to a file
  -- request that is not pending: no command makes it panic, nor does any other event. (The books are
  -- in order at the start, and the ids of the commands are different from each other and from those
  -- that are pending.)
  pub run-panics_iff :
      (inputs : List (Input Namespace)) (l : EventLoop Namespace) (p : PeerId)
      → IsBooked l
      → AreDifferent (ids inputs)
      → AreFresh l (ids inputs)
      → l.rendezvous_point_peer_id ≡ some p
      → (run r debug l inputs ≡ panicked) ↔ HasUnsolicited r debug l inputs
  run-panics_iff inputs l p h d f at =
      (panics-HasUnsolicited inputs l h d f at, HasUnsolicited-panics l inputs)
