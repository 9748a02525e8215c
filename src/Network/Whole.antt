-- ===== src/Network/Whole.antt =====
-- The event loop of src/network/mod.rs together with the behaviour of file-get/src/lib.rs that is in its
-- swarm, in a debug build: the swarm tells the behaviour what happens, polls it, and hands its events
-- to the loop.
pub mod Effects
pub mod Wired
pub mod Safe
pub mod Polls
pub mod Unpanicked
use file_sharing_example.Common.{ℕ, ◌≡◌, Bool, true, false, List, [], ◌∷◌}
use file_sharing_example.FileGet.Types.{PeerId, ConnectionId}
use file_sharing_example.FileGet.Handler.{FileGetHandlerEvent, Poll, ready, pending}
use file_sharing_example.FileGet.Behaviour.{
  FileGet, Action, generate_event, dial, notify_handler, Outcome, done,
  panicked as behaviour_panicked,
}
use file_sharing_example.FileGet.Swarm.{FromSwarm, on_swarm_event}
use file_sharing_example.FileGet.Reports.{on_connection_handler_event, poll}
use file_sharing_example.Network.Behaviour.{
  SwarmEvent, behaviour, file_get_event, ComposedEvent, from_file_get,
}
use file_sharing_example.Network.Types.{
  CommandRequest, Rendezvous, World, EventLoop, Step, returned, failed, panicked,
}
use file_sharing_example.Network.Commands.{handle_command}
use file_sharing_example.Network.Events.{handle_event}

-- The event is one of the behaviour FileGet.
abbrev pub is_file_get : {N : Type 0} → SwarmEvent N → Bool
is_file_get (file_get_event _) = true
is_file_get _ = false

-- What happens next: a command, something that the swarm tells the behaviour, a poll of it, or an event
-- of the swarm or of another behaviour.
pub data Turn (N : Type 0) : Type 0 where
  command : World → CommandRequest → Turn N
  told : FromSwarm → Turn N
  reported : PeerId → ConnectionId → FileGetHandlerEvent → Turn N
  polled : World → Turn N
  other : World → (e : SwarmEvent N) → is_file_get e ≡ false → Turn N

-- The behaviour in the swarm has changed.
abbrev pub with_behaviour : {N : Type 0} → EventLoop N → Outcome FileGet → Outcome (Step N)
with_behaviour l (done fg) = done (returned (record l { file_get = fg }))
with_behaviour l behaviour_panicked = behaviour_panicked

-- The ids of the commands that come in.
abbrev pub command_ids : {N : Type 0} → List (Turn N) → List ℕ
command_ids [] = []
command_ids (command w req ∷ ts) = req.command_request_id ∷ command_ids ts
command_ids (_ ∷ ts) = command_ids ts

module _ (r : Rendezvous) where
  open r use {Namespace}

  -- What the behaviour asks of the swarm is left to the swarm, its events go to the loop.
  unfoldable pub hand_over : World → EventLoop Namespace → Poll Action → Step Namespace
  hand_over w l (ready (generate_event e)) = handle_event r true w l (behaviour (from_file_get e))
  hand_over w l (ready (dial peer handler)) = returned l
  hand_over w l (ready (notify_handler peer id request)) = returned l
  hand_over w l pending = returned l

  unfoldable pub turn : EventLoop Namespace → Turn Namespace → Outcome (Step Namespace)
  unfolding hand_over
  turn l (command w req) = done (handle_command r w l req)
  turn l (told e) = with_behaviour l (on_swarm_event l.file_get e)
  turn l (reported peer id e) =
      with_behaviour l (on_connection_handler_event true l.file_get peer id e)
  turn l (polled w) =
      let (fg, answer) = poll l.file_get in done (hand_over w (record l { file_get = fg }) answer)
  turn l (other w e _) = done (handle_event r true w l e)

  -- The turns one after the other, until the loop ends.
  unfoldable pub turns : EventLoop Namespace → List (Turn Namespace) → Outcome (Step Namespace)
  unfolding turn
  turns l [] = done (returned l)
  turns l (t ∷ ts) = elim (turn l t) [
    | done (returned l') ↦ turns l' ts
    | done (failed e l') ↦ done (failed e l')
    | done panicked ↦ done panicked
    | behaviour_panicked ↦ behaviour_panicked
  ]
