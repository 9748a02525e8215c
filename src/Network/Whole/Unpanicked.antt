-- ===== src/Network/Whole/Unpanicked.antt =====
-- The whole event loop of src/network/mod.rs never panics: its `expect`s hold.
use file_sharing_example.Common.{
  ℕ, ◌+◌, ◌≤◌, ◌<◌, ◌≡◌, ◌≢◌, refl, subst, inl, inr, true, some, List, [], ◌∷◌, length, lookup,
  nat_eq, arith,
}
use file_sharing_example.FileGet.Types.{PeerId, RequestId, u64_mod}
use file_sharing_example.FileGet.Behaviour.{
  FileGet, Outcome, done, panicked as behaviour_panicked, from_config,
}
use file_sharing_example.FileGet.Swarm.{on_swarm_event}
use file_sharing_example.FileGet.Reports.{on_connection_handler_event, poll}
use file_sharing_example.FileGet.Live.{live}
use file_sharing_example.FileGet.Live.Reports.{done_eq}
use file_sharing_example.FileGet.Live.Events.{on_swarm_event-live, on_connection_handler_event-live}
use file_sharing_example.FileGet.Live.Ids.{
  ids_of, on_swarm_event-ids, on_connection_handler_event-ids,
}
use file_sharing_example.Network.Types.{EventLoop, Rendezvous, Step, returned, panicked}
use file_sharing_example.Network.Loop.{AreDifferent}
use file_sharing_example.Network.Runs.{AreFresh}
use file_sharing_example.Network.Startup.{new_swarm}
use file_sharing_example.Network.Startup.Ends.{IsReady}
use file_sharing_example.Network.Whole.{
  Turn, command, told, reported, polled, other, with_behaviour, command_ids, turn, turns,
}
use file_sharing_example.Network.Whole.Wired.{IsWired, behaviour-IsWired}
use file_sharing_example.Network.Whole.Safe.{
  HasRoom, IsSafe, Turn-cases, behaviour-HasRoom, command-IsSafe, other-IsSafe, returned_eq,
}
use file_sharing_example.Network.Whole.Polls.{hand_over-IsSafe}

-- A turn in which the loop does not panic, and after which the run can go on.
abbrev IsSafeTurn : {N : Type 0} → Outcome (Step N) → List ℕ → Type 0
IsSafeTurn o ks =
    (o ≢ done panicked) × ((l' : EventLoop _) → o ≡ done (returned l') → IsWired l' × HasRoom l' ks)

step-IsSafeTurn : {N : Type 0} (s : Step N) (ks : List ℕ) → IsSafe s ks → IsSafeTurn (done s) ks
step-IsSafeTurn s ks (fine, after) = ((λ e. fine (done_eq e)), λ l' e. after l' (done_eq e))

module _ (r : Rendezvous) where
  open r use {Namespace}

  behaviour-IsSafeTurn :
      (l : EventLoop Namespace) (o : Outcome FileGet) (ks : List ℕ)
      → IsWired l
      → HasRoom l ks
      → ((fg : FileGet)
          → o ≡ done fg
          → (ids_of fg ≡ ids_of l.file_get) × ((id : RequestId) → live id fg ≤ live id l.file_get))
      → IsSafeTurn (with_behaviour l o) ks
  behaviour-IsSafeTurn l (done fg) ks h room kept =
      let (same, less) = kept fg refl in
      (
        (λ e. cc),
        λ l' e.
            subst (λ x. IsWired x × HasRoom x ks) (returned_eq (done_eq e))
              (behaviour-IsWired r l fg h same less, behaviour-HasRoom l fg ks same room),
      )
  behaviour-IsSafeTurn l behaviour_panicked ks h room kept = ((λ e. cc), λ l' e. cc)

  turn-IsSafeTurn :
      (l : EventLoop Namespace) (t : Turn Namespace) (ts : List (Turn Namespace))
      → IsWired l
      → HasRoom l (command_ids (t ∷ ts))
      → IsSafeTurn (turn r l t) (command_ids ts)
  unfolding turn
  turn-IsSafeTurn l (command w req) ts h room =
      step-IsSafeTurn _ (command_ids ts) (command-IsSafe r w l req (command_ids ts) h room)
  turn-IsSafeTurn l (told e) ts h room =
      behaviour-IsSafeTurn l (on_swarm_event l.file_get e) (command_ids ts) h room (λ fg done_so. (
        on_swarm_event-ids l.file_get e done_so,
        λ id. on_swarm_event-live id l.file_get e done_so,
      ))
  turn-IsSafeTurn l (reported p conn e) ts h room =
      behaviour-IsSafeTurn l (on_connection_handler_event true l.file_get p conn e) (command_ids ts)
        h room
        (λ fg done_so. (
          on_connection_handler_event-ids true l.file_get p conn e done_so,
          λ id. on_connection_handler_event-live id l.file_get p conn e done_so,
        ))
  turn-IsSafeTurn l (polled w) ts h room =
      step-IsSafeTurn _ (command_ids ts)
        (hand_over-IsSafe r w l (poll l.file_get).1 (command_ids ts) h room refl)
  turn-IsSafeTurn l (other w e foreign) ts h room =
      step-IsSafeTurn _ (command_ids ts) (other-IsSafe r w l e (command_ids ts) foreign h room)

  wired_turns :
      (ts : List (Turn Namespace)) (l : EventLoop Namespace)
      → IsWired l
      → HasRoom l (command_ids ts)
      → turns r l ts ≢ done panicked
  unfolding turns
  wired_turns [] l h room bad = cc
  wired_turns (t ∷ ts) l h room bad =
      let (fine, after) = turn-IsSafeTurn l t ts h room in
      elim (Turn-cases (turn r l t)) [
        | inl (l', goes) ↦
            let (h', room') = after l' goes in wired_turns ts l' h' room' (rw (goes, turns) at bad)
        | inr (inl (error, l', fails)) ↦ cc (rw (fails, turns) at bad)
        | inr (inr (inl panics)) ↦ fine panics
        | inr (inr (inr stops)) ↦ cc (rw (stops, turns) at bad)
      ]

  ready-AreFresh :
      (l : EventLoop Namespace) (ks : List ℕ) → l.pending_command_requests ≡ [] → AreFresh l ks
  unfolding lookup
  ready-AreFresh l [] e = tt
  ready-AreFresh l (k ∷ ks) e = (rw e refl, ready-AreFresh l ks e)

  ready-IsWired :
      (l : EventLoop Namespace) {p : PeerId}
      → IsReady l
      → l.rendezvous_point_peer_id ≡ some p
      → IsWired l
  unfolding new_swarm from_config
  ready-IsWired l ready at = record {
    booked = ready.booked;
    once = λ id. rw ready.untouched (omega arith);
    linked = λ id on. absurd (omega (arith, rw ready.untouched at on));
    unused = λ id past. rw ready.untouched refl;
    point = (_, at);
  }

  -- Once the start has succeeded, the event loop never panics in a debug build: whatever the swarm and
  -- the handlers tell the behaviour that fetches files, and in whatever order it is polled and commands
  -- and other events come in, no `expect` of `handle_event` or `handle_command` fails, as long as the ids
  -- of the commands are different and there are fewer than 2^64 - 1 of them. (The behaviour itself may
  -- panic, where the swarm names an unknown connection or a handler reports what was not awaited.)
  pub turns-ne-panicked :
      (ts : List (Turn Namespace)) (l : EventLoop Namespace) (p : PeerId)
      → IsReady l
      → l.rendezvous_point_peer_id ≡ some p
      → AreDifferent (command_ids ts)
      → length (command_ids ts) + 1 < u64_mod
      → turns r l ts ≢ done panicked
  unfolding new_swarm from_config
  turns-ne-panicked ts l p ready at different few =
      wired_turns ts l (ready-IsWired l ready at) (record {
        different = different;
        fresh = ready-AreFresh l (command_ids ts) ready.idle;
        room = rw ready.untouched (omega arith);
      })
