-- ===== src/FileGet/Driver.antt =====
-- The calls that the application and the swarm make of `FileGet` (file-get/src/lib.rs), and runs of
-- them. The swarm takes the actions out by `poll`.
use file_sharing_example.Common.{◌≡◌, refl, Bool, List, [], ◌∷◌, ◌++◌}
use file_sharing_example.FileGet.Types.{PeerId, ConnectionId, Multiaddr, Writer, FileGetMessage}
use file_sharing_example.FileGet.Handler.{FileGetHandlerEvent, ready, pending, Poll}
use file_sharing_example.FileGet.Behaviour.{
  FileGet, Action, Outcome, done, panicked, send_request, add_address, remove_address,
}
use file_sharing_example.FileGet.Swarm.{FromSwarm, on_swarm_event}
use file_sharing_example.FileGet.Reports.{on_connection_handler_event, poll}

pub data Call : Type 0 where
  sends : PeerId → FileGetMessage → Writer → Call
  adds_address removes_address : PeerId → Multiaddr → Call
  swarm_event : FromSwarm → Call
  handler_event : PeerId → ConnectionId → FileGetHandlerEvent → Call
  polls : Call

abbrev pub emitted : Poll Action → List Action
emitted (ready a) = a ∷ []
emitted pending = []

infixl 5 ◌>>=◌
abbrev pub ◌>>=◌ : {A B : Type 0} → Outcome A → (A → Outcome B) → Outcome B
done a >>= f = f a
panicked >>= f = panicked

abbrev pub silent : FileGet → Outcome (FileGet × List Action)
silent fg = done (fg, [])

-- The new state, and the actions taken out.
unfoldable pub apply : Bool → FileGet → Call → Outcome (FileGet × List Action)
apply debug fg (sends peer message w) = silent (send_request fg peer message w).0
apply debug fg (adds_address peer address) = silent (add_address fg peer address)
apply debug fg (removes_address peer address) = silent (remove_address fg peer address)
apply debug fg (swarm_event event) = on_swarm_event fg event >>= silent
apply debug fg (handler_event peer conn event) =
    on_connection_handler_event debug fg peer conn event >>= silent
apply debug fg polls = let (fg', answer) = poll fg in done (fg', emitted answer)

unfoldable pub run : Bool → FileGet → List Call → Outcome (FileGet × List Action)
run debug fg [] = silent fg
run debug fg (c ∷ cs) = do
  first ← apply debug fg c
  later ← run debug first.0 cs
  done (later.0, first.1 ++ later.1)

pub >>=-eq-done :
    {A B : Type 0} (m : Outcome A) (f : A → Outcome B) {b : B}
    → (m >>= f) ≡ done b
    → (a : A) × (m ≡ done a) × (f a ≡ done b)
>>=-eq-done (done a) f h = (a, refl, h)
>>=-eq-done panicked f h = cc
