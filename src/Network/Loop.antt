-- ===== src/Network/Loop.antt =====
-- The loop `run` of src/network/mod.rs over a sequence of commands and events.
use file_sharing_example.Common.{ℕ, ◌≡◌, ◌≢◌, refl, Bool, List, [], ◌∷◌, All, nat_eq}
use file_sharing_example.Network.Types.{
  CommandRequest, Rendezvous, World, EventLoop, Step, returned, failed, panicked,
}
use file_sharing_example.Network.Commands.{handle_command}
use file_sharing_example.Network.Behaviour.{SwarmEvent}
use file_sharing_example.Network.Events.{handle_event}

-- What the loop takes in, with what the world answers meanwhile.
pub data Input (N : Type 0) : Type 0 where
  command : World → CommandRequest → Input N
  event : World → SwarmEvent N → Input N

infixl 5 ◌>>=◌
abbrev pub ◌>>=◌ : {N : Type 0} → Step N → (EventLoop N → Step N) → Step N
returned l >>= f = f l
failed e l >>= f = failed e l
panicked >>= f = panicked

-- The ids of the commands that come in.
abbrev pub ids : {N : Type 0} → List (Input N) → List ℕ
ids [] = []
ids (command w req ∷ inputs) = req.command_request_id ∷ ids inputs
ids (event w e ∷ inputs) = ids inputs

abbrev pub AreDifferent : List ℕ → Type 0
AreDifferent [] = Unit
AreDifferent (k ∷ ks) = All (λ j. k ≢ j) ks × AreDifferent ks

module _ (r : Rendezvous) where
  open r use {Namespace}

  -- `run`: it ends only by an error or a panic, so a run that returns is one that still goes on.
  unfoldable pub run : Bool → EventLoop Namespace → List (Input Namespace) → Step Namespace
  run debug l [] = returned l
  run debug l (command w req ∷ inputs) = do l' ← handle_command r w l req; run debug l' inputs
  run debug l (event w e ∷ inputs) = do l' ← handle_event r debug w l e; run debug l' inputs

pub >>=-eq-returned :
    {N : Type 0} (m : Step N) (f : EventLoop N → Step N) {l' : EventLoop N}
    → (m >>= f) ≡ returned l'
    → (l : EventLoop N) × (m ≡ returned l) × (f l ≡ returned l')
>>=-eq-returned (returned l) f e = (l, refl, e)
>>=-eq-returned (failed error l) f e = cc
>>=-eq-returned panicked f e = cc
