-- ===== src/Network/Whole/Safe.antt =====
-- Runs of the event loop of src/network/mod.rs with the behaviour of file-get/src/lib.rs.
use file_sharing_example.Common.{
  ℕ, ◌+◌, ◌≤◌, ◌<◌, ◌≡◌, ◌≢◌, refl, sym, ap, ◌∙◌, subst, inl, inr, ◌⊎◌, true, false, List, [], ◌∷◌,
  lookup, length, nat_eq, arith,
}
use file_sharing_example.FileGet.Types.{u64_mod, next_id}
use file_sharing_example.FileGet.Behaviour.{FileGet, Outcome, done, panicked as behaviour_panicked}
use file_sharing_example.FileGet.Live.Ids.{ids_of, send_request-ids}
use file_sharing_example.Command.{FileSharingError}
use file_sharing_example.Network.Behaviour.{SwarmEvent, file_get_event}
use file_sharing_example.Network.Types.{
  CommandRequest, Rendezvous, World, EventLoop, Step, returned, failed, panicked,
}
use file_sharing_example.Network.Commands.{handle_command}
use file_sharing_example.Network.Events.{handle_event}
use file_sharing_example.Network.Loop.{AreDifferent}
use file_sharing_example.Network.Settled.{handle_event-Settles}
use file_sharing_example.Network.Runs.{
  AreFresh, AreFresh-Settles, AreFresh-same, handle_command_other,
}
use file_sharing_example.Network.Panics.{handle_command-ne-panicked, handle_event-IsUnknown}
use file_sharing_example.Network.Whole.{is_file_get}
use file_sharing_example.Network.Whole.Effects.{
  IsSame, handle_command-Requests, handle_event-IsOver,
}
use file_sharing_example.Network.Whole.Wired.{IsWired, event-IsWired, command-IsWired}

-- To split on what a turn comes to, and keep the equation.
pub Turn-cases :
    {N : Type 0} (o : Outcome (Step N))
    → ((l : EventLoop N) × (o ≡ done (returned l)))
      ⊎ ((e : FileSharingError) × (l : EventLoop N) × (o ≡ done (failed e l)))
      ⊎ (o ≡ done panicked)
      ⊎ (o ≡ behaviour_panicked)
Turn-cases (done (returned l)) = inl (l, refl)
Turn-cases (done (failed e l)) = inr (inl (e, l, refl))
Turn-cases (done panicked) = inr (inr (inl refl))
Turn-cases behaviour_panicked = inr (inr (inr refl))

pub AreFresh-eq :
    {N : Type 0} (l l' : EventLoop N) (ks : List ℕ)
    → l'.pending_command_requests ≡ l.pending_command_requests
    → AreFresh l ks
    → AreFresh l' ks
AreFresh-eq l l' [] same h = tt
AreFresh-eq l l' (k ∷ ks) same (h, hs) =
    (ap (λ m. lookup k m) same ∙ h, AreFresh-eq l l' ks same hs)

-- The ids that are to come do not clash, and the counter of the requests does not come round.
pub record HasRoom {N : Type 0} (l : EventLoop N) (ks : List ℕ) : Type 0 where
  pub different : AreDifferent ks
  pub fresh : AreFresh l ks
  pub room : (ids_of l.file_get).counter + length ks < u64_mod

-- A step that does not panic, and leaves a loop from which the run can go on.
abbrev pub IsSafe : {N : Type 0} → Step N → List ℕ → Type 0
IsSafe s ks = (s ≢ panicked) × ((l' : EventLoop _) → s ≡ returned l' → IsWired l' × HasRoom l' ks)

pub returned_eq : {N : Type 0} {l l' : EventLoop N} → returned l ≡ returned l' → l ≡ l'
returned_eq e = cc

pub returned-IsSafe :
    {N : Type 0} (l : EventLoop N) (ks : List ℕ) → IsWired l → HasRoom l ks → IsSafe (returned l) ks
returned-IsSafe l ks h room =
    ((λ e. cc), λ l' e. subst (λ x. IsWired x × HasRoom x ks) (returned_eq e) (h, room))

pub behaviour-HasRoom :
    {N : Type 0} (l : EventLoop N) (fg : FileGet) (ks : List ℕ)
    → ids_of fg ≡ ids_of l.file_get
    → HasRoom l ks
    → HasRoom (record l { file_get = fg }) ks
behaviour-HasRoom l fg ks same h = record {
  different = h.different;
  fresh = AreFresh-eq l (record l { file_get = fg }) ks refl h.fresh;
  room = subst (λ (g : _). g.counter + length ks < u64_mod) (sym same) h.room;
}

module _ (r : Rendezvous) where
  open r use {Namespace}

  pub command-IsSafe :
      (w : World) (l : EventLoop Namespace) (req : CommandRequest) (ks : List ℕ)
      → IsWired l
      → HasRoom l (req.command_request_id ∷ ks)
      → IsSafe (handle_command r w l req) ks
  unfolding next_id
  command-IsSafe w l req ks h room =
      let (p, at) = h.point in
      (
        handle_command-ne-panicked r w l req at,
        λ l' ran.
            let (same, _) = handle_command_other r w l req ran in
            let enough = room.room in
            let few : (ids_of l'.file_get).counter ≤ (ids_of l.file_get).counter + 1 =
              elim (handle_command-Requests r w l req ran) [
                | inl (fg, gets) ↦ rw fg (omega arith)
                | inr q ↦
                    let next =
                      ap (λ x. x.counter)
                        (ap ids_of q.sent
                          ∙ send_request-ids l.file_get q.peer q.message q.writer) in
                    omega (arith, next, enough)
              ] in
            (
              command-IsWired r w l req h room.fresh.0 (omega (arith, enough)) ran,
              record {
                different = room.different.1;
                fresh =
                    AreFresh-same l l' req.command_request_id ks same room.different.0 room.fresh.1;
                room = omega (arith, few, enough);
              },
            ),
      )

  -- An event that is no response.
  pub event-IsSafe :
      (w : World) (l : EventLoop Namespace) (e : SwarmEvent Namespace) (ks : List ℕ)
      → IsWired l
      → HasRoom l ks
      → (handle_event r true w l e ≢ panicked)
      → ((l' : EventLoop Namespace) → handle_event r true w l e ≡ returned l' → IsSame l l')
      → IsSafe (handle_event r true w l e) ks
  event-IsSafe w l e ks h room fine same = (
    fine,
    λ l' ran.
        let kept = same l' ran in
        (
          event-IsWired r w l e h kept ran,
          record {
            different = room.different;
            fresh =
                AreFresh-Settles l l' ks (handle_event-Settles r true w l e h.booked ran)
                  room.fresh;
            room =
                subst (λ (x : FileGet). (ids_of x).counter + length ks < u64_mod) (sym kept.0)
                  room.room;
          },
        ),
  )

  pub other-IsSafe :
      (w : World) (l : EventLoop Namespace) (e : SwarmEvent Namespace) (ks : List ℕ)
      → is_file_get e ≡ false
      → IsWired l
      → HasRoom l ks
      → IsSafe (handle_event r true w l e) ks
  other-IsSafe w l (file_get_event e) ks foreign h room = cc
  other-IsSafe w l e ks foreign h room =
      event-IsSafe w l e ks h room (handle_event-IsUnknown r w true l e h.booked)
        (λ l' ran. handle_event-IsOver r w true l e ran)
