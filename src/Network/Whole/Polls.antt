-- ===== src/Network/Whole/Polls.antt =====
-- What the event loop of src/network/mod.rs makes of what the behaviour of file-get/src/lib.rs hands out.
use file_sharing_example.Common.{
  ℕ, ◌+◌, ◌<◌, ◌≡◌, ◌≢◌, refl, sym, ap, ◌∙◌, subst, true, List, length, nat_eq,
}
use file_sharing_example.FileGet.Types.{
  PeerId, RequestId, request_received, response_received, response_sent, outbound_failure,
  inbound_failure, u64_mod,
}
use file_sharing_example.FileGet.Handler.{Poll, ready}
use file_sharing_example.FileGet.Behaviour.{Action, generate_event}
use file_sharing_example.FileGet.Reports.{poll}
use file_sharing_example.FileGet.Live.Reports.{poll-less}
use file_sharing_example.FileGet.Live.Ids.{ids_of, poll-ids}
use file_sharing_example.Network.Behaviour.{SwarmEvent, file_get_event}
use file_sharing_example.Network.Types.{Rendezvous, World, EventLoop, returned, panicked}
use file_sharing_example.Network.Events.{handle_event}
use file_sharing_example.Network.Settled.{handle_event-Settles}
use file_sharing_example.Network.Runs.{AreFresh-Settles}
use file_sharing_example.Network.Panics.{handle_event-IsUnknown}
use file_sharing_example.Network.Whole.{hand_over}
use file_sharing_example.Network.Whole.Effects.{IsSame, handle_event-IsOver}
use file_sharing_example.Network.Whole.Wired.{IsWired, behaviour-IsWired, response-IsWired}
use file_sharing_example.Network.Whole.Safe.{
  HasRoom, IsSafe, AreFresh-eq, returned-IsSafe, behaviour-HasRoom, event-IsSafe,
}

module _ (r : Rendezvous) where
  open r use {Namespace}

  -- What the behaviour hands out when it is polled.
  popped-IsWired :
      (l : EventLoop Namespace) → IsWired l → IsWired (record l { file_get = (poll l.file_get).0 })
  popped-IsWired l h =
      behaviour-IsWired r l (poll l.file_get).0 h (poll-ids l.file_get)
        (λ id. poll-less id l.file_get)

  quiet-IsSafe :
      (w : World) (l : EventLoop Namespace) (e : SwarmEvent Namespace) (ks : List ℕ)
      → IsWired l
      → HasRoom l ks
      → let l1 = record l { file_get = (poll l.file_get).0 } in
        (handle_event r true w l1 e ≢ panicked)
        → ((l' : EventLoop Namespace) → handle_event r true w l1 e ≡ returned l' → IsSame l1 l')
        → IsSafe (handle_event r true w l1 e) ks
  quiet-IsSafe w l e ks h room fine same =
      event-IsSafe r w (record l { file_get = (poll l.file_get).0 }) e ks (popped-IsWired l h)
        (behaviour-HasRoom l (poll l.file_get).0 ks (poll-ids l.file_get) room) fine same

  response-IsSafe :
      (w : World) (l : EventLoop Namespace) (p : PeerId) (id : RequestId) (ks : List ℕ)
      → IsWired l
      → HasRoom l ks
      → (poll l.file_get).1 ≡ ready (generate_event (response_received p id))
      → IsSafe
          (handle_event r true w
            (record l { file_get = (poll l.file_get).0 })
            (file_get_event (response_received p id)))
          ks
  response-IsSafe w l p id ks h room out =
      let l1 = record l { file_get = (poll l.file_get).0 } in
      let e = file_get_event (response_received p id) in
      let (fine, after) = response-IsWired r w l p id h out in
      (
        fine,
        λ l' ran.
            let (fg, gets) = handle_event-IsOver r w true l1 e ran in
            (
              after l' ran,
              record {
                different = room.different;
                fresh =
                    AreFresh-Settles l1 l' ks (handle_event-Settles r true w l1 e h.booked ran)
                      (AreFresh-eq l l1 ks refl room.fresh);
                room =
                    subst (λ (g : _). g.counter + length ks < u64_mod)
                      (sym (ap ids_of fg ∙ poll-ids l.file_get)) room.room;
              },
            ),
      )

  pub hand_over-IsSafe :
      (w : World) (l : EventLoop Namespace) (answer : Poll Action) (ks : List ℕ)
      → IsWired l
      → HasRoom l ks
      → (poll l.file_get).1 ≡ answer
      → IsSafe (hand_over r w (record l { file_get = (poll l.file_get).0 }) answer) ks
  unfolding hand_over
  hand_over-IsSafe w l (ready (generate_event (response_received p id))) ks h room out =
      response-IsSafe w l p id ks h room out
  hand_over-IsSafe w l (ready (generate_event (request_received a b c d))) ks h room out =
      let e = file_get_event (request_received a b c d) in
      quiet-IsSafe w l e ks h room (handle_event-IsUnknown r w true _ e h.booked)
        (λ l' ran. handle_event-IsOver r w true _ e ran)
  hand_over-IsSafe w l (ready (generate_event (response_sent a b))) ks h room out =
      let e = file_get_event (response_sent a b) in
      quiet-IsSafe w l e ks h room (handle_event-IsUnknown r w true _ e h.booked)
        (λ l' ran. handle_event-IsOver r w true _ e ran)
  hand_over-IsSafe w l (ready (generate_event (outbound_failure a b c))) ks h room out =
      let e = file_get_event (outbound_failure a b c) in
      quiet-IsSafe w l e ks h room (handle_event-IsUnknown r w true _ e h.booked)
        (λ l' ran. handle_event-IsOver r w true _ e ran)
  hand_over-IsSafe w l (ready (generate_event (inbound_failure a b c))) ks h room out =
      let e = file_get_event (inbound_failure a b c) in
      quiet-IsSafe w l e ks h room (handle_event-IsUnknown r w true _ e h.booked)
        (λ l' ran. handle_event-IsOver r w true _ e ran)
  hand_over-IsSafe w l _ ks h room out =
      returned-IsSafe (record l { file_get = (poll l.file_get).0 }) ks (popped-IsWired l h)
        (behaviour-HasRoom l (poll l.file_get).0 ks (poll-ids l.file_get) room)
