-- ===== src/Network/Whole/Wired.antt =====
-- The `expect`s of `handle_event` of src/network/mod.rs, with the behaviour of file-get/src/lib.rs.
use file_sharing_example.Common.{
  ℕ, ◌+◌, ◌≤◌, ◌<◌, ◌≡◌, ◌≢◌, refl, ap, ◌∙◌, subst, inl, inr, true, false, none, some, lookup,
  lookup-insert, lookup-remove, ◌==◌, nat_eq, arith, Bool-cases,
}
use file_sharing_example.FileGet.Types.{PeerId, RequestId, response_received, u64_mod, next_id}
use file_sharing_example.FileGet.Handler.{ready}
use file_sharing_example.FileGet.Behaviour.{FileGet, generate_event, send_request}
use file_sharing_example.FileGet.Reports.{poll}
use file_sharing_example.FileGet.Live.{one_if, live}
use file_sharing_example.FileGet.Live.Calls.{send_request-live}
use file_sharing_example.FileGet.Live.Reports.{poll-live}
use file_sharing_example.FileGet.Live.Ids.{ids_of, poll-ids, send_request-ids}
use file_sharing_example.Network.Behaviour.{SwarmEvent, file_get_event}
use file_sharing_example.Network.Types.{
  CommandRequest, Rendezvous, World, EventLoop, returned, panicked,
}
use file_sharing_example.Network.Commands.{handle_command}
use file_sharing_example.Network.Events.{handle_event}
use file_sharing_example.Network.Pending.{IsBooked, handle_command-IsBooked}
use file_sharing_example.Network.Books.{handle_event-IsBooked}
use file_sharing_example.Network.Panics.{
  handle_command-KeepsPoint, handle_event-KeepsPoint, handle_event-IsUnknown,
}
use file_sharing_example.Network.Panics.Unsolicited.{KeepsPoint-returned}
use file_sharing_example.Network.Whole.Effects.{
  IsSame, Requests, handle_command-Requests, handle_event-IsOver,
}

-- A request may be answered once at most, and if it may, its id leads to a command that is pending; the
-- ids that are still to come are not in use; the rendezvous point is known.
pub record IsWired {N : Type 0} (l : EventLoop N) : Type 0 where
  pub booked : IsBooked l
  pub once : (id : RequestId) → live id l.file_get ≤ 1
  pub linked :
      (id : RequestId)
      → 1 ≤ live id l.file_get
      → (key : ℕ) × (lookup id l.pending_file_gets ≡ some key)
  pub unused : (id : RequestId) → (ids_of l.file_get).counter ≤ id → live id l.file_get ≡ 0
  pub point : (p : PeerId) × (l.rendezvous_point_peer_id ≡ some p)

-- Nothing becomes live, and what stays live stays linked.
module _ {N : Type 0} (l l' : EventLoop N) (h : IsWired l) (booked : IsBooked l')
    (point : l'.rendezvous_point_peer_id ≡ l.rendezvous_point_peer_id)
    (same : ids_of l'.file_get ≡ ids_of l.file_get)
    (less : (id : RequestId) → live id l'.file_get ≤ live id l.file_get)
    (links : (id : RequestId)
      → 1 ≤ live id l'.file_get
      → lookup id l'.pending_file_gets ≡ lookup id l.pending_file_gets) where
  less-IsWired : IsWired l'
  less-IsWired = record {
    booked = booked;
    once = λ id. omega (arith, less id, h.once id);
    linked = λ id on.
        let own : one_if (id == id) ≡ 1 = ground arith in
        let (key, at) = h.linked id (omega (arith, less id)) in (key, links id on ∙ at);
    unused = λ id past.
        let before = h.unused id (subst (λ x. x.counter ≤ id) same past) in
        omega (arith, less id, before);
    point = let (p, at) = h.point in (p, point ∙ at);
  }

module _ (r : Rendezvous) where
  open r use {Namespace}

  pub behaviour-IsWired :
      (l : EventLoop Namespace) (fg : FileGet)
      → IsWired l
      → ids_of fg ≡ ids_of l.file_get
      → ((id : RequestId) → live id fg ≤ live id l.file_get)
      → IsWired (record l { file_get = fg })
  behaviour-IsWired l fg h same less =
      less-IsWired l (record l { file_get = fg }) h h.booked refl same less (λ id on. refl)

  Requests-IsWired :
      (l l' : EventLoop Namespace)
      → IsWired l
      → IsBooked l'
      → l'.rendezvous_point_peer_id ≡ l.rendezvous_point_peer_id
      → (ids_of l.file_get).counter + 1 < u64_mod
      → Requests l l'
      → IsWired l'
  unfolding send_request next_id
  Requests-IsWired l l' h booked point room q =
      let fresh = (ids_of l.file_get).counter in
      let more : (id : RequestId)
          → live id l'.file_get ≤ one_if (fresh == id) + live id l.file_get =
        λ id. rw q.sent (send_request-live id l.file_get q.peer q.message q.writer) in
      let after : (ids_of l'.file_get).counter ≡ fresh + 1 =
        ap (λ x. (ids_of x).counter) q.sent
        ∙ ap (λ x. x.counter) (send_request-ids l.file_get q.peer q.message q.writer)
        ∙ omega arith in
      record {
        booked = booked;
        once = λ id. elim (Bool-cases (fresh == id)) [
          | inl hit ↦ omega (arith, more id, ap one_if hit, h.unused id (ground arith))
          | inr miss ↦ omega (arith, more id, ap one_if miss, h.once id)
        ];
        linked = λ id on. elim (Bool-cases (fresh == id)) [
          | inl hit ↦ (
            q.key,
            rw q.linked (ground (arith, lookup-insert fresh id q.key l.pending_file_gets)),
          )
          | inr miss ↦
              let own : one_if (id == id) ≡ 1 = ground arith in
              let (key, at) = h.linked id (omega (arith, more id, ap one_if miss)) in
              (key, rw q.linked (ground (arith, lookup-insert fresh id q.key l.pending_file_gets)))
        ];
        unused = λ id past.
            let miss : (fresh == id) ≡ false = ground arith in
            omega (arith, more id, ap one_if miss, h.unused id (omega arith));
        point = let (p, at) = h.point in (p, point ∙ at);
      }

  pub event-IsWired :
      (w : World) (l : EventLoop Namespace) (e : SwarmEvent Namespace) {l' : EventLoop Namespace}
      → IsWired l
      → IsSame l l'
      → handle_event r true w l e ≡ returned l'
      → IsWired l'
  event-IsWired w l e {l'} h (fg, gets) ran =
      less-IsWired l l' h (handle_event-IsBooked r true w l e h.booked ran)
        (KeepsPoint-returned l _ (handle_event-KeepsPoint r w true l e) ran) (ap ids_of fg)
        (λ id. rw fg (omega arith)) (λ id on. ap (λ x. lookup id x) gets)

  pub command-IsWired :
      (w : World) (l : EventLoop Namespace) (req : CommandRequest) {l' : EventLoop Namespace}
      → IsWired l
      → lookup req.command_request_id l.pending_command_requests ≡ none
      → (ids_of l.file_get).counter + 1 < u64_mod
      → handle_command r w l req ≡ returned l'
      → IsWired l'
  command-IsWired w l req {l'} h fresh room ran =
      let booked = handle_command-IsBooked r w l req fresh h.booked ran in
      let point = KeepsPoint-returned l _ (handle_command-KeepsPoint r w l req) ran in
      elim (handle_command-Requests r w l req ran) [
        | inl (fg, gets) ↦
            less-IsWired l l' h booked point (ap ids_of fg) (λ id. rw fg (omega arith))
              (λ id on. ap (λ x. lookup id x) gets)
        | inr q ↦ Requests-IsWired l l' h booked point room q
      ]

  -- A response is taken out of the queue: its command is pending, and then no more is to come for it.
  pub response-IsWired :
      (w : World) (l : EventLoop Namespace) (p : PeerId) (id : RequestId)
      → IsWired l
      → (poll l.file_get).1 ≡ ready (generate_event (response_received p id))
      → let l1 = record l { file_get = (poll l.file_get).0 } in
        (handle_event r true w l1 (file_get_event (response_received p id)) ≢ panicked)
        × ((l' : EventLoop Namespace)
            → handle_event r true w l1 (file_get_event (response_received p id)) ≡ returned l'
            → IsWired l')
  response-IsWired w l p id h out =
      let l1 = record l { file_get = (poll l.file_get).0 } in
      let taken : (i : RequestId) → live i l1.file_get + one_if (id == i) ≤ live i l.file_get =
        λ i. poll-live i l.file_get (response_received p id) out in
      let own : one_if (id == id) ≡ 1 = ground arith in
      let (key, at) = h.linked id (omega (arith, taken id, own)) in
      (
        λ bad. cc (
            handle_event-IsUnknown r w true l1 (file_get_event (response_received p id)) h.booked
              bad),
        λ l' ran.
            let (fg, gets) =
              handle_event-IsOver r w true l1 (file_get_event (response_received p id)) ran in
            let less : (i : RequestId) → live i l'.file_get + one_if (id == i) ≤ live i l.file_get =
              λ i. rw fg (taken i) in
            less-IsWired l l' h (handle_event-IsBooked r true w l1 _ h.booked ran)
              (KeepsPoint-returned l1 _ (handle_event-KeepsPoint r w true l1 _) ran)
              (ap ids_of fg ∙ poll-ids l.file_get) (λ i. omega (arith, less i))
              (λ i on. elim (Bool-cases (id == i)) [
                | inl hit ↦ absurd (omega (arith, less i, h.once i, ap one_if hit))
                | inr miss ↦ rw gets (ground (arith, lookup-remove id i l.pending_file_gets))
              ]),
      )
