-- ===== src/FileGet/Contracts/Order.antt =====
-- The actions leave the queue in the order in which they were put in, in every run.
use file_sharing_example.Common.{
  ◌≡◌, refl, sym, ap, subst, Bool, false, List, [], ◌∷◌, ◌++◌, replicate, length, arith, inl, inr,
  Option-cases, nat_eq,
}
use mathlib.Core.Path.{◌≡⟨◌⟩◌, ◌∎}
use mathlib.Core.List.{append_assoc}
use file_sharing_example.FileGet.Types.{
  PeerId, ConnectionId, RequestId, Channel, FileGetMessage, Writer, Multiaddr, FileGetEvent,
  request_received, next_id,
}
use file_sharing_example.FileGet.Handler.{
  FileGetHandlerEvent, request, response, response_sent as sent, response_omission,
  outbound_timeout, outbound_unsupported_protocols, inbound_timeout, inbound_unsupported_protocols,
}
use file_sharing_example.FileGet.Connections.{drop_inbound, drop_outbound, owe_response}
use file_sharing_example.FileGet.Behaviour.{
  push_action, generate_event, FileGet, Action, done, send_request, add_address, remove_address,
}
use file_sharing_example.FileGet.Swarm.{on_swarm_event}
use file_sharing_example.FileGet.Reports.{
  with_connection, assert_then, on_connection_handler_event, on_request,
  remove_pending_inbound_response, remove_pending_outbound_response, get_connection, poll,
}
use file_sharing_example.FileGet.Driver.{
  Call, sends, adds_address, removes_address, swarm_event, handler_event, polls, emitted, apply,
  run, silent, >>=-eq-done,
}
use file_sharing_example.FileGet.Contracts.Queue.{
  Appends, same, Appends-trans, pushed, returned, try_send_request-Appends, dial_and_keep-Appends,
  on_swarm_event-Appends, with_connection-queue, assert_then-Appends,
}

send_request-Appends :
    (fg : FileGet) (p : PeerId) (message : FileGetMessage) (w : Writer)
    → Appends fg.pending_events (send_request fg p message w).0.pending_events
unfolding send_request
send_request-Appends fg p message w =
    let g = (next_id fg.requset_id_generator).0 in
    dial_and_keep-Appends fg.pending_events p _
      (try_send_request-Appends (record fg { requset_id_generator = g }) p _)

remove_address-queue :
    (fg : FileGet) (p : PeerId) (address : Multiaddr)
    → (remove_address fg p address).pending_events ≡ fg.pending_events
unfolding remove_address
remove_address-queue fg p address = ground arith

add_address-queue :
    (fg : FileGet) (p : PeerId) (address : Multiaddr)
    → (add_address fg p address).pending_events ≡ fg.pending_events
unfolding add_address
add_address-queue fg p address = refl

on_request-Appends :
    (fg : FileGet) (p : PeerId) (conn : ConnectionId) (id : RequestId) (message : FileGetMessage)
    (sender : Channel)
    → Appends fg.pending_events (on_request fg p conn id message sender).pending_events
unfolding on_request
on_request-Appends fg p conn id message sender =
    let a = generate_event (request_received p id message sender) in
    let fg1 = push_action a fg in
    elim (Option-cases (get_connection fg1 p conn)) [
      | inl e ↦ rw (e, on_request) (Appends-trans (pushed fg.pending_events a) (pushed _ _))
      | inr (c, e) ↦
          rw (e, on_request)
            (rw (with_connection-queue fg1 p conn (owe_response id)) (pushed fg.pending_events a))
    ]

inbound_arm-Appends :
    (debug : Bool) (fg : FileGet) (p : PeerId) (conn : ConnectionId) (id : RequestId)
    (event : FileGetEvent) {fg' : FileGet}
    → assert_then debug (remove_pending_inbound_response fg p conn id) event ≡ done fg'
    → Appends fg.pending_events fg'.pending_events
unfolding remove_pending_inbound_response
inbound_arm-Appends debug fg p conn id event {fg'} e =
    let f = drop_inbound id in
    subst (λ q. Appends q fg'.pending_events) (with_connection-queue fg p conn f)
      (assert_then-Appends debug _ (with_connection fg p conn f) event e)

outbound_arm-Appends :
    (debug : Bool) (fg : FileGet) (p : PeerId) (conn : ConnectionId) (id : RequestId)
    (event : FileGetEvent) {fg' : FileGet}
    → assert_then debug (remove_pending_outbound_response fg p conn id) event ≡ done fg'
    → Appends fg.pending_events fg'.pending_events
unfolding remove_pending_outbound_response
outbound_arm-Appends debug fg p conn id event {fg'} e =
    let f = drop_outbound id in
    subst (λ q. Appends q fg'.pending_events) (with_connection-queue fg p conn f)
      (assert_then-Appends debug _ (with_connection fg p conn f) event e)

handler_event-Appends :
    (debug : Bool) (fg : FileGet) (p : PeerId) (conn : ConnectionId) (event : FileGetHandlerEvent)
    {fg' : FileGet}
    → on_connection_handler_event debug fg p conn event ≡ done fg'
    → Appends fg.pending_events fg'.pending_events
unfolding on_connection_handler_event
handler_event-Appends debug fg p conn (request id message sender) e =
    returned fg.pending_events e (on_request-Appends fg p conn id message sender)
handler_event-Appends debug fg p conn (response id) e = inbound_arm-Appends debug fg p conn id _ e
handler_event-Appends debug fg p conn (sent id) e = outbound_arm-Appends debug fg p conn id _ e
handler_event-Appends debug fg p conn (response_omission id) e =
    outbound_arm-Appends debug fg p conn id _ e
handler_event-Appends debug fg p conn (outbound_timeout id) e =
    inbound_arm-Appends false fg p conn id _ e
handler_event-Appends debug fg p conn (outbound_unsupported_protocols id) e =
    inbound_arm-Appends false fg p conn id _ e
handler_event-Appends debug fg p conn (inbound_timeout id) e =
    outbound_arm-Appends false fg p conn id _ e
handler_event-Appends debug fg p conn (inbound_unsupported_protocols id) e =
    outbound_arm-Appends false fg p conn id _ e

apply_poll : (fg : FileGet) → emitted (poll fg).1 ++ (poll fg).0.pending_events ≡ fg.pending_events
unfolding poll
apply_poll fg = ground arith

module _ (old : List Action) {fg fg' : FileGet} {out : List Action} where
  silent_returned :
      silent fg ≡ done (fg', out)
      → Appends old fg.pending_events
      → Appends old (out ++ fg'.pending_events)
  silent_returned e h =
      let none_out : out ≡ [] = cc in let eq : fg ≡ fg' = cc in rw (none_out, ← eq) h

-- One call hands out a prefix of the queue, and otherwise only appends.
pub apply-Appends :
    (debug : Bool) (fg : FileGet) (c : Call) {fg' : FileGet} {out : List Action}
    → apply debug fg c ≡ done (fg', out)
    → Appends fg.pending_events (out ++ fg'.pending_events)
unfolding apply
apply-Appends debug fg (sends p message w) e =
    silent_returned fg.pending_events e (send_request-Appends fg p message w)
apply-Appends debug fg (adds_address p address) e =
    silent_returned fg.pending_events e
      (rw (add_address-queue fg p address) (same fg.pending_events))
apply-Appends debug fg (removes_address p address) e =
    silent_returned fg.pending_events e
      (rw (remove_address-queue fg p address) (same fg.pending_events))
apply-Appends debug fg (swarm_event event) e =
    let (next, called, eq) = >>=-eq-done (on_swarm_event fg event) silent e in
    silent_returned fg.pending_events eq (on_swarm_event-Appends fg event called)
apply-Appends debug fg (handler_event p conn event) e =
    let (next, called, eq) =
      >>=-eq-done (on_connection_handler_event debug fg p conn event) silent e in
    silent_returned fg.pending_events eq (handler_event-Appends debug fg p conn event called)
apply-Appends debug fg polls {fg'} {out} e =
    let eq : out ++ fg'.pending_events ≡ fg.pending_events = ground (arith, apply_poll fg) in
    rw eq (same fg.pending_events)

-- In any run that returns, the actions handed out and those still queued are, in this order, the
-- actions that were queued at the start followed by those that the calls added: none is lost, none
-- overtakes another.
pub run-Appends :
    (debug : Bool) (cs : List Call) (fg : FileGet) {fg' : FileGet} {out : List Action}
    → run debug fg cs ≡ done (fg', out)
    → Appends fg.pending_events (out ++ fg'.pending_events)
unfolding run
run-Appends debug [] fg e = silent_returned fg.pending_events e (same fg.pending_events)
run-Appends debug (c ∷ cs) fg {fg'} {out} e =
    let (first, applied, e1) = >>=-eq-done (apply debug fg c) _ e in
    let (later, ran, e2) = >>=-eq-done (run debug first.0 cs) _ e1 in
    let head = apply-Appends debug fg c applied in
    let rest = run-Appends debug cs first.0 ran in
    let outs : out ≡ first.1 ++ later.1 = cc in
    let end : fg' ≡ later.0 = cc in
    record {
      added = head.added ++ rest.added;
      grown =
          out ++ fg'.pending_events
          ≡⟨ (cc (append_assoc first.1 later.1 later.0.pending_events)) ⟩
            first.1 ++ (later.1 ++ later.0.pending_events)
          ≡⟨ ap (λ q. first.1 ++ q) rest.grown ⟩ first.1 ++ (first.0.pending_events ++ rest.added)
          ≡⟨ sym (append_assoc first.1 first.0.pending_events rest.added) ⟩
            (first.1 ++ first.0.pending_events) ++ rest.added
          ≡⟨ ap (λ q. q ++ rest.added) head.grown ⟩ (fg.pending_events ++ head.added) ++ rest.added
          ≡⟨ append_assoc fg.pending_events head.added rest.added ⟩
            fg.pending_events ++ (head.added ++ rest.added) ∎;
    }

-- Polled as often as the queue is long, the behaviour hands out the whole queue in order, and is
-- left with an empty one and otherwise as it was.
pub run-polls :
    (debug : Bool) (queue : List Action) (fg : FileGet)
    → fg.pending_events ≡ queue
    → run debug fg (replicate (length queue) polls)
      ≡ done (record fg { pending_events = [] }, queue)
unfolding run apply poll
run-polls debug [] fg e = ground arith
run-polls debug (a ∷ rest) fg e =
    rw e (rw (run-polls debug rest (record fg { pending_events = rest }) refl))
