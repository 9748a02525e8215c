-- ===== src/FileGet/Open/Served.antt =====
-- No request of file-get/src/lib.rs waits while its peer has a connection.
use mathlib.Core.Path.{fun_ext}
use file_sharing_example.Common.{
  ◌≡◌, refl, sym, ap, ◌∙◌, subst, inl, inr, ◌⊎◌, true, false, none, some, List, [], ◌∷◌, ◌++◌,
  lookup, ◌==◌, nat_eq, arith, Option-cases, Bool-cases, if◌then◌else◌,
}
use file_sharing_example.FileGet.Types.{PeerId, ConnectionId, Multiaddr}
use file_sharing_example.FileGet.Handler.{
  FileGetHandlerEvent, request, response, response_sent as sent, response_omission,
  outbound_timeout, outbound_unsupported_protocols, inbound_timeout, inbound_unsupported_protocols,
}
use file_sharing_example.FileGet.Connections.{Connection, remove_connection, find_connection}
use file_sharing_example.FileGet.Behaviour.{
  FileGet, Action, done, push_action, add_address, remove_address,
}
use file_sharing_example.FileGet.Swarm.{
  FromSwarm, ConnectedPoint, connection_established, connection_closed, address_change,
  dial_failure, one_dial_failure, on_swarm_event, on_connection_closed, on_address_change,
}
use file_sharing_example.FileGet.Reports.{
  with_connection, assert_then, remove_pending_inbound_response, remove_pending_outbound_response,
  on_connection_handler_event, poll,
}
use file_sharing_example.FileGet.Driver.{
  Call, sends, adds_address, removes_address, swarm_event, handler_event, polls, apply, run, silent,
}
use file_sharing_example.FileGet.Open.{
  open_ids, open_after, without, are_legal, is_counted, are_counted,
}
use file_sharing_example.FileGet.Open.Legal.{apply-Returned}
use file_sharing_example.FileGet.Open.Waiting.{
  waiting, IsServed, calm-IsServed, send_request-IsServed, on_connection_established-IsServed,
  drop_connection-waiting, with_connection-waiting, on_request-waiting, one_dial_failure-waiting,
}

state_eq : {fg fg' : FileGet} {out : List Action} → silent fg ≡ done (fg', out) → fg ≡ fg'
state_eq e = cc

module _ (q : PeerId) where
  drop_connection-IsServed :
      (fg : FileGet) (p : PeerId) (conn : ConnectionId) {fg' : FileGet} {out : List Action}
      → apply false fg (swarm_event (connection_closed p conn)) ≡ done (fg', out)
      → open_ids fg' q ≡ (if p == q then without conn (open_ids fg q) else open_ids fg q)
      → IsServed fg q
      → IsServed fg' q
  unfolding apply on_swarm_event on_connection_closed without
  drop_connection-IsServed fg p conn {fg'} e opened h =
      elim (Option-cases (lookup p fg.connected)) [
        | inl gone ↦ cc (rw (gone, on_connection_closed) at e)
        | inr (cs, at) ↦ elim (Option-cases (find_connection conn cs)) [
          | inl gone ↦ cc (rw (at, on_connection_closed, gone) at e)
          | inr (c, found) ↦
              let same = state_eq (rw (at, on_connection_closed, found) at e) in
              calm-IsServed q fg fg' (λ shut. opened ∙ ground arith)
                (inr (
                  ap (λ x. waiting x q) (sym same)
                  ∙ drop_connection-waiting q fg p c (remove_connection conn cs)))
                h
        ]
      ]

  -- A call after which the same connections to the peer are open.
  quiet-IsServed :
      (fg fg' : FileGet)
      → open_ids fg' q ≡ open_ids fg q
      → (waiting fg' q ≡ []) ⊎ (waiting fg' q ≡ waiting fg q)
      → IsServed fg q
      → IsServed fg' q
  quiet-IsServed fg fg' opened = calm-IsServed q fg fg' (λ shut. opened ∙ shut)

  written-waiting :
      (fg : FileGet) (p : PeerId) (conn : ConnectionId) (write : Connection → Connection)
      (action : Action) {fg' : FileGet} {out : List Action}
      → silent (push_action action (with_connection fg p conn write)) ≡ done (fg', out)
      → waiting fg' q ≡ waiting fg q
  unfolding push_action
  written-waiting fg p conn write action e =
      ap (λ x. waiting x q) (sym (state_eq e)) ∙ with_connection-waiting q fg p conn write

  handler_event-waiting :
      (fg : FileGet) (p : PeerId) (conn : ConnectionId) (e : FileGetHandlerEvent) {fg' : FileGet}
      {out : List Action}
      → apply false fg (handler_event p conn e) ≡ done (fg', out)
      → waiting fg' q ≡ waiting fg q
  unfolding apply on_connection_handler_event assert_then push_action
      remove_pending_inbound_response remove_pending_outbound_response
  handler_event-waiting fg p conn (request id m sender) e =
      ap (λ x. waiting x q) (sym (state_eq e)) ∙ on_request-waiting q fg p conn id m sender
  handler_event-waiting fg p conn (response id) e = written-waiting fg p conn _ _ e
  handler_event-waiting fg p conn (sent id) e = written-waiting fg p conn _ _ e
  handler_event-waiting fg p conn (response_omission id) e = written-waiting fg p conn _ _ e
  handler_event-waiting fg p conn (outbound_timeout id) e = written-waiting fg p conn _ _ e
  handler_event-waiting fg p conn (outbound_unsupported_protocols id) e =
      written-waiting fg p conn _ _ e
  handler_event-waiting fg p conn (inbound_timeout id) e = written-waiting fg p conn _ _ e
  handler_event-waiting fg p conn (inbound_unsupported_protocols id) e =
      written-waiting fg p conn _ _ e

  address_change-waiting :
      (fg : FileGet) (p : PeerId) (conn : ConnectionId) (new : ConnectedPoint) {fg' : FileGet}
      {out : List Action}
      → apply false fg (swarm_event (address_change p conn new)) ≡ done (fg', out)
      → waiting fg' q ≡ waiting fg q
  unfolding apply on_swarm_event on_address_change
  address_change-waiting fg p conn new e = elim (Option-cases (lookup p fg.connected)) [
    | inl gone ↦ cc (rw (gone, on_address_change) at e)
    | inr (cs, at) ↦ elim (Option-cases (find_connection conn cs)) [
      | inl gone ↦ cc (rw (at, on_address_change, gone) at e)
      | inr (c, found) ↦
          ap (λ x. waiting x q) (sym (state_eq (rw (at, on_address_change, found) at e)))
    ]
  ]

  removes_address-waiting :
      (fg : FileGet) (p : PeerId) (a : Multiaddr) {fg' : FileGet} {out : List Action}
      → apply false fg (removes_address p a) ≡ done (fg', out)
      → waiting fg' q ≡ waiting fg q
  unfolding apply remove_address
  removes_address-waiting fg p a e = rw (← state_eq e) (ground arith)

  polls-waiting :
      (fg : FileGet) {fg' : FileGet} {out : List Action}
      → apply false fg polls ≡ done (fg', out)
      → waiting fg' q ≡ waiting fg q
  unfolding apply poll
  polls-waiting fg e = ground arith

  swarm_event-IsServed :
      (fg : FileGet) (event : FromSwarm) {fg' : FileGet} {out : List Action}
      → is_counted (open_ids fg) (swarm_event event) ≡ true
      → apply false fg (swarm_event event) ≡ done (fg', out)
      → open_ids fg' q ≡ open_after q (open_ids fg q) (swarm_event event)
      → IsServed fg q
      → IsServed fg' q
  unfolding apply on_swarm_event one_dial_failure
  swarm_event-IsServed fg (connection_established p conn endpoint others) {fg'} counted e opened h =
      subst (λ x. IsServed x q) (state_eq e)
        (on_connection_established-IsServed q fg p conn endpoint others counted
          (ap (λ x. open_ids x q) (state_eq e) ∙ opened) h)
  swarm_event-IsServed fg (connection_closed p conn) counted e opened h =
      drop_connection-IsServed fg p conn e opened h
  swarm_event-IsServed fg (address_change p conn new) {fg'} counted e opened h =
      quiet-IsServed fg fg' opened (inr (address_change-waiting fg p conn new e)) h
  swarm_event-IsServed fg (dial_failure none) {fg'} counted e opened h =
      subst (λ x. IsServed x q) (state_eq e) h
  swarm_event-IsServed fg (dial_failure (some p)) {fg'} counted e opened h =
      let gone = ap (λ x. waiting x q) (sym (state_eq e)) ∙ one_dial_failure-waiting q fg p in
      elim (Bool-cases (p == q)) [
        | inl hit ↦ inr (gone ∙ rw hit refl)
        | inr miss ↦ quiet-IsServed fg fg' opened (inr (gone ∙ rw miss refl)) h
      ]
  swarm_event-IsServed fg _ counted e opened h = subst (λ x. IsServed x q) (state_eq e) h

  apply-IsServed :
      (fg : FileGet) (c : Call) {fg' : FileGet} {out : List Action}
      → is_counted (open_ids fg) c ≡ true
      → apply false fg c ≡ done (fg', out)
      → open_ids fg' q ≡ open_after q (open_ids fg q) c
      → IsServed fg q
      → IsServed fg' q
  unfolding apply add_address remove_address poll
  apply-IsServed fg (sends p m w) counted e opened h =
      subst (λ x. IsServed x q) (state_eq e)
        (send_request-IsServed q fg p m w (ap (λ x. open_ids x q) (state_eq e) ∙ opened) h)
  apply-IsServed fg (adds_address p a) counted e opened h = subst (λ x. IsServed x q) (state_eq e) h
  apply-IsServed fg (removes_address p a) {fg'} counted e opened h =
      quiet-IsServed fg fg' opened (inr (removes_address-waiting fg p a e)) h
  apply-IsServed fg (swarm_event event) counted e opened h =
      swarm_event-IsServed fg event counted e opened h
  apply-IsServed fg (handler_event p conn event) {fg'} counted e opened h =
      quiet-IsServed fg fg' opened (inr (handler_event-waiting fg p conn event e)) h
  apply-IsServed fg polls {fg'} counted e opened h =
      quiet-IsServed fg fg' opened (inr (polls-waiting fg e)) h

-- In a run in which the swarm closes, and changes the address of, only connections that are open, and
-- says of each new connection how many others to the peer are open, no request comes to wait while its
-- peer has a connection: if none does at the start, none does at the end. (Release builds.)
pub run-IsServed :
    (cs : List Call) (fg : FileGet)
    → are_legal (open_ids fg) cs ≡ true
    → are_counted (open_ids fg) cs ≡ true
    → ((q : PeerId) → IsServed fg q)
    → (fg' : FileGet) × (out : List Action) × (run false fg cs ≡ done (fg', out))
      × ((q : PeerId) → IsServed fg' q)
unfolding run are_legal are_counted
run-IsServed [] fg h counted served = (fg, [], refl, served)
run-IsServed (c ∷ cs) fg h counted served =
    let first = apply-Returned fg c (ground arith) in
    let same : (λ q. open_after q (open_ids fg q) c) ≡ open_ids first.state =
      fun_ext (λ q. sym (first.opened q)) in
    let (fg', out, ran, served') =
      run-IsServed cs first.state (ap (λ o. are_legal o cs) (sym same) ∙ ground arith)
        (ap (λ o. are_counted o cs) (sym same) ∙ ground arith)
        (λ q. apply-IsServed q fg c (ground arith) first.applied (first.opened q) (served q)) in
    (fg', first.out ++ out, rw (first.applied, ran), served')
