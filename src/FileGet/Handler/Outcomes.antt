-- ===== src/FileGet/Handler/Outcomes.antt =====
-- What the end of a substream comes to: from `on_connection_event` of file-get/src/handler.rs through
-- `on_connection_handler_event` of file-get/src/lib.rs to the application.
use file_sharing_example.Common.{◌≡◌, refl, ◌⊎◌, inl, inr, Bool, true, false, [], ◌∷◌, ◌++◌, arith}
use file_sharing_example.FileGet.Types.{
  Duration, PeerId, ConnectionId, RequestId, OutboundFailure, InboundFailure, FileGetEvent,
  response_received, response_sent, outbound_failure, inbound_failure,
}
use file_sharing_example.FileGet.Behaviour.{FileGet, generate_event, push_action, done, panicked}
use file_sharing_example.FileGet.Handler.{
  Handler, UpgradeError, FileGetHandlerEvent, PollNext, ready, close, poll, on_connection_event,
  ConnectionEvent, fully_negotiated_inbound, fully_negotiated_outbound, listen_upgrade_error,
  dial_upgrade_error, address_change, response, response_sent as sent, response_omission,
  outbound_timeout, outbound_unsupported_protocols, inbound_timeout, inbound_unsupported_protocols,
}
use file_sharing_example.FileGet.Reports.{
  assert_then, remove_pending_inbound_response, remove_pending_outbound_response, with_connection,
  on_connection_handler_event,
}
use file_sharing_example.FileGet.Contracts.Panics.{
  is_unexpected, on_connection_handler_event-panics_iff,
}

-- What the application, or the connection, is to learn of the end of a substream.
pub data Verdict : Type 0 where
  tells : FileGetEvent → Verdict
  closes : UpgradeError → Verdict
  nothing : Verdict

-- As the documents of the events and failures have it, a response is sent if it was written to its
-- end, and omitted if not; what times out, or finds no common protocol, fails in its own direction; a
-- timer that breaks is fatal to the connection. Beyond them, any other error of an upgrade, as of a
-- read or a write, counts as no common protocol.
abbrev pub verdict : PeerId → ConnectionEvent → Verdict
verdict p (fully_negotiated_outbound id) = tells (response_received p id)
verdict p (dial_upgrade_error UpgradeError.timeout id) =
    tells (outbound_failure p id OutboundFailure.timeout)
verdict p (dial_upgrade_error (UpgradeError.upgrade _) id) =
    tells (outbound_failure p id OutboundFailure.unsupported_protocols)
verdict p (fully_negotiated_inbound true id) = tells (response_sent p id)
verdict p (fully_negotiated_inbound false id) =
    tells (inbound_failure p id InboundFailure.response_omission)
verdict p (listen_upgrade_error UpgradeError.timeout id) =
    tells (inbound_failure p id InboundFailure.timeout)
verdict p (listen_upgrade_error (UpgradeError.upgrade _) id) =
    tells (inbound_failure p id InboundFailure.unsupported_protocols)
verdict p (dial_upgrade_error UpgradeError.timer id) = closes UpgradeError.timer
verdict p (listen_upgrade_error UpgradeError.timer id) = closes UpgradeError.timer
verdict p address_change = nothing

module _ (debug : Bool) (fg : FileGet) (p : PeerId) (conn : ConnectionId) where
  -- The behaviour, given the event of the handler, tells the application just this; only in a debug
  -- build it may panic, where the connection does not hold the request.
  abbrev pub Tells : FileGetHandlerEvent → FileGetEvent → Type 0
  Tells event told =
      ((debug ≡ true)
        × (is_unexpected fg p conn event ≡ true)
        × (on_connection_handler_event debug fg p conn event ≡ panicked))
      ⊎ ((fg' : FileGet) × (on_connection_handler_event debug fg p conn event ≡ done fg')
          × (fg'.pending_events ≡ fg.pending_events ++ generate_event told ∷ []))

  -- What becomes of the verdict when the handler goes from `h` to `h'`.
  abbrev pub Follows : Handler → Handler → Verdict → Type 0
  Follows h h' (tells told) =
      (event : FileGetHandlerEvent) × (h'
        ≡ record h { pending_events = h.pending_events ++ event ∷ [] })
      × Tells event told
  Follows h h' (closes error) =
      (poll_next : PollNext) (now : Duration) → (poll poll_next now h').1 ≡ ready (close error)
  Follows h h' nothing = h' ≡ h

  assert_then-Tells :
      (strict : Bool) (tried : FileGet × Bool) (event : FileGetHandlerEvent) (told : FileGetEvent)
      → (strict ≡ true → debug ≡ true)
      → tried.0.pending_events ≡ fg.pending_events
      → on_connection_handler_event debug fg p conn event ≡ assert_then strict tried told
      → Tells event told
  unfolding assert_then push_action
  assert_then-Tells true (fg', false) event told only same e =
      let (strict, unexpected) =
        (on_connection_handler_event-panics_iff debug fg p conn event).0 e in
      inl (strict, unexpected, e)
  assert_then-Tells true (fg', true) event told only same e = inr (_, e, rw same refl)
  assert_then-Tells false (fg', removed) event told only same e = inr (_, e, rw same refl)

  inbound_keeps :
      (id : RequestId)
      → (remove_pending_inbound_response fg p conn id).0.pending_events ≡ fg.pending_events
  unfolding remove_pending_inbound_response with_connection
  inbound_keeps id = ground arith

  outbound_keeps :
      (id : RequestId)
      → (remove_pending_outbound_response fg p conn id).0.pending_events ≡ fg.pending_events
  unfolding remove_pending_outbound_response with_connection
  outbound_keeps id = ground arith

  asked-Tells :
      (strict : Bool) (event : FileGetHandlerEvent) (told : FileGetEvent) (id : RequestId)
      → (strict ≡ true → debug ≡ true)
      → on_connection_handler_event debug fg p conn event
        ≡ assert_then strict (remove_pending_inbound_response fg p conn id) told
      → Tells event told
  asked-Tells strict event told id only e =
      assert_then-Tells strict (remove_pending_inbound_response fg p conn id) event told only
        (inbound_keeps id) e

  served-Tells :
      (strict : Bool) (event : FileGetHandlerEvent) (told : FileGetEvent) (id : RequestId)
      → (strict ≡ true → debug ≡ true)
      → on_connection_handler_event debug fg p conn event
        ≡ assert_then strict (remove_pending_outbound_response fg p conn id) told
      → Tells event told
  served-Tells strict event told id only e =
      assert_then-Tells strict (remove_pending_outbound_response fg p conn id) event told only
        (outbound_keeps id) e

  -- When a substream of the connection ends, the application is told its outcome under the id of its
  -- request: of an outgoing request the response, of an incoming one that its response was sent, or was
  -- omitted, and in either direction a timeout as the timeout of that direction and any other error of
  -- the upgrade as unsupported protocols. The handler queues one event behind those that wait, and of
  -- this event the behaviour makes exactly that one event for the application, behind what it has
  -- queued (or panics, in a debug build, where the connection does not hold the request). After the
  -- error of a timer the next `poll` of the handler closes the connection with that error instead,
  -- whatever the futures of `inbound` answer; a new address changes nothing.
  pub on_connection_event-Follows :
      (h : Handler) (e : ConnectionEvent) → Follows h (on_connection_event h e) (verdict p e)
  unfolding on_connection_event poll on_connection_handler_event
  on_connection_event-Follows h (fully_negotiated_outbound i) =
      let event = response i in (event, refl, asked-Tells debug event _ i (λ d. d) refl)
  on_connection_event-Follows h (dial_upgrade_error UpgradeError.timeout i) =
      let event = outbound_timeout i in (event, refl, asked-Tells false event _ i (λ d. cc) refl)
  on_connection_event-Follows h (dial_upgrade_error (UpgradeError.upgrade _) i) =
      let event = outbound_unsupported_protocols i in
      (event, refl, asked-Tells false event _ i (λ d. cc) refl)
  on_connection_event-Follows h (fully_negotiated_inbound true i) =
      let event = sent i in (event, refl, served-Tells debug event _ i (λ d. d) refl)
  on_connection_event-Follows h (fully_negotiated_inbound false i) =
      let event = response_omission i in (event, refl, served-Tells debug event _ i (λ d. d) refl)
  on_connection_event-Follows h (listen_upgrade_error UpgradeError.timeout i) =
      let event = inbound_timeout i in (event, refl, served-Tells false event _ i (λ d. cc) refl)
  on_connection_event-Follows h (listen_upgrade_error (UpgradeError.upgrade _) i) =
      let event = inbound_unsupported_protocols i in
      (event, refl, served-Tells false event _ i (λ d. cc) refl)
  on_connection_event-Follows h (dial_upgrade_error UpgradeError.timer i) = λ poll_next now. refl
  on_connection_event-Follows h (listen_upgrade_error UpgradeError.timer i) = λ poll_next now. refl
  on_connection_event-Follows h address_change = refl
