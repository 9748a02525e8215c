-- ===== src/FileGet/Handler.antt =====
-- file-get/src/handler.rs: the handler of one connection.
pub mod Agenda
pub mod Inbound
pub mod Outcomes
mod Tests
use file_sharing_example.Common.{
  ℕ, ◌+◌, ◌*◌, Bool, true, false, ◌&&◌, Option, none, some, List, [], ◌∷◌, ◌++◌, is_empty,
  if◌then◌else◌,
}
use file_sharing_example.FileGet.Types.{
  Channel, Duration, RequestId, RequestIdGenerator, FileGetMessage, next_id,
}
use file_sharing_example.FileGet.Protocol.{FileGetOutboundProtocol, FileGetInboundProtocol}

-- `libp2p_swarm::KeepAlive`
pub data KeepAlive : Type 0 where
  until : Duration → KeepAlive
  always never : KeepAlive

-- `libp2p_swarm::ConnectionHandlerUpgrErr<io::Error>`; the payload of `upgrade` is never looked at.
pub data UpgradeError : Type 0 where
  timeout timer : UpgradeError
  upgrade : ℕ → UpgradeError

-- An entry of `inbound`: it waits for a request, and holds the sender for the response.
pub record InboundFuture : Type 0 where
  pub request_receiver : Channel
  pub response_sender : Channel

pub data FileGetHandlerEvent : Type 0 where
  request : RequestId → FileGetMessage → Channel → FileGetHandlerEvent
  response response_sent response_omission : RequestId → FileGetHandlerEvent
  outbound_timeout outbound_unsupported_protocols : RequestId → FileGetHandlerEvent
  inbound_timeout inbound_unsupported_protocols : RequestId → FileGetHandlerEvent

-- The shared counter `inbound_id_generator` is no part of the handler: `listen_protocol` takes its
-- state and returns it.
pub record Handler : Type 0 where
  pub timeout : Duration
  pub keep_alive : KeepAlive
  pub pending_events : List FileGetHandlerEvent
  pub inbound : List InboundFuture
  pub outbound : List FileGetOutboundProtocol
  pub pending_error : Option UpgradeError

unfoldable pub new_handler : Duration → Handler
new_handler duration = record {
  timeout = duration;
  keep_alive = KeepAlive.always;
  pending_events = [];
  inbound = [];
  outbound = [];
  pending_error = none;
}

-- `libp2p_swarm::SubstreamProtocol`
pub record SubstreamProtocol (P : Type 0) : Type 0 where
  pub protocol : P
  pub info : RequestId
  pub timeout : Duration

-- The two `oneshot::channel()` calls give the two channels.
pub listen_protocol :
    Handler
    → RequestIdGenerator
    → Channel
    → Channel
    → SubstreamProtocol FileGetInboundProtocol × Handler × RequestIdGenerator
unfolding next_id
listen_protocol h g req res =
    let (g', request_id) = next_id g in
    let protocol : FileGetInboundProtocol = record {
      request_sender = req;
      response_receiver = res;
      request_id = request_id;
    } in
    let future : InboundFuture = record { request_receiver = req; response_sender = res } in
    (
      record { protocol = protocol; info = request_id; timeout = h.timeout },
      record h { inbound = h.inbound ++ future ∷ [] },
      g',
    )

pub on_behaviour_event : Handler → FileGetOutboundProtocol → Handler
on_behaviour_event h req = record h {
  keep_alive = KeepAlive.always;
  outbound = h.outbound ++ req ∷ [];
}

-- `libp2p_swarm::handler::ConnectionEvent`, as far as the code reads it.
pub data ConnectionEvent : Type 0 where
  fully_negotiated_inbound : Bool → RequestId → ConnectionEvent
  fully_negotiated_outbound : RequestId → ConnectionEvent
  listen_upgrade_error : UpgradeError → RequestId → ConnectionEvent
  dial_upgrade_error : UpgradeError → RequestId → ConnectionEvent
  address_change : ConnectionEvent

push_event : Handler → FileGetHandlerEvent → Handler
push_event h e = record h { pending_events = h.pending_events ++ e ∷ [] }

pub on_connection_event : Handler → ConnectionEvent → Handler
unfolding push_event
on_connection_event h (fully_negotiated_inbound true id) = push_event h (response_sent id)
on_connection_event h (fully_negotiated_inbound false id) = push_event h (response_omission id)
on_connection_event h (fully_negotiated_outbound id) = push_event h (response id)
on_connection_event h (listen_upgrade_error UpgradeError.timeout id) =
    push_event h (inbound_timeout id)
on_connection_event h (listen_upgrade_error (UpgradeError.upgrade _) id) =
    push_event h (inbound_unsupported_protocols id)
on_connection_event h (listen_upgrade_error UpgradeError.timer id) = record h {
  pending_error = some UpgradeError.timer;
}
on_connection_event h (dial_upgrade_error UpgradeError.timeout id) =
    push_event h (outbound_timeout id)
on_connection_event h (dial_upgrade_error (UpgradeError.upgrade _) id) =
    push_event h (outbound_unsupported_protocols id)
on_connection_event h (dial_upgrade_error UpgradeError.timer id) = record h {
  pending_error = some UpgradeError.timer;
}
on_connection_event h address_change = h

pub connection_keep_alive : Handler → KeepAlive
connection_keep_alive h = h.keep_alive

-- `std::task::Poll`
pub data Poll (A : Type 0) : Type 0 where
  ready : A → Poll A
  pending : Poll A

-- What a future of `inbound` ends with.
pub data Received : Type 0 where
  received : RequestId → FileGetMessage → Channel → Received
  canceled : Received

-- `FuturesUnordered::poll_next_unpin`, of another crate: the answer, and what is left of the set.
abbrev pub PollNext : Type 0
PollNext = List InboundFuture → Poll (Option Received) × List InboundFuture

pub data ConnectionHandlerEvent : Type 0 where
  close : UpgradeError → ConnectionHandlerEvent
  custom : FileGetHandlerEvent → ConnectionHandlerEvent
  outbound_substream_request : SubstreamProtocol FileGetOutboundProtocol → ConnectionHandlerEvent

is_yes : KeepAlive → Bool
is_yes KeepAlive.always = true
is_yes _ = false

-- The end of `poll`: an idle connection is kept for two timeouts from now.
rest_idle : Duration → Handler → Handler
unfolding is_yes
rest_idle now h =
    if is_empty h.inbound && is_yes h.keep_alive
    then record h { keep_alive = KeepAlive.until (now + h.timeout * 2) }
    else h

-- The part of `poll` from `inbound.poll_next_unpin` on, given its answer.
poll_inbound : Duration → Handler → Poll (Option Received) → Handler × Poll ConnectionHandlerEvent
unfolding rest_idle
poll_inbound now h (ready (some (received id message sender))) =
    (record h { keep_alive = KeepAlive.always }, ready (custom (request id message sender)))
poll_inbound now h (ready (some canceled)) = (rest_idle now h, pending)
poll_inbound now h (ready none) = (rest_idle now h, pending)
poll_inbound now h pending = (rest_idle now h, pending)

-- `shrink_to_fit` leaves the contents of a queue alone, and is left out.
poll_outbound :
    PollNext
    → Duration
    → Handler
    → List FileGetOutboundProtocol
    → Handler × Poll ConnectionHandlerEvent
unfolding poll_inbound
poll_outbound poll_next now h (req ∷ rest) = (
  record h { outbound = rest },
  ready (
      outbound_substream_request
        (record { protocol = req; info = req.request_id; timeout = h.timeout })),
)
poll_outbound poll_next now h [] =
    let (answer, left) = poll_next h.inbound in
    poll_inbound now (record h { inbound = left }) answer

poll_events :
    PollNext → Duration → Handler → List FileGetHandlerEvent → Handler × Poll ConnectionHandlerEvent
unfolding poll_outbound
poll_events poll_next now h (event ∷ rest) =
    (record h { pending_events = rest }, ready (custom event))
poll_events poll_next now h [] = poll_outbound poll_next now h h.outbound

poll_error :
    PollNext → Duration → Handler → Option UpgradeError → Handler × Poll ConnectionHandlerEvent
unfolding poll_events
poll_error poll_next now h (some error) = (record h { pending_error = none }, ready (close error))
poll_error poll_next now h none = poll_events poll_next now h h.pending_events

-- `poll` at the instant `now`.
pub poll : PollNext → Duration → Handler → Handler × Poll ConnectionHandlerEvent
unfolding poll_error
poll poll_next now h = poll_error poll_next now h h.pending_error
