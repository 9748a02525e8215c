-- ===== src/FileGet/Handler/Tests.antt =====
-- Small runs of the handler of file-get/src/handler.rs.
use file_sharing_example.Common.{◌≡◌, refl, false, none, some, List, [], ◌∷◌, ◌++◌, map}
use file_sharing_example.FileGet.Types.{response_received, FileGetMessage, new_generator, next_id}
use file_sharing_example.FileGet.Protocol.{FileGetOutboundProtocol}
use file_sharing_example.FileGet.Handler.{
  Handler, InboundFuture, PollNext, ready, pending, received, canceled, ConnectionHandlerEvent,
  custom, request, response, new_handler, poll, fully_negotiated_outbound, on_connection_event,
  listen_protocol,
}
use file_sharing_example.FileGet.Handler.Agenda.{
  agenda, open_substream, poll_at, poll-agenda, poll_at-agenda,
}
use file_sharing_example.FileGet.Behaviour.{FileGet, from_config}
use file_sharing_example.FileGet.Handler.Outcomes.{Follows, tells, on_connection_event-Follows}
use file_sharing_example.FileGet.Handler.Inbound.{poll-canceled, listen_protocol_lem}

abbrev fresh : Handler
fresh = new_handler 10

abbrev ask : FileGetOutboundProtocol
ask = record { request_id = 1; file_name = b'r' ∷ []; file_writer = 5 }

-- An event and a request wait.
abbrev busy : Handler
busy = record fresh { pending_events = response 3 ∷ []; outbound = ask ∷ [] }

abbrev waits : InboundFuture
waits = record { request_receiver = 1; response_sender = 2 }

abbrev readme : FileGetMessage
readme = record { file_name = b'r' ∷ [] }

-- All futures are canceled but the last, which is a request.
abbrev last_arrives : PollNext
last_arrives [] = (ready none, [])
last_arrives (f ∷ []) = (ready (some (received 6 readme f.response_sender)), [])
last_arrives (f ∷ g ∷ fs) = (ready (some canceled), g ∷ fs)

abbrev todo : List ConnectionHandlerEvent
todo = custom (response 3) ∷ open_substream 10 ask ∷ []

agenda-busy : agenda busy ≡ todo
unfolding agenda new_handler
agenda-busy = refl

poll-agenda_example :
    let (h', answer) = poll last_arrives 0 busy in
    (answer ≡ ready (custom (response 3)))
    × (agenda h' ≡ open_substream 10 ask ∷ [])
    × (h'.inbound ≡ busy.inbound)
    × (h'.keep_alive ≡ busy.keep_alive)
poll-agenda_example = poll-agenda last_arrives 0 busy _ _ agenda-busy

poll_at-agenda_example :
    let (last, answers) = poll_at last_arrives (5 ∷ 6 ∷ []) busy in
    (answers ≡ map ready todo) × (agenda last ≡ [])
poll_at-agenda_example = poll_at-agenda last_arrives todo (5 ∷ 6 ∷ []) busy agenda-busy refl

-- A behaviour with no connection.
abbrev nobody : FileGet
nobody = from_config (record { timeout = 10 })

on_connection_event-Follows_example :
    Follows false nobody 7 4 busy
      (on_connection_event busy (fully_negotiated_outbound 1))
      (tells (response_received 7 1))
on_connection_event-Follows_example =
    on_connection_event-Follows false nobody 7 4 busy (fully_negotiated_outbound 1)

abbrev one_waits : Handler
one_waits = record fresh { inbound = waits ∷ [] }

abbrev two_wait : Handler
two_wait = record fresh { inbound = waits ∷ waits ∷ [] }

fresh_idle : agenda fresh ≡ []
unfolding agenda new_handler
fresh_idle = refl

one_idle : agenda one_waits ≡ []
unfolding agenda new_handler
one_idle = refl

two_idle : agenda two_wait ≡ []
unfolding agenda new_handler
two_idle = refl

fresh_pending : (poll last_arrives 50 fresh).1 ≡ pending
unfolding poll new_handler
fresh_pending = refl

fresh_no_future : (poll last_arrives 50 fresh).0.inbound ≡ []
unfolding poll new_handler
fresh_no_future = refl

poll-canceled_example :
    let (h', answer) = poll last_arrives 0 two_wait in
    (answer ≡ pending) × ((poll last_arrives 9 h').1 ≡ ready (custom (request 6 readme 2)))
poll-canceled_example =
    poll-canceled last_arrives 0 two_wait two_idle 9 6 readme 2 (waits ∷ []) [] refl refl

listen_protocol_lem_example :
    let (substream, h', g') = listen_protocol one_waits new_generator 3 4 in
    (h'.inbound
      ≡ one_waits.inbound
        ++ record {
          request_receiver = substream.protocol.request_sender;
          response_sender = substream.protocol.response_receiver;
        }
          ∷ [])
    × (substream.protocol.request_id ≡ substream.info)
    × ((g', substream.info) ≡ next_id new_generator)
listen_protocol_lem_example = listen_protocol_lem one_waits new_generator 3 4
