-- ===== src/FileGet/Handler/Agenda.antt =====
-- The queues of the handler, file-get/src/handler.rs, as one: what `poll` will hand out.
use file_sharing_example.Common.{
  ◌≡◌, refl, Option, none, some, List, [], ◌∷◌, ◌++◌, map, length, arith,
}
use mathlib.Core.List.{append_assoc, map-append}
use file_sharing_example.FileGet.Types.{Duration}
use file_sharing_example.FileGet.Protocol.{FileGetOutboundProtocol}
use file_sharing_example.FileGet.Handler.{
  Handler, KeepAlive, UpgradeError, PollNext, Poll, ready, ConnectionHandlerEvent, close, custom,
  outbound_substream_request, poll, on_behaviour_event,
}

abbrev pub open_substream : Duration → FileGetOutboundProtocol → ConnectionHandlerEvent
open_substream timeout req =
    outbound_substream_request (record { protocol = req; info = req.request_id; timeout = timeout })

abbrev closes : Option UpgradeError → List ConnectionHandlerEvent
closes none = []
closes (some error) = close error ∷ []

-- A fatal error first, then the events in order, then the requests in order.
unfoldable pub agenda : Handler → List ConnectionHandlerEvent
agenda h =
    closes h.pending_error
    ++ (map custom h.pending_events ++ map (open_substream h.timeout) h.outbound)

-- While the agenda is not empty, `poll` hands out its first item, whatever the futures of `inbound`
-- would answer and whatever the time, and changes nothing else.
pub poll-agenda :
    (poll_next : PollNext) (now : Duration) (h : Handler) (e : ConnectionHandlerEvent)
    (es : List ConnectionHandlerEvent)
    → agenda h ≡ e ∷ es
    → let (h', answer) = poll poll_next now h in
      (answer ≡ ready e)
      × (agenda h' ≡ es)
      × (h'.inbound ≡ h.inbound)
      × (h'.keep_alive ≡ h.keep_alive)
unfolding poll agenda
poll-agenda poll_next now h e es eq = ground arith

-- A request from the behaviour goes to the end of the agenda, and keeps the connection alive.
pub agenda-on_behaviour_event :
    (h : Handler) (req : FileGetOutboundProtocol)
    → (agenda (on_behaviour_event h req) ≡ agenda h ++ open_substream h.timeout req ∷ [])
      × ((on_behaviour_event h req).keep_alive ≡ KeepAlive.always)
unfolding agenda on_behaviour_event
agenda-on_behaviour_event h req = (simp (map-append, append_assoc), refl)

-- Successive calls of `poll`, at the given instants.
unfoldable pub poll_at :
    PollNext → List Duration → Handler → Handler × List (Poll ConnectionHandlerEvent)
poll_at poll_next [] h = (h, [])
poll_at poll_next (now ∷ times) h =
    let (h', answer) = poll poll_next now h in
    let (last, answers) = poll_at poll_next times h' in (last, answer ∷ answers)

-- As many polls as the agenda is long hand it out entirely, in order.
pub poll_at-agenda :
    (poll_next : PollNext) (todo : List ConnectionHandlerEvent) (times : List Duration)
    (h : Handler)
    → agenda h ≡ todo
    → length times ≡ length todo
    → let (last, answers) = poll_at poll_next times h in
      (answers ≡ map ready todo) × (agenda last ≡ [])
unfolding poll_at
poll_at-agenda poll_next [] [] h e n = (refl, e)
poll_at-agenda poll_next (x ∷ xs) [] h e n = absurd (omega arith)
poll_at-agenda poll_next [] (t ∷ ts) h e n = absurd (omega arith)
poll_at-agenda poll_next (x ∷ xs) (t ∷ ts) h e n =
    let (first, left, _, _) = poll-agenda poll_next t h x xs e in
    let (answers, done) =
      poll_at-agenda poll_next xs ts (poll poll_next t h).0 left (omega arith) in
    (cc, done)
