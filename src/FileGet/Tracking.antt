-- ===== src/FileGet/Tracking.antt =====
-- Where the behaviour of file-get/src/lib.rs keeps a request that it was asked to send: with the
-- requests that wait for a connection, on a connection that waits for the response, or in an event
-- for the application.
pub mod Sending
pub mod Opening
pub mod Closing
pub mod Reporting
pub mod Handing
pub mod Delivery
pub mod Asking
pub mod Runs
use file_sharing_example.Common.{◌≡◌, Bool, true, false, ◌&&◌, ◌||◌, any, ◌==◌, nat_eq}
use file_sharing_example.FileGet.Types.{
  PeerId, RequestId, InboundFailure, FileGetEvent, response_received, outbound_failure,
  inbound_failure,
}
use file_sharing_example.FileGet.Connections.Laws.{awaits}
use file_sharing_example.FileGet.Behaviour.{FileGet, Action, generate_event, entry}

-- The request waits for a connection to the peer.
unfoldable pub waiting : FileGet → PeerId → RequestId → Bool
waiting fg peer id = any (λ r. r.request_id == id) (entry peer fg.pending_outbound_requests)

-- A connection to the peer waits for the response.
unfoldable pub awaiting : FileGet → PeerId → RequestId → Bool
awaiting fg peer id = awaits id (entry peer fg.connected)

abbrev concludes_event : PeerId → RequestId → FileGetEvent → Bool
concludes_event peer id (response_received p i) = p == peer && i == id
concludes_event peer id (outbound_failure p i _) = p == peer && i == id
concludes_event peer id _ = false

-- The action tells the application how the request ended: by the response, or by an outbound failure.
abbrev pub concludes : PeerId → RequestId → Action → Bool
concludes peer id (generate_event e) = concludes_event peer id e
concludes peer id _ = false

-- The queue of the behaviour holds such an action.
unfoldable pub told : FileGet → PeerId → RequestId → Bool
told fg peer id = any (concludes peer id) fg.pending_events

unfoldable pub accounted : FileGet → PeerId → RequestId → Bool
unfolding any told waiting awaiting
accounted fg peer id = told fg peer id || (waiting fg peer id || awaiting fg peer id)
