-- ===== src/FileGet/Tracking/Runs.antt =====
-- Runs of the behaviour of file-get/src/lib.rs, and where a request is after them.
use file_sharing_example.Common.{◌≡◌, ◌++◌, ◌⊎◌, Bool, true, false, ◌==◌, nat_eq, List, any}
use file_sharing_example.FileGet.Types.{PeerId, RequestId}
use file_sharing_example.FileGet.Behaviour.{FileGet, Action}
use file_sharing_example.FileGet.Swarm.{FromSwarm, connection_closed}
use file_sharing_example.FileGet.Driver.{Call, swarm_event}
use file_sharing_example.FileGet.Tracking.{waiting}
use file_sharing_example.FileGet.Tracking.Handing.{moves}

-- The event, or the call, says that a connection to the peer is closed.
abbrev pub closes_event : PeerId → FromSwarm → Bool
closes_event peer (connection_closed p _) = p == peer
closes_event peer _ = false

abbrev pub closes : PeerId → Call → Bool
closes peer (swarm_event event) = closes_event peer event
closes peer _ = false

-- The request still waits, or an action of `out`, or one of the queue, moves it on.
abbrev Goes : FileGet → List Action → PeerId → RequestId → Type 0
Goes fg out peer id =
    (waiting fg peer id ≡ true) ⊎ (any (moves peer id) (out ++ fg.pending_events) ≡ true)
