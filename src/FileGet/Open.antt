-- ===== src/FileGet/Open.antt =====
-- The connections that the swarm has opened and not closed, as the behaviour of file-get/src/lib.rs
-- should know them.
pub mod Kept
pub mod Legal
pub mod Waiting
pub mod Served
mod Tests
use file_sharing_example.Common.{
  ℕ, Bool, true, false, ◌&&◌, List, [], ◌∷◌, ◌++◌, map, length, contains, ◌==◌, nat_eq,
  if◌then◌else◌,
}
use file_sharing_example.FileGet.Types.{PeerId, ConnectionId}
use file_sharing_example.FileGet.Connections.{Connection}
use file_sharing_example.FileGet.Behaviour.{FileGet, entry}
use file_sharing_example.FileGet.Swarm.{
  FromSwarm, connection_established, connection_closed, address_change,
}
use file_sharing_example.FileGet.Driver.{Call, swarm_event}

abbrev pub ids_of : List Connection → List ConnectionId
ids_of cs = map (λ c. c.id) cs

-- The connections to a peer that the behaviour knows of, in order.
abbrev pub open_ids : FileGet → PeerId → List ConnectionId
open_ids fg p = ids_of (entry p fg.connected)

-- The list without the first `conn`.
unfoldable pub without : ConnectionId → List ConnectionId → List ConnectionId
without conn [] = []
without conn (i ∷ ids) = if i == conn then ids else i ∷ without conn ids

-- What a call makes of the list of open connections to the peer.
abbrev pub open_after : PeerId → List ConnectionId → Call → List ConnectionId
open_after q ids (swarm_event (connection_established p conn _ _)) =
    if p == q then ids ++ conn ∷ [] else ids
open_after q ids (swarm_event (connection_closed p conn)) = if p == q then without conn ids else ids
open_after q ids _ = ids

-- The swarm closes, and changes the address of, connections that are open.
abbrev pub is_legal : (PeerId → List ConnectionId) → Call → Bool
is_legal opens (swarm_event (connection_closed p conn)) = contains (opens p) conn
is_legal opens (swarm_event (address_change p conn _)) = contains (opens p) conn
is_legal opens _ = true

unfoldable pub are_legal : (PeerId → List ConnectionId) → List Call → Bool
are_legal opens [] = true
are_legal opens (c ∷ cs) = is_legal opens c && are_legal (λ q. open_after q (opens q) c) cs

-- And what a sequence of calls makes of it.
unfoldable pub open_all : PeerId → List ConnectionId → List Call → List ConnectionId
open_all q ids [] = ids
open_all q ids (c ∷ cs) = open_all q (open_after q ids c) cs

-- The swarm says of a new connection how many others to the peer are open.
abbrev pub is_counted : (PeerId → List ConnectionId) → Call → Bool
is_counted opens (swarm_event (connection_established p conn _ others)) = others == length (opens p)
is_counted opens _ = true

unfoldable pub are_counted : (PeerId → List ConnectionId) → List Call → Bool
are_counted opens [] = true
are_counted opens (c ∷ cs) = is_counted opens c && are_counted (λ q. open_after q (opens q) c) cs
