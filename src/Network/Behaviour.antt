-- ===== src/Network/Behaviour.antt =====
-- src/network/behaviour.rs: the events of the composed behaviour, with the fields that the event
-- loop reads, and the events of the swarm.
use file_sharing_example.Common.{ℕ, List}
use file_sharing_example.FileGet.Types.{PeerId, Multiaddr, Channel, Text, FileGetEvent}

-- `libp2p::rendezvous::Registration`
pub record Registration (N : Type 0) : Type 0 where
  pub namespace : N
  pub peer_id : PeerId
  pub addresses : List Multiaddr

-- `libp2p::rendezvous::client::Event`
pub data RendezvousEvent (N : Type 0) : Type 0 where
  registered : N → PeerId → RendezvousEvent N
  register_failed discover_failed expired : RendezvousEvent N
  discovered : List (Registration N) → RendezvousEvent N

-- `libp2p::identify::Event`
pub data IdentifyEvent : Type 0 where
  received sent pushed error : PeerId → IdentifyEvent

-- `libp2p::ping::Event`, of which nothing is read.
pub data PingEvent : Type 0 where
  ping_event : ℕ → PingEvent

-- `libp2p::request_response`, for the list of files. A number stands for an id of a request.
pub data RequestResponseMessage : Type 0 where
  request : Channel → RequestResponseMessage
  response : ℕ → List Text → RequestResponseMessage

pub data RequestResponseEvent : Type 0 where
  message : PeerId → RequestResponseMessage → RequestResponseEvent
  outbound_failure inbound_failure response_sent : PeerId → ℕ → RequestResponseEvent

pub data ComposedEvent (N : Type 0) : Type 0 where
  rendezvous : RendezvousEvent N → ComposedEvent N
  identify : IdentifyEvent → ComposedEvent N
  ping : PingEvent → ComposedEvent N
  list_files : RequestResponseEvent → ComposedEvent N
  file_get : FileGetEvent → ComposedEvent N

-- The implementations of `From`.
abbrev pub from_rendezvous : {N : Type 0} → RendezvousEvent N → ComposedEvent N
from_rendezvous event = ComposedEvent.rendezvous event

abbrev pub from_identify : {N : Type 0} → IdentifyEvent → ComposedEvent N
from_identify event = ComposedEvent.identify event

abbrev pub from_ping : {N : Type 0} → PingEvent → ComposedEvent N
from_ping event = ComposedEvent.ping event

-- There is no event of `keep_alive`.
abbrev pub from_void : {N : Type 0} → ⊥ → ComposedEvent N
from_void event = elim event [ ]

abbrev pub from_list_files : {N : Type 0} → RequestResponseEvent → ComposedEvent N
from_list_files event = ComposedEvent.list_files event

abbrev pub from_file_get : {N : Type 0} → FileGetEvent → ComposedEvent N
from_file_get event = ComposedEvent.file_get event

-- `libp2p::swarm::SwarmEvent`
pub data SwarmEvent (N : Type 0) : Type 0 where
  new_listen_addr : Multiaddr → SwarmEvent N
  listener_error : SwarmEvent N
  behaviour : ComposedEvent N → SwarmEvent N
  other : SwarmEvent N

-- The patterns of `handle_event`.
pattern abbrev pub discovered_event : {N : Type 0} → List (Registration N) → SwarmEvent N
discovered_event regs = behaviour (ComposedEvent.rendezvous (RendezvousEvent.discovered regs))

pattern abbrev pub list_files_request : {N : Type 0} → PeerId → Channel → SwarmEvent N
list_files_request peer channel =
    behaviour (ComposedEvent.list_files (message peer (request channel)))

pattern abbrev pub list_files_response : {N : Type 0} → PeerId → ℕ → List Text → SwarmEvent N
list_files_response peer id names =
    behaviour (ComposedEvent.list_files (message peer (response id names)))

pattern abbrev pub file_get_event : {N : Type 0} → FileGetEvent → SwarmEvent N
file_get_event event = behaviour (ComposedEvent.file_get event)
