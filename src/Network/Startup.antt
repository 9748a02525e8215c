-- ===== src/Network/Startup.antt =====
-- src/network/mod.rs: `EventLoop::new`, `start_listen`, `conntect_rendezvous`, `init` and
-- `new_network`.
pub mod First
pub mod Ends
use file_sharing_example.Common.{
  ℕ, ◌*◌, Bool, true, false, Option, none, some, List, [], ◌∷◌, replicate,
}
use file_sharing_example.FileGet.Types.{PeerId, Multiaddr}
use file_sharing_example.FileGet.Behaviour.{FileGet, Outcome, done, panicked, from_config}
use file_sharing_example.Command.{
  FileSharingError, dial_error, listen_error, rendezvous_point_not_connected, Result, ok, err,
  ◌>>=◌,
}
use file_sharing_example.Network.Behaviour.{
  SwarmEvent, new_listen_addr, listener_error, behaviour, ComposedEvent, IdentifyEvent,
}
use file_sharing_example.Network.Types.{FilePath, EventLoop}
use file_sharing_example.Network.Client.{Client, new_client}

-- The keys, the transport and the swarm, of other crates. `from_bytes` and `transport` may fail;
-- `dial` gives the error, if there is one. A number stands for a key, or for an error.
pub record Host : Type 0 where
  pub from_bytes : List ℕ → Option ℕ
  pub from_secret_key : ℕ → ℕ
  pub generate_ed25519 : ℕ
  pub tokio_development_transport : ℕ → Option ℕ
  pub local_address : Multiaddr
  pub dial : Multiaddr → Option ℕ

-- What a `select!` between the swarm and a timer yields.
pub data Select (N : Type 0) : Type 0 where
  swarm : SwarmEvent N → Select N
  delay : Select N

unfoldable pub new_event_loop : {N : Type 0} → FileGet → Multiaddr → FilePath → EventLoop N
new_event_loop file_get address sharing_dir = record {
  file_get = file_get;
  rendezvous_point_address = address;
  rendezvous_point_peer_id = none;
  namespace_peers = [];
  pending_command_requests = [];
  pending_list_files = [];
  pending_file_gets = [];
  sharing_dir = sharing_dir;
  calls = [];
  answers = [];
  served = [];
}

-- The loop of `start_listen`, over what its `select!` yields: `listen_success`, or nothing while it
-- waits.
unfoldable pub listen_loop : {N : Type 0} → List (Select N) → Option Bool
listen_loop [] = none
listen_loop (delay ∷ selects) = some false
listen_loop (swarm (new_listen_addr address) ∷ selects) = some true
listen_loop (swarm listener_error ∷ selects) = some false
listen_loop (swarm _ ∷ selects) = listen_loop selects

-- The loop of `conntect_rendezvous`: the peer that was identified, if there was one.
unfoldable pub connect_loop : {N : Type 0} → List (Select N) → Option (Option PeerId)
connect_loop [] = none
connect_loop (delay ∷ selects) = some none
connect_loop (swarm (behaviour (ComposedEvent.identify (IdentifyEvent.received peer))) ∷ selects) =
    some (some peer)
connect_loop (swarm _ ∷ selects) = connect_loop selects

-- `let mut bytes = [0u8; 32]; bytes[0] = seed;`
unfoldable pub seed_bytes : ℕ → List ℕ
seed_bytes seed = seed ∷ replicate 31 0

unfoldable pub keypair : Host → Option ℕ → Outcome ℕ
unfolding seed_bytes
keypair h none = done h.generate_ed25519
keypair h (some seed) = elim (h.from_bytes (seed_bytes seed)) [
  | none ↦ panicked
  | some secret_key ↦ done (h.from_secret_key secret_key)
]

-- `Duration::from_secs(60 * 30)`
unfoldable pub new_swarm : FileGet
unfolding from_config
new_swarm = from_config (record { timeout = 60 * 30 })

module _ {N : Type 0} where
  -- The `match` at the end.
  unfoldable pub is_connected : EventLoop N → Result (EventLoop N)
  is_connected l = elim l.rendezvous_point_peer_id [
    | some peer ↦ ok l
    | none ↦ err rendezvous_point_not_connected
  ]

  -- What the loop leaves of the field.
  unfoldable pub set_point : Option PeerId → EventLoop N → EventLoop N
  set_point none l = l
  set_point (some peer) l = record l { rendezvous_point_peer_id = some peer }

  unfoldable pub with_client :
      Option (Result (EventLoop N)) → Option (Result (Client × EventLoop N))
  unfolding new_client
  with_client none = none
  with_client (some (err error)) = some (err error)
  with_client (some (ok l)) = some (ok (new_client, l))

module _ {N : Type 0} (h : Host) where
  -- The result of `listen_on` is not looked at.
  unfoldable pub start_listen : List (Select N) → EventLoop N → Option (Result (EventLoop N))
  unfolding listen_loop
  start_listen selects l = elim (listen_loop selects) [
    | none ↦ none
    | some true ↦ some (ok l)
    | some false ↦ some (err (listen_error h.local_address))
  ]

  unfoldable pub conntect_rendezvous : List (Select N) → EventLoop N → Option (Result (EventLoop N))
  unfolding connect_loop is_connected set_point
  conntect_rendezvous selects l = elim (h.dial l.rendezvous_point_address) [
    | some error ↦ some (err (dial_error error))
    | none ↦ elim (connect_loop selects) [
      | none ↦ none
      | some peer ↦ some (is_connected (set_point peer l))
    ]
  ]

  -- `listens` and `connects` are what the two `select!`s yield.
  unfoldable pub init :
      List (Select N) → List (Select N) → EventLoop N → Option (Result (EventLoop N))
  unfolding start_listen conntect_rendezvous
  init listens connects l = elim (start_listen listens l) [
    | none ↦ none
    | some (err error) ↦ some (err error)
    | some (ok l') ↦ conntect_rendezvous connects l'
  ]

  unfoldable pub new_network :
      Multiaddr
      → Option ℕ
      → FilePath
      → List (Select N)
      → List (Select N)
      → Outcome (Option (Result (Client × EventLoop N)))
  unfolding keypair init with_client new_swarm new_event_loop
  new_network address seed sharing_dir listens connects = elim (keypair h seed) [
    | panicked ↦ panicked
    | done keys ↦ elim (h.tokio_development_transport keys) [
      | none ↦ panicked
      | some transport ↦
          done (with_client (init listens connects (new_event_loop new_swarm address sharing_dir)))
    ]
  ]
