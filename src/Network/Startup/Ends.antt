-- ===== src/Network/Startup/Ends.antt =====
-- How the start of the program, `new_network` of src/network/mod.rs, ends.
use file_sharing_example.Common.{
  ℕ, ◌≡◌, ◌≢◌, refl, inl, inr, ◌⊎◌, true, false, Option, none, some, List, [], any, length, lookup,
  Option-cases, nat_eq,
}
use file_sharing_example.FileGet.Types.{PeerId, Multiaddr}
use file_sharing_example.FileGet.Behaviour.{done}
use file_sharing_example.Command.{
  dial_error, listen_error, rendezvous_point_not_connected, Result, ok, err,
}
use file_sharing_example.Network.Types.{FilePath, EventLoop}
use file_sharing_example.Network.Pending.{IsBooked}
use file_sharing_example.Network.Client.{Client, new_client}
use file_sharing_example.Network.Startup.{
  Host, Select, delay, new_event_loop, start_listen, is_connected, set_point, conntect_rendezvous,
  init, seed_bytes, keypair, new_swarm, with_client, new_network,
}
use file_sharing_example.Network.Startup.First.{
  is_delay, identified, settles_connect, IsFirst, Settles, listen_loop_ends, connect_loop_ends,
}

-- A host on which no `expect` or `unwrap` of the start can fail: 32 bytes are a secret key, as the
-- crate documents, and the transport is built.
pub record IsSound (h : Host) : Type 0 where
  pub accepts : (bytes : List ℕ) → length bytes ≡ 32 → h.from_bytes bytes ≢ none
  pub transports : (keys : ℕ) → h.tokio_development_transport keys ≢ none

-- The loop as it is after the start.
pub record IsReady {N : Type 0} (l : EventLoop N) : Type 0 where
  pub booked : IsBooked l
  pub idle : l.pending_command_requests ≡ []
  pub unlinked : (l.pending_file_gets ≡ []) × (l.pending_list_files ≡ [])
  pub silent : l.answers ≡ []
  pub untouched : l.file_get ≡ new_swarm

-- How the start may end, given what the two `select!`s yield.
abbrev pub IsStart :
    {N : Type 0}
    → Host
    → Multiaddr
    → List (Select N)
    → List (Select N)
    → Result (Client × EventLoop N)
    → Type 0
IsStart h address listens connects (ok (client, l)) =
    (client ≡ new_client)
    × IsReady l
    × Settles listens true
    × (h.dial address ≡ none)
    × ((p : PeerId) × (l.rendezvous_point_peer_id ≡ some p)
        × IsFirst settles_connect connects (identified p))
IsStart h address listens connects (err e) =
    (Settles listens false × (e ≡ listen_error h.local_address))
    ⊎ (Settles listens true
        × ((error : ℕ) × (h.dial address ≡ some error) × (e ≡ dial_error error)))
    ⊎ (Settles listens true
        × (h.dial address ≡ none)
        × IsFirst settles_connect connects delay
        × (e ≡ rendezvous_point_not_connected))

module _ {N : Type 0} where
  new_event_loop-IsReady :
      (address : Multiaddr) (point : Option PeerId) (dir : FilePath)
      → IsReady {N = N}
          (record (new_event_loop new_swarm address dir) { rendezvous_point_peer_id = point })
  unfolding new_event_loop lookup
  new_event_loop-IsReady address point dir = record {
    booked = record {
      unique = tt;
      keyed = λ k q e. cc;
      gets = record { leads = λ i k e. cc; apart = λ i j k e f. cc };
      lists = record { leads = λ i k e. cc; apart = λ i j k e f. cc };
    };
    idle = refl;
    unlinked = (refl, refl);
    silent = refl;
    untouched = refl;
  }

  connect_ends :
      (h : Host) (address : Multiaddr) (dir : FilePath) (connects : List (Select N))
      → any is_delay connects ≡ true
      → h.dial address ≡ none
      → ((conntect_rendezvous h connects (new_event_loop new_swarm address dir)
            ≡ some (err rendezvous_point_not_connected))
          × IsFirst settles_connect connects delay)
        ⊎ ((p : PeerId) × (conntect_rendezvous h connects (new_event_loop new_swarm address dir)
              ≡ some (
                  ok (record (new_event_loop new_swarm address dir) {
                    rendezvous_point_peer_id = some p;
                  })))
            × IsFirst settles_connect connects (identified p))
  unfolding conntect_rendezvous is_connected set_point new_event_loop
  connect_ends h address dir connects connected dials =
      elim (connect_loop_ends connects connected) [
        | inl (late, first) ↦ inl (rw (conntect_rendezvous, dials, late), first)
        | inr (p, now, known) ↦ inr (p, rw (conntect_rendezvous, dials, now), known)
      ]

  refused_start :
      (h : Host) (address : Multiaddr) (dir : FilePath) (connects : List (Select N)) {error : ℕ}
      → h.dial address ≡ some error
      → conntect_rendezvous h connects (new_event_loop new_swarm address dir)
        ≡ some (err (dial_error error))
  unfolding conntect_rendezvous new_event_loop
  refused_start h address dir connects refused = rw (conntect_rendezvous, refused)

  init_ends :
      (h : Host) (address : Multiaddr) (dir : FilePath) (listens connects : List (Select N))
      → any is_delay listens ≡ true
      → any is_delay connects ≡ true
      → (result : Result (Client × EventLoop N)) × (with_client
            (init h listens connects (new_event_loop new_swarm address dir))
          ≡ some result)
        × IsStart h address listens connects result
  unfolding with_client init start_listen
  init_ends h address dir listens connects listened connected =
      let l : EventLoop N = new_event_loop new_swarm address dir in
      elim (listen_loop_ends listens listened) [
        | inl (lost, deaf) ↦
            (err (listen_error h.local_address), rw (init, start_listen, lost), inl (deaf, refl))
        | inr (now, heard) ↦ elim (Option-cases (h.dial address)) [
          | inr (error, refused) ↦ (
            err (dial_error error),
            rw (init, start_listen, now, refused_start h address dir connects refused),
            inr (inl (heard, (error, refused, refl))),
          )
          | inl dials ↦ elim (connect_ends h address dir connects connected dials) [
            | inl (late, first) ↦ (
              err rendezvous_point_not_connected,
              rw (init, start_listen, now, late),
              inr (inr (heard, dials, first, refl)),
            )
            | inr (p, connects_now, known) ↦ (
              ok (new_client, record l { rendezvous_point_peer_id = some p }),
              rw (init, start_listen, now, connects_now),
              (refl, new_event_loop-IsReady address (some p) dir, heard, dials, (p, refl, known)),
            )
          ]
        ]
      ]

keypair_done : (h : Host) (seed : Option ℕ) → IsSound h → (keys : ℕ) × (keypair h seed ≡ done keys)
unfolding keypair seed_bytes
keypair_done h none s = (h.generate_ed25519, refl)
keypair_done h (some seed) s = elim (Option-cases (h.from_bytes (seed_bytes seed))) [
  | inl gone ↦ absurd (s.accepts (seed_bytes seed) refl gone)
  | inr (key, at) ↦ (h.from_secret_key key, rw (keypair, at))
]

-- The start of the program ends. On a host where 32 bytes are a secret key and the transport is
-- built, it does not panic; once the timers fire, it has ended, and in one of four ways. With a client
-- and a loop, where nothing is pending and the books are in order: the swarm gave an address to listen
-- on before a listener failed or the timer fired, the rendezvous point was dialed, and some peer was
-- identified before the timer; the first one is recorded as the rendezvous point, whoever it is. With
-- the error that the swarm does not listen: a listener failed, or the timer fired, before there was an
-- address. With the error of the dial: there was an address, and the dial was refused. Or with the
-- error that the point is not connected: there was an address, the dial was made, and the timer fired
-- before any peer was identified.
pub new_network_ends :
    {N : Type 0} (h : Host) (address : Multiaddr) (seed : Option ℕ) (dir : FilePath)
    (listens connects : List (Select N))
    → IsSound h
    → any is_delay listens ≡ true
    → any is_delay connects ≡ true
    → (result : Result (Client × EventLoop N)) × (new_network h address seed dir listens connects
        ≡ done (some result))
      × IsStart h address listens connects result
unfolding new_network
new_network_ends h address seed dir listens connects sound listened connected =
    let (keys, keyed) = keypair_done h seed sound in
    let (result, ends, start) = init_ends h address dir listens connects listened connected in
    elim (Option-cases (h.tokio_development_transport keys)) [
      | inl gone ↦ absurd (sound.transports keys gone)
      | inr (transport, at) ↦ (result, rw (new_network, keyed, at, ends), start)
    ]
