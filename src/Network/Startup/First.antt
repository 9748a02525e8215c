-- ===== src/Network/Startup/First.antt =====
-- What ends the two loops of the start, in src/network/mod.rs: the first event that settles them.
use file_sharing_example.Common.{
  ◌≡◌, refl, inl, inr, ◌⊎◌, Bool, true, false, none, some, List, [], ◌∷◌, ◌++◌, ap, any, arith,
  nat_eq,
}
use file_sharing_example.FileGet.Types.{PeerId}
use file_sharing_example.Network.Behaviour.{
  new_listen_addr, listener_error, behaviour, ComposedEvent, IdentifyEvent,
}
use file_sharing_example.Network.Startup.{Select, swarm, delay, listen_loop, connect_loop}

-- The timer of a `select!` fires in the end.
abbrev pub is_delay : {N : Type 0} → Select N → Bool
is_delay delay = true
is_delay (swarm _) = false

-- The swarm says that it listens.
abbrev pub is_listening : {N : Type 0} → Select N → Bool
is_listening (swarm (new_listen_addr _)) = true
is_listening _ = false

-- What settles whether the swarm listens: an address, an error of a listener, or the timer.
abbrev pub settles_listen : {N : Type 0} → Select N → Bool
settles_listen delay = true
settles_listen (swarm (new_listen_addr _)) = true
settles_listen (swarm listener_error) = true
settles_listen (swarm _) = false

abbrev pub identified : {N : Type 0} → PeerId → Select N
identified peer = swarm (behaviour (ComposedEvent.identify (IdentifyEvent.received peer)))

-- What settles whether a peer was identified: that a peer is, whichever, or the timer.
abbrev pub settles_connect : {N : Type 0} → Select N → Bool
settles_connect delay = true
settles_connect (swarm (behaviour (ComposedEvent.identify (IdentifyEvent.received _)))) = true
settles_connect (swarm _) = false

-- `x` is the first of the list that passes the test.
pub record IsFirst {ℓ} {A : Type ℓ} (test : A → Bool) (xs : List A) (x : A) : Type ℓ where
  pub before : List A
  pub behind : List A
  pub split : xs ≡ before ++ x ∷ behind
  pub earlier : any test before ≡ false
  pub passes : test x ≡ true

IsFirst-head {ℓ} :
    {A : Type ℓ} (test : A → Bool) (x : A) (xs : List A) → test x ≡ true → IsFirst test (x ∷ xs) x
unfolding any
IsFirst-head test x xs h = record {
  before = [];
  behind = xs;
  split = refl;
  earlier = refl;
  passes = h;
}

IsFirst-tail {ℓ} :
    {A : Type ℓ} (test : A → Bool) (y : A) (xs : List A) {x : A}
    → test y ≡ false
    → IsFirst test xs x
    → IsFirst test (y ∷ xs) x
unfolding any
IsFirst-tail test y xs h f = record {
  before = y ∷ f.before;
  behind = f.behind;
  split = ap (λ l. y ∷ l) f.split;
  earlier = ground (arith, f.earlier);
  passes = f.passes;
}

-- Whether what settles it is that the swarm listens.
abbrev pub Settles : {N : Type 0} → List (Select N) → Bool → Type 0
Settles {N} listens heard =
    (x : Select N) × IsFirst settles_listen listens x × (is_listening x ≡ heard)

module _ {N : Type 0} where
  Settles-tail :
      (y : Select N) (listens : List (Select N)) (heard : Bool)
      → settles_listen y ≡ false
      → Settles listens heard
      → Settles (y ∷ listens) heard
  Settles-tail y listens heard h (x, first, is) =
      (x, IsFirst-tail settles_listen y listens h first, is)

  -- Once the timer fires, the loop of `start_listen` has ended, by what settles it.
  pub listen_loop_ends :
      (listens : List (Select N))
      → any is_delay listens ≡ true
      → ((listen_loop listens ≡ some false) × Settles listens false)
        ⊎ ((listen_loop listens ≡ some true) × Settles listens true)
  unfolding listen_loop any
  listen_loop_ends [] h = cc
  listen_loop_ends (delay ∷ selects) h =
      inl (refl, (delay, IsFirst-head settles_listen delay selects refl, refl))
  listen_loop_ends (swarm (new_listen_addr address) ∷ selects) h =
      let x = swarm (new_listen_addr address) in
      inr (refl, (x, IsFirst-head settles_listen x selects refl, refl))
  listen_loop_ends (swarm listener_error ∷ selects) h =
      let x = swarm listener_error in
      inl (refl, (x, IsFirst-head settles_listen x selects refl, refl))
  listen_loop_ends (swarm event ∷ selects) h = elim (listen_loop_ends selects h) [
    | inl (e, deaf) ↦ inl (e, Settles-tail (swarm event) selects false refl deaf)
    | inr (e, heard) ↦ inr (e, Settles-tail (swarm event) selects true refl heard)
  ]

  -- And so has the loop of `conntect_rendezvous`.
  pub connect_loop_ends :
      (connects : List (Select N))
      → any is_delay connects ≡ true
      → ((connect_loop connects ≡ some none) × IsFirst settles_connect connects delay)
        ⊎ ((p : PeerId) × (connect_loop connects ≡ some (some p))
            × IsFirst settles_connect connects (identified p))
  unfolding connect_loop any
  connect_loop_ends [] h = cc
  connect_loop_ends (delay ∷ selects) h =
      inl (refl, IsFirst-head settles_connect delay selects refl)
  connect_loop_ends
        (swarm (behaviour (ComposedEvent.identify (IdentifyEvent.received peer))) ∷ selects) h =
      inr (peer, refl, IsFirst-head settles_connect (identified peer) selects refl)
  connect_loop_ends (swarm event ∷ selects) h = elim (connect_loop_ends selects h) [
    | inl (e, first) ↦ inl (e, IsFirst-tail settles_connect (swarm event) selects refl first)
    | inr (p, e, first) ↦ inr (p, e, IsFirst-tail settles_connect (swarm event) selects refl first)
  ]
