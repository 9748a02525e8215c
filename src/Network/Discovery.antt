-- ===== src/Network/Discovery.antt =====
-- The answers to the commands that list the peers, and the books after any event, for
-- src/network/mod.rs.
use mathlib.Core.List.{append-nil, append_assoc}
use file_sharing_example.Common.{
  ℕ, ◌≡◌, sym, ◌∙◌, inl, inr, true, false, none, some, Bool, refl, List, [], ◌∷◌, ◌++◌, map, Map,
  keys, HasUniqueKeys, lookup, remove, lookup-remove, lookup-insert, insert, Option, ◌==◌, ◌&&◌,
  nat_eq, arith, Bool-cases, if◌then◌else◌,
}
use file_sharing_example.FileGet.Types.{PeerId, Channel, Multiaddr}
use file_sharing_example.Command.{Command, register, list_peers, list_files, get_file, Result, ok}
use file_sharing_example.Network.Types.{
  CommandResult, CommandResponse, CommandRequest, Rendezvous, EventLoop,
}
use file_sharing_example.Network.Behaviour.{Registration}
use file_sharing_example.Network.Events.{
  is_list_peers, list_peers_keys, respond, forget, record_addresses, record_registrations,
  answer_peers, on_discovered,
}
use file_sharing_example.Network.Pending.{IsBooked, forget_peers_booked}

abbrev pub has_any {ℓ} : {A : Type ℓ} → List A → Bool
has_any [] = false
has_any (_ ∷ _) = true

-- The command `ls_peers`.
abbrev pub wants_peers : Command → Bool
wants_peers list_peers = true
wants_peers _ = false

is_list_peers-eq : (c : Command) → is_list_peers c ≡ wants_peers c
is_list_peers-eq list_peers = refl
is_list_peers-eq (register _) = refl
is_list_peers-eq (list_files _) = refl
is_list_peers-eq (get_file _) = refl

-- The pending commands that list the peers.
unfoldable pub listing : Map ℕ CommandRequest → List CommandRequest
listing [] = []
listing ((key, req) ∷ m) =
    let rest = listing m in if wants_peers req.command then req ∷ rest else rest

-- Each of the bindings of `m` is in force in `pend`.
abbrev Covers : Map ℕ CommandRequest → Map ℕ CommandRequest → Type 0
Covers pend m =
    (key : ℕ) (req : CommandRequest) → lookup key m ≡ some req → lookup key pend ≡ some req

module _ (k : ℕ) (req : CommandRequest) (m pend : Map ℕ CommandRequest) where
  Covers-head : Covers pend ((k, req) ∷ m) → lookup k pend ≡ some req
  unfolding lookup
  Covers-head h = h k req (ground arith)

  Covers-tail : lookup k m ≡ none → Covers pend ((k, req) ∷ m) → Covers pend m
  unfolding lookup
  Covers-tail fresh h j old e = h j old (ground arith)

  Covers-remove : lookup k m ≡ none → Covers pend m → Covers (remove k pend) m
  Covers-remove fresh h j old e = ground (arith, lookup-remove k j pend, h j old e)

module _ (k : ℕ) (req : CommandRequest) (m : Map ℕ CommandRequest) where
  listing_of_peers : is_list_peers req.command ≡ true → listing ((k, req) ∷ m) ≡ req ∷ listing m
  unfolding listing
  listing_of_peers e = rw (sym (is_list_peers-eq req.command) ∙ e)

  listing_of : is_list_peers req.command ≡ false → listing ((k, req) ∷ m) ≡ listing m
  unfolding listing
  listing_of e = rw (sym (is_list_peers-eq req.command) ∙ e)

  keys_of_peers :
      is_list_peers req.command ≡ true → list_peers_keys ((k, req) ∷ m) ≡ k ∷ list_peers_keys m
  unfolding list_peers_keys
  keys_of_peers e = rw e

  keys_of : is_list_peers req.command ≡ false → list_peers_keys ((k, req) ∷ m) ≡ list_peers_keys m
  unfolding list_peers_keys
  keys_of e = rw e

module _ (r : Rendezvous) where
  open r use {Namespace, namespace_eq, to_string}

  unfoldable pub reply : Map Namespace PeerId → CommandRequest → Channel × Result CommandResponse
  reply peers req = (
    req.response_sender,
    ok (record {
      command_request_id = req.command_request_id;
      result = CommandResult.list_peers (map to_string (keys peers));
    }),
  )

  record HaveReplies (reqs : List CommandRequest) (l l' : EventLoop Namespace) : Type 0 where
    said : l'.answers ≡ l.answers ++ map (reply l.namespace_peers) reqs
    booked : IsBooked l'
    known : l'.namespace_peers ≡ l.namespace_peers

  after_reply : CommandRequest → ℕ → EventLoop Namespace → EventLoop Namespace
  unfolding respond forget
  after_reply req k l =
      respond req req.command_request_id
        (CommandResult.list_peers (map to_string (keys l.namespace_peers))) (forget k l)

  answer_peers-cons :
      (k : ℕ) (req : CommandRequest) (ks : List ℕ) (l : EventLoop Namespace)
      → lookup k l.pending_command_requests ≡ some req
      → answer_peers r (k ∷ ks) l ≡ answer_peers r ks (after_reply req k l)
  unfolding answer_peers after_reply
  answer_peers-cons k req ks l at = rw (at, answer_peers)

  after_reply-IsBooked :
      (k : ℕ) (req : CommandRequest) (l : EventLoop Namespace)
      → lookup k l.pending_command_requests ≡ some req
      → is_list_peers req.command ≡ true
      → IsBooked l
      → IsBooked (after_reply req k l)
  unfolding after_reply
  after_reply-IsBooked k req l at peers h =
      forget_peers_booked l.pending_command_requests l.pending_file_gets l.pending_list_files k req
        at peers h

  HaveReplies-cons :
      (k : ℕ) (req : CommandRequest) (reqs : List CommandRequest) (l l' : EventLoop Namespace)
      → HaveReplies reqs (after_reply req k l) l'
      → HaveReplies (req ∷ reqs) l l'
  unfolding after_reply reply
  HaveReplies-cons k req reqs l l' h = record {
    said =
        h.said
        ∙ append_assoc l.answers (reply l.namespace_peers req ∷ [])
            (map (reply l.namespace_peers) reqs);
    booked = h.booked;
    known = h.known;
  }

  HaveReplies-nil :
      (l : EventLoop Namespace)
      → IsBooked l
      → HaveReplies (listing []) l (answer_peers r (list_peers_keys []) l)
  unfolding answer_peers list_peers_keys listing
  HaveReplies-nil l h = record { said = sym (append-nil l.answers); booked = h; known = refl }

  answer_peers-HaveReplies :
      (m : Map ℕ CommandRequest) (l : EventLoop Namespace)
      → HasUniqueKeys m
      → Covers l.pending_command_requests m
      → IsBooked l
      → HaveReplies (listing m) l (answer_peers r (list_peers_keys m) l)
  unfolding after_reply remove
  answer_peers-HaveReplies [] l u c h = HaveReplies-nil l h
  answer_peers-HaveReplies ((k, req) ∷ m) l (fresh, u) c h =
      let tail = Covers-tail k req m l.pending_command_requests fresh c in
      let at = Covers-head k req m l.pending_command_requests c in
      elim (Bool-cases (is_list_peers req.command)) [
        | inr other ↦
            rw (listing_of k req m other, keys_of k req m other)
              (answer_peers-HaveReplies m l u tail h)
        | inl peers ↦
            rw
              (
                listing_of_peers k req m peers,
                keys_of_peers k req m peers,
                answer_peers-cons k req (list_peers_keys m) l at,
              )
              (HaveReplies-cons k req (listing m) l _ (
                answer_peers-HaveReplies m (after_reply req k l) u
                  (Covers-remove k req m l.pending_command_requests fresh tail)
                  (after_reply-IsBooked k req l at peers h)))
      ]

  -- The peer that a namespace has after some registrations, where it had `old` before them: the peer
  -- of the last registration in that namespace that has an address.
  abbrev pub known_peer : Namespace → List (Registration Namespace) → Option PeerId → Option PeerId
  known_peer n [] old = old
  known_peer n (reg ∷ regs) old = known_peer n regs (
      if ◌==◌ ⦃e = namespace_eq⦄ reg.namespace n && has_any reg.addresses
      then some reg.peer_id
      else old)

  lookup-record_addresses :
      (n : Namespace) (reg : Registration Namespace) (addresses : List Multiaddr)
      (m : Map Namespace PeerId)
      → lookup ⦃e = namespace_eq⦄ n (record_addresses r reg addresses m) ≡ (
          if ◌==◌ ⦃e = namespace_eq⦄ reg.namespace n && has_any addresses
          then some reg.peer_id
          else lookup ⦃e = namespace_eq⦄ n m)
  unfolding record_addresses
  lookup-record_addresses n reg [] m = ground arith
  lookup-record_addresses n reg (a ∷ more) m = ground (
    arith,
    lookup-record_addresses n reg more (insert ⦃e = namespace_eq⦄ reg.namespace reg.peer_id m),
    lookup-insert ⦃e = namespace_eq⦄ reg.namespace n reg.peer_id m,
  )

  lookup-record_registrations :
      (n : Namespace) (regs : List (Registration Namespace)) (m : Map Namespace PeerId)
      → lookup ⦃e = namespace_eq⦄ n (record_registrations r regs m)
        ≡ known_peer n regs (lookup ⦃e = namespace_eq⦄ n m)
  unfolding record_registrations
  lookup-record_registrations n [] m = refl
  lookup-record_registrations n (reg ∷ regs) m =
      rw
        (
          lookup-record_registrations n regs (record_addresses r reg reg.addresses m),
          lookup-record_addresses n reg reg.addresses m,
        )
        refl

  -- When peers are discovered, each namespace has from then on the peer of the last registration in
  -- it that has an address, or else the peer that it had; each pending command that lists the peers is
  -- answered, once and in the order of the map, with the names of the namespaces that have a peer
  -- then; no other answer is given, and the books stay in order.
  pub on_discovered_lem :
      (regs : List (Registration Namespace)) (l : EventLoop Namespace)
      → IsBooked l
      → let l' = on_discovered r regs l in
        ((n : Namespace)
          → lookup ⦃e = namespace_eq⦄ n l'.namespace_peers
            ≡ known_peer n regs (lookup ⦃e = namespace_eq⦄ n l.namespace_peers))
        × (l'.answers
            ≡ l.answers ++ map (reply l'.namespace_peers) (listing l.pending_command_requests))
        × IsBooked l'
  unfolding on_discovered
  on_discovered_lem regs l h =
      let l1 = record l { namespace_peers = record_registrations r regs l.namespace_peers } in
      let done = answer_peers-HaveReplies l.pending_command_requests l1 h.unique (λ k q e. e) h in
      rw done.known
        (λ n. lookup-record_registrations n regs l.namespace_peers, done.said, done.booked)
