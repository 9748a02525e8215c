-- ===== src/Network/Pending.antt =====
-- The books of the event loop, src/network/mod.rs: which pending command each request serves.
use file_sharing_example.Common.{
  ℕ, ◌≡◌, refl, subst, inl, inr, Bool, true, false, none, some, Map, HasUniqueKeys, lookup, insert,
  remove, lookup-insert, lookup-remove, remove-HasUniqueKeys, insert-HasUniqueKeys, nat_eq, ◌==◌,
  arith, Bool-cases,
}
use file_sharing_example.Command.{Command, register, list_peers, list_files, get_file}
use file_sharing_example.Network.Types.{CommandRequest, Rendezvous, World, EventLoop, returned}
use file_sharing_example.Network.Commands.{handle_command}
use file_sharing_example.Network.Events.{is_list_peers}
use file_sharing_example.Network.Outcomes.{IsKept}
use file_sharing_example.Network.Handled.{handle_command_cases}
use file_sharing_example.Network.Links.{
  IsLinked, keep-IsLinked, link-IsLinked, finish-IsLinked, forget-IsLinked,
}

abbrev pub is_get_file : Command → Bool
is_get_file (get_file _) = true
is_get_file _ = false

abbrev pub is_list_files : Command → Bool
is_list_files (list_files _) = true
is_list_files _ = false

-- Each pending request of the two behaviours leads to a pending command of its kind, and to one of
-- its own; a pending command is kept once, under its own id.
pub record AreBooked (pend : Map ℕ CommandRequest) (get_links list_links : Map ℕ ℕ) : Type 0 where
  pub unique : HasUniqueKeys pend
  pub keyed :
      (key : ℕ) (req : CommandRequest) → lookup key pend ≡ some req → req.command_request_id ≡ key
  pub gets : IsLinked is_get_file get_links pend
  pub lists : IsLinked is_list_files list_links pend

abbrev pub IsBooked : {N : Type 0} → EventLoop N → Type 0
IsBooked l = AreBooked l.pending_command_requests l.pending_file_gets l.pending_list_files

module _ (pend : Map ℕ CommandRequest) (get_links list_links : Map ℕ ℕ) where
  keep_keyed :
      (req : CommandRequest)
      → AreBooked pend get_links list_links
      → (key : ℕ) (old : CommandRequest)
      → lookup key (insert req.command_request_id req pend) ≡ some old
      → old.command_request_id ≡ key
  keep_keyed req h key old e = elim (Bool-cases (req.command_request_id == key)) [
    | inl hit ↦
        let same : req ≡ old = ground (arith, lookup-insert req.command_request_id key req pend) in
        subst (λ x. x.command_request_id ≡ key) same (ground arith)
    | inr miss ↦ h.keyed key old (ground (arith, lookup-insert req.command_request_id key req pend))
  ]

  remove_keyed :
      (k : ℕ)
      → AreBooked pend get_links list_links
      → (key : ℕ) (old : CommandRequest) → lookup key (remove k pend) ≡ some old
      → old.command_request_id ≡ key
  remove_keyed k h key old e = h.keyed key old (ground (arith, lookup-remove k key pend))

  module _ (req : CommandRequest) (fresh : lookup req.command_request_id pend ≡ none) where
    keep_peers :
        AreBooked pend get_links list_links
        → AreBooked (insert req.command_request_id req pend) get_links list_links
    keep_peers h = record {
      unique = insert-HasUniqueKeys req.command_request_id req pend h.unique;
      keyed = keep_keyed req h;
      gets = keep-IsLinked is_get_file get_links pend req.command_request_id req fresh h.gets;
      lists = keep-IsLinked is_list_files list_links pend req.command_request_id req fresh h.lists;
    }

    keep_get :
        (id : ℕ)
        → is_get_file req.command ≡ true
        → AreBooked pend get_links list_links
        → AreBooked
            (insert req.command_request_id req pend)
            (insert id req.command_request_id get_links)
            list_links
    keep_get id kind h = record {
      unique = insert-HasUniqueKeys req.command_request_id req pend h.unique;
      keyed = keep_keyed req h;
      gets =
          link-IsLinked is_get_file get_links pend id req.command_request_id req fresh kind h.gets;
      lists = keep-IsLinked is_list_files list_links pend req.command_request_id req fresh h.lists;
    }

    keep_list :
        (id : ℕ)
        → is_list_files req.command ≡ true
        → AreBooked pend get_links list_links
        → AreBooked
            (insert req.command_request_id req pend)
            get_links
            (insert id req.command_request_id list_links)
    keep_list id kind h = record {
      unique = insert-HasUniqueKeys req.command_request_id req pend h.unique;
      keyed = keep_keyed req h;
      gets = keep-IsLinked is_get_file get_links pend req.command_request_id req fresh h.gets;
      lists =
          link-IsLinked is_list_files list_links pend id req.command_request_id req fresh kind
            h.lists;
    }

  module _ (k : ℕ) (req : CommandRequest) (at : lookup k pend ≡ some req) where
    pub finish_get_booked :
        (id : ℕ)
        → lookup id get_links ≡ some k
        → is_list_files req.command ≡ false
        → AreBooked pend get_links list_links
        → AreBooked (remove k pend) (remove id get_links) list_links
    finish_get_booked id link other h = record {
      unique = remove-HasUniqueKeys k pend h.unique;
      keyed = remove_keyed k h;
      gets = finish-IsLinked is_get_file get_links pend id k link h.gets;
      lists = forget-IsLinked is_list_files list_links pend k req at other h.lists;
    }

    pub finish_list_booked :
        (id : ℕ)
        → lookup id list_links ≡ some k
        → is_get_file req.command ≡ false
        → AreBooked pend get_links list_links
        → AreBooked (remove k pend) get_links (remove id list_links)
    finish_list_booked id link other h = record {
      unique = remove-HasUniqueKeys k pend h.unique;
      keyed = remove_keyed k h;
      gets = forget-IsLinked is_get_file get_links pend k req at other h.gets;
      lists = finish-IsLinked is_list_files list_links pend id k link h.lists;
    }

    pub forget_peers_booked :
        is_list_peers req.command ≡ true
        → AreBooked pend get_links list_links
        → AreBooked (remove k pend) get_links list_links
    forget_peers_booked peers h = record {
      unique = remove-HasUniqueKeys k pend h.unique;
      keyed = remove_keyed k h;
      gets = forget-IsLinked is_get_file get_links pend k req at (ground arith) h.gets;
      lists = forget-IsLinked is_list_files list_links pend k req at (ground arith) h.lists;
    }

module _ (r : Rendezvous) (w : World) where
  kept-IsBooked :
      (l : EventLoop r.Namespace) (req : CommandRequest) (l' : EventLoop r.Namespace) (c : Command)
      → req.command ≡ c
      → lookup req.command_request_id l.pending_command_requests ≡ none
      → IsBooked l
      → IsKept r w l req l' c
      → IsBooked l'
  kept-IsBooked l req l' (register _) e fresh h k = absurd k.asks
  kept-IsBooked l req l' list_peers e fresh h k =
      rw (k.pend, k.asks.gets, k.asks.lists) (keep_peers _ _ _ req fresh h)
  kept-IsBooked l req l' (list_files c) e fresh h k =
      rw (k.pend, k.asks.gets, k.asks.lists) (keep_list _ _ _ req fresh _ (rw e) h)
  kept-IsBooked l req l' (get_file c) e fresh h k =
      rw (k.pend, k.asks.gets, k.asks.lists) (keep_get _ _ _ req fresh _ (rw e) h)

-- Handling a command keeps the books in order, if its id is not the id of a pending command.
pub handle_command-IsBooked :
    (r : Rendezvous) (w : World) (l : EventLoop r.Namespace) (req : CommandRequest)
    {l' : EventLoop r.Namespace}
    → lookup req.command_request_id l.pending_command_requests ≡ none
    → IsBooked l
    → handle_command r w l req ≡ returned l'
    → IsBooked l'
handle_command-IsBooked r w l req {l'} fresh h e = elim (handle_command_cases r w l req e) [
  | inl a ↦ rw (a.pend, a.gets, a.lists) h
  | inr k ↦ kept-IsBooked r w l req l' req.command refl fresh h k
]
