-- ===== src/Network/Alone.antt =====
-- What an event of src/network/mod.rs does while at most one command is pending.
use file_sharing_example.Common.{
  ℕ, ◌≡◌, refl, sym, ap, ◌∙◌, subst, inl, inr, ◌⊎◌, Bool, true, false, some, List, [], ◌∷◌, ◌++◌,
  map, keys, lookup, remove, nat_eq, arith, Bool-cases, Option-cases,
}
use file_sharing_example.FileGet.Types.{
  RequestId, Text, request_received, response_received, response_sent, outbound_failure,
  inbound_failure,
}
use file_sharing_example.Command.{Command, register, list_peers, list_files, get_file, ok}
use file_sharing_example.Network.Behaviour.{
  Registration, SwarmEvent, discovered_event, list_files_request, list_files_response,
  file_get_event,
}
use file_sharing_example.Network.Types.{
  CommandResult, CommandRequest, Rendezvous, World, EventLoop, returned,
}
use file_sharing_example.Network.Events.{
  is_list_peers, list_peers_keys, respond, forget, finish_get, on_list_files_response,
  on_response_received, on_request_received, on_list_files_request, on_file_get,
  record_registrations, answer_peers, on_discovered, handle_event,
}
use file_sharing_example.Network.Replies.{IsResult}
use file_sharing_example.Network.Handled.{returned_injective}
use file_sharing_example.Network.Pending.{is_list_files, IsBooked}
use file_sharing_example.Network.Answering.{get_file_of}

-- Nothing was answered and nothing forgotten.
abbrev pub Stays : {N : Type 0} → EventLoop N → EventLoop N → Type 0
Stays l l' = (l'.pending_command_requests ≡ l.pending_command_requests) × (l'.answers ≡ l.answers)

-- The request was answered, by a result for it, and nothing is pending any more.
abbrev pub Concludes : {N : Type 0} → CommandRequest → EventLoop N → EventLoop N → Type 0
Concludes req l l' =
    (l'.pending_command_requests ≡ [])
    × ((result : CommandResult) × (l'.answers
          ≡ l.answers
            ++ (
              req.response_sender,
              ok (record { command_request_id = req.command_request_id; result = result }),
            )
              ∷ [])
        × IsResult req.command result)

peers-IsResult :
    (c : Command) (ns : List Text)
    → is_list_peers c ≡ true
    → IsResult c (CommandResult.list_peers ns)
peers-IsResult list_peers ns h = tt
peers-IsResult (register _) ns h = cc
peers-IsResult (list_files _) ns h = cc
peers-IsResult (get_file _) ns h = cc

files-IsResult :
    (c : Command) (ns : List Text)
    → is_list_files c ≡ true
    → IsResult c (CommandResult.list_files ns)
files-IsResult (list_files _) ns h = tt
files-IsResult list_peers ns h = cc
files-IsResult (register _) ns h = cc
files-IsResult (get_file _) ns h = cc

module _ (r : Rendezvous) (debug : Bool) (w : World) where
  open r use {Namespace, to_string}

  -- An event that touches neither the pending commands nor the answers, whatever is pending.
  abbrev is_quiet : SwarmEvent Namespace → Bool
  is_quiet (discovered_event _) = false
  is_quiet (list_files_response _ _ _) = false
  is_quiet (file_get_event (response_received _ _)) = false
  is_quiet _ = true

  quiet-Stays :
      (l : EventLoop Namespace) (e : SwarmEvent Namespace) {l' : EventLoop Namespace}
      → is_quiet e ≡ true
      → handle_event r debug w l e ≡ returned l'
      → Stays l l'
  unfolding handle_event on_file_get on_request_received on_list_files_request
  quiet-Stays l (list_files_request peer channel) q e = ground arith
  quiet-Stays l (file_get_event (request_received p id m sender)) q e = ground arith
  quiet-Stays l (file_get_event (response_received _ _)) q e = cc
  quiet-Stays l (file_get_event (response_sent _ _)) q e = ground arith
  quiet-Stays l (file_get_event (outbound_failure _ _ _)) q e = ground arith
  quiet-Stays l (file_get_event (inbound_failure _ _ _)) q e = ground arith
  quiet-Stays l (discovered_event _) q e = cc
  quiet-Stays l (list_files_response _ _ _) q e = cc
  quiet-Stays l _ q e = ground arith

  -- One command is pending.
  module _ (l : EventLoop Namespace) (k : ℕ) (req : CommandRequest) (h : IsBooked l)
      (one : l.pending_command_requests ≡ (k, req) ∷ []) where
    pending_one :
        (key : ℕ) (q : CommandRequest)
        → lookup key l.pending_command_requests ≡ some q
        → (key ≡ k) × (q ≡ req)
    unfolding lookup
    pending_one key q e = ground arith

    at_k : lookup k l.pending_command_requests ≡ some req
    unfolding lookup
    at_k = ground arith

    own_id : req.command_request_id ≡ k
    unfolding lookup
    own_id = h.keyed k req (ground arith)

    remove_one : (key : ℕ) → key ≡ k → remove key l.pending_command_requests ≡ []
    unfolding remove
    remove_one key e = ground arith

    answered-Concludes :
        (key id : ℕ) (q : CommandRequest) (result : CommandResult) (l' : EventLoop Namespace)
        → lookup key l.pending_command_requests ≡ some q
        → id ≡ q.command_request_id
        → l'.pending_command_requests ≡ remove key l.pending_command_requests
        → l'.answers
          ≡ l.answers
            ++ (q.response_sender, ok (record { command_request_id = id; result = result })) ∷ []
        → IsResult q.command result
        → Concludes req l l'
    answered-Concludes key id q result l' at same gone said fits =
        let (here, own) = pending_one key q at in
        (
          gone ∙ remove_one key here,
          subst
              (λ (x : CommandRequest).
                (result : CommandResult) × (l'.answers
                  ≡ l.answers
                    ++ (
                      x.response_sender,
                      ok (record { command_request_id = x.command_request_id; result = result }),
                    )
                      ∷ [])
                × IsResult x.command result)
              own (result, rw (← same) said, fits),
        )

    files_alone :
        (id : ℕ) (ns : List Text)
        → Stays l (on_list_files_response id ns l)
          ⊎ Concludes req l (on_list_files_response id ns l)
    unfolding on_list_files_response respond forget
    files_alone id ns = elim (Option-cases (lookup id l.pending_list_files)) [
      | inl gone ↦ rw (gone, on_list_files_response) (inl (refl, refl))
      | inr (key, link) ↦
          let (q, at, kind) = h.lists.leads id key link in
          rw (link, on_list_files_response, at)
            (inr (
              answered-Concludes key key q (CommandResult.list_files ns)
                (respond q key (CommandResult.list_files ns)
                  (forget key (record l { pending_list_files = remove id l.pending_list_files })))
                at (sym (h.keyed key q at)) refl refl (files-IsResult q.command ns kind)))
    ]

    response_alone :
        (id : RequestId) {l' : EventLoop Namespace}
        → on_response_received debug id l ≡ returned l'
        → Concludes req l l'
    unfolding on_response_received finish_get respond forget
    response_alone id e = elim (Option-cases (lookup id l.pending_file_gets)) [
      | inl gone ↦ cc (rw (gone, on_response_received) at e)
      | inr (key, link) ↦
          let (q, at, kind) = h.gets.leads id key link in
          let (c, is_get) = get_file_of q.command kind in
          subst (Concludes req l)
            (returned_injective (rw (link, on_response_received, at, is_get, finish_get) at e))
            (answered-Concludes key key q (CommandResult.get_file c.user_name c.file_name)
              (respond q key (CommandResult.get_file c.user_name c.file_name)
                (forget key (record l { pending_file_gets = remove id l.pending_file_gets })))
              at (sym (h.keyed key q at)) refl refl (rw is_get (refl, refl)))
    ]

    peers_alone :
        (regs : List (Registration Namespace))
        → Stays l (on_discovered r regs l) ⊎ Concludes req l (on_discovered r regs l)
    unfolding on_discovered list_peers_keys answer_peers respond forget
    peers_alone regs =
        let l1 = record l { namespace_peers = record_registrations r regs l.namespace_peers } in
        elim (Bool-cases (is_list_peers req.command)) [
          | inr other ↦
              let none_asked : list_peers_keys l.pending_command_requests ≡ [] =
                ap list_peers_keys one ∙ rw other in
              rw none_asked (inl (refl, refl))
          | inl peers ↦
              let asked : list_peers_keys l.pending_command_requests ≡ k ∷ [] =
                ap list_peers_keys one ∙ rw peers in
              let at : lookup k l.pending_command_requests ≡ some req = at_k in
              rw (asked, answer_peers, at)
                (inr (
                  answered-Concludes k req.command_request_id req
                    (CommandResult.list_peers (map to_string (keys l1.namespace_peers)))
                    (respond req req.command_request_id
                      (CommandResult.list_peers (map to_string (keys l1.namespace_peers)))
                      (forget k l1))
                    at refl refl refl (peers-IsResult req.command _ peers)))
        ]

  -- While one command is pending, an event leaves it and all answers as they are, or concludes it.
  pub event_alone :
      (l : EventLoop Namespace) (k : ℕ) (req : CommandRequest) (e : SwarmEvent Namespace)
      {l' : EventLoop Namespace}
      → IsBooked l
      → l.pending_command_requests ≡ (k, req) ∷ []
      → handle_event r debug w l e ≡ returned l'
      → Stays l l' ⊎ Concludes req l l'
  unfolding handle_event on_file_get
  event_alone l k req (discovered_event regs) h one e =
      subst (λ x. Stays l x ⊎ Concludes req l x) (returned_injective e)
        (peers_alone l k req h one regs)
  event_alone l k req (list_files_response p id ns) h one e =
      subst (λ x. Stays l x ⊎ Concludes req l x) (returned_injective e)
        (files_alone l k req h one id ns)
  event_alone l k req (file_get_event (response_received p id)) h one e =
      inr (response_alone l k req h one id e)
  event_alone l k req (file_get_event (request_received a b c d)) h one e =
      inl (quiet-Stays l (file_get_event (request_received a b c d)) refl e)
  event_alone l k req (list_files_request p c) h one e =
      inl (quiet-Stays l (list_files_request p c) refl e)
  event_alone l k req ev h one e = inl (quiet-Stays l ev refl e)

  -- No command is pending.
  module _ (l : EventLoop Namespace) (h : IsBooked l) (idle : l.pending_command_requests ≡ []) where
    files_idle : (id : ℕ) (ns : List Text) → Stays l (on_list_files_response id ns l)
    unfolding on_list_files_response lookup
    files_idle id ns = elim (Option-cases (lookup id l.pending_list_files)) [
      | inl gone ↦ rw (gone, on_list_files_response) (refl, refl)
      | inr (key, link) ↦ let (q, at, kind) = h.lists.leads id key link in cc (rw idle at at)
    ]

    response_idle :
        (id : RequestId) {l' : EventLoop Namespace}
        → on_response_received debug id l ≡ returned l'
        → Stays l l'
    unfolding on_response_received lookup
    response_idle id e = elim (Option-cases (lookup id l.pending_file_gets)) [
      | inl gone ↦ cc (rw (gone, on_response_received) at e)
      | inr (key, link) ↦ let (q, at, kind) = h.gets.leads id key link in cc (rw idle at at)
    ]

    peers_idle : (regs : List (Registration Namespace)) → Stays l (on_discovered r regs l)
    unfolding on_discovered list_peers_keys answer_peers
    peers_idle regs =
        let none_asked : list_peers_keys l.pending_command_requests ≡ [] =
          ap list_peers_keys idle in
        rw none_asked (refl, refl)

  -- While no command is pending, an event leaves that and all answers as they are.
  pub event_idle :
      (l : EventLoop Namespace) (e : SwarmEvent Namespace) {l' : EventLoop Namespace}
      → IsBooked l
      → l.pending_command_requests ≡ []
      → handle_event r debug w l e ≡ returned l'
      → Stays l l'
  unfolding handle_event on_file_get
  event_idle l (discovered_event regs) h idle e =
      subst (λ x. Stays l x) (returned_injective e) (peers_idle l h idle regs)
  event_idle l (list_files_response p id ns) h idle e =
      subst (λ x. Stays l x) (returned_injective e) (files_idle l h idle id ns)
  event_idle l (file_get_event (response_received p id)) h idle e = response_idle l h idle id e
  event_idle l (file_get_event (request_received a b c d)) h idle e =
      quiet-Stays l (file_get_event (request_received a b c d)) refl e
  event_idle l (list_files_request p c) h idle e = quiet-Stays l (list_files_request p c) refl e
  event_idle l ev h idle e = quiet-Stays l ev refl e
