-- ===== src/Network/Books.antt =====
-- The books of the event loop of src/network/mod.rs after any event.
use file_sharing_example.FileGet.Types.{IoResult-cases}
use file_sharing_example.Common.{
  ℕ, ◌≡◌, subst, inl, inr, Bool, List, lookup, nat_eq, arith, Option-cases,
}
use file_sharing_example.FileGet.Types.{
  RequestId, Text, Channel, request_received, response_received, response_sent, outbound_failure,
  inbound_failure,
}
use file_sharing_example.Network.Types.{Rendezvous, World, join, EventLoop, returned}
use file_sharing_example.Network.Behaviour.{
  SwarmEvent, discovered_event, list_files_request, list_files_response, file_get_event,
}
use file_sharing_example.Network.Events.{
  finish_get, respond, forget, on_list_files_response, on_response_received, on_request_received,
  on_list_files_request, on_file_get, handle_event,
}
use file_sharing_example.Network.Pending.{IsBooked, finish_get_booked, finish_list_booked}
use file_sharing_example.Network.Handled.{returned_injective}
use file_sharing_example.Network.Answering.{get_file_of}
use file_sharing_example.Network.Discovery.{on_discovered_lem}

module _ {N : Type 0} (l : EventLoop N) (h : IsBooked l) where
  on_list_files_response-IsBooked :
      (id : ℕ) (names : List Text) → IsBooked (on_list_files_response id names l)
  unfolding on_list_files_response respond forget
  on_list_files_response-IsBooked id names = elim (Option-cases (lookup id l.pending_list_files)) [
    | inl gone ↦ rw (gone, on_list_files_response) h
    | inr (key, link) ↦
        let (req, at, kind) = h.lists.leads id key link in
        rw (link, on_list_files_response, at)
          (finish_list_booked l.pending_command_requests l.pending_file_gets l.pending_list_files
            key req at id link (ground arith) h)
  ]

module _ {N : Type 0} (l : EventLoop N) {l' : EventLoop N} (h : IsBooked l) where
  on_request_received-IsBooked :
      (w : World) (name : Text) (sender : Channel)
      → on_request_received w name sender l ≡ returned l'
      → IsBooked l'
  unfolding on_request_received
  on_request_received-IsBooked w name sender e =
      elim (IoResult-cases (w.open_read (join l.sharing_dir name))) [
        | inl (error, bad) ↦ cc (rw (bad, on_request_received) at e)
        | inr (file, good) ↦
            subst IsBooked (returned_injective (rw (good, on_request_received) at e)) h
      ]

  on_list_files_request-IsBooked :
      (w : World) (channel : Channel)
      → on_list_files_request w channel l ≡ returned l'
      → IsBooked l'
  unfolding on_list_files_request
  on_list_files_request-IsBooked w channel e = elim (IoResult-cases (w.read_dir l.sharing_dir)) [
    | inl (error, bad) ↦ cc (rw (bad, on_list_files_request) at e)
    | inr (entries, good) ↦
        subst IsBooked (returned_injective (rw (good, on_list_files_request) at e)) h
  ]

  on_response_received-IsBooked :
      (debug : Bool) (id : RequestId) → on_response_received debug id l ≡ returned l' → IsBooked l'
  unfolding on_response_received finish_get respond forget
  on_response_received-IsBooked debug id e = elim (Option-cases (lookup id l.pending_file_gets)) [
    | inl gone ↦ cc (rw (gone, on_response_received) at e)
    | inr (key, link) ↦
        let (req, at, kind) = h.gets.leads id key link in
        let (c, is_get) = get_file_of req.command kind in
        subst IsBooked
          (returned_injective (rw (link, on_response_received, at, is_get, finish_get) at e))
          (finish_get_booked l.pending_command_requests l.pending_file_gets l.pending_list_files key
            req at id link (ground arith) h)
  ]

-- Handling any event that returns keeps the books in order.
pub handle_event-IsBooked :
    (r : Rendezvous) (debug : Bool) (w : World) (l : EventLoop r.Namespace)
    (event : SwarmEvent r.Namespace) {l' : EventLoop r.Namespace}
    → IsBooked l
    → handle_event r debug w l event ≡ returned l'
    → IsBooked l'
unfolding handle_event on_file_get
handle_event-IsBooked r debug w l (discovered_event regs) h e =
    subst IsBooked (returned_injective e) (on_discovered_lem r regs l h).2
handle_event-IsBooked r debug w l (list_files_request peer channel) h e =
    on_list_files_request-IsBooked l h w channel e
handle_event-IsBooked r debug w l (list_files_response peer id names) h e =
    subst IsBooked (returned_injective e) (on_list_files_response-IsBooked l h id names)
handle_event-IsBooked r debug w l (file_get_event (request_received p id message sender)) h e =
    on_request_received-IsBooked l h w message.file_name sender e
handle_event-IsBooked r debug w l (file_get_event (response_received p id)) h e =
    on_response_received-IsBooked l h debug id e
handle_event-IsBooked r debug w l (file_get_event (response_sent _ _)) h e =
    subst IsBooked (returned_injective e) h
handle_event-IsBooked r debug w l (file_get_event (outbound_failure _ _ _)) h e =
    subst IsBooked (returned_injective e) h
handle_event-IsBooked r debug w l (file_get_event (inbound_failure _ _ _)) h e =
    subst IsBooked (returned_injective e) h
handle_event-IsBooked r debug w l _ h e = subst IsBooked (returned_injective e) h
