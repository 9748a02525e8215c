-- ===== src/Network/Settled.antt =====
-- What any event of src/network/mod.rs does to the pending commands.
use file_sharing_example.FileGet.Types.{IoResult-cases}
use file_sharing_example.Common.{◌≡◌, subst, inl, inr, Bool, nat_eq}
use file_sharing_example.FileGet.Types.{
  Text, Channel, request_received, response_received, response_sent, outbound_failure,
  inbound_failure,
}
use file_sharing_example.Network.Types.{Rendezvous, World, join, EventLoop, returned}
use file_sharing_example.Network.Behaviour.{
  SwarmEvent, discovered_event, list_files_request, list_files_response, file_get_event,
}
use file_sharing_example.Network.Events.{
  on_discovered, on_file_get, on_request_received, on_list_files_request, list_peers_keys,
  record_registrations, handle_event,
}
use file_sharing_example.Network.Handled.{returned_injective}
use file_sharing_example.Network.Pending.{IsBooked}
use file_sharing_example.Network.Settling.{
  Settles-same, LoopSettles, on_list_files_response-Settles, on_response_received-Settles,
  answer_peers-Settles,
}

module _ {N : Type 0} (l : EventLoop N) where
  on_request_received-Settles :
      (w : World) (name : Text) (sender : Channel) {l' : EventLoop N}
      → on_request_received w name sender l ≡ returned l'
      → LoopSettles l l'
  unfolding on_request_received
  on_request_received-Settles w name sender e =
      elim (IoResult-cases (w.open_read (join l.sharing_dir name))) [
        | inl (error, bad) ↦ cc (rw (bad, on_request_received) at e)
        | inr (file, good) ↦
            subst (LoopSettles l) (returned_injective (rw (good, on_request_received) at e))
              (Settles-same _ _)
      ]

  on_list_files_request-Settles :
      (w : World) (channel : Channel) {l' : EventLoop N}
      → on_list_files_request w channel l ≡ returned l'
      → LoopSettles l l'
  unfolding on_list_files_request
  on_list_files_request-Settles w channel e = elim (IoResult-cases (w.read_dir l.sharing_dir)) [
    | inl (error, bad) ↦ cc (rw (bad, on_list_files_request) at e)
    | inr (entries, good) ↦
        subst (LoopSettles l) (returned_injective (rw (good, on_list_files_request) at e))
          (Settles-same _ _)
  ]

module _ (r : Rendezvous) where
  open r use {Namespace}

  -- An event that returns leaves each pending command pending or answers it.
  pub handle_event-Settles :
      (debug : Bool) (w : World) (l : EventLoop Namespace) (e : SwarmEvent Namespace)
      {l' : EventLoop Namespace}
      → IsBooked l
      → handle_event r debug w l e ≡ returned l'
      → LoopSettles l l'
  unfolding handle_event on_file_get on_discovered
  handle_event-Settles debug w l (discovered_event regs) h e =
      let l1 = record l { namespace_peers = record_registrations r regs l.namespace_peers } in
      subst (LoopSettles l) (returned_injective e)
        (answer_peers-Settles r (list_peers_keys l.pending_command_requests) l1)
  handle_event-Settles debug w l (list_files_request peer channel) h e =
      on_list_files_request-Settles l w channel e
  handle_event-Settles debug w l (list_files_response peer id names) h e =
      subst (LoopSettles l) (returned_injective e) (on_list_files_response-Settles l h id names)
  handle_event-Settles debug w l (file_get_event (request_received p id message sender)) h e =
      on_request_received-Settles l w message.file_name sender e
  handle_event-Settles debug w l (file_get_event (response_received p id)) h e =
      on_response_received-Settles l h debug id _ e
  handle_event-Settles debug w l (file_get_event (response_sent _ _)) h e =
      subst (LoopSettles l) (returned_injective e) (Settles-same _ _)
  handle_event-Settles debug w l (file_get_event (outbound_failure _ _ _)) h e =
      subst (LoopSettles l) (returned_injective e) (Settles-same _ _)
  handle_event-Settles debug w l (file_get_event (inbound_failure _ _ _)) h e =
      subst (LoopSettles l) (returned_injective e) (Settles-same _ _)
  handle_event-Settles debug w l _ h e =
      subst (LoopSettles l) (returned_injective e) (Settles-same _ _)
