-- ===== src/FileGet/Live/Reports.antt =====
-- What the reports of the handlers, the swarm and `poll` of file-get/src/lib.rs do to the number of
-- times that a request may be answered.
use file_sharing_example.Common.{
  ◌+◌, ◌≤◌, ◌≡◌, refl, ap, subst, true, some, List, [], ◌∷◌, lookup, insert, ◌==◌, nat_eq, arith,
  Option-cases, Bool-cases, inl, inr,
}
use file_sharing_example.FileGet.Types.{
  PeerId, ConnectionId, RequestId, Channel, FileGetEvent, FileGetMessage, request_received,
  response_received,
}
use file_sharing_example.FileGet.Handler.{response, ready, pending}
use file_sharing_example.FileGet.Connections.{
  Connection, find_connection, update_connection, owe_response, drop_inbound, drop_outbound,
}
use file_sharing_example.FileGet.Behaviour.{FileGet, Action, generate_event, done, push_action}
use file_sharing_example.FileGet.Behaviour.Entries.{entry_of_some}
use file_sharing_example.FileGet.Reports.{
  with_connection, get_connection, on_request, assert_then, remove_pending_inbound_response,
  on_connection_handler_event, poll,
}
use file_sharing_example.FileGet.Live.{
  one_if, count, total-insert, in_conns, is_response, in_events, live, in_conns-update,
  in_conns-taken, count-set_remove,
}
use file_sharing_example.FileGet.Live.Calls.{in_events-push}

pub done_eq : {A : Type 0} {a b : A} → done a ≡ done b → a ≡ b
done_eq e = cc

taken-live :
    (id : RequestId) (fg : FileGet) (p : PeerId) (conn : ConnectionId)
    → (remove_pending_inbound_response fg p conn id).1 ≡ true
    → live id (with_connection fg p conn (drop_inbound id)) + 1 ≤ live id fg
unfolding remove_pending_inbound_response with_connection get_connection
taken-live id fg p conn had = elim (Option-cases (lookup p fg.connected)) [
  | inl e ↦ cc (rw (remove_pending_inbound_response, get_connection, e) at had)
  | inr (cs, e) ↦ elim (Option-cases (find_connection conn cs)) [
    | inl gone ↦ cc (rw (remove_pending_inbound_response, get_connection, e, gone) at had)
    | inr (c, found) ↦
        let fewer =
          in_conns-taken id conn cs found
            (rw (remove_pending_inbound_response, get_connection, e, found) at had) in
        let before = ap (in_conns id) (entry_of_some p fg.connected e) in
        let room =
          total-insert (in_conns id) refl p (update_connection conn (drop_inbound id) cs)
            fg.connected in
        rw (e, with_connection) (omega (arith, fewer, before, room))
  ]
]

pub poll_of_nil : (fg : FileGet) → fg.pending_events ≡ [] → poll fg ≡ (fg, pending)
unfolding poll
poll_of_nil fg at = rw at refl

pub poll_of_cons :
    (fg : FileGet) (action : Action) (rest : List Action)
    → fg.pending_events ≡ action ∷ rest
    → poll fg ≡ (record fg { pending_events = rest }, ready action)
unfolding poll
poll_of_cons fg action rest at = rw at refl

module _ (id : RequestId) where
  pub push-live :
      (event : FileGetEvent) (fg : FileGet)
      → live id (push_action (generate_event event) fg)
        ≡ live id fg + one_if (is_response id (generate_event event))
  unfolding push_action
  push-live event fg = omega (arith, in_events-push id (generate_event event) fg.pending_events)

  pub insert-live :
      (fg : FileGet) (p : PeerId) (conns : List Connection) {cs : List Connection}
      → lookup p fg.connected ≡ some cs
      → in_conns id conns ≤ in_conns id cs
      → live id (record fg { connected = insert p conns fg.connected }) ≤ live id fg
  insert-live fg p conns {cs} at less =
      let before = ap (in_conns id) (entry_of_some p fg.connected at) in
      omega (arith, total-insert (in_conns id) refl p conns fg.connected, before, less)

  write-live :
      (fg : FileGet) (p : PeerId) (conn : ConnectionId) (f : Connection → Connection)
      → ((c : Connection)
          → count id (f c).pending_inbound_responses ≤ count id c.pending_inbound_responses)
      → live id (with_connection fg p conn f) ≤ live id fg
  unfolding with_connection
  write-live fg p conn f less = elim (Option-cases (lookup p fg.connected)) [
    | inl e ↦ rw (e, with_connection) (omega arith)
    | inr (cs, e) ↦
        rw (e, with_connection)
          (insert-live fg p (update_connection conn f cs) e (in_conns-update id conn f cs less))
  ]

  pub drop-live :
      (fg : FileGet) (p : PeerId) (conn : ConnectionId) (j : RequestId)
      → live id (with_connection fg p conn (drop_inbound j)) ≤ live id fg
  drop-live fg p conn j =
      write-live fg p conn (drop_inbound j) (λ c. count-set_remove id j c.pending_inbound_responses)

  pub owed-live :
      (fg : FileGet) (p : PeerId) (conn : ConnectionId) (j : RequestId)
      → live id (with_connection fg p conn (drop_outbound j)) ≤ live id fg
  owed-live fg p conn j = write-live fg p conn (drop_outbound j) (λ c. omega arith)

  pub on_request-live :
      (fg : FileGet) (p : PeerId) (conn : ConnectionId) (i : RequestId) (m : FileGetMessage)
      (sender : Channel)
      → live id (on_request fg p conn i m sender) ≤ live id fg
  unfolding on_request
  on_request-live fg p conn i m sender =
      let fg1 = push_action (generate_event (request_received p i m sender)) fg in
      let told : live id fg1 ≡ live id fg + 0 = push-live _ fg in
      elim (Option-cases (get_connection fg1 p conn)) [
        | inl e ↦ rw (on_request, e) (omega (arith, push-live _ fg1, told))
        | inr (c, e) ↦
            let owed : live id (with_connection fg1 p conn (owe_response i)) ≤ live id fg1 =
              write-live fg1 p conn (owe_response i) (λ x. omega arith) in
            rw (on_request, e) (omega (arith, owed, told))
      ]

  -- In a debug build.
  pub response-live :
      (fg : FileGet) (p : PeerId) (conn : ConnectionId) (i : RequestId) {fg' : FileGet}
      → on_connection_handler_event true fg p conn (response i) ≡ done fg'
      → live id fg' ≤ live id fg
  unfolding on_connection_handler_event remove_pending_inbound_response assert_then
  response-live fg p conn i {fg'} e =
      let dropped = with_connection fg p conn (drop_inbound i) in
      elim (Bool-cases (remove_pending_inbound_response fg p conn i).1) [
        | inl had ↦
            let same : push_action (generate_event (response_received p i)) dropped ≡ fg' =
              done_eq (rw (had, assert_then) at e) in
            let told : live id (push_action (generate_event (response_received p i)) dropped)
                ≡ live id dropped + one_if (i == id) =
              push-live (response_received p i) dropped in
            rw (← same) (elim (Bool-cases (i == id)) [
              | inl own ↦
                  let hit : i ≡ id = ground arith in
                  let gone : live id dropped + 1 ≤ live id fg =
                    subst (λ x. live x dropped + 1 ≤ live x fg) hit (taken-live i fg p conn had) in
                  omega (arith, told, ap one_if own, gone)
              | inr miss ↦ omega (arith, told, ap one_if miss, drop-live fg p conn i)
            ])
        | inr missing ↦ cc (rw (missing, assert_then) at e)
      ]

  pub poll-live :
      (fg : FileGet) (event : FileGetEvent)
      → (poll fg).1 ≡ ready (generate_event event)
      → live id (poll fg).0 + one_if (is_response id (generate_event event)) ≤ live id fg
  poll-live fg event e = popped fg.pending_events refl
    where
      popped :
          (actions : List Action)
          → fg.pending_events ≡ actions
          → live id (poll fg).0 + one_if (is_response id (generate_event event)) ≤ live id fg
      popped [] at = cc (rw (poll_of_nil fg at) at e)
      popped (action ∷ rest) at =
          let same : action ≡ generate_event event =
            cc (rw (poll_of_cons fg action rest at) at e) in
          let before = ap (in_events id) at in
          let said = ap (λ a. one_if (is_response id a)) same in
          rw (poll_of_cons fg action rest at) (omega (arith, before, said))

  pub poll-less : (fg : FileGet) → live id (poll fg).0 ≤ live id fg
  poll-less fg = popped fg.pending_events refl
    where
      popped :
          (actions : List Action) → fg.pending_events ≡ actions → live id (poll fg).0 ≤ live id fg
      popped [] at = rw (poll_of_nil fg at) (omega arith)
      popped (action ∷ rest) at =
          let before = ap (in_events id) at in
          rw (poll_of_cons fg action rest at) (omega (arith, before))
