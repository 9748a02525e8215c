-- ===== src/FileGet/Open/Legal.antt =====
-- Runs of file-get/src/lib.rs in which the swarm keeps its part.
use mathlib.Core.Path.{fun_ext}
use file_sharing_example.Common.{
  ◌≡◌, refl, ap, sym, ◌∙◌, inl, inr, true, false, some, List, [], ◌∷◌, ◌++◌, lookup, insert,
  contains, nat_eq, arith, Option-cases,
}
use file_sharing_example.FileGet.Types.{
  PeerId, ConnectionId, RequestId, Multiaddr, FileGetMessage, Channel, request_received,
}
use file_sharing_example.FileGet.Handler.{
  FileGetHandlerEvent, request, response, response_sent as sent, response_omission,
  outbound_timeout, outbound_unsupported_protocols, inbound_timeout, inbound_unsupported_protocols,
}
use file_sharing_example.FileGet.Connections.{
  Connection, find_connection, update_connection, remove_connection, owe_response, drop_inbound,
  drop_outbound,
}
use file_sharing_example.FileGet.Behaviour.{
  FileGet, Action, generate_event, done, entry, push_action, add_address, remove_address,
}
use file_sharing_example.FileGet.Behaviour.Entries.{entry_of_none, entry_of_some}
use file_sharing_example.FileGet.Swarm.{
  FromSwarm, connection_established, connection_closed, address_change, dial_failure,
  dialed_address, on_connection_closed, on_address_change, on_swarm_event, drop_connection,
}
use file_sharing_example.FileGet.Reports.{
  get_connection, on_request, assert_then, remove_pending_inbound_response,
  remove_pending_outbound_response, on_connection_handler_event, poll,
}
use file_sharing_example.FileGet.Driver.{
  Call, sends, adds_address, removes_address, swarm_event, handler_event, polls, apply, run,
}
use file_sharing_example.FileGet.Open.{open_ids, open_after, open_all, is_legal, are_legal}
use file_sharing_example.FileGet.Open.Kept.{
  find_of_open, open_ids-send_request, open_ids-on_connection_established, open_ids-drop_connection,
  open_ids-write, open_ids-one_dial_failure, open_ids-insert, ids_of-update,
}

lookup_of_open :
    (fg : FileGet) (p : PeerId) (conn : ConnectionId)
    → contains (open_ids fg p) conn ≡ true
    → (c : Connection) × (lookup p fg.connected ≡ some (entry p fg.connected))
      × (find_connection conn (entry p fg.connected) ≡ some c)
unfolding contains
lookup_of_open fg p conn h = elim (Option-cases (lookup p fg.connected)) [
  | inl e ↦ cc (rw (entry_of_none p fg.connected e) at h)
  | inr (cs, e) ↦
      let (c, found) = find_of_open conn (entry p fg.connected) h in
      (c, e ∙ ap some (sym (entry_of_some p fg.connected e)), found)
]

open_ids-on_request :
    (q : PeerId) (fg : FileGet) (p : PeerId) (conn : ConnectionId) (id : RequestId)
    (m : FileGetMessage) (sender : Channel)
    → open_ids (on_request fg p conn id m sender) q ≡ open_ids fg q
unfolding on_request push_action owe_response
open_ids-on_request q fg p conn id m sender =
    let fg1 = push_action (generate_event (request_received p id m sender)) fg in
    elim (Option-cases (get_connection fg1 p conn)) [
      | inl e ↦ rw (on_request, e)
      | inr (c, e) ↦ rw (on_request, e) (open_ids-write q fg1 p conn (owe_response id) (λ x. refl))
    ]

-- A call of a release build that returns, and what becomes of the open connections.
pub record Returned (fg : FileGet) (c : Call) : Type 0 where
  pub state : FileGet
  pub out : List Action
  pub applied : apply false fg c ≡ done (state, out)
  pub opened : (q : PeerId) → open_ids state q ≡ open_after q (open_ids fg q) c

handler_event-Returned :
    (fg : FileGet) (p : PeerId) (conn : ConnectionId) (e : FileGetHandlerEvent)
    → Returned fg (handler_event p conn e)
unfolding apply on_connection_handler_event assert_then push_action remove_pending_inbound_response
    remove_pending_outbound_response
handler_event-Returned fg p conn (request id m sender) = record {
  state = on_request fg p conn id m sender;
  out = [];
  applied = refl;
  opened = λ q. open_ids-on_request q fg p conn id m sender;
}
handler_event-Returned fg p conn (response id) = record {
  state = _;
  out = [];
  applied = refl;
  opened = λ q. open_ids-write q fg p conn (drop_inbound id) (λ c. refl);
}
handler_event-Returned fg p conn (sent id) = record {
  state = _;
  out = [];
  applied = refl;
  opened = λ q. open_ids-write q fg p conn (drop_outbound id) (λ c. refl);
}
handler_event-Returned fg p conn (response_omission id) = record {
  state = _;
  out = [];
  applied = refl;
  opened = λ q. open_ids-write q fg p conn (drop_outbound id) (λ c. refl);
}
handler_event-Returned fg p conn (outbound_timeout id) = record {
  state = _;
  out = [];
  applied = refl;
  opened = λ q. open_ids-write q fg p conn (drop_inbound id) (λ c. refl);
}
handler_event-Returned fg p conn (outbound_unsupported_protocols id) = record {
  state = _;
  out = [];
  applied = refl;
  opened = λ q. open_ids-write q fg p conn (drop_inbound id) (λ c. refl);
}
handler_event-Returned fg p conn (inbound_timeout id) = record {
  state = _;
  out = [];
  applied = refl;
  opened = λ q. open_ids-write q fg p conn (drop_outbound id) (λ c. refl);
}
handler_event-Returned fg p conn (inbound_unsupported_protocols id) = record {
  state = _;
  out = [];
  applied = refl;
  opened = λ q. open_ids-write q fg p conn (drop_outbound id) (λ c. refl);
}

swarm_event-Returned :
    (fg : FileGet) (e : FromSwarm)
    → is_legal (open_ids fg) (swarm_event e) ≡ true
    → Returned fg (swarm_event e)
unfolding apply on_swarm_event on_connection_closed on_address_change
swarm_event-Returned fg (connection_established p conn endpoint others) h = record {
  state = _;
  out = [];
  applied = refl;
  opened = λ q. open_ids-on_connection_established q fg p conn endpoint others;
}
swarm_event-Returned fg (connection_closed p conn) h =
    let (c, at, found) = lookup_of_open fg p conn h in
    record {
      state = drop_connection fg p c (remove_connection conn (entry p fg.connected));
      out = [];
      applied = rw (at, on_connection_closed, found);
      opened = λ q. open_ids-drop_connection q fg p conn c;
    }
swarm_event-Returned fg (address_change p conn new) h =
    let (c, at, found) = lookup_of_open fg p conn h in
    let write = λ (x : Connection). record x { address = dialed_address new } in
    record {
      state = record fg {
        connected = insert p (update_connection conn write (entry p fg.connected)) fg.connected;
      };
      out = [];
      applied = rw (at, on_address_change, found);
      opened = λ q.
          open_ids-insert fg p q (update_connection conn write (entry p fg.connected))
            (ids_of-update conn write (entry p fg.connected) (λ x. refl));
    }
swarm_event-Returned fg (dial_failure p) h = record {
  state = _;
  out = [];
  applied = refl;
  opened = λ q. open_ids-one_dial_failure q fg p;
}
swarm_event-Returned fg _ h = record { state = fg; out = []; applied = refl; opened = λ q. refl }

open_ids-poll : (fg : FileGet) (q : PeerId) → open_ids (poll fg).0 q ≡ open_ids fg q
unfolding poll
open_ids-poll fg q = ground arith

open_ids-remove_address :
    (fg : FileGet) (p q : PeerId) (a : Multiaddr)
    → open_ids (remove_address fg p a) q ≡ open_ids fg q
unfolding remove_address
open_ids-remove_address fg p q a = ground arith

pub apply-Returned : (fg : FileGet) (c : Call) → is_legal (open_ids fg) c ≡ true → Returned fg c
unfolding apply add_address
apply-Returned fg (sends p m w) h = record {
  state = _;
  out = [];
  applied = refl;
  opened = λ q. open_ids-send_request q fg p m w;
}
apply-Returned fg (adds_address p a) h = record {
  state = _;
  out = [];
  applied = refl;
  opened = λ q. refl;
}
apply-Returned fg (removes_address p a) h = record {
  state = _;
  out = [];
  applied = refl;
  opened = λ q. open_ids-remove_address fg p q a;
}
apply-Returned fg (swarm_event e) h = swarm_event-Returned fg e h
apply-Returned fg (handler_event p conn e) h = handler_event-Returned fg p conn e
apply-Returned fg polls h = record {
  state = _;
  out = _;
  applied = refl;
  opened = λ q. open_ids-poll fg q;
}

-- In a release build, no run panics in which the swarm closes, and changes the address of, only
-- connections that it has opened and not closed; and after such a run the connections that the
-- behaviour knows of are, for each peer and in order, exactly those that are open.
pub run-are_legal :
    (cs : List Call) (fg : FileGet)
    → are_legal (open_ids fg) cs ≡ true
    → (fg' : FileGet) × (out : List Action) × (run false fg cs ≡ done (fg', out))
      × ((q : PeerId) → open_ids fg' q ≡ open_all q (open_ids fg q) cs)
unfolding run are_legal open_all
run-are_legal [] fg h = (fg, [], refl, λ q. refl)
run-are_legal (c ∷ cs) fg h =
    let first = apply-Returned fg c (ground arith) in
    let same : (λ q. open_after q (open_ids fg q) c) ≡ open_ids first.state =
      fun_ext (λ q. sym (first.opened q)) in
    let legal : are_legal (open_ids first.state) cs ≡ true =
      ap (λ o. are_legal o cs) (sym same) ∙ ground arith in
    let (fg', out, ran, opened) = run-are_legal cs first.state legal in
    (
      fg',
      first.out ++ out,
      rw (first.applied, ran),
      λ q. opened q ∙ ap (λ ids. open_all q ids cs) (first.opened q),
    )
