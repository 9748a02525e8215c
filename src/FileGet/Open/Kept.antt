-- ===== src/FileGet/Open/Kept.antt =====
-- What each operation of file-get/src/lib.rs does to the connections that are known.
use file_sharing_example.Common.{
  ℕ, zero, suc, ◌≡◌, refl, ap, sym, ◌∙◌, inl, inr, true, Option, none, some, List, [], ◌∷◌, ◌++◌,
  modify, lookup, insert, remove, contains, is_empty, ◌==◌, nat_eq, arith, Option-cases, Bool-cases,
  if◌then◌else◌, length, ◌%◌,
}
use mathlib.Core.List.{map-append}
use file_sharing_example.FileGet.Types.{
  PeerId, ConnectionId, RequestId, FileGetEvent, FileGetMessage, Writer, usize_mod,
}
use file_sharing_example.FileGet.Protocol.{FileGetOutboundProtocol}
use file_sharing_example.FileGet.Connections.{
  Connection, new_connection, find_connection, update_connection, remove_connection, await_response,
}
use file_sharing_example.FileGet.Behaviour.{
  FileGet, entry, push_entry, push_action, send_over, try_send_request, dial_and_keep, send_request,
}
use file_sharing_example.FileGet.Behaviour.Entries.{
  entry-insert, entry-remove, entry-push_entry, entry_of_some, try_send_request_cases,
}
use file_sharing_example.FileGet.Swarm.{
  ConnectedPoint, dialed_address, report, drop_connection, send_pending, flush_pending,
  on_connection_established, fail_pending, one_dial_failure,
}
use file_sharing_example.FileGet.Reports.{with_connection}
use file_sharing_example.FileGet.Open.{ids_of, open_ids, without}

ids_of-modify :
    (cs : List Connection) (i : ℕ) (id : RequestId)
    → ids_of (modify cs i (await_response id)) ≡ ids_of cs
unfolding await_response
ids_of-modify [] i id = refl
ids_of-modify (c ∷ cs) zero id = refl
ids_of-modify (c ∷ cs) (suc i) id = ap (λ t. c.id ∷ t) (ids_of-modify cs i id)

pub ids_of-update :
    (conn : ConnectionId) (f : Connection → Connection) (cs : List Connection)
    → ((c : Connection) → (f c).id ≡ c.id)
    → ids_of (update_connection conn f cs) ≡ ids_of cs
unfolding update_connection
ids_of-update conn f [] same = refl
ids_of-update conn f (c ∷ cs) same = ground (arith, ids_of-update conn f cs same, same c)

ids_of-remove :
    (conn : ConnectionId) (cs : List Connection)
    → ids_of (remove_connection conn cs) ≡ without conn (ids_of cs)
unfolding remove_connection without
ids_of-remove conn [] = refl
ids_of-remove conn (c ∷ cs) = ground (arith, ids_of-remove conn cs)

pub find_of_open :
    (conn : ConnectionId) (cs : List Connection)
    → contains (ids_of cs) conn ≡ true
    → (c : Connection) × (find_connection conn cs ≡ some c)
unfolding find_connection contains
find_of_open conn [] h = cc
find_of_open conn (c ∷ cs) h = elim (Bool-cases (c.id == conn)) [
  | inl hit ↦ (c, rw hit)
  | inr miss ↦ let (found, eq) = find_of_open conn cs (ground arith) in (found, rw miss eq)
]

-- A write over the list of `p` that keeps the ids there keeps them everywhere.
pub open_ids-insert :
    (fg : FileGet) (p q : PeerId) (cs : List Connection)
    → ids_of cs ≡ open_ids fg p
    → ids_of (entry q (insert p cs fg.connected)) ≡ open_ids fg q
open_ids-insert fg p q cs same = ground (arith, entry-insert p q cs fg.connected, same)

module _ (q : PeerId) where
  open_ids-try_send_request :
      (fg : FileGet) (p : PeerId) (req : FileGetOutboundProtocol)
      → open_ids (try_send_request fg p req).0 q ≡ open_ids fg q
  unfolding send_over push_action
  open_ids-try_send_request fg p req = elim (try_send_request_cases fg p req) [
    | inl (e, kept) ↦ rw kept
    | inr (c, cs, e, sent) ↦ rw sent (
        open_ids-insert fg p q
          (modify (c ∷ cs) (req.request_id % usize_mod % length (c ∷ cs))
            (await_response req.request_id))
          (ids_of-modify (c ∷ cs) _ req.request_id ∙ ap ids_of (sym e)))
  ]

  open_ids-dial_and_keep :
      (p : PeerId) (tried : FileGet × Option FileGetOutboundProtocol)
      → open_ids (dial_and_keep p tried) q ≡ open_ids tried.0 q
  unfolding dial_and_keep push_action
  open_ids-dial_and_keep p (fg, none) = refl
  open_ids-dial_and_keep p (fg, some req) = refl

  pub open_ids-send_request :
      (fg : FileGet) (p : PeerId) (m : FileGetMessage) (w : Writer)
      → open_ids (send_request fg p m w).0 q ≡ open_ids fg q
  unfolding send_request
  open_ids-send_request fg p m w =
      open_ids-dial_and_keep p (try_send_request _ p _) ∙ open_ids-try_send_request _ p _

  open_ids-send_pending :
      (p : PeerId) (reqs : List FileGetOutboundProtocol) (fg : FileGet)
      → open_ids (send_pending fg p reqs) q ≡ open_ids fg q
  unfolding send_pending
  open_ids-send_pending p [] fg = refl
  open_ids-send_pending p (req ∷ reqs) fg =
      open_ids-send_pending p reqs (try_send_request fg p req).0
      ∙ open_ids-try_send_request fg p req

  open_ids-flush_pending :
      (fg : FileGet) (p : PeerId) → open_ids (flush_pending fg p) q ≡ open_ids fg q
  unfolding flush_pending
  open_ids-flush_pending fg p = elim (Option-cases (lookup p fg.pending_outbound_requests)) [
    | inl e ↦ rw (e, flush_pending)
    | inr (reqs, e) ↦ rw (e, flush_pending) (open_ids-send_pending p reqs _)
  ]

  pub open_ids-on_connection_established :
      (fg : FileGet) (p : PeerId) (conn : ConnectionId) (endpoint : ConnectedPoint) (others : ℕ)
      → open_ids (on_connection_established fg p conn endpoint others) q
        ≡ (if p == q then open_ids fg q ++ conn ∷ [] else open_ids fg q)
  unfolding on_connection_established new_connection
  open_ids-on_connection_established fg p conn endpoint others =
      let c = new_connection conn (dialed_address endpoint) in
      let fg1 = record fg { connected = push_entry p c fg.connected } in
      let pushed : open_ids fg1 q ≡ (if p == q then open_ids fg q ++ conn ∷ [] else open_ids fg q) =
        ground (
          arith,
          entry-push_entry p q c fg.connected,
          map-append (λ (x : Connection). x.id) (entry q fg.connected) (c ∷ []),
        ) in
      elim (Bool-cases (others == 0)) [
        | inl first ↦ rw first (open_ids-flush_pending fg1 p ∙ pushed)
        | inr more ↦ rw more pushed
      ]

  report-connected :
      (event : RequestId → FileGetEvent) (ids : List RequestId) (fg : FileGet)
      → (report event ids fg).connected ≡ fg.connected
  unfolding report push_action
  report-connected event [] fg = refl
  report-connected event (id ∷ ids) fg = report-connected event ids (push_action _ fg)

  open_ids-left :
      (fg : FileGet) (p : PeerId) (conn : ConnectionId) (rest : List Connection)
      → ids_of rest ≡ without conn (open_ids fg p)
      → ids_of
          (entry q (if is_empty rest then remove p fg.connected else insert p rest fg.connected))
        ≡ (if p == q then without conn (open_ids fg q) else open_ids fg q)
  open_ids-left fg p conn [] same = ground (arith, entry-remove p q fg.connected, same)
  open_ids-left fg p conn (c ∷ cs) same =
      ground (arith, entry-insert p q (c ∷ cs) fg.connected, same)

  pub open_ids-drop_connection :
      (fg : FileGet) (p : PeerId) (conn : ConnectionId) (c : Connection)
      → open_ids (drop_connection fg p c (remove_connection conn (entry p fg.connected))) q
        ≡ (if p == q then without conn (open_ids fg q) else open_ids fg q)
  unfolding drop_connection
  open_ids-drop_connection fg p conn c =
      let rest = remove_connection conn (entry p fg.connected) in
      rw
        (
          report-connected _ c.pending_inbound_responses _,
          report-connected _ c.pending_outbound_responses _,
        )
        (open_ids-left fg p conn rest (ids_of-remove conn (entry p fg.connected)))

  pub open_ids-write :
      (fg : FileGet) (p : PeerId) (conn : ConnectionId) (f : Connection → Connection)
      → ((c : Connection) → (f c).id ≡ c.id)
      → open_ids (with_connection fg p conn f) q ≡ open_ids fg q
  unfolding with_connection
  open_ids-write fg p conn f same = elim (Option-cases (lookup p fg.connected)) [
    | inl e ↦ rw (e, with_connection)
    | inr (cs, e) ↦
        rw (e, with_connection)
          (open_ids-insert fg p q (update_connection conn f cs)
            (ids_of-update conn f cs same ∙ ap ids_of (sym (entry_of_some p fg.connected e))))
  ]

  fail_pending-connected :
      (p : PeerId) (reqs : List FileGetOutboundProtocol) (fg : FileGet)
      → (fail_pending fg p reqs).connected ≡ fg.connected
  unfolding fail_pending push_action
  fail_pending-connected p [] fg = refl
  fail_pending-connected p (req ∷ reqs) fg = fail_pending-connected p reqs (push_action _ fg)

  pub open_ids-one_dial_failure :
      (fg : FileGet) (p : Option PeerId) → open_ids (one_dial_failure fg p) q ≡ open_ids fg q
  unfolding one_dial_failure
  open_ids-one_dial_failure fg none = refl
  open_ids-one_dial_failure fg (some p) =
      elim (Option-cases (lookup p fg.pending_outbound_requests)) [
        | inl e ↦ rw (e, one_dial_failure)
        | inr (reqs, e) ↦ rw (e, one_dial_failure, fail_pending-connected p reqs _)
      ]
