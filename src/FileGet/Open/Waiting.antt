-- ===== src/FileGet/Open/Waiting.antt =====
-- Which requests of file-get/src/lib.rs wait for a connection.
use file_sharing_example.Common.{
  ℕ, ◌≡◌, refl, sym, ap, ◌∙◌, subst, inl, inr, ◌⊎◌, true, false, some, List, [], ◌∷◌, ◌++◌, lookup,
  length, ◌==◌, nat_eq, arith, Option-cases, Bool-cases, if◌then◌else◌,
}
use file_sharing_example.FileGet.Types.{
  PeerId, ConnectionId, RequestId, Channel, FileGetEvent, FileGetMessage, Writer,
}
use file_sharing_example.FileGet.Protocol.{FileGetOutboundProtocol}
use file_sharing_example.FileGet.Connections.{Connection}
use file_sharing_example.FileGet.Behaviour.{
  FileGet, entry, push_action, send_over, try_send_request, dial_and_keep, send_request,
}
use file_sharing_example.FileGet.Behaviour.Entries.{
  entry-remove, entry-push_entry, entry_of_none, try_send_request_cases,
}
use file_sharing_example.FileGet.Swarm.{
  ConnectedPoint, report, drop_connection, send_pending, flush_pending, on_connection_established,
  fail_pending, one_dial_failure,
}
use file_sharing_example.FileGet.Reports.{with_connection, on_request}
use file_sharing_example.FileGet.Open.{ids_of, open_ids}

abbrev pub waiting : FileGet → PeerId → List FileGetOutboundProtocol
waiting fg q = entry q fg.pending_outbound_requests

-- No request waits while its peer has a connection.
abbrev pub IsServed : FileGet → PeerId → Type 0
IsServed fg q = (open_ids fg q ≡ []) ⊎ (waiting fg q ≡ [])

pub try_send_request-waiting :
    (fg : FileGet) (p : PeerId) (req : FileGetOutboundProtocol)
    → (try_send_request fg p req).0.pending_outbound_requests ≡ fg.pending_outbound_requests
unfolding send_over push_action
try_send_request-waiting fg p req = elim (try_send_request_cases fg p req) [
  | inl (e, kept) ↦ rw kept
  | inr (c, cs, e, over) ↦ rw over
]

pub send_pending-waiting :
    (p : PeerId) (reqs : List FileGetOutboundProtocol) (fg : FileGet)
    → (send_pending fg p reqs).pending_outbound_requests ≡ fg.pending_outbound_requests
unfolding send_pending
send_pending-waiting p [] fg = refl
send_pending-waiting p (req ∷ reqs) fg =
    send_pending-waiting p reqs (try_send_request fg p req).0 ∙ try_send_request-waiting fg p req

fail_pending-waiting :
    (p : PeerId) (reqs : List FileGetOutboundProtocol) (fg : FileGet)
    → (fail_pending fg p reqs).pending_outbound_requests ≡ fg.pending_outbound_requests
unfolding fail_pending push_action
fail_pending-waiting p [] fg = refl
fail_pending-waiting p (req ∷ reqs) fg = fail_pending-waiting p reqs (push_action _ fg)

report-waiting :
    (event : RequestId → FileGetEvent) (ids : List RequestId) (fg : FileGet)
    → (report event ids fg).pending_outbound_requests ≡ fg.pending_outbound_requests
unfolding report push_action
report-waiting event [] fg = refl
report-waiting event (id ∷ ids) fg = report-waiting event ids (push_action _ fg)

module _ (q : PeerId) where
  flush_pending-waiting :
      (fg : FileGet) (p : PeerId)
      → waiting (flush_pending fg p) q ≡ (if p == q then [] else waiting fg q)
  unfolding flush_pending
  flush_pending-waiting fg p = elim (Option-cases (lookup p fg.pending_outbound_requests)) [
    | inl e ↦ rw (e, flush_pending) (ground (arith, entry_of_none p fg.pending_outbound_requests e))
    | inr (reqs, e) ↦
        rw (e, flush_pending, send_pending-waiting p reqs _)
          (entry-remove p q fg.pending_outbound_requests)
  ]

  pub one_dial_failure-waiting :
      (fg : FileGet) (p : PeerId)
      → waiting (one_dial_failure fg (some p)) q ≡ (if p == q then [] else waiting fg q)
  unfolding one_dial_failure
  one_dial_failure-waiting fg p = elim (Option-cases (lookup p fg.pending_outbound_requests)) [
    | inl e ↦
        rw (e, one_dial_failure) (ground (arith, entry_of_none p fg.pending_outbound_requests e))
    | inr (reqs, e) ↦
        rw (e, one_dial_failure, fail_pending-waiting p reqs _)
          (entry-remove p q fg.pending_outbound_requests)
  ]

  -- A call that opens no connection to the peer, and lets no request to it wait that did not wait.
  pub calm-IsServed :
      (fg fg' : FileGet)
      → (open_ids fg q ≡ [] → open_ids fg' q ≡ [])
      → (waiting fg' q ≡ []) ⊎ (waiting fg' q ≡ waiting fg q)
      → IsServed fg q
      → IsServed fg' q
  calm-IsServed fg fg' shut (inl empty) h = inr empty
  calm-IsServed fg fg' shut (inr same) (inl e) = inl (shut e)
  calm-IsServed fg fg' shut (inr same) (inr e) = inr (same ∙ e)

  dial_and_keep-IsServed :
      (fg : FileGet) (p : PeerId) (req : FileGetOutboundProtocol)
      → open_ids (dial_and_keep p (try_send_request fg p req)) q ≡ open_ids fg q
      → IsServed fg q
      → IsServed (dial_and_keep p (try_send_request fg p req)) q
  unfolding dial_and_keep push_action send_over
  dial_and_keep-IsServed fg p req same h = elim (try_send_request_cases fg p req) [
    | inl (e, kept) ↦ elim (Bool-cases (p == q)) [
      | inl hit ↦ inl (same ∙ ground (arith, ap ids_of e))
      | inr miss ↦
          calm-IsServed fg (dial_and_keep p (try_send_request fg p req)) (λ shut. same ∙ shut)
            (inr (rw kept (ground (arith, entry-push_entry p q req fg.pending_outbound_requests))))
            h
    ]
    | inr (c, cs, e, over) ↦
        calm-IsServed fg (dial_and_keep p (try_send_request fg p req)) (λ shut. same ∙ shut)
          (inr (rw over refl)) h
  ]

  pub send_request-IsServed :
      (fg : FileGet) (p : PeerId) (m : FileGetMessage) (w : Writer)
      → open_ids (send_request fg p m w).0 q ≡ open_ids fg q
      → IsServed fg q
      → IsServed (send_request fg p m w).0 q
  unfolding send_request
  send_request-IsServed fg p m w same h = dial_and_keep-IsServed _ p _ same h

  on_connection_established-waiting :
      (fg : FileGet) (p : PeerId) (conn : ConnectionId) (endpoint : ConnectedPoint) (others : ℕ)
      → waiting (on_connection_established fg p conn endpoint others) q
        ≡ (if others == 0 then (if p == q then [] else waiting fg q) else waiting fg q)
  unfolding on_connection_established
  on_connection_established-waiting fg p conn endpoint others = elim (Bool-cases (others == 0)) [
    | inl first ↦ rw first (flush_pending-waiting _ p)
    | inr more ↦ rw more refl
  ]

  pub on_connection_established-IsServed :
      (fg : FileGet) (p : PeerId) (conn : ConnectionId) (endpoint : ConnectedPoint) (others : ℕ)
      → (others == length (open_ids fg p)) ≡ true
      → open_ids (on_connection_established fg p conn endpoint others) q
        ≡ (if p == q then open_ids fg q ++ conn ∷ [] else open_ids fg q)
      → IsServed fg q
      → IsServed (on_connection_established fg p conn endpoint others) q
  on_connection_established-IsServed fg p conn endpoint others counted opened h =
      let now = on_connection_established-waiting fg p conn endpoint others in
      elim (Bool-cases (p == q)) [
        | inl hit ↦ elim (Bool-cases (others == 0)) [
          | inl first ↦ inr (now ∙ rw (first, hit) refl)
          | inr more ↦ inr (now ∙ rw more (served_before more hit))
        ]
        | inr miss ↦
            calm-IsServed fg (on_connection_established fg p conn endpoint others)
              (λ shut. opened ∙ rw miss shut) (inr (now ∙ ground arith)) h
      ]
    where
      served_before : (others == 0) ≡ false → (p == q) ≡ true → waiting fg q ≡ []
      served_before more hit = elim h [
        | inl shut ↦
            let same : p ≡ q = ground arith in
            let none_open : length (open_ids fg p) ≡ 0 =
              ap length (subst (λ x. open_ids fg x ≡ []) (sym same) shut) in
            absurd (ground arith)
        | inr empty ↦ empty
      ]

  pub drop_connection-waiting :
      (fg : FileGet) (p : PeerId) (c : Connection) (rest : List Connection)
      → waiting (drop_connection fg p c rest) q ≡ waiting fg q
  unfolding drop_connection
  drop_connection-waiting fg p c rest =
      rw
        (
          report-waiting _ c.pending_inbound_responses _,
          report-waiting _ c.pending_outbound_responses _,
        )
        refl

  pub with_connection-waiting :
      (fg : FileGet) (p : PeerId) (conn : ConnectionId) (f : Connection → Connection)
      → waiting (with_connection fg p conn f) q ≡ waiting fg q
  unfolding with_connection
  with_connection-waiting fg p conn f = ground arith

  pub on_request-waiting :
      (fg : FileGet) (p : PeerId) (conn : ConnectionId) (id : RequestId) (m : FileGetMessage)
      (sender : Channel)
      → waiting (on_request fg p conn id m sender) q ≡ waiting fg q
  unfolding on_request push_action with_connection
  on_request-waiting fg p conn id m sender = ground arith
