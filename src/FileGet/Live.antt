-- ===== src/FileGet/Live.antt =====
-- How many times a request may still be answered, by the books of file-get/src/lib.rs: it waits for a
-- connection, a connection waits for its response, or the response is in the queue.
pub mod Calls
pub mod Reports
pub mod Events
pub mod Ids
use file_sharing_example.Common.{
  ℕ, zero, suc, ◌+◌, ◌≤◌, ◌≡◌, refl, ap, Bool, true, false, List, [], ◌∷◌, ◌++◌, Map, modify,
  lookup, insert, remove, contains, set_insert, set_remove, ◌==◌, nat_eq, arith, if◌then◌else◌,
  Option-cases, inl, inr, some, none, Bool-cases,
}
use file_sharing_example.FileGet.Types.{
  PeerId, ConnectionId, RequestId, FileGetEvent, response_received,
}
use file_sharing_example.FileGet.Protocol.{FileGetOutboundProtocol}
use file_sharing_example.FileGet.Connections.{
  Connection, find_connection, update_connection, remove_connection, await_response, drop_inbound,
}
use file_sharing_example.FileGet.Behaviour.{FileGet, Action, generate_event, entry}

abbrev pub one_if : Bool → ℕ
one_if true = 1
one_if false = 0

module _ {A : Type 0} where
  abbrev pub total : (A → ℕ) → List A → ℕ
  total f [] = 0
  total f (x ∷ xs) = f x + total f xs

  pub total-append : (f : A → ℕ) (xs ys : List A) → total f (xs ++ ys) ≡ total f xs + total f ys
  total-append f [] ys = omega arith
  total-append f (x ∷ xs) ys = omega (arith, total-append f xs ys)

module _ {V : Type 0} (f : List V → ℕ) (zero_at : f [] ≡ 0) where
  pub total-remove :
      (k : PeerId) (m : Map PeerId (List V))
      → total (λ b. f b.1) (remove k m) + f (entry k m) ≤ total (λ b. f b.1) m
  unfolding remove entry lookup
  total-remove k [] = omega arith
  total-remove k ((j, v) ∷ m) = elim (Bool-cases (j == k)) [
    | inl hit ↦
        let here : entry k ((j, v) ∷ m) ≡ v = ground arith in
        rw (hit, if◌then◌else◌) (omega (arith, total-remove k m, ap f here))
    | inr miss ↦
        let later : entry k ((j, v) ∷ m) ≡ entry k m = ground arith in
        rw (miss, if◌then◌else◌) (omega (arith, total-remove k m, ap f later))
  ]

  pub total-insert :
      (k : PeerId) (v : List V) (m : Map PeerId (List V))
      → total (λ b. f b.1) (insert k v m) + f (entry k m) ≤ f v + total (λ b. f b.1) m
  unfolding insert
  total-insert k v m = omega (arith, total-remove k m)

-- How often the id is in the list.
abbrev pub count : RequestId → List RequestId → ℕ
count id ids = total (λ i. one_if (i == id)) ids

count-set_insert :
    (id j : RequestId) (ids : List RequestId)
    → count id (set_insert j ids) ≤ one_if (j == id) + count id ids
unfolding set_insert
count-set_insert id j ids = ground arith

pub count-set_remove :
    (id j : RequestId) (ids : List RequestId) → count id (set_remove j ids) ≤ count id ids
unfolding set_remove
count-set_remove id j [] = omega arith
count-set_remove id j (i ∷ ids) = ground (arith, count-set_remove id j ids)

count-taken :
    (id : RequestId) (ids : List RequestId)
    → contains ids id ≡ true
    → count id (set_remove id ids) + 1 ≤ count id ids
unfolding set_remove contains
count-taken id [] h = cc
count-taken id (i ∷ ids) h = ground (arith, count-taken id ids, count-set_remove id id ids)

abbrev pub in_reqs : RequestId → List FileGetOutboundProtocol → ℕ
in_reqs id reqs = total (λ req. one_if (req.request_id == id)) reqs

abbrev pub in_conns : RequestId → List Connection → ℕ
in_conns id conns = total (λ c. count id c.pending_inbound_responses) conns

-- The action tells the application that the response came.
abbrev pub is_response : RequestId → Action → Bool
is_response id (generate_event (response_received peer i)) = i == id
is_response id _ = false

abbrev pub in_events : RequestId → List Action → ℕ
in_events id actions = total (λ a. one_if (is_response id a)) actions

abbrev pub live : RequestId → FileGet → ℕ
live id fg =
    total (λ b. in_reqs id b.1) fg.pending_outbound_requests
    + total (λ b. in_conns id b.1) fg.connected
    + in_events id fg.pending_events

pub in_conns-modify :
    (id j : RequestId) (conns : List Connection) (i : ℕ)
    → in_conns id (modify conns i (await_response j)) ≤ one_if (j == id) + in_conns id conns
unfolding await_response
in_conns-modify id j [] i = omega arith
in_conns-modify id j (c ∷ cs) zero =
    omega (arith, count-set_insert id j c.pending_inbound_responses)
in_conns-modify id j (c ∷ cs) (suc i) = omega (arith, in_conns-modify id j cs i)

pub in_conns-update :
    (id : RequestId) (conn : ConnectionId) (f : Connection → Connection) (conns : List Connection)
    → ((c : Connection)
        → count id (f c).pending_inbound_responses ≤ count id c.pending_inbound_responses)
    → in_conns id (update_connection conn f conns) ≤ in_conns id conns
unfolding update_connection
in_conns-update id conn f [] less = omega arith
in_conns-update id conn f (c ∷ cs) less = ground (arith, in_conns-update id conn f cs less, less c)

pub in_conns-drop :
    (id j : RequestId) (conn : ConnectionId) (conns : List Connection)
    → in_conns id (update_connection conn (drop_inbound j) conns) ≤ in_conns id conns
in_conns-drop id j conn conns =
    in_conns-update id conn (drop_inbound j) conns
      (λ c. count-set_remove id j c.pending_inbound_responses)

-- A response that the connection waited for is taken out.
pub in_conns-taken :
    (id : RequestId) (conn : ConnectionId) (conns : List Connection) {c : Connection}
    → find_connection conn conns ≡ some c
    → contains c.pending_inbound_responses id ≡ true
    → in_conns id (update_connection conn (drop_inbound id) conns) + 1 ≤ in_conns id conns
unfolding update_connection find_connection
in_conns-taken id conn [] found h = cc
in_conns-taken id conn (x ∷ xs) {c} found h = elim (Bool-cases (x.id == conn)) [
  | inl hit ↦
      let same : x ≡ c = cc (rw (hit, if◌then◌else◌) at found) in
      rw (hit, if◌then◌else◌)
        (omega (arith, count-taken id x.pending_inbound_responses (rw same h)))
  | inr miss ↦
      rw (miss, if◌then◌else◌)
        (omega (arith, in_conns-taken id conn xs (rw (miss, if◌then◌else◌) at found) h))
]

pub in_conns-remove :
    (id : RequestId) (conn : ConnectionId) (conns : List Connection)
    → in_conns id (remove_connection conn conns) ≤ in_conns id conns
unfolding remove_connection
in_conns-remove id conn [] = omega arith
in_conns-remove id conn (c ∷ cs) = ground (arith, in_conns-remove id conn cs)
