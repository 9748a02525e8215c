-- ===== src/FileGet/Connections/Laws.antt =====
-- What the searches and writes do to the requests that a list of connections waits for.
use file_sharing_example.Common.{
  ℕ, ◌<◌, ◌≡◌, refl, Bool, true, false, ◌||◌, some, List, [], ◌∷◌, ◌++◌, zero, suc, length, modify,
  any, contains, contains-set_insert, contains-set_remove, ◌==◌, nat_eq, arith,
}
use file_sharing_example.FileGet.Types.{ConnectionId, RequestId}
use file_sharing_example.FileGet.Connections.{
  Connection, find_connection, update_connection, remove_connection, await_response, drop_inbound,
}

-- Some connection of the list waits for the response to the request.
unfoldable pub awaits : RequestId → List Connection → Bool
unfolding any
awaits id conns = any (λ c. contains c.pending_inbound_responses id) conns

-- And some connection owes a response to the request.
unfoldable pub owes : RequestId → List Connection → Bool
unfolding any
owes id conns = any (λ c. contains c.pending_outbound_responses id) conns

pub awaits-modify :
    (id j : RequestId) (conns : List Connection) (i : ℕ)
    → i < length conns
    → awaits id (modify conns i (await_response j)) ≡ (j == id || awaits id conns)
unfolding awaits await_response
awaits-modify id j [] i h = absurd (omega arith)
awaits-modify id j (c ∷ cs) zero h =
    ground (arith, contains-set_insert j id c.pending_inbound_responses)
awaits-modify id j (c ∷ cs) (suc i) h = ground (arith, awaits-modify id j cs i)

pub awaits-drop :
    (id j : RequestId) (conn : ConnectionId) (conns : List Connection)
    → awaits id conns ≡ true
    → (j == id) ≡ false
    → awaits id (update_connection conn (drop_inbound j) conns) ≡ true
unfolding awaits update_connection
awaits-drop id j conn [] h ne = h
awaits-drop id j conn (c ∷ cs) h ne =
    ground (arith, awaits-drop id j conn cs, contains-set_remove j id c.pending_inbound_responses)

-- A write that leaves the one set alone.
pub awaits-update :
    (id : RequestId) (conn : ConnectionId) (f : Connection → Connection) (conns : List Connection)
    → ((c : Connection) → (f c).pending_inbound_responses ≡ c.pending_inbound_responses)
    → awaits id (update_connection conn f conns) ≡ awaits id conns
unfolding awaits update_connection
awaits-update id conn f [] same = refl
awaits-update id conn f (c ∷ cs) same = ground (arith, awaits-update id conn f cs same, same c)

pub awaits-remove :
    (id : RequestId) (conn : ConnectionId) (conns : List Connection) {c : Connection}
    → find_connection conn conns ≡ some c
    → awaits id conns
      ≡ (contains c.pending_inbound_responses id || awaits id (remove_connection conn conns))
unfolding awaits find_connection remove_connection
awaits-remove id conn [] h = ground arith
awaits-remove id conn (x ∷ xs) {c} h = ground (arith, awaits-remove id conn xs {c = c})

-- The first connection with a number is the one that is found, and the one that is removed.
pub find_connection-split :
    (conn : ConnectionId) (c : Connection) (before behind : List Connection)
    → any (λ (d : Connection). d.id == conn) before ≡ false
    → c.id ≡ conn
    → (find_connection conn (before ++ c ∷ behind) ≡ some c)
      × (remove_connection conn (before ++ c ∷ behind) ≡ before ++ behind)
unfolding find_connection remove_connection any
find_connection-split conn c [] behind fresh own = (ground arith, ground arith)
find_connection-split conn c (d ∷ before) behind fresh own =
    let (found, left) = find_connection-split conn c before behind (ground arith) own in
    (ground (arith, found), ground (arith, left))
