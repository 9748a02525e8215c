-- ===== src/FileGet/Open/Tests.antt =====
-- A run of file-get/src/lib.rs in which a connection opens, changes its address and closes.
use file_sharing_example.Common.{◌≡◌, refl, inl, true, false, List, [], ◌∷◌, contains, lookup}
use file_sharing_example.FileGet.Types.{PeerId}
use file_sharing_example.FileGet.Behaviour.{FileGet, Action, done, from_config, entry}
use file_sharing_example.FileGet.Swarm.{
  dialer, connection_established, connection_closed, address_change,
}
use file_sharing_example.FileGet.Driver.{Call, sends, swarm_event, polls, run}
use file_sharing_example.FileGet.Open.{open_ids, open_all, are_legal, are_counted}
use file_sharing_example.FileGet.Open.Waiting.{IsServed}
use file_sharing_example.FileGet.Open.Served.{run-IsServed}
use file_sharing_example.FileGet.Open.Legal.{run-are_legal}

abbrev start : FileGet
start = from_config (record { timeout = 10 })

abbrev comes_and_goes : List Call
comes_and_goes =
    sends 7 (record { file_name = b'r' ∷ [] }) 5
    ∷ swarm_event (connection_established 7 4 (dialer 3) 0)
    ∷ polls
    ∷ swarm_event (address_change 7 4 (dialer 6))
    ∷ swarm_event (connection_closed 7 4)
    ∷ []

calls_legal : are_legal (open_ids start) comes_and_goes ≡ true
unfolding are_legal from_config entry contains lookup
calls_legal = refl

run-are_legal_example :
    (fg' : FileGet) × (out : List Action) × (run false start comes_and_goes ≡ done (fg', out))
    × ((q : PeerId) → open_ids fg' q ≡ open_all q (open_ids start q) comes_and_goes)
run-are_legal_example = run-are_legal comes_and_goes start calls_legal

calls_counted : are_counted (open_ids start) comes_and_goes ≡ true
unfolding are_counted from_config entry lookup
calls_counted = refl

start-IsServed : (q : PeerId) → IsServed start q
unfolding from_config entry lookup
start-IsServed q = inl refl

run-IsServed_example :
    (fg' : FileGet) × (out : List Action) × (run false start comes_and_goes ≡ done (fg', out))
    × ((q : PeerId) → IsServed fg' q)
run-IsServed_example = run-IsServed comes_and_goes start calls_legal calls_counted start-IsServed
