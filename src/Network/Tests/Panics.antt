-- ===== src/Network/Tests/Panics.antt =====
-- Which runs of the event loop of src/network/mod.rs panic, on a small example.
use file_sharing_example.Common.{◌≡◌, refl, ◌↔◌, true, List, [], ◌∷◌, lookup, nat_eq}
use file_sharing_example.FileGet.Types.{Text, response_received}
use file_sharing_example.Network.Types.{panicked}
use file_sharing_example.Network.Behaviour.{file_get_event}
use file_sharing_example.Network.Loop.{Input, command, event, ids, run}
use file_sharing_example.Network.Runs.{AreFresh}
use file_sharing_example.Network.Panics.Unsolicited.{HasUnsolicited, run-panics_iff}
use file_sharing_example.Network.Tests.{names, world, idle, idle-IsBooked, fetch}

-- The file that is fetched comes twice.
abbrev twice : List (Input Text)
twice =
    command world fetch
    ∷ event world (file_get_event (response_received 7 1))
    ∷ event world (file_get_event (response_received 7 1))
    ∷ []

twice_fresh : AreFresh idle (ids twice)
unfolding lookup
twice_fresh = (refl, tt)

run-panics_iff_example :
    (run names true idle twice ≡ panicked) ↔ HasUnsolicited names true idle twice
run-panics_iff_example =
    run-panics_iff names true twice idle 9 idle-IsBooked (tt, tt) twice_fresh refl
