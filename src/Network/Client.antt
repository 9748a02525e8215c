-- ===== src/Network/Client.antt =====
-- src/network/mod.rs: `Client`, the ids and the requests that it makes for the event loop.
use file_sharing_example.Common.{
  ℕ, ◌+◌, ◌%◌, ◌≤◌, ◌<◌, ◌≡◌, ◌≢◌, List, [], ◌∷◌, map, All, length, arith,
}
use file_sharing_example.FileGet.Types.{Channel, u64_mod}
use file_sharing_example.Command.{Command}
use file_sharing_example.Network.Types.{CommandRequest}
use file_sharing_example.Network.Loop.{AreDifferent}

-- The value of the `AtomicU64`.
pub record CommandRequestIdGenerator : Type 0 where
  pub counter : ℕ

pub record Client : Type 0 where
  pub command_request_id_generator : CommandRequestIdGenerator

unfoldable pub new_client : Client
new_client = record { command_request_id_generator = record { counter = 0 } }

-- `fetch_add(1)`, which wraps: the new state and the old value.
unfoldable next_command_id : CommandRequestIdGenerator → CommandRequestIdGenerator × ℕ
next_command_id g = (record { counter = (g.counter + 1) % u64_mod }, g.counter)

-- `send_command`, as far as the request that it sends; `sender` is the sender of the channel that it
-- makes for the answer.
unfoldable pub send_command : Client → Command → Channel → Client × CommandRequest
unfolding next_command_id
send_command client command sender =
    let (g, id) = next_command_id client.command_request_id_generator in
    (
      record { command_request_id_generator = g },
      record { command_request_id = id; command = command; response_sender = sender },
    )

-- The requests that the client makes for the commands, one after the other.
unfoldable pub send_all : Client → List (Command × Channel) → List CommandRequest
send_all client [] = []
send_all client ((command, sender) ∷ commands) =
    let (next, req) = send_command client command sender in req ∷ send_all next commands

-- The ids of the requests.
abbrev pub request_ids : List CommandRequest → List ℕ
request_ids reqs = map (λ req. req.command_request_id) reqs

-- The ids from the counter on that are `d` or more behind `k` are different from it, until the
-- counter has come round.
ids_behind :
    (commands : List (Command × Channel)) (client : Client) (k d : ℕ)
    → k < u64_mod
    → 1 ≤ d
    → d + length commands ≤ u64_mod
    → client.command_request_id_generator.counter ≡ (k + d) % u64_mod
    → All (λ j. k ≢ j) (request_ids (send_all client commands))
unfolding send_all send_command next_command_id
ids_behind [] client k d lt pos fits at = tt
ids_behind ((command, sender) ∷ commands) client k d lt pos fits at = (
  omega arith,
  ids_behind commands (send_command client command sender).0 k (d + 1) lt (omega arith)
      (omega arith) (omega arith),
)

-- The commands of one client get different ids, as long as it sends no more than 2^64 of them.
pub send_all-AreDifferent :
    (commands : List (Command × Channel)) (client : Client)
    → client.command_request_id_generator.counter < u64_mod
    → length commands ≤ u64_mod
    → AreDifferent (request_ids (send_all client commands))
unfolding send_all send_command next_command_id
send_all-AreDifferent [] client lt fits = tt
send_all-AreDifferent ((command, sender) ∷ commands) client lt fits =
    let next = (send_command client command sender).0 in
    (
      ids_behind commands next client.command_request_id_generator.counter 1 lt (omega arith)
          (omega arith) (omega arith),
      send_all-AreDifferent commands next (omega arith) (omega arith),
    )
