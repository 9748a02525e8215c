-- ===== src/FileGet/Behaviour/Entries.antt =====
-- The lists behind the keys of the three maps, a missing key read as the empty list.
use file_sharing_example.Common.{
  ◌%◌, ◌<◌, ◌≡◌, ◌⊎◌, inl, inr, none, some, List, [], ◌∷◌, ◌++◌, Map, lookup, insert, remove,
  lookup-insert, lookup-remove, length, ◌==◌, nat_eq, if◌then◌else◌, arith, Option-cases,
}
use file_sharing_example.FileGet.Types.{PeerId, RequestId, usize_mod}
use file_sharing_example.FileGet.Protocol.{FileGetOutboundProtocol}
use file_sharing_example.FileGet.Connections.{Connection}
use file_sharing_example.FileGet.Behaviour.{FileGet, entry, push_entry, send_over, try_send_request}

module _ {V : Type 0} where
  pub entry-insert :
      (k j : PeerId) (vs : List V) (m : Map PeerId (List V))
      → entry j (insert k vs m) ≡ (if k == j then vs else entry j m)
  unfolding entry
  entry-insert k j vs m = ground (arith, lookup-insert k j vs m)

  pub entry-remove :
      (k j : PeerId) (m : Map PeerId (List V))
      → entry j (remove k m) ≡ (if k == j then [] else entry j m)
  unfolding entry
  entry-remove k j m = ground (arith, lookup-remove k j m)

  pub entry-push_entry :
      (k j : PeerId) (v : V) (m : Map PeerId (List V))
      → entry j (push_entry k v m) ≡ (if k == j then entry j m ++ v ∷ [] else entry j m)
  unfolding push_entry
  entry-push_entry k j v m = ground (arith, entry-insert k j (entry k m ++ v ∷ []) m)

  pub entry_of_none : (k : PeerId) (m : Map PeerId (List V)) → lookup k m ≡ none → entry k m ≡ []
  unfolding entry
  entry_of_none k m h = ground arith

  pub entry_of_some :
      (k : PeerId) (m : Map PeerId (List V)) {vs : List V} → lookup k m ≡ some vs → entry k m ≡ vs
  unfolding entry
  entry_of_some k m h = ground arith

-- The place at which a request finds its connection is in range.
pub place-lt :
    (id : RequestId) (c : Connection) (cs : List Connection)
    → id % usize_mod % length (c ∷ cs) < length (c ∷ cs)
place-lt id c cs = grind arith

-- A request is sent exactly when its peer has a connection.
pub try_send_request_cases :
    (fg : FileGet) (peer : PeerId) (req : FileGetOutboundProtocol)
    → ((entry peer fg.connected ≡ []) × (try_send_request fg peer req ≡ (fg, some req)))
      ⊎ ((c : Connection) × (cs : List Connection) × (entry peer fg.connected ≡ c ∷ cs)
          × (try_send_request fg peer req ≡ (send_over fg peer req c cs, none)))
unfolding entry try_send_request
try_send_request_cases fg peer req = elim (Option-cases (lookup peer fg.connected)) [
  | inl e ↦ inl (ground arith)
  | inr ([], e) ↦ inl (ground arith)
  | inr (c ∷ cs, e) ↦ inr (c, cs, ground arith, ground arith)
]
