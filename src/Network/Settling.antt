-- ===== src/Network/Settling.antt =====
-- What an event of src/network/mod.rs does to the pending commands: each stays or is answered.
use mathlib.Core.List.{append-nil, append_assoc}
use file_sharing_example.Common.{
  ◌∙◌, ℕ, ◌≡◌, refl, sym, subst, inl, inr, ◌⊎◌, Bool, true, false, ◌&&◌, none, some, List, [], ◌∷◌,
  ◌++◌, map, any, any-append, Map, keys, lookup, remove, lookup-remove, nat_eq, ◌==◌, arith,
  Bool-cases, Option-cases,
}
use file_sharing_example.FileGet.Types.{Channel, RequestId, Text}
use file_sharing_example.Command.{Result, ok, err}
use file_sharing_example.Network.Types.{
  CommandResult, CommandResponse, CommandRequest, Rendezvous, EventLoop, returned,
}
use file_sharing_example.Network.Events.{
  finish_get, respond, forget, answer_peers, on_list_files_response, on_response_received,
}
use file_sharing_example.Network.Handled.{returned_injective}
use file_sharing_example.Network.Pending.{IsBooked}
use file_sharing_example.Network.Answering.{get_file_of}

-- The answer goes to the sender of the request and is about its command.
abbrev pub is_answer_to : CommandRequest → Channel × Result CommandResponse → Bool
is_answer_to req (sender, ok response) =
    sender == req.response_sender && response.command_request_id == req.command_request_id
is_answer_to req (sender, err _) = false

unfoldable pub is_answered : CommandRequest → List (Channel × Result CommandResponse) → Bool
unfolding any
is_answered req answers = any (is_answer_to req) answers

pub record Settles (p : Map ℕ CommandRequest) (a : List (Channel × Result CommandResponse))
    (p' : Map ℕ CommandRequest) (a' : List (Channel × Result CommandResponse)) : Type 0 where
  pub more : List (Channel × Result CommandResponse)
  pub grown : a' ≡ a ++ more
  pub kept :
      (k : ℕ) (req : CommandRequest)
      → lookup k p ≡ some req
      → (lookup k p' ≡ some req) ⊎ (is_answered req a' ≡ true)
  pub fresh : (k : ℕ) → lookup k p ≡ none → lookup k p' ≡ none

pub Settles-same :
    (p : Map ℕ CommandRequest) (a : List (Channel × Result CommandResponse)) → Settles p a p a
Settles-same p a = record {
  more = [];
  grown = sym (append-nil a);
  kept = λ k req h. inl h;
  fresh = λ k h. h;
}

pub is_answered-more :
    (req : CommandRequest) (a more : List (Channel × Result CommandResponse))
    → is_answered req a ≡ true
    → is_answered req (a ++ more) ≡ true
unfolding is_answered
is_answered-more req a more h = ground (arith, any-append (is_answer_to req) a more)

pub Settles-old :
    {p p' : Map ℕ CommandRequest} {a a' : List (Channel × Result CommandResponse)}
    (s : Settles p a p' a') (req : CommandRequest)
    → is_answered req a ≡ true
    → is_answered req a' ≡ true
Settles-old {a} s req h = rw s.grown (is_answered-more req a s.more h)

pub Settles-trans :
    {p p1 p2 : Map ℕ CommandRequest} {a a1 a2 : List (Channel × Result CommandResponse)}
    → Settles p a p1 a1
    → Settles p1 a1 p2 a2
    → Settles p a p2 a2
Settles-trans {a} s t = record {
  more = s.more ++ t.more;
  grown = t.grown ∙ rw s.grown (append_assoc a s.more t.more);
  kept = λ k req h. elim (s.kept k req h) [
    | inl stays ↦ t.kept k req stays
    | inr told ↦ inr (Settles-old t req told)
  ];
  fresh = λ k h. t.fresh k (s.fresh k h);
}

-- To answer a pending command and forget it settles it.
pub Settles-answer :
    (p : Map ℕ CommandRequest) (a : List (Channel × Result CommandResponse)) (key : ℕ)
    (req : CommandRequest) (id : ℕ) (result : CommandResult)
    → lookup key p ≡ some req
    → id ≡ req.command_request_id
    → Settles p a
        (remove key p)
        (a ++ (req.response_sender, ok (record { command_request_id = id; result = result })) ∷ [])
unfolding is_answered any
Settles-answer p a key req id result at same =
    let new : List (Channel × Result CommandResponse) =
      (req.response_sender, ok (record { command_request_id = id; result = result })) ∷ [] in
    record {
      more = new;
      grown = refl;
      kept = λ k q h. elim (Bool-cases (key == k)) [
        | inr other ↦ inl (ground (arith, lookup-remove key k p))
        | inl hit ↦
            let eq : req ≡ q = ground arith in
            inr (
              subst (λ x. any (is_answer_to x) (a ++ new) ≡ true) eq
                (ground (arith, any-append (is_answer_to req) a new)))
      ];
      fresh = λ k h. ground (arith, lookup-remove key k p);
    }

abbrev pub LoopSettles : {N : Type 0} → EventLoop N → EventLoop N → Type 0
LoopSettles l l' =
    Settles l.pending_command_requests l.answers l'.pending_command_requests l'.answers

module _ {N : Type 0} (l : EventLoop N) (h : IsBooked l) where
  pub on_list_files_response-Settles :
      (id : ℕ) (names : List Text) → LoopSettles l (on_list_files_response id names l)
  unfolding on_list_files_response respond forget
  on_list_files_response-Settles id names = elim (Option-cases (lookup id l.pending_list_files)) [
    | inl gone ↦ rw (gone, on_list_files_response) (Settles-same _ _)
    | inr (key, link) ↦
        let (req, at, kind) = h.lists.leads id key link in
        rw (link, on_list_files_response, at)
          (Settles-answer l.pending_command_requests l.answers key req key _ at
            (sym (h.keyed key req at)))
  ]

  pub on_response_received-Settles :
      (debug : Bool) (id : RequestId) (l' : EventLoop N)
      → on_response_received debug id l ≡ returned l'
      → LoopSettles l l'
  unfolding on_response_received finish_get respond forget
  on_response_received-Settles debug id l' e = elim (Option-cases (lookup id l.pending_file_gets)) [
    | inl gone ↦ cc (rw (gone, on_response_received) at e)
    | inr (key, link) ↦
        let (req, at, kind) = h.gets.leads id key link in
        let (c, is_get) = get_file_of req.command kind in
        subst (LoopSettles l)
          (returned_injective (rw (link, on_response_received, at, is_get, finish_get) at e))
          (Settles-answer l.pending_command_requests l.answers key req key _ at
            (sym (h.keyed key req at)))
  ]

module _ (r : Rendezvous) where
  open r use {Namespace, to_string}

  pub answer_peers-Settles :
      (ks : List ℕ) (l : EventLoop Namespace) → LoopSettles l (answer_peers r ks l)
  unfolding answer_peers respond forget
  answer_peers-Settles [] l = Settles-same _ _
  answer_peers-Settles (k ∷ ks) l = elim (Option-cases (lookup k l.pending_command_requests)) [
    | inl gone ↦ rw (gone, answer_peers) (answer_peers-Settles ks l)
    | inr (req, at) ↦
        rw (at, answer_peers)
          (Settles-trans
            (Settles-answer l.pending_command_requests l.answers k req req.command_request_id _ at
              refl)
            (answer_peers-Settles ks (
              respond req req.command_request_id
                (CommandResult.list_peers (map to_string (keys l.namespace_peers))) (forget k l))))
  ]
