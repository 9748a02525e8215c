-- ===== src/Network/Handled.antt =====
-- What `handle_command` of src/network/mod.rs leaves behind when it returns.
use file_sharing_example.Common.{◌≡◌, refl, subst, inl, inr, ◌⊎◌, none, some, nat_eq, Option-cases}
use file_sharing_example.FileGet.Types.{PeerId, Text, Writer, fine, IoResult-cases}
use file_sharing_example.Command.{
  Command, register, list_peers, list_files, get_file, Register, ListFiles, GetFile,
  user_not_registered, err,
}
use file_sharing_example.Network.Types.{
  CommandRequest, Rendezvous, World, join, EventLoop, returned, get_peer_id,
}
use file_sharing_example.Network.Replies.{Names}
use file_sharing_example.Network.Commands.{
  refuse, request_list, request_file, run_register, run_list_peers, run_list_files, run_get_file,
  run_command, handle_command,
}
use file_sharing_example.Network.Outcomes.{IsAt, IsNowhere, Settles, IsAnswered, IsKept}

pub returned_injective : {N : Type 0} {a b : EventLoop N} → returned a ≡ returned b → a ≡ b
returned_injective e = cc

module _ (r : Rendezvous) (w : World) where
  open r use {Namespace, namespace_eq, new}

  abbrev Handled : EventLoop Namespace → CommandRequest → EventLoop Namespace → Command → Type 0
  Handled l req l' c = IsAnswered r w l req l' c ⊎ IsKept r w l req l' c

  get_peer_id-IsAt :
      (l : EventLoop Namespace) (user : Text) (peer : PeerId)
      → get_peer_id r l user ≡ some peer
      → IsAt r w l user peer
  unfolding get_peer_id
  get_peer_id-IsAt l user peer e = elim (Option-cases (new user)) [
    | inl gone ↦ cc (rw (gone, get_peer_id) at e)
    | inr (ns, made) ↦ record { namespace = ns; named = made; found = rw (made, get_peer_id) at e }
  ]

  get_peer_id-IsNowhere :
      (l : EventLoop Namespace) (user : Text) → get_peer_id r l user ≡ none → IsNowhere r w l user
  unfolding get_peer_id
  get_peer_id-IsNowhere l user e ns made = rw (made, get_peer_id) at e

  refuse-IsAnswered :
      (l : EventLoop Namespace) (req : CommandRequest) (user : Text) (c : Command)
      → Names c user
      → Settles r w l req (refuse req user l) c (err (user_not_registered user))
      → IsAnswered r w l req (refuse req user l) c
  unfolding refuse
  refuse-IsAnswered l req user c named why = record {
    result = err (user_not_registered user);
    fits = named;
    why = why;
    said = refl;
    same = refl;
    pend = refl;
    gets = refl;
    lists = refl;
  }

  refused_list :
      (l : EventLoop Namespace) (req : CommandRequest) (c : ListFiles)
      → get_peer_id r l c.user_name ≡ none
      → IsAnswered r w l req (refuse req c.user_name l) (list_files c)
  unfolding refuse
  refused_list l req c gone =
      refuse-IsAnswered l req c.user_name (list_files c) refl
        (get_peer_id-IsNowhere l c.user_name gone, refl, refl)

  refused_get :
      (l : EventLoop Namespace) (req : CommandRequest) (c : GetFile)
      → get_peer_id r l c.user_name ≡ none
      → IsAnswered r w l req (refuse req c.user_name l) (get_file c)
  unfolding refuse
  refused_get l req c gone =
      refuse-IsAnswered l req c.user_name (get_file c) refl
        (get_peer_id-IsNowhere l c.user_name gone, refl, refl)

  request_list-IsKept :
      (l : EventLoop Namespace) (req : CommandRequest) (peer : PeerId) (c : ListFiles)
      → get_peer_id r l c.user_name ≡ some peer
      → IsKept r w l req (request_list w req peer l) (list_files c)
  unfolding request_list
  request_list-IsKept l req peer c at = record {
    silent = refl;
    pend = refl;
    asks = record {
      peer = peer;
      at = get_peer_id-IsAt l c.user_name peer at;
      asked = refl;
      gets = refl;
      lists = refl;
    };
  }

  request_file-IsKept :
      (l : EventLoop Namespace) (req : CommandRequest) (peer : PeerId) (writer : Writer)
      (c : GetFile)
      → get_peer_id r l c.user_name ≡ some peer
      → w.open_write (join l.sharing_dir c.file_name) ≡ fine writer
      → IsKept r w l req (request_file req peer c.file_name writer l) (get_file c)
  unfolding request_file
  request_file-IsKept l req peer writer c at opened = record {
    silent = refl;
    pend = refl;
    asks = record {
      peer = peer;
      at = get_peer_id-IsAt l c.user_name peer at;
      writer = writer;
      opened = opened;
      asked = refl;
      gets = refl;
      lists = refl;
    };
  }

  module _ (l : EventLoop Namespace) (req : CommandRequest) {l' : EventLoop Namespace} where
    run_register-Handled :
        (c : Register)
        → run_register r w req c.user_name l ≡ returned l'
        → Handled l req l' (register c)
    unfolding run_register
    run_register-Handled c e = elim (Option-cases (r.new c.user_name)) [
      | inl gone ↦ cc (rw (gone, run_register) at e)
      | inr (ns, made) ↦ elim (Option-cases l.rendezvous_point_peer_id) [
        | inl gone ↦ cc (rw (made, run_register, gone) at e)
        | inr (point, at) ↦
            let eq = returned_injective (rw (made, run_register, at) at e) in
            inl (
              subst (λ x. IsAnswered r w l req x (register c)) eq
                (record {
                  result = _;
                  fits = (refl, tt);
                  why = record {
                    namespace = ns;
                    named = made;
                    point = point;
                    at = at;
                    asked = refl;
                  };
                  said = refl;
                  same = refl;
                  pend = refl;
                  gets = refl;
                  lists = refl;
                }))
      ]
    ]

    run_list_peers-Handled : run_list_peers r w req l ≡ returned l' → Handled l req l' list_peers
    unfolding run_list_peers
    run_list_peers-Handled e = elim (Option-cases l.rendezvous_point_peer_id) [
      | inl gone ↦ cc (rw (gone, run_list_peers) at e)
      | inr (point, at) ↦
          let eq = returned_injective (rw (at, run_list_peers) at e) in
          inr (
            subst (λ x. IsKept r w l req x list_peers) eq
              (record {
                silent = refl;
                pend = refl;
                asks = record { point = point; at = at; asked = refl; gets = refl; lists = refl };
              }))
    ]

    run_list_files-Handled :
        (c : ListFiles)
        → run_list_files r w req c.user_name l ≡ returned l'
        → Handled l req l' (list_files c)
    unfolding run_list_files
    run_list_files-Handled c e = elim (Option-cases (get_peer_id r l c.user_name)) [
      | inl gone ↦ inl (
          subst (λ x. IsAnswered r w l req x (list_files c))
            (returned_injective (rw (gone, run_list_files) at e)) (refused_list l req c gone))
      | inr (peer, at) ↦ inr (
          subst (λ x. IsKept r w l req x (list_files c))
            (returned_injective (rw (at, run_list_files) at e))
            (request_list-IsKept l req peer c at))
    ]

    run_get_file-Handled :
        (c : GetFile)
        → run_get_file r w req c.user_name c.file_name l ≡ returned l'
        → Handled l req l' (get_file c)
    unfolding run_get_file
    run_get_file-Handled c e =
        elim (IoResult-cases (w.open_write (join l.sharing_dir c.file_name))) [
          | inl (error, bad) ↦ cc (rw (bad, run_get_file) at e)
          | inr (writer, good) ↦ elim (Option-cases (get_peer_id r l c.user_name)) [
            | inl gone ↦ inl (
                subst (λ x. IsAnswered r w l req x (get_file c))
                  (returned_injective (rw (good, run_get_file, gone) at e))
                  (refused_get l req c gone))
            | inr (peer, at) ↦ inr (
                subst (λ x. IsKept r w l req x (get_file c))
                  (returned_injective (rw (good, run_get_file, at) at e))
                  (request_file-IsKept l req peer writer c at good))
          ]
        ]

  run_command-Handled :
      (l : EventLoop Namespace) (req : CommandRequest) (c : Command) {l' : EventLoop Namespace}
      → run_command r w c req l ≡ returned l'
      → Handled l req l' c
  unfolding run_command
  run_command-Handled l req (register c) e = run_register-Handled l req c e
  run_command-Handled l req list_peers e = run_list_peers-Handled l req e
  run_command-Handled l req (list_files c) e = run_list_files-Handled l req c e
  run_command-Handled l req (get_file c) e = run_get_file-Handled l req c e

  pub handle_command_cases :
      (l : EventLoop Namespace) (req : CommandRequest) {l' : EventLoop Namespace}
      → handle_command r w l req ≡ returned l'
      → IsAnswered r w l req l' req.command ⊎ IsKept r w l req l' req.command
  unfolding handle_command
  handle_command_cases l req e = run_command-Handled l req req.command e
