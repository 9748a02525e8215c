-- ===== src/Network/Links.antt =====
-- The two maps of src/network/mod.rs from the ids of requests to pending commands.
use file_sharing_example.Common.{
  ℕ, ◌≡◌, ◌≢◌, ap, inl, inr, Bool, true, false, none, some, Map, lookup, insert, remove,
  lookup-insert, lookup-remove, nat_eq, ◌==◌, arith, Bool-cases,
}
use file_sharing_example.Command.{Command}
use file_sharing_example.Network.Types.{CommandRequest}

module _ (is_kind : Command → Bool) where
  -- Each id leads to a pending command of the kind, and no two ids to the same one.
  pub record IsLinked (m : Map ℕ ℕ) (pend : Map ℕ CommandRequest) : Type 0 where
    pub leads :
        (id key : ℕ)
        → lookup id m ≡ some key
        → (req : CommandRequest) × (lookup key pend ≡ some req) × (is_kind req.command ≡ true)
    pub apart : (i j key : ℕ) → lookup i m ≡ some key → lookup j m ≡ some key → i ≡ j

  -- A new pending command breaks no link.
  pub keep-IsLinked :
      (m : Map ℕ ℕ) (pend : Map ℕ CommandRequest) (k : ℕ) (req : CommandRequest)
      → lookup k pend ≡ none
      → IsLinked m pend
      → IsLinked m (insert k req pend)
  keep-IsLinked m pend k req fresh h = record {
    leads = λ id key e.
        let (old, at, kind) = h.leads id key e in
        (old, ground (arith, lookup-insert k key req pend), kind);
    apart = h.apart;
  }

  -- No link leads to a command that is not pending.
  linked-ne-fresh :
      (m : Map ℕ ℕ) (pend : Map ℕ CommandRequest) (i k : ℕ)
      → lookup k pend ≡ none
      → IsLinked m pend
      → lookup i m ≢ some k
  linked-ne-fresh m pend i k fresh h e = let (_, at, _) = h.leads i k e in cc

  -- Nor does a link to it, whatever the id of the link was before.
  pub link-IsLinked :
      (m : Map ℕ ℕ) (pend : Map ℕ CommandRequest) (id k : ℕ) (req : CommandRequest)
      → lookup k pend ≡ none
      → is_kind req.command ≡ true
      → IsLinked m pend
      → IsLinked (insert id k m) (insert k req pend)
  link-IsLinked m pend id k req fresh kind h = record {
    leads = λ i key e. elim (Bool-cases (id == i)) [
      | inl hit ↦
          let new : k ≡ key = ground (arith, lookup-insert id i k m) in
          (req, ground (arith, lookup-insert k key req pend), kind)
      | inr miss ↦
          let (old, at, kept) = h.leads i key (ground (arith, lookup-insert id i k m)) in
          (old, ground (arith, lookup-insert k key req pend), kept)
    ];
    apart = λ i j key e f. ground (
      arith,
      lookup-insert id i k m,
      lookup-insert id j k m,
      linked-ne-fresh m pend i k fresh h,
      linked-ne-fresh m pend j k fresh h,
      h.apart i j key,
    );
  }

  -- An answered command goes with its link.
  pub finish-IsLinked :
      (m : Map ℕ ℕ) (pend : Map ℕ CommandRequest) (id k : ℕ)
      → lookup id m ≡ some k
      → IsLinked m pend
      → IsLinked (remove id m) (remove k pend)
  finish-IsLinked m pend id k at h = record {
    leads = λ i key e.
        let (old, found, kind) = h.leads i key (ground (arith, lookup-remove id i m)) in
        (old, ground (arith, lookup-remove k key pend, lookup-remove id i m, h.apart i id k), kind);
    apart = λ i j key e f.
        h.apart i j key (ground (arith, lookup-remove id i m))
          (ground (arith, lookup-remove id j m));
  }

  forgotten :
      (k key : ℕ) (pend : Map ℕ CommandRequest) {req old : CommandRequest}
      → lookup k pend ≡ some req
      → lookup key pend ≡ some old
      → is_kind req.command ≡ false
      → is_kind old.command ≡ true
      → k ≢ key
  forgotten k key pend {req} {old} at found other kind e =
      let same : req ≡ old = cc in cc (ap (λ r. is_kind r.command) same)

  -- A command of another kind goes alone.
  pub forget-IsLinked :
      (m : Map ℕ ℕ) (pend : Map ℕ CommandRequest) (k : ℕ) (req : CommandRequest)
      → lookup k pend ≡ some req
      → is_kind req.command ≡ false
      → IsLinked m pend
      → IsLinked m (remove k pend)
  forget-IsLinked m pend k req at other h = record {
    leads = λ i key e.
        let (old, found, kind) = h.leads i key e in
        (
          old,
          ground (arith, lookup-remove k key pend, forgotten k key pend at found other kind),
          kind,
        );
    apart = h.apart;
  }
