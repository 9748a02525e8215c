-- ===== src/FileGet/Types.antt =====
-- file-get/src/lib.rs and file_get.rs: identifiers, messages, failures and the events for the
-- application. Peers, connections, addresses, channels and writers are opaque values of other
-- crates, of which this code only compares the first three: numbers stand for them.
use file_sharing_example.Common.{◌≡◌, refl, ◌⊎◌, inl, inr, ℕ, ◌+◌, ◌%◌, ◌^◌, List}

abbrev pub PeerId : Type 0
PeerId = ℕ

abbrev pub ConnectionId : Type 0
ConnectionId = ℕ

abbrev pub Multiaddr : Type 0
Multiaddr = ℕ

-- The one end or the other of a `oneshot` channel.
abbrev pub Channel : Type 0
Channel = ℕ

-- `Box<dyn AsyncWrite>`
abbrev pub Writer : Type 0
Writer = ℕ

-- `Duration` and `Instant`, in one unit.
abbrev pub Duration : Type 0
Duration = ℕ

-- A `String`, as its code points.
abbrev pub Text : Type 0
Text = List ℕ

abbrev pub u64_mod : ℕ
u64_mod = 2 ^ 64

-- The width of `usize` on a 64-bit target.
abbrev pub usize_mod : ℕ
usize_mod = 2 ^ 64

-- `RequestId(u64)`
abbrev pub RequestId : Type 0
RequestId = ℕ

-- `io::Result`; a number stands for an `io::Error`.
pub data IoResult (A : Type 0) : Type 0 where
  fine : A → IoResult A
  io_error : ℕ → IoResult A

pub record FileGetMessage : Type 0 where
  pub file_name : Text

pub data OutboundFailure : Type 0 where
  dial_failure timeout connection_closed unsupported_protocols : OutboundFailure

pub data InboundFailure : Type 0 where
  timeout connection_closed unsupported_protocols response_omission : InboundFailure

pub data FileGetEvent : Type 0 where
  request_received : PeerId → RequestId → FileGetMessage → Channel → FileGetEvent
  response_received : PeerId → RequestId → FileGetEvent
  response_sent : PeerId → RequestId → FileGetEvent
  outbound_failure : PeerId → RequestId → OutboundFailure → FileGetEvent
  inbound_failure : PeerId → RequestId → InboundFailure → FileGetEvent

pub record FileGetConfig : Type 0 where
  pub timeout : Duration

-- The value of the `AtomicU64`.
pub record RequestIdGenerator : Type 0 where
  pub counter : ℕ

unfoldable pub new_generator : RequestIdGenerator
new_generator = record { counter = 1 }

-- `fetch_add(1)`, which wraps: the new state and the old value.
unfoldable pub next_id : RequestIdGenerator → RequestIdGenerator × RequestId
next_id g = (record { counter = (g.counter + 1) % u64_mod }, g.counter)

-- To split on a result and keep the equation.
pub IoResult-cases :
    {A : Type 0} (o : IoResult A) → ((e : ℕ) × (o ≡ io_error e)) ⊎ ((a : A) × (o ≡ fine a))
IoResult-cases (fine a) = inr (a, refl)
IoResult-cases (io_error e) = inl (e, refl)
