-- ===== src/FileGet/Handler/Inbound.antt =====
-- The substreams that the remote peer may open, file-get/src/handler.rs.
use file_sharing_example.Common.{
  ◌≡◌, ◌≢◌, refl, ◌⊎◌, some, List, [], ◌∷◌, ◌++◌, ◌+◌, ◌*◌, ◌%◌, ◌<◌, ℕ, zero, suc, arith,
}
use file_sharing_example.FileGet.Types.{
  Duration, RequestId, Channel, FileGetMessage, RequestIdGenerator, next_id, u64_mod,
}
use file_sharing_example.FileGet.Handler.{
  Handler, KeepAlive, InboundFuture, PollNext, ready, pending, received, canceled, custom, request,
  poll, listen_protocol,
}
use file_sharing_example.FileGet.Handler.Agenda.{agenda}

module _ (poll_next : PollNext) (now : Duration) (h : Handler) (idle : agenda h ≡ []) where
  -- With an empty agenda `poll` asks the futures: a request that was received is handed out with the
  -- id, message and channel of its future, and keeps the connection alive.
  pub poll-received :
      (id : RequestId) (message : FileGetMessage) (sender : Channel) (left : List InboundFuture)
      → poll_next h.inbound ≡ (ready (some (received id message sender)), left)
      → let (h', answer) = poll poll_next now h in
        (answer ≡ ready (custom (request id message sender)))
        × (h'.inbound ≡ left)
        × (h'.keep_alive ≡ KeepAlive.always)
  unfolding poll agenda
  poll-received id message sender left e = ground arith

  -- When `poll` has nothing to hand out and no future is left, the connection is not kept alive for
  -- ever: it may be closed two timeouts from now, or at the deadline that it had before.
  pub poll-pending_deadline :
      let (h', answer) = poll poll_next now h in
      answer ≡ pending
      → h'.inbound ≡ []
      → (h'.keep_alive ≡ KeepAlive.until (now + h.timeout * 2))
        ⊎ ((h'.keep_alive ≡ h.keep_alive) × (h.keep_alive ≢ KeepAlive.always))
  unfolding poll agenda
  poll-pending_deadline p e = ground arith

  -- A future that was canceled hides the ones behind it: `poll` answers that nothing is ready, though
  -- the very next call, at any time, would hand out a request that has been received already.
  pub poll-canceled :
      (later : Duration) (id : RequestId) (message : FileGetMessage) (sender : Channel)
      (left rest : List InboundFuture)
      → poll_next h.inbound ≡ (ready (some canceled), left)
      → poll_next left ≡ (ready (some (received id message sender)), rest)
      → let (h', answer) = poll poll_next now h in
        (answer ≡ pending)
        × ((poll poll_next later h').1 ≡ ready (custom (request id message sender)))
  unfolding poll agenda
  poll-canceled later id message sender left rest e f = ground arith

-- What `listen_protocol` gives out fits together: the handler keeps the receiver of the request and
-- the sender of the response for the very channels of which the substream gets the other ends,
-- behind the futures that it had; the substream carries the id that the generator gave; and the
-- generator moves on.
pub listen_protocol_lem :
    (h : Handler) (g : RequestIdGenerator) (req res : Channel)
    → let (substream, h', g') = listen_protocol h g req res in
      (h'.inbound
        ≡ h.inbound
          ++ record {
            request_receiver = substream.protocol.request_sender;
            response_sender = substream.protocol.response_receiver;
          }
            ∷ [])
      × (substream.protocol.request_id ≡ substream.info)
      × ((g', substream.info) ≡ next_id g)
unfolding listen_protocol
listen_protocol_lem h g req res = (refl, refl, refl)

-- The id that the generator gives after `n` others.
pub nth_id : ℕ → RequestIdGenerator → RequestId
unfolding next_id
nth_id zero g = (next_id g).1
nth_id (suc n) g = nth_id n (next_id g).0

nth_id_lem :
    (n : ℕ) (g : RequestIdGenerator) → g.counter < u64_mod → nth_id n g ≡ (g.counter + n) % u64_mod
unfolding nth_id
nth_id_lem zero g h = omega arith
nth_id_lem (suc n) g h =
    omega (arith, nth_id_lem n (record { counter = (g.counter + 1) % u64_mod }) (omega arith))

-- All requests, of the behaviour or of all handlers that share a generator, have different ids, as
-- long as fewer than 2^64 others are made between them: the counter wraps around after that.
pub nth_id-ne :
    (m n : ℕ) (g : RequestIdGenerator)
    → g.counter < u64_mod
    → m < n
    → n < m + u64_mod
    → nth_id m g ≢ nth_id n g
nth_id-ne m n g h lt near = omega (arith, nth_id_lem m g h, nth_id_lem n g h)
