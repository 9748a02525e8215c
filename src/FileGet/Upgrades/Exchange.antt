-- ===== src/FileGet/Upgrades/Exchange.antt =====
-- The two upgrades of file-get/src/protocol.rs against each other.
use file_sharing_example.Common.{◌≡◌, refl, inl, inr, ◌↔◌, Bool, true, Option, none, some, arith}
use file_sharing_example.FileGet.Types.{RequestId, FileGetMessage, fine, IoResult-cases}
use file_sharing_example.FileGet.Protocol.{FileGetOutboundProtocol}
use file_sharing_example.FileGet.Behaviour.{done, panicked}
use file_sharing_example.FileGet.Upgrades.{
  Bytes, Framing, Copy, receive_message, decode_frame, send_message, upgrade_outbound, send_file,
  upgrade_inbound,
}

-- What `prost` and the codec promise: a message is read back from its own bytes, a frame from what
-- was sent for it.
pub record IsFaithful {Message : Type 0} (f : Framing Message) : Type 0 where
  pub decode-encode : (m : Message) → f.decode (f.encode m) ≡ some m
  pub next-send : (bytes wire : Bytes) → f.send bytes ≡ fine wire → f.next wire ≡ fine (some bytes)

-- `copy` promises to copy all.
abbrev pub IsWhole : Copy → Type 0
IsWhole copy = (bytes out : Bytes) → copy bytes ≡ fine out → out ≡ bytes

-- A message that could be sent is received as it was sent.
pub receive_message-send :
    {Message : Type 0} (f : Framing Message) (m : Message) (wire : Bytes)
    → IsFaithful f
    → send_message f m ≡ fine wire
    → receive_message f wire ≡ fine m
unfolding receive_message decode_frame send_message
receive_message-send f m wire h e =
    rw (h.next-send (f.encode m) wire e, receive_message, decode_frame, h.decode-encode m)

upgrade_outbound-eq-fine :
    (f : Framing FileGetMessage) (copy : Copy) (req : FileGetOutboundProtocol)
    (incoming wire file : Bytes)
    → upgrade_outbound f copy req incoming ≡ fine (wire, file)
    → (send_message f (record { file_name = req.file_name }) ≡ fine wire)
      × (copy incoming ≡ fine file)
unfolding upgrade_outbound
upgrade_outbound-eq-fine f copy req incoming wire file e = ground arith

-- When the upgrade of the side that asks has sent its message and ends well, then the upgrade of the
-- other side, given these bytes, hands the handler its own id with the name of the file that was
-- asked for, and if it ends well with the bytes that came back, the bytes that the side that asks
-- gives to its writer equal the bytes that the other side takes from the reader it was answered with;
-- it never ends well with `false`. What the writer makes of the bytes is not said.
pub upgrade_inbound-outbound :
    (f : Framing FileGetMessage) (asks serves : Copy) (req : FileGetOutboundProtocol)
    (id : RequestId) (incoming wire file contents : Bytes)
    → IsFaithful f
    → IsWhole asks
    → IsWhole serves
    → upgrade_outbound f asks req incoming ≡ fine (wire, file)
    → let (request, ended) = upgrade_inbound f serves id wire (some contents) in
      (request ≡ some (id, record { file_name = req.file_name }))
      × ((sent : Bool) → ended ≡ done (fine (sent, incoming)) → (file ≡ contents) × (sent ≡ true))
unfolding upgrade_inbound send_file
upgrade_inbound-outbound f asks serves req id incoming wire file contents h a s e =
    let (sent, copied) = upgrade_outbound-eq-fine f asks req incoming wire file e in
    let got = receive_message-send f (record { file_name = req.file_name }) wire h sent in
    rw (got, upgrade_inbound)
      (refl, λ b done_eq. ground (arith, a incoming file copied, s contents incoming))

-- The upgrade of the side that serves panics exactly when a message was received and the application
-- drops the sender of the response; then the handler has been given the request all the same.
pub upgrade_inbound-panics_iff :
    (f : Framing FileGetMessage) (serves : Copy) (id : RequestId) (wire : Bytes)
    (response : Option Bytes)
    → let (request, ended) = upgrade_inbound f serves id wire response in
      (ended ≡ panicked) ↔ (
        (response ≡ none)
        × ((m : FileGetMessage) × (request ≡ some (id, m)) × (receive_message f wire ≡ fine m)))
unfolding upgrade_inbound send_file
upgrade_inbound-panics_iff f serves id wire none = elim (IoResult-cases (receive_message f wire)) [
  | inl (e, bad) ↦ rw (bad, upgrade_inbound) (λ p. cc, λ q. cc)
  | inr (m, good) ↦ rw (good, upgrade_inbound) (λ p. (refl, (m, refl, refl)), λ q. refl)
]
upgrade_inbound-panics_iff f serves id wire (some contents) =
    elim (IoResult-cases (receive_message f wire)) [
      | inl (e, bad) ↦ rw (bad, upgrade_inbound) (λ p. cc, λ q. cc)
      | inr (m, good) ↦ rw (good, upgrade_inbound) (λ p. cc, λ q. cc)
    ]
