-- ===== src/FileGet/Upgrades/Tests.antt =====
-- A transfer of one file, with a simple framing: a byte before the frame.
use file_sharing_example.Common.{◌≡◌, refl, ◌↔◌, Bool, true, Option, none, some, [], ◌∷◌, arith}
use file_sharing_example.FileGet.Types.{FileGetMessage, IoResult, fine}
use file_sharing_example.FileGet.Protocol.{FileGetOutboundProtocol}
use file_sharing_example.FileGet.Behaviour.{done, panicked}
use file_sharing_example.FileGet.Upgrades.{
  Bytes, Framing, Copy, receive_message, upgrade_outbound, upgrade_inbound,
}
use file_sharing_example.FileGet.Upgrades.Exchange.{
  IsFaithful, IsWhole, upgrade_inbound-outbound, upgrade_inbound-panics_iff,
}

abbrev unframe : Bytes → IoResult (Option Bytes)
unframe [] = fine none
unframe (_ ∷ bytes) = fine (some bytes)

abbrev plain : Framing FileGetMessage
plain = record {
  encode = λ m. m.file_name;
  decode = λ bytes. some (record { file_name = bytes });
  send = λ bytes. fine (0 ∷ bytes);
  next = unframe;
}

plain-IsFaithful : IsFaithful plain
plain-IsFaithful = record { decode-encode = λ m. refl; next-send = λ bytes wire e. ground arith }

abbrev copy_all : Copy
copy_all bytes = fine bytes

copy_all-IsWhole : IsWhole copy_all
copy_all-IsWhole bytes out e = cc

abbrev file : Bytes
file = 7 ∷ []

abbrev wire : Bytes
wire = 0 ∷ b'r' ∷ []

abbrev dropped : Option Bytes
dropped = none

abbrev ask : FileGetOutboundProtocol
ask = record { request_id = 1; file_name = b'r' ∷ []; file_writer = 5 }

ask_ends : upgrade_outbound plain copy_all ask file ≡ fine (wire, file)
unfolding upgrade_outbound
ask_ends = refl

upgrade_inbound-outbound_example :
    let (request, ended) = upgrade_inbound plain copy_all 3 wire (some file) in
    (request ≡ some (3, record { file_name = b'r' ∷ [] }))
    × ((sent : Bool) → ended ≡ done (fine (sent, file)) → (file ≡ file) × (sent ≡ true))
upgrade_inbound-outbound_example =
    upgrade_inbound-outbound plain copy_all copy_all ask 3 file wire file file plain-IsFaithful
      copy_all-IsWhole copy_all-IsWhole ask_ends

upgrade_inbound-panics_iff_example :
    let (request, ended) = upgrade_inbound plain copy_all 3 wire dropped in
    (ended ≡ panicked) ↔ (
      (dropped ≡ none)
      × ((m : FileGetMessage) × (request ≡ some (3, m)) × (receive_message plain wire ≡ fine m)))
upgrade_inbound-panics_iff_example = upgrade_inbound-panics_iff plain copy_all 3 wire dropped
