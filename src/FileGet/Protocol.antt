-- ===== src/FileGet/Protocol.antt =====
-- file-get/src/protocol.rs: what the two ends of a substream are built from.
use file_sharing_example.FileGet.Types.{RequestId, Text, Writer, Channel}

pub record FileGetOutboundProtocol : Type 0 where
  pub request_id : RequestId
  pub file_name : Text
  pub file_writer : Writer

pub record FileGetInboundProtocol : Type 0 where
  pub request_sender : Channel
  pub response_receiver : Channel
  pub request_id : RequestId
