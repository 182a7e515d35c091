-- ===== src/Sms.antt =====
-- The SMS codec, sdk/cloud_comm/src/network/at/smscodec: PDU strings to and from segments.
pub mod Types
pub mod Hex
pub mod Encode
pub mod Decode
mod Tests
