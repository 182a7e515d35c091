-- ===== src/SmsNas.antt =====
-- sdk/cloud_comm/src/protocols/smsnas_protocol: the protocol over SMS that splits a message into
-- segments and puts the segments together at the other end.
pub mod Session
pub mod Send
pub mod Receive
pub mod EndToEnd
mod Tests
