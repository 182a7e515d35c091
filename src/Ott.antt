-- ===== src/Ott.antt =====
-- sdk/cloud_comm/src/protocols/ott_protocol: the protocol over TLS.
pub mod Message
pub mod Flags
pub mod Fragments
pub mod Session
pub mod Response
pub mod Write
pub mod Connect
pub mod Exchange
pub mod Ending
pub mod Setup
mod Tests
