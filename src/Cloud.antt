-- ===== src/Cloud.antt =====
-- sdk/cloud_comm/src/cloud_comm_api/cloud_comm.c: the layer between an application, the services and
-- a protocol.
pub mod Types
pub mod Dispatch
pub mod Receive
pub mod Send
pub mod Ready
pub mod Safe
pub mod Callbacks
pub mod Schedule
pub mod Sending
pub mod Delivery
pub mod Setup
mod Tests
