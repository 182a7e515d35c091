-- ===== src/Service.antt =====
-- sdk/cloud_comm/src/services: the services that dispatch received messages.
pub mod Basic
pub mod Control
mod Tests
