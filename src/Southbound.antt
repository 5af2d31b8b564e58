-- ===== src/Southbound.antt =====
-- pkg/southbound/e2
pub mod Handover
pub mod Options
pub mod Connections
pub mod Setup
pub mod Forwarding
