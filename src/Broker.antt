-- ===== src/Broker.antt =====
-- pkg/broker: buffered streams (`Stream`) and the broker that keeps them (`Registry`).
pub mod Stream
pub mod Registry
