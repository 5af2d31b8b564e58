-- ===== src/Utils.antt =====
-- pkg/utils: the store keys of UEs, RAN parameters, and the messages to the E2 nodes.
pub mod Format
pub mod Ies
pub mod Id
pub mod RanParam
pub mod Control
pub mod Subscription
