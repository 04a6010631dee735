-- ===== src/Dispatch.antt =====
-- The routing decision of crates/biei-core/src/dispatcher.rs: which node of the cluster renders a
-- task, in four tiers.
pub mod Hrw
pub mod View
pub mod TopHrw
pub mod Warm
pub mod Swap
pub mod Decide
