-- ===== src/Nodes.antt =====
-- What a node of crates/biei-core/src/node.rs does with a task.
pub mod Outcomes
pub mod Handling
pub mod Once
pub mod Served
