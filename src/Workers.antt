-- ===== src/Workers.antt =====
-- The worker pool of crates/biei-core: what each worker has loaded, which one takes a task,
-- the accounting of the tasks that were taken, and the stages in which a worker draws one.
pub mod Profile
pub mod Affinity
pub mod State
pub mod Pick
pub mod Reserve
pub mod Accounts
pub mod SourceCache
pub mod Stages
