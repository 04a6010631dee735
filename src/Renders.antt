-- ===== src/Renders.antt =====
-- The cache of rendered images of crates/biei-core/src/render_cache.rs: the identity of a
-- request, who may read an output, and the flights that share one render.
pub mod Identity
pub mod Outputs
pub mod Guarded
pub mod Namespaces
pub mod Canonical
