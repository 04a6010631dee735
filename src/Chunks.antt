-- ===== src/Chunks.antt =====
-- The chunked byte-range reader of crates/ishikari-core/src/storage/chunked_store: the chunks of
-- an archive, reads through the chunk cache, and the fetches that callers share.
pub mod Error
pub mod Store
pub mod Fetcher
pub mod Group
pub mod Pending
