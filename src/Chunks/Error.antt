-- ===== src/Chunks/Error.antt =====
-- `ChunkRangeError` of crates/ishikari-core/src/storage/chunked_store/store.rs and
-- `ChunkFetchError` of fetcher.rs. A message is the error or the place it comes from.
use biei.Prelude.{ℕ}

pub data ChunkRangeError : Type 0 where
  byte_range_overflow : ℕ → ℕ → ChunkRangeError
  outside_archive : ℕ → ℕ → ℕ → ChunkRangeError
  invalid_chunk_group : ℕ → ℕ → ChunkRangeError
  chunk_arithmetic_overflow : ℕ → ℕ → ChunkRangeError
  chunk_outside_archive : ℕ → ℕ → ChunkRangeError
  slice_outside_fetched_bytes : ℕ → ℕ → ℕ → ℕ → ChunkRangeError

pub data Message : Type 0 where
  range_error : ChunkRangeError → Message
  cached_read_overflow chunk_slice_overflow reconstructed_slice_overflow : Message
  resolved_chunk_missing : Message
  chunk_too_short : ℕ → Message
  offset_exceeds_chunk : ℕ → Message
  not_reconstructed : Message
  chunk_range_overflow : Message
  empty_chunk_range : Message
  unexpected_length : ℕ → ℕ → Message
  omitted_chunk : ℕ → Message
  waiter_dropped no_source admission_closed : Message
  cancelled_or_panicked : Message

pub data ChunkFetchError : Type 0 where
  not_found overloaded timeout backend : ChunkFetchError
  message : Message → ChunkFetchError
