-- ===== src/Chunks/Fetcher.antt =====
-- `fetch_chunk_group`, `fetch_exact_range` and `fetch_range` of
-- crates/ishikari-core/src/storage/chunked_store/fetcher.rs. What the semaphore, the clock and the
-- object store answer is an argument; delays and metrics are left out.
use biei.Prelude.{
  ℕ, ◌-◌, min, Bool, ◌||◌, not, [], Result, ok, err, ◌>>=◌, or_err, if◌then◌else◌, ltb, leb, ◌==◌,
  length, checked_mul,
}
use biei.Chunks.Error.{
  chunk_range_overflow, empty_chunk_range, unexpected_length, ChunkFetchError, not_found, timeout,
  backend, message, no_source, admission_closed,
}
use biei.Chunks.Store.{Bytes}

pub data RangeLengthPolicy : Type 0 where
  exact allow_short_at_eof : RangeLengthPolicy

pub data ObjectStoreError : Type 0 where
  object_not_found other : ObjectStoreError

-- How the fetch of a range goes, up to the bytes that the object store returns.
pub data RangeAnswer : Type 0 where
  unresolved closed late_admission late_bytes : RangeAnswer
  failed : ObjectStoreError → RangeAnswer
  fetched : Bytes → RangeAnswer

-- `From<ObjectStoreError> for ChunkFetchError`.
abbrev pub of_object_store : ObjectStoreError → ChunkFetchError
of_object_store object_not_found = not_found
of_object_store other = backend

abbrev pub invalid_length : RangeLengthPolicy → ℕ → ℕ → Bool
invalid_length exact expected actual = ltb expected actual || not (actual == expected)
invalid_length allow_short_at_eof expected actual = ltb expected actual

-- `fetch_range`.
unfoldable pub fetch_range :
    (ℕ → ℕ → RangeAnswer) → ℕ → ℕ → RangeLengthPolicy → Result ChunkFetchError Bytes
fetch_range answer start end policy = elim (answer start end) [
  | unresolved ↦ err (message no_source)
  | closed ↦ err (message admission_closed)
  | late_admission ↦ err timeout
  | late_bytes ↦ err timeout
  | failed e ↦ err (of_object_store e)
  | fetched bytes ↦
      if invalid_length policy (end - start) (length bytes)
      then err (message (unexpected_length (end - start) (length bytes)))
      else ok bytes
]

-- `fetch_chunk_group`.
unfoldable pub fetch_chunk_group :
    (ℕ → ℕ → RangeAnswer) → ℕ → ℕ × ℕ → ℕ → Result ChunkFetchError Bytes
fetch_chunk_group answer chunk_size range archive_len =
    if leb range.1 range.0
    then ok []
    else or_err (checked_mul range.0 chunk_size) (message chunk_range_overflow) >>= λ range_start.
        or_err (checked_mul range.1 chunk_size) (message chunk_range_overflow) >>= λ unclipped.
        let range_end = min unclipped archive_len in
        if leb range_end range_start
        then err (message empty_chunk_range)
        else fetch_range answer range_start range_end exact

-- `fetch_exact_range`.
unfoldable pub fetch_exact_range : (ℕ → ℕ → RangeAnswer) → ℕ → ℕ → Result ChunkFetchError Bytes
fetch_exact_range answer start end =
    if leb end start then ok [] else fetch_range answer start end allow_short_at_eof
