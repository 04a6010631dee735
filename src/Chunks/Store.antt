-- ===== src/Chunks/Store.antt =====
-- `ChunkedStore` of crates/ishikari-core/src/storage/chunked_store/store.rs. Bytes are lists of
-- numbers, and a `usize` has the 64 bits of a `u64`. What the cache answers at each lookup and
-- what the coordinator answers to a fetch are arguments of a read.
pub mod Copies
pub mod Lookups
pub mod Reads
use biei.Prelude.{
  ℕ, zero, suc, ◌+◌, ◌-◌, ◌*◌, ◌/◌, ◌%◌, min, Bool, true, false, ◌||◌, List, [], ◌∷◌, ◌++◌, Option,
  none, some, Result, ok, err, ◌>>=◌, or_err, if◌then◌else◌, ltb, leb, ◌==◌, nat_Eq, lookup, length,
  take, drop, checked_add, checked_mul,
}
use biei.Chunks.Error.{
  ChunkRangeError, byte_range_overflow, outside_archive, invalid_chunk_group,
  chunk_arithmetic_overflow, chunk_outside_archive, slice_outside_fetched_bytes, Message,
  range_error, cached_read_overflow, chunk_slice_overflow, reconstructed_slice_overflow,
  resolved_chunk_missing, chunk_too_short, offset_exceeds_chunk, not_reconstructed, ChunkFetchError,
  message,
}

abbrev pub Bytes : Type 0
Bytes = List ℕ

pub data ChunkReadSource : Type 0 where
  from_cache from_backend : ChunkReadSource

pub record ChunkRead : Type 0 where
  pub bytes : Bytes
  pub source : ChunkReadSource

-- `bytes[start..end]`.
abbrev pub slice {ℓ} : {A : Type ℓ} → List A → ℕ → ℕ → List A
slice xs start end = take (end - start) (drop start xs)

-- `start..start + n`.
abbrev pub indices : ℕ → ℕ → List ℕ
indices start zero = []
indices start (suc n) = start ∷ indices (start + 1) n

abbrev pub chunk_index : ℕ → ℕ → ℕ
chunk_index offset chunk_size = offset / chunk_size

-- `byte_range_to_chunk_range`: the first chunk and the last one.
abbrev pub byte_range_to_chunk_range : ℕ → ℕ → ℕ → ℕ × ℕ
byte_range_to_chunk_range start end chunk_size =
    (chunk_index start chunk_size, chunk_index (end - 1) chunk_size)

-- The indices of an inclusive range.
abbrev pub chunks_between : ℕ × ℕ → List ℕ
chunks_between (first, last) = indices first (last + 1 - first)

-- `validate_byte_range`; the conversion of a length to 64 bits does not fail.
unfoldable pub validate_byte_range : ℕ → ℕ → Option ℕ → Result ChunkRangeError ℕ
validate_byte_range start n archive_len =
    or_err (checked_add start n) (byte_range_overflow start n) >>= λ end. elim archive_len [
      | none ↦ ok end
      | some len ↦
          if ltb len start || ltb len end then err (outside_archive start end len) else ok end
    ]

-- `slice_single_chunk`.
unfoldable pub slice_single_chunk : ℕ → ℕ → ℕ → ℕ → Bytes → Result Message Bytes
slice_single_chunk chunk_size index start n chunk =
    let offset = start % chunk_size in
    or_err (checked_add offset n) chunk_slice_overflow >>= λ end.
    if ltb (length chunk) end then err (chunk_too_short index) else ok (slice chunk offset end)

-- The loop of `read_resolved_bytes` over the chunks that are left.
unfoldable pub copy_chunks : List (ℕ × Bytes) → List ℕ → ℕ → ℕ → Bytes → Result Message Bytes
copy_chunks chunks [] remaining offset out =
    if remaining == 0 then ok out else err not_reconstructed
copy_chunks chunks (index ∷ rest) remaining offset out = elim (lookup index chunks) [
  | none ↦ err resolved_chunk_missing
  | some chunk ↦ elim (ltb (length chunk) offset) [
    | true ↦ err (offset_exceeds_chunk index)
    | false ↦
        let n = min remaining (length chunk - offset) in
        elim (checked_add offset n) [
          | none ↦ err reconstructed_slice_overflow
          | some end ↦ copy_chunks chunks rest (remaining - n) 0 (out ++ slice chunk offset end)
        ]
  ]
]

-- `read_resolved_bytes`.
unfoldable pub read_resolved_bytes : ℕ → ℕ → ℕ → List (ℕ × Bytes) → Result Message Bytes
read_resolved_bytes chunk_size start n chunks =
    or_err (checked_add start n) cached_read_overflow >>= λ end.
    let range = byte_range_to_chunk_range start end chunk_size in
    if range.0 == range.1
    then (or_err (lookup range.0 chunks) resolved_chunk_missing >>= λ chunk.
        slice_single_chunk chunk_size range.0 start n chunk)
    else copy_chunks chunks (chunks_between range) n (start % chunk_size) []

-- The lookups of a read: the chunks that the cache has, and the missing ones.
unfoldable pub look_up_chunks : (ℕ → Option Bytes) → List ℕ → List (ℕ × Bytes) × List ℕ
look_up_chunks cached [] = ([], [])
look_up_chunks cached (index ∷ rest) =
    let (resolved, missing) = look_up_chunks cached rest in
    elim (cached index) [
      | some chunk ↦ ((index, chunk) ∷ resolved, missing)
      | none ↦ (resolved, index ∷ missing)
    ]

-- `.map_err(|error| ChunkFetchError::Message(error.to_string()))`.
abbrev pub as_message {ℓ} : {A : Type ℓ} → Result Message A → Result ChunkFetchError A
as_message (ok a) = ok a
as_message (err e) = err (message e)

abbrev pub range_message {ℓ} : {A : Type ℓ} → Result ChunkRangeError A → Result ChunkFetchError A
range_message (ok a) = ok a
range_message (err e) = err (message (range_error e))

-- What a read asks for: the lookups in the cache, `fetch_chunks`, and `fetch_exact_range`.
pub record Answers : Type 0 where
  pub cached : ℕ → Option Bytes
  pub fetch : List ℕ → Result ChunkFetchError (List (ℕ × Bytes))
  pub fetch_exact : ℕ → ℕ → Result ChunkFetchError Bytes

-- `read_single_chunk`.
unfoldable pub read_single_chunk : Answers → ℕ → ℕ → ℕ → ℕ → Result ChunkFetchError ChunkRead
read_single_chunk a chunk_size index start n = elim (a.cached index) [
  | some chunk ↦ as_message (slice_single_chunk chunk_size index start n chunk) >>= λ bytes.
      ok (record { bytes = bytes; source = from_cache })
  | none ↦ a.fetch (index ∷ []) >>= λ fetched.
      as_message (or_err (lookup index fetched) resolved_chunk_missing) >>= λ chunk.
      as_message (slice_single_chunk chunk_size index start n chunk) >>= λ bytes.
      ok (record { bytes = bytes; source = from_backend })
]

-- The end of a read of several chunks: the fetched chunks extend the resolved ones.
unfoldable pub complete_read :
    Answers → ℕ → ℕ → ℕ → List (ℕ × Bytes) → List ℕ → Result ChunkFetchError ChunkRead
complete_read a chunk_size start n resolved [] =
    as_message (read_resolved_bytes chunk_size start n resolved) >>= λ bytes.
    ok (record { bytes = bytes; source = from_cache })
complete_read a chunk_size start n resolved (index ∷ missing) =
    a.fetch (index ∷ missing) >>= λ fetched.
    as_message (read_resolved_bytes chunk_size start n (fetched ++ resolved)) >>= λ bytes.
    ok (record { bytes = bytes; source = from_backend })

-- The part of `read_bytes` for several chunks.
unfoldable pub read_several_chunks : Answers → ℕ → List ℕ → ℕ → ℕ → Result ChunkFetchError ChunkRead
read_several_chunks a chunk_size chunks start n =
    let (resolved, missing) = look_up_chunks a.cached chunks in
    complete_read a chunk_size start n resolved missing

-- `read_bytes`.
unfoldable pub read_bytes : Answers → ℕ → ℕ → ℕ → Option ℕ → Result ChunkFetchError ChunkRead
read_bytes a chunk_size start n archive_len =
    range_message (validate_byte_range start n archive_len) >>= λ end.
    if n == 0 then ok (record { bytes = []; source = from_cache }) else elim archive_len [
      | none ↦
          a.fetch_exact start end >>= λ bytes. ok (record { bytes = bytes; source = from_backend })
      | some len ↦
          let range = byte_range_to_chunk_range start end chunk_size in
          if range.0 == range.1
          then read_single_chunk a chunk_size range.0 start n
          else read_several_chunks a chunk_size (chunks_between range) start n
    ]

-- The loop of `chunk_slices`: each chunk with the slice of the fetched bytes that it is.
unfoldable pub chunk_slices_loop :
    ℕ → ℕ → ℕ → ℕ → List ℕ → Result ChunkRangeError (List (ℕ × ℕ × ℕ))
chunk_slices_loop chunk_size archive_len bytes_len range_start [] = ok []
chunk_slices_loop chunk_size archive_len bytes_len range_start (index ∷ rest) =
    or_err (checked_mul index chunk_size) (chunk_arithmetic_overflow index chunk_size)
    >>= λ absolute_start.
        or_err (checked_add index 1) (chunk_arithmetic_overflow index chunk_size) >>= λ next_chunk.
        or_err (checked_mul next_chunk chunk_size) (chunk_arithmetic_overflow next_chunk chunk_size)
        >>= λ next_start.
            let absolute_end = min next_start archive_len in
            if leb absolute_end absolute_start
            then err (chunk_outside_archive index archive_len)
            else (let from = absolute_start - range_start in
                let to = absolute_end - range_start in
                if ltb to from || ltb bytes_len to
                then err (slice_outside_fetched_bytes index from to bytes_len)
                else chunk_slices_loop chunk_size archive_len bytes_len range_start rest
                  >>= λ slices. ok ((index, from, to) ∷ slices))

-- `chunk_slices`, for the chunks from `first` to before `last`.
unfoldable pub chunk_slices : ℕ × ℕ → ℕ → ℕ → ℕ → Result ChunkRangeError (List (ℕ × ℕ × ℕ))
chunk_slices range chunk_size archive_len bytes_len =
    if leb range.1 range.0
    then err (invalid_chunk_group range.0 range.1)
    else or_err (checked_mul range.0 chunk_size) (chunk_arithmetic_overflow range.0 chunk_size)
      >>= λ range_start.
          chunk_slices_loop chunk_size archive_len bytes_len range_start
            (indices range.0 (range.1 - range.0))

-- The chunks that the slices cut.
abbrev pub cut : Bytes → List (ℕ × ℕ × ℕ) → List (ℕ × Bytes)
cut bytes [] = []
cut bytes ((index, from, to) ∷ rest) = (index, slice bytes from to) ∷ cut bytes rest
