-- ===== src/Chunks/Store/Reads.antt =====
-- `read_bytes` of store.rs returns the bytes of the archive that it is asked for.
use native.Mathlib.Nat.{mod-lt, div-add-mod'}
use biei.Prelude.{
  ℕ, ◌+◌, ◌-◌, ◌*◌, ◌%◌, ◌≤◌, ◌<◌, min, ◌≡◌, ◌≢◌, refl, sym, subst, ap, ◌∙◌, inl, inr, arith, true,
  false, ◌||◌, List, [], ◌∷◌, ◌++◌, some, Result, ok, err, ltb, ◌==◌, nat_Eq, eqb_refl, lookup,
  contains, length, take, drop, ltb→lt, ltb→le, Bool-cases, Option-cases, Result-cases,
  length-take-drop, take-drop-take-drop, u64_mod, le→ltb, lt→ltb, ==_iff,
}
use biei.Chunks.Error.{ChunkFetchError, message, range_error, outside_archive, byte_range_overflow}
use biei.Chunks.Store.{
  Bytes, slice, indices, chunk_index, byte_range_to_chunk_range, chunks_between, slice_single_chunk,
  read_resolved_bytes, Answers, ChunkRead, ChunkReadSource, from_cache, from_backend,
  read_single_chunk, complete_read, read_several_chunks, read_bytes, validate_byte_range,
  look_up_chunks,
}
use biei.Chunks.Store.Copies.{chunk_of, HasChunks, copy_chunks-slice, add-one_mul}
use biei.Chunks.Store.Lookups.{IsFaithful, resolved-HasChunks, extended-HasChunks}

span_mul : (first count size : ℕ) → (first + count) * size ≡ first * size + count * size
span_mul first count size = grind arith

module _ (archive : Bytes) (chunk_size : ℕ) (positive : 0 < chunk_size)
    (small : length archive < u64_mod) (start n : ℕ) (some_bytes : 0 < n)
    (inside : start + n ≤ length archive) where
  abbrev first : ℕ
  first = chunk_index start chunk_size

  abbrev last : ℕ
  last = chunk_index (start + n - 1) chunk_size

  first_lem : first * chunk_size + start % chunk_size ≡ start
  first_lem = div-add-mod' start chunk_size

  last_lem : last * chunk_size + (start + n - 1) % chunk_size ≡ start + n - 1
  last_lem = div-add-mod' (start + n - 1) chunk_size

  slice_single_chunk-slice :
      first ≡ last
      → slice_single_chunk chunk_size first start n (chunk_of archive chunk_size first)
        ≡ ok (slice archive start (start + n))
  unfolding slice_single_chunk
  slice_single_chunk-slice same =
      let offset = start % chunk_size in
      let chunk = chunk_of archive chunk_size first in
      let bound : (start + n - 1) % chunk_size < chunk_size = mod-lt (start + n - 1) positive in
      let again : first * chunk_size ≡ last * chunk_size = ap (λ (t : ℕ). t * chunk_size) same in
      let fits : offset + n ≤ chunk_size = omega (arith, first_lem, last_lem) in
      let len : length chunk ≡ min chunk_size (length archive - first * chunk_size) =
        length-take-drop chunk_size (first * chunk_size) archive in
      let no_overflow : ltb (offset + n) u64_mod ≡ true =
        lt→ltb (offset + n) u64_mod (omega (arith, first_lem)) in
      let enough : ltb (length chunk) (offset + n) ≡ false =
        le→ltb (length chunk) (offset + n) (omega (arith, first_lem)) in
      let cancel : offset + n - offset ≡ n = omega arith in
      let cancel' : start + n - start ≡ n = omega arith in
      let step : slice_single_chunk chunk_size first start n chunk
          ≡ ok (slice chunk offset (offset + n)) =
        rw (no_overflow, enough) refl in
      step
      ∙ ap (λ l. ok l)
          (ap (λ t. take t (drop offset chunk)) cancel
            ∙ take-drop-take-drop n offset chunk_size (first * chunk_size) archive fits
            ∙ ap (λ t. take n (drop t archive)) first_lem
            ∙ ap (λ t. take t (drop start archive)) (sym cancel'))

  -- The number of chunks that the range touches.
  abbrev count : ℕ
  count = last + 1 - first

  first-le-last : first ≤ last
  first-le-last =
      grind (arith, first_lem, last_lem, mod-lt start positive, mod-lt (start + n - 1) positive)

  read_resolved_bytes-slice :
      (chunks : List (ℕ × Bytes))
      → HasChunks archive chunk_size chunks first count
      → read_resolved_bytes chunk_size start n chunks ≡ ok (slice archive start (start + n))
  unfolding read_resolved_bytes
  read_resolved_bytes-slice chunks has =
      let no_overflow : ltb (start + n) u64_mod ≡ true = lt→ltb (start + n) u64_mod (omega arith) in
      elim (Bool-cases (first == last)) [
        | inl one ↦
            let same : first ≡ last = (==_iff first last).0 one in
            let here : lookup first chunks ≡ some (chunk_of archive chunk_size first) =
              has first (omega arith) (omega arith) in
            rw (no_overflow, one, here) (slice_single_chunk-slice same)
        | inr several ↦
            let offset = start % chunk_size in
            let bound : offset < chunk_size = mod-lt start positive in
            let bound' : (start + n - 1) % chunk_size < chunk_size =
              mod-lt (start + n - 1) positive in
            let total : first + count ≡ last + 1 = omega (arith, first-le-last) in
            let covered : first * chunk_size + count * chunk_size ≡ last * chunk_size + chunk_size =
              sym (span_mul first count chunk_size)
              ∙ ap (λ (t : ℕ). t * chunk_size) total
              ∙ add-one_mul last chunk_size in
            let cancel' : start + n - start ≡ n = omega arith in
            let copied =
              copy_chunks-slice archive chunk_size chunks count first n offset [] small has
                (omega arith) (omega (arith, first_lem)) (omega (arith, first_lem))
                (omega (arith, first_lem, last_lem)) in
            rw (no_overflow, several)
              (copied
                ∙ ap (λ l. ok l)
                    (ap (λ t. take n (drop t archive)) first_lem
                      ∙ ap (λ t. take t (drop start archive)) (sym cancel')))
      ]

-- How a read of `n` bytes at `start` ends, for an archive of the length that the caller gives.
pub data ReadOutcome (archive : Bytes) (a : Answers) (start n : ℕ)
    (r : Result ChunkFetchError ChunkRead) : Type 0 where
  overflows :
      u64_mod ≤ start + n
      → r ≡ err (message (range_error (byte_range_overflow start n)))
      → ReadOutcome archive a start n r
  outside :
      start + n < u64_mod
      → length archive < start + n
      → r ≡ err (message (range_error (outside_archive start (start + n) (length archive))))
      → ReadOutcome archive a start n r
  served :
      (source : ChunkReadSource)
      → start + n ≤ length archive
      → r ≡ ok (record { bytes = slice archive start (start + n); source = source })
      → ReadOutcome archive a start n r
  refused :
      (missing : List ℕ) (e : ChunkFetchError)
      → start + n ≤ length archive
      → missing ≢ []
      → a.fetch missing ≡ err e
      → r ≡ err e
      → ReadOutcome archive a start n r

module _ (archive : Bytes) (chunk_size : ℕ) (a : Answers) (positive : 0 < chunk_size)
    (small : length archive < u64_mod) (faithful : IsFaithful a archive chunk_size) (start n : ℕ)
    (some_bytes : 0 < n) (inside : start + n ≤ length archive) where
  abbrev HasSpan : List (ℕ × Bytes) → Type 0
  HasSpan chunks =
      HasChunks archive chunk_size chunks
        (first archive chunk_size positive small start n some_bytes inside)
        (count archive chunk_size positive small start n some_bytes inside)

  whole :
      (chunks : List (ℕ × Bytes))
      → HasSpan chunks
      → read_resolved_bytes chunk_size start n chunks ≡ ok (slice archive start (start + n))
  whole = read_resolved_bytes-slice archive chunk_size positive small start n some_bytes inside

  read_single_chunk-outcome :
      first archive chunk_size positive small start n some_bytes inside
        ≡ last archive chunk_size positive small start n some_bytes inside
      → ReadOutcome archive a start n
          (read_single_chunk a chunk_size (chunk_index start chunk_size) start n)
  unfolding read_single_chunk
  read_single_chunk-outcome same =
      let i = chunk_index start chunk_size in
      let chunk = chunk_of archive chunk_size i in
      let sliced =
        slice_single_chunk-slice archive chunk_size positive small start n some_bytes inside same in
      elim (Option-cases (a.cached i)) [
        | inr (c, hit) ↦
            let is : c ≡ chunk = faithful.cached i c hit in
            served from_cache inside (rw (read_single_chunk, hit, is, sliced) refl)
        | inl miss ↦ elim (Result-cases (a.fetch (i ∷ []))) [
          | inr (e, failed) ↦
              refused (i ∷ []) e inside (λ p. cc) failed (rw (read_single_chunk, miss, failed) refl)
          | inl (fetched, got) ↦
              let here : contains i (i ∷ []) ≡ true = rw (eqb_refl i) refl in
              let (c, has) = faithful.asked (i ∷ []) fetched got i here in
              let is : c ≡ chunk = faithful.fetched (i ∷ []) fetched got i c has in
              served from_backend inside (rw (read_single_chunk, miss, got, has, is, sliced) refl)
        ]
      ]

  -- The two ways to complete a read, from what `Lookups` says of the maps.
  complete_read-outcome :
      (resolved : List (ℕ × Bytes)) (missing : List ℕ)
      → (missing ≡ [] → HasSpan resolved)
      → ((fetched : List (ℕ × Bytes))
          → a.fetch missing ≡ ok fetched
          → HasSpan (fetched ++ resolved))
      → ReadOutcome archive a start n (complete_read a chunk_size start n resolved missing)
  unfolding complete_read
  complete_read-outcome resolved [] complete extended =
      served from_cache inside (rw (whole resolved (complete refl)) refl)
  complete_read-outcome resolved (x ∷ rest) complete extended =
      elim (Result-cases (a.fetch (x ∷ rest))) [
        | inr (e, failed) ↦ refused (x ∷ rest) e inside (λ p. cc) failed (rw failed refl)
        | inl (fetched, got) ↦
            served from_backend inside
              (rw (got, whole (fetched ++ resolved) (extended fetched got)) refl)
      ]

  read_several_chunks-outcome : ReadOutcome archive a start n (
      read_several_chunks a chunk_size
        (chunks_between (byte_range_to_chunk_range start (start + n) chunk_size))
        start
        n)
  unfolding read_several_chunks
  read_several_chunks-outcome =
      let i = first archive chunk_size positive small start n some_bytes inside in
      let k = count archive chunk_size positive small start n some_bytes inside in
      let looked = look_up_chunks a.cached (indices i k) in
      complete_read-outcome looked.0 looked.1 (resolved-HasChunks a archive chunk_size faithful i k)
        (extended-HasChunks a archive chunk_size faithful i k)

-- `read_bytes` of an archive of known length, below 2^64 bytes, by chunks of positive size, when
-- the cache and the coordinator answer with chunks of the archive: a range that overflows or ends
-- past the archive is refused as such; any other read returns exactly the bytes of the range, or
-- the error that the fetch of some missing chunks ended with.
pub read_bytes-ReadOutcome :
    (archive : Bytes) (chunk_size : ℕ) (a : Answers) (start n : ℕ)
    → 0 < chunk_size
    → length archive < u64_mod
    → IsFaithful a archive chunk_size
    → ReadOutcome archive a start n (read_bytes a chunk_size start n (some (length archive)))
unfolding read_bytes validate_byte_range
read_bytes-ReadOutcome archive chunk_size a start n positive small faithful =
    let end = start + n in
    let len = length archive in
    elim (Bool-cases (ltb end u64_mod)) [
      | inr over ↦
          overflows (ltb→le end u64_mod over) (rw (read_bytes, validate_byte_range, over) refl)
      | inl fits ↦ elim (Bool-cases (ltb len end)) [
        | inl past ↦
            let refused_range : (ltb len start || ltb len end) ≡ true = ground arith in
            outside (ltb→lt end u64_mod fits) (ltb→lt len end past)
              (rw (read_bytes, validate_byte_range, fits, refused_range) refl)
        | inr within ↦
            let inside : end ≤ len = ltb→le len end within in
            let accepted : (ltb len start || ltb len end) ≡ false = ground arith in
            let checked : validate_byte_range start n (some len) ≡ ok end =
              rw (validate_byte_range, fits, accepted) refl in
            elim (Bool-cases (n == 0)) [
              | inl nothing ↦
                  let zero_bytes : n ≡ 0 = (==_iff n 0).0 nothing in
                  let empty : start + n - start ≡ 0 = omega arith in
                  served from_cache inside (rw (read_bytes, checked, nothing) (rw empty refl))
              | inr bytes ↦
                  let some_bytes : 0 < n = ground arith in
                  elim (Bool-cases
                    (chunk_index start chunk_size == chunk_index (end - 1) chunk_size)) [
                      | inl one ↦
                          let same =
                            (==_iff (chunk_index start chunk_size)
                                (chunk_index (end - 1) chunk_size)).0
                              one in
                          let step : read_bytes a chunk_size start n (some len)
                              ≡ read_single_chunk a chunk_size (chunk_index start chunk_size) start
                                  n =
                            rw (read_bytes, checked, bytes, one) refl in
                          subst (ReadOutcome archive a start n) (sym step) (
                            read_single_chunk-outcome archive chunk_size a positive small faithful
                              start n some_bytes inside same)
                      | inr several ↦
                          let step : read_bytes a chunk_size start n (some len)
                              ≡ read_several_chunks a chunk_size
                                  (chunks_between (byte_range_to_chunk_range start end chunk_size))
                                  start n =
                            rw (read_bytes, checked, bytes, several) refl in
                          subst (ReadOutcome archive a start n) (sym step) (
                            read_several_chunks-outcome archive chunk_size a positive small faithful
                              start n some_bytes inside)
                    ]
            ]
      ]
    ]
