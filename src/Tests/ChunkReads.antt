-- ===== src/Tests/ChunkReads.antt =====
-- An archive of ten bytes in chunks of four.
use biei.Prelude.{
  ℕ, ◌-◌, ◌≡◌, refl, sym, ap, ◌∙◌, arith, true, false, List, [], ◌∷◌, Option, none, some, Bool,
  Result, ok, ◌++◌, ◌||◌, if◌then◌else◌, lookup, contains, nat_Eq, length, eqb, eqb→eq, Bool-cases,
  inl, inr,
}
use biei.Caches.{table}
use biei.Chunks.Error.{ChunkFetchError}
use biei.Chunks.Store.{
  Bytes, Answers, from_backend, slice, indices, read_bytes, validate_byte_range,
  read_several_chunks, read_single_chunk, look_up_chunks, complete_read, read_resolved_bytes,
  copy_chunks, slice_single_chunk,
}
use biei.Chunks.Store.Copies.{chunk_of}
use biei.Chunks.Store.Lookups.{IsFaithful}
use biei.Chunks.Store.Reads.{ReadOutcome, read_bytes-ReadOutcome}
use biei.Chunks.Fetcher.{RangeAnswer, fetched}
use biei.Chunks.Group.{key_Eq, run_fetch_chunk_group}
use biei.Chunks.Group.Keeps.{chunks_of, IsTrueCache, run_fetch_chunk_group-chunks_of}
use biei.Chunks.Pending.{
  request_chunks, enqueue_chunks, enqueue_chunk, is_idle, scheduler_pass, prune_cancelled_waiters,
  select_dispatch_groups, dispatch_groups, contiguous_chunk_ranges, group_chunks, max_chunk_gap,
  TilesetFetchState, Delivery, complete_dispatched_group, complete_group, release_chunks,
}
use biei.Chunks.Pending.Ranges.{IsPlan, contiguous_chunk_ranges-IsPlan}
use biei.Chunks.Pending.Coordinator.{
  Coordinator, new_coordinator, after_pass, started, receipts, receivers, is_closed, requests,
  passes, completes, Reach, here, next,
}
use biei.Chunks.Pending.Served.{IsSound, Reach-IsSound}

abbrev archive : Bytes
archive = 10 ∷ 11 ∷ 12 ∷ 13 ∷ 14 ∷ 15 ∷ 16 ∷ 17 ∷ 18 ∷ 19 ∷ []

-- The cache has chunk 1, and the coordinator fetches what it is asked for.
abbrev cached_chunk : ℕ → Option Bytes
cached_chunk i = if eqb i 1 then some (chunk_of archive 4 1) else none

abbrev answers : Answers
answers = record {
  cached = cached_chunk;
  fetch = λ missing. ok (chunks_of archive 4 missing);
  fetch_exact = λ start end. ok (slice archive start end);
}

cached_chunk-chunk_of : (i : ℕ) (c : Bytes) → cached_chunk i ≡ some c → c ≡ chunk_of archive 4 i
cached_chunk-chunk_of i c h = elim (Bool-cases (eqb i 1)) [
  | inl t ↦
      let is : some (chunk_of archive 4 1) ≡ some c = rw t at h in
      let e : chunk_of archive 4 1 ≡ c = cc in sym e ∙ ap (chunk_of archive 4) (sym (eqb→eq i 1 t))
  | inr f ↦ let is : none ≡ some c = rw f at h in absurd (cc)
]

lookup-chunks_of :
    (i : ℕ) (list : List ℕ)
    → contains i list ≡ true
    → lookup i (chunks_of archive 4 list) ≡ some (chunk_of archive 4 i)
lookup-chunks_of i [] h = absurd (cc)
lookup-chunks_of i (j ∷ rest) h = elim (Bool-cases (eqb j i)) [
  | inl t ↦ rw t (ap (λ x. some (chunk_of archive 4 x)) (eqb→eq j i t))
  | inr f ↦ rw f (lookup-chunks_of i rest (rw f at h))
]

lookup-chunks_of_true :
    (i : ℕ) (list : List ℕ) (c : Bytes)
    → lookup i (chunks_of archive 4 list) ≡ some c
    → c ≡ chunk_of archive 4 i
lookup-chunks_of_true i [] c h = absurd (cc)
lookup-chunks_of_true i (j ∷ rest) c h = elim (Bool-cases (eqb j i)) [
  | inl t ↦
      let is : some (chunk_of archive 4 j) ≡ some c = rw t at h in
      let e : chunk_of archive 4 j ≡ c = cc in sym e ∙ ap (chunk_of archive 4) (eqb→eq j i t)
  | inr f ↦ lookup-chunks_of_true i rest c (rw f at h)
]

answers-IsFaithful : IsFaithful answers archive 4
answers-IsFaithful = record {
  cached = cached_chunk-chunk_of;
  asked = λ missing list got i m.
      let e : chunks_of archive 4 missing ≡ list = cc in
      (chunk_of archive 4 i, ap (lookup i) (sym e) ∙ lookup-chunks_of i missing m);
  fetched = λ missing list got i c found.
      let e : chunks_of archive 4 missing ≡ list = cc in
      lookup-chunks_of_true i missing c (ap (lookup i) e ∙ found);
}

-- Chunks 0 and 2 are fetched; the last one is short.
reads :
    read_bytes answers 4 3 7 (some 10)
    ≡ ok (record { bytes = 13 ∷ 14 ∷ 15 ∷ 16 ∷ 17 ∷ 18 ∷ 19 ∷ []; source = from_backend })
unfolding read_bytes validate_byte_range read_several_chunks read_single_chunk look_up_chunks
    complete_read read_resolved_bytes copy_chunks slice_single_chunk
reads = refl

read_bytes-ReadOutcome_example :
    ReadOutcome archive answers 3 7 (read_bytes answers 4 3 7 (some (length archive)))
read_bytes-ReadOutcome_example =
    read_bytes-ReadOutcome archive 4 answers 3 7 (omega arith) (omega arith) answers-IsFaithful

abbrev archives : ℕ → Bytes
archives tileset_id = archive

abbrev store_answer : ℕ → ℕ → RangeAnswer
store_answer start end = fetched (slice archive start end)

empty-IsTrueCache : IsTrueCache table archives 4 []
empty-IsTrueCache t i c h = absurd (cc)

-- Chunks 1 and 2, of the bytes from 4 to 10.
run_fetch_chunk_group-chunks_of_example :
    ((run_fetch_chunk_group table [] store_answer 4 7 (1, 3) (length archive)).1
      ≡ ok (chunks_of archive 4 (indices 1 (3 - 1))))
    × IsTrueCache table archives 4
        (run_fetch_chunk_group table [] store_answer 4 7 (1, 3) (length archive)).0
run_fetch_chunk_group-chunks_of_example =
    run_fetch_chunk_group-chunks_of table archives 4 7 (1, 3) [] store_answer (omega arith)
      (omega arith) (omega arith) (omega arith) refl empty-IsTrueCache

abbrev wanted : List ℕ
wanted = 0 ∷ 1 ∷ 3 ∷ 4 ∷ 9 ∷ []

plans : contiguous_chunk_ranges wanted 4 max_chunk_gap ≡ (0, 4) ∷ (4, 5) ∷ (9, 10) ∷ []
unfolding contiguous_chunk_ranges group_chunks
plans = refl

contiguous_chunk_ranges-IsPlan_example :
    IsPlan wanted 4 0 wanted (contiguous_chunk_ranges wanted 4 max_chunk_gap)
contiguous_chunk_ranges-IsPlan_example = contiguous_chunk_ranges-IsPlan wanted 4 (omega arith)

-- A caller asks for two chunks, the scheduler dispatches them, and their group completes.
abbrev requested : Coordinator
requested = record new_coordinator {
  entry = some (request_chunks none 0 20 (0 ∷ 1 ∷ []) 10).0;
  scheduler = started (request_chunks none 0 20 (0 ∷ 1 ∷ []) 10).2 false;
  channels = 2;
  asked = receipts (request_chunks none 0 20 (0 ∷ 1 ∷ []) 10).1 ++ [];
}

requested-asked : requested.asked ≡ (0, 0) ∷ (1, 1) ∷ []
unfolding request_chunks enqueue_chunks enqueue_chunk is_idle
requested-asked = refl

requested-scheduler : requested.scheduler ≡ true
unfolding request_chunks enqueue_chunks enqueue_chunk is_idle
requested-scheduler = refl

abbrev dispatched : Coordinator
dispatched = after_pass requested (scheduler_pass (is_closed requested) 4 25 requested.entry)

dispatched-groups : dispatched.groups ≡ [] ++ ((0, 2) ∷ [])
unfolding request_chunks enqueue_chunks enqueue_chunk is_idle scheduler_pass prune_cancelled_waiters
    select_dispatch_groups dispatch_groups contiguous_chunk_ranges group_chunks
dispatched-groups = refl

abbrev both_chunks : Result ChunkFetchError (List (ℕ × Bytes))
both_chunks = ok ((0, 10 ∷ []) ∷ (1, 11 ∷ []) ∷ [])

abbrev completion : Option TilesetFetchState × Delivery × Bool
completion = complete_dispatched_group (is_closed dispatched) (0, 2) both_chunks dispatched.entry

abbrev completed : Coordinator
completed = record dispatched {
  entry = completion.0;
  groups = [] ++ [];
  permit = dispatched.permit || completion.2;
  answered = receivers completion.1.delivered ++ dispatched.answered;
}

completed-answered : completed.answered ≡ 0 ∷ 1 ∷ []
unfolding request_chunks enqueue_chunks enqueue_chunk is_idle scheduler_pass prune_cancelled_waiters
    select_dispatch_groups dispatch_groups contiguous_chunk_ranges group_chunks
    complete_dispatched_group complete_group release_chunks
completed-answered = refl

abbrev to_dispatched : Reach new_coordinator dispatched
to_dispatched =
    next (next here (requests 20 (0 ∷ 1 ∷ []) 10)) (passes 4 25 requested-scheduler refl)

Reach-IsSound_example : IsSound completed
Reach-IsSound_example =
    Reach-IsSound (next to_dispatched (completes [] [] (0, 2) both_chunks dispatched-groups))
