-- ===== src/Chunks/Pending.antt =====
-- The fetch state of a tileset and its transitions, of
-- crates/ishikari-core/src/storage/chunked_store/coordinator.rs. A `BTreeSet` is an ascending
-- list. A waiter is the number of its oneshot channel; which receivers are closed and what the
-- time is are arguments.
pub mod Ranges
pub mod Members
pub mod Coordinator
pub mod Serving
pub mod Requests
pub mod Passes
pub mod Completions
pub mod Waiting
pub mod Sends
pub mod Kept
pub mod Awake
pub mod Served
use biei.Prelude.{
  ℕ, zero, suc, ◌+◌, ◌-◌, max, min, Bool, true, false, not, ◌&&◌, ◌||◌, List, [], ◌∷◌, ◌++◌, Option,
  none, some, Result, ok, err, if◌then◌else◌, ltb, leb, ◌==◌, nat_Eq, contains, without, lookup,
  insert, erase, length, take, filter,
}
use biei.Chunks.Error.{ChunkFetchError, message, omitted_chunk, waiter_dropped}
use biei.Chunks.Store.{Bytes, indices}

abbrev pub max_chunk_gap : ℕ
max_chunk_gap = 1

abbrev pub max_concurrent_fetches_per_tileset : ℕ
max_concurrent_fetches_per_tileset = 32

-- `BTreeSet::insert`.
abbrev pub set_insert : ℕ → List ℕ → List ℕ
set_insert x [] = x ∷ []
set_insert x (y ∷ ys) =
    let later = set_insert x ys in
    if ltb x y then x ∷ y ∷ ys else if x == y then y ∷ ys else y ∷ later

-- `BTreeSet::extend`.
abbrev pub set_extend : List ℕ → List ℕ → List ℕ
set_extend xs [] = xs
set_extend xs (y ∷ ys) = set_extend (set_insert y xs) ys

abbrev pub remove_all : List ℕ → List ℕ → List ℕ
remove_all xs [] = xs
remove_all xs (y ∷ ys) = remove_all (without y xs) ys

-- `HashMap::contains_key`.
abbrev pub has_key {ℓ} : {V : Type ℓ} → ℕ → List (ℕ × V) → Bool
has_key c [] = false
has_key c ((k, v) ∷ rest) = k == c || has_key c rest

pub record TilesetFetchState : Type 0 where
  pub pending_chunks : List ℕ
  pub first_pending_at : Option ℕ
  pub inflight_chunks : List ℕ
  pub waiters : List (ℕ × List ℕ)
  pub scheduler_running : Bool
  pub inflight_fetch_count : ℕ
  pub archive_len : ℕ

-- `TilesetFetchState::default`.
abbrev pub new_state : TilesetFetchState
new_state = record {
  pending_chunks = [];
  first_pending_at = none;
  inflight_chunks = [];
  waiters = [];
  scheduler_running = false;
  inflight_fetch_count = 0;
  archive_len = 0;
}

abbrev pub is_empty {ℓ} : {A : Type ℓ} → List A → Bool
is_empty [] = true
is_empty (x ∷ xs) = false

unfoldable pub is_idle : TilesetFetchState → Bool
is_idle s =
    not s.scheduler_running
    && is_empty s.pending_chunks
    && is_empty s.inflight_chunks
    && s.inflight_fetch_count == 0

unfoldable pub is_drainable : TilesetFetchState → Bool
is_drainable s = not s.scheduler_running && is_empty s.pending_chunks && s.inflight_fetch_count == 0

pub data EnqueueOutcome : Type 0 where
  joined_inflight queued joined_pending : EnqueueOutcome

pub record EnqueuedChunk : Type 0 where
  pub index : ℕ
  pub receiver : ℕ
  pub outcome : EnqueueOutcome

abbrev pub or_default : Option (List ℕ) → List ℕ
or_default none = []
or_default (some ws) = ws

-- `self.waiters.entry(chunk_index).or_default()`.
abbrev pub waiters_of : ℕ → List (ℕ × List ℕ) → List ℕ
waiters_of c waiters = or_default (lookup c waiters)

abbrev pub or_now : Option ℕ → ℕ → Option ℕ
or_now none now = some now
or_now (some at) now = some at

-- One round of the loop of `enqueue_chunks`.
unfoldable pub enqueue_chunk : TilesetFetchState → ℕ → ℕ → ℕ → TilesetFetchState × EnqueueOutcome
enqueue_chunk s tx now c =
    let joined : TilesetFetchState = record s {
      waiters = insert c (waiters_of c s.waiters ++ (tx ∷ [])) s.waiters;
    } in
    if contains c s.inflight_chunks
    then (joined, joined_inflight)
    else if contains c s.pending_chunks
    then (joined, joined_pending)
    else (
      record joined {
        pending_chunks = set_insert c s.pending_chunks;
        first_pending_at = or_now s.first_pending_at now;
      },
      queued,
    )

-- `enqueue_chunks`; its channels have the numbers from `tx` on.
unfoldable pub enqueue_chunks :
    TilesetFetchState → ℕ → ℕ → List ℕ → TilesetFetchState × List EnqueuedChunk
enqueue_chunks s tx now [] = (s, [])
enqueue_chunks s tx now (c ∷ rest) =
    let (s', outcome) = enqueue_chunk s tx now c in
    let (s'', joined) = enqueue_chunks s' (tx + 1) now rest in
    (s'', record { index = c; receiver = tx; outcome = outcome } ∷ joined)

-- `self.waiters.retain(…)` in `prune_cancelled_waiters`, with the number of the waiters it drops.
abbrev pub retain_open : (ℕ → Bool) → List (ℕ × List ℕ) → List (ℕ × List ℕ) × ℕ
retain_open closed [] = ([], 0)
retain_open closed ((c, ws) ∷ rest) =
    let (kept, cancelled) = retain_open closed rest in
    let live = filter (λ w. not (closed w)) ws in
    (if is_empty live then kept else (c, live) ∷ kept, length ws - length live + cancelled)

unfoldable pub prune_cancelled_waiters : (ℕ → Bool) → TilesetFetchState → TilesetFetchState × ℕ
prune_cancelled_waiters closed s =
    let (waiters, cancelled) = retain_open closed s.waiters in
    let pending = filter (λ c. has_key c waiters) s.pending_chunks in
    (
      record s {
        waiters = waiters;
        pending_chunks = pending;
        first_pending_at = if is_empty pending then none else s.first_pending_at;
      },
      cancelled,
    )

-- The loop of `contiguous_chunk_ranges`; a range is its start and its end.
unfoldable pub group_chunks : ℕ → ℕ → ℕ → ℕ → List ℕ → List (ℕ × ℕ)
group_chunks max_fetch gap start end [] = (start, end) ∷ []
group_chunks max_fetch gap start end (c ∷ rest) =
    elim (leb c (end + gap) && leb (c + 1 - start) max_fetch) [
      | true ↦ group_chunks max_fetch gap start (c + 1) rest
      | false ↦ (start, end) ∷ group_chunks max_fetch gap c (c + 1) rest
    ]

unfoldable pub contiguous_chunk_ranges : List ℕ → ℕ → ℕ → List (ℕ × ℕ)
contiguous_chunk_ranges [] max_fetch gap = []
contiguous_chunk_ranges (start ∷ rest) max_fetch gap =
    group_chunks (max max_fetch 1) gap start (start + 1) rest

pub data DispatchDecision : Type 0 where
  idle throttled : DispatchDecision
  dispatch : List (ℕ × ℕ) → ℕ → ℕ → ℕ → DispatchDecision

abbrev pub chunks_in : ℕ × ℕ → List ℕ
chunks_in (start, end) = indices start (end - start)

-- The loop of `select_dispatch_groups` that moves the chunks of the groups.
abbrev pub move_groups : List (ℕ × ℕ) → TilesetFetchState → TilesetFetchState
move_groups [] s = s
move_groups (g ∷ rest) s = move_groups rest (record s {
  inflight_chunks = set_extend s.inflight_chunks (chunks_in g);
  pending_chunks = remove_all s.pending_chunks (chunks_in g);
})

-- The end of `select_dispatch_groups`, for the groups that it takes.
unfoldable pub dispatch_groups :
    TilesetFetchState → ℕ → List (ℕ × ℕ) → TilesetFetchState × DispatchDecision
dispatch_groups s now [] = (s, throttled)
dispatch_groups s now (g ∷ rest) =
    let moved = move_groups (g ∷ rest) s in
    let delay : ℕ = elim s.first_pending_at [ some at ↦ now - at | none ↦ 0 ] in
    (
      record moved {
        first_pending_at = if is_empty moved.pending_chunks then none else moved.first_pending_at;
        inflight_fetch_count = moved.inflight_fetch_count + length (g ∷ rest);
      },
      dispatch (g ∷ rest) s.archive_len delay (length s.pending_chunks),
    )

-- `select_dispatch_groups`.
unfoldable pub select_dispatch_groups :
    TilesetFetchState → ℕ → ℕ → TilesetFetchState × DispatchDecision
select_dispatch_groups s max_fetch now =
    if is_empty s.pending_chunks
    then (record s { scheduler_running = false }, idle)
    else if leb max_concurrent_fetches_per_tileset s.inflight_fetch_count
    then (s, throttled)
    else dispatch_groups s now (
        take (max_concurrent_fetches_per_tileset - s.inflight_fetch_count)
          (contiguous_chunk_ranges s.pending_chunks max_fetch max_chunk_gap))

-- What a completed group sends to the waiters of a chunk.
abbrev pub chunk_result :
    Result ChunkFetchError (List (ℕ × Bytes)) → ℕ → Result ChunkFetchError Bytes
chunk_result (err e) c = err e
chunk_result (ok chunks) c = elim (lookup c chunks) [
  | some chunk ↦ ok chunk
  | none ↦ err (message (omitted_chunk c))
]

-- The sends: which waiters got what, and how many had left.
pub record Delivery : Type 0 where
  pub delivered : List (ℕ × Result ChunkFetchError Bytes)
  pub cancelled : ℕ

abbrev pub send_all : (ℕ → Bool) → Result ChunkFetchError Bytes → List ℕ → Delivery → Delivery
send_all closed result [] d = d
send_all closed result (w ∷ rest) d = send_all closed result rest (
    if closed w
    then record d { cancelled = d.cancelled + 1 }
    else record d { delivered = d.delivered ++ ((w, result) ∷ []) })

-- The loop of `complete_group` over the chunks that are left.
unfoldable pub release_chunks :
    (ℕ → Bool)
    → Result ChunkFetchError (List (ℕ × Bytes))
    → List ℕ
    → TilesetFetchState
    → Delivery
    → TilesetFetchState × Delivery
release_chunks closed result [] s d = (s, d)
release_chunks closed result (c ∷ rest) s d =
    release_chunks closed result rest
      (record s { inflight_chunks = without c s.inflight_chunks; waiters = erase c s.waiters })
      (send_all closed (chunk_result result c) (waiters_of c s.waiters) d)

-- `complete_group`. The last component says whether it notifies the scheduler.
unfoldable pub complete_group :
    (ℕ → Bool)
    → ℕ × ℕ
    → Result ChunkFetchError (List (ℕ × Bytes))
    → TilesetFetchState
    → TilesetFetchState × Delivery × Bool
complete_group closed range result s =
    let notifies =
      leb max_concurrent_fetches_per_tileset s.inflight_fetch_count
      && not (is_empty s.pending_chunks) in
    let (s', delivery) =
      release_chunks closed result (chunks_in range)
        (record s { inflight_fetch_count = s.inflight_fetch_count - 1 })
        (record { delivered = []; cancelled = 0 }) in
    (s', delivery, notifies)

-- `remove_drainable_state`, on the entry of the tileset in the map.
unfoldable pub remove_drainable_state : TilesetFetchState → Option TilesetFetchState
remove_drainable_state s = if is_drainable s then none else some s

-- `complete_dispatched_group`: the entry, the sends, and whether the scheduler was notified.
unfoldable pub complete_dispatched_group :
    (ℕ → Bool)
    → ℕ × ℕ
    → Result ChunkFetchError (List (ℕ × Bytes))
    → Option TilesetFetchState
    → Option TilesetFetchState × Delivery × Bool
complete_dispatched_group closed range result none =
    (none, record { delivered = []; cancelled = 0 }, false)
complete_dispatched_group closed range result (some s) =
    let (s', delivery, notifies) = complete_group closed range result s in
    (remove_drainable_state s', delivery, notifies)

abbrev pub or_new : Option TilesetFetchState → TilesetFetchState
or_new none = new_state
or_new (some s) = s

-- `fetch_chunks` up to its wait: the state, the receivers, and whether it starts a scheduler,
-- and then whether that flushes at once.
unfoldable pub request_chunks :
    Option TilesetFetchState
    → ℕ
    → ℕ
    → List ℕ
    → ℕ
    → TilesetFetchState × List EnqueuedChunk × Option Bool
request_chunks entry tx now required len =
    let s = or_new entry in
    let (s', joined) =
      enqueue_chunks (record s { archive_len = max s.archive_len len }) tx now required in
    if not s'.scheduler_running && not (is_empty s'.pending_chunks)
    then (
      record s' { scheduler_running = true },
      joined,
      some (is_idle s && contains 0 s'.pending_chunks),
    )
    else (s', joined, none)

-- The end of `fetch_chunks`: what the receivers got, in the order of the chunks.
unfoldable pub collect_chunks :
    List (ℕ × Option (Result ChunkFetchError Bytes)) → Result ChunkFetchError (List (ℕ × Bytes))
collect_chunks [] = ok []
collect_chunks ((c, none) ∷ rest) = err (message waiter_dropped)
collect_chunks ((c, some (err e)) ∷ rest) = err e
collect_chunks ((c, some (ok chunk)) ∷ rest) = elim (collect_chunks rest) [
  | ok chunks ↦ ok ((c, chunk) ∷ chunks)
  | err e ↦ err e
]

-- What `run_scheduler` does with a decision under the lock.
abbrev pub decided :
    TilesetFetchState × DispatchDecision → Option TilesetFetchState × DispatchDecision
decided (s, idle) = (remove_drainable_state s, idle)
decided (s, throttled) = (some s, throttled)
decided (s, dispatch groups len delay pending) = (some s, dispatch groups len delay pending)

-- One round of `run_scheduler` under the lock: the entry, and the decision.
unfoldable pub scheduler_pass :
    (ℕ → Bool) → ℕ → ℕ → Option TilesetFetchState → Option TilesetFetchState × DispatchDecision
scheduler_pass closed max_fetch now none = (none, idle)
scheduler_pass closed max_fetch now (some s) =
    decided (select_dispatch_groups (prune_cancelled_waiters closed s).0 max_fetch now)
