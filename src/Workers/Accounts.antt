-- ===== src/Workers/Accounts.antt =====
-- The life of a task in the pool of crates/biei-core/src/worker_pool.rs: the reservation of a
-- queue slot, the dispatch that `process` makes under the lock, and `WorkerCompletion`. A step is
-- what happens without another task in between.
pub mod Balance
pub mod Steps
use Prim.Native.String.{String}
use biei.Prelude.{
  ℕ, zero, suc, ◌+◌, ◌-◌, ◌^◌, ◌%◌, ◌≡◌, max, List, [], ◌∷◌, ◌++◌, Option, none, some, Bool, true,
  false, if◌then◌else◌, item, get_elem?, set, replicate,
}
use biei.Workers.Profile.{WorkerProfile}
use biei.Workers.State.{
  PoolState, new_state, mark_loaded, mark_addlayer_source, clear_loaded_if_latest,
}
use biei.Workers.Reserve.{reserve_loop}

-- `WorkerCompletion`; the counter and the state that it shares are those of the pool.
pub record Completion : Type 0 where
  pub worker_idx : ℕ
  pub dispatch_generation : ℕ
  pub clear_loaded_on_drop : Bool

-- The pool with the tasks on their way: those that have a queue slot but are not dispatched, by
-- worker, and the completions of those that are.
pub record Pool : Type 0 where
  pub state : PoolState
  pub queue_depths : List ℕ
  pub queue_capacity : ℕ
  pub reserved : List ℕ
  pub inflight : List Completion

-- `WorkerPool::spawn`, which takes no hard limit below the soft one.
abbrev pub spawn : ℕ → ℕ → ℕ → Pool
spawn n bl_capacity queue_capacity = record {
  state = new_state n;
  queue_depths = replicate n 0;
  queue_capacity = max queue_capacity bl_capacity;
  reserved = [];
  inflight = [];
}

-- The successful exchange of `try_reserve`.
abbrev pub reserve : Pool → ℕ → ℕ → Pool
reserve w idx depth = record w {
  queue_depths = set w.queue_depths idx (depth + 1);
  reserved = idx ∷ w.reserved;
}

-- What `process` does under the lock: `mark_loaded`, and `mark_addlayer_source` for a source.
unfoldable pub mark : PoolState → ℕ → WorkerProfile → Option String → ℕ → PoolState × ℕ
mark s idx profile source now =
    let marked = mark_loaded s idx profile now in
    (elim source [ none ↦ marked.0 | some id ↦ mark_addlayer_source marked.0 idx id ], marked.1)

-- `WorkerCompletion::new`, after the marks; `others` are the slots still to be dispatched.
abbrev pub dispatch : Pool → ℕ → List ℕ → WorkerProfile → Option String → ℕ → Pool
dispatch w idx others profile source now =
    let marked = mark w.state idx profile source now in
    let completion : Completion = record {
      worker_idx = idx;
      dispatch_generation = marked.1;
      clear_loaded_on_drop = true;
    } in
    record w { state = marked.0; reserved = others; inflight = completion ∷ w.inflight }

-- `clear_loaded_if_latest` for a completion.
abbrev pub clear_for : PoolState → Completion → PoolState
clear_for s c = clear_loaded_if_latest s c.worker_idx c.dispatch_generation

-- `WorkerCompletion::finish`, before the value is dropped; `failed` for `TaskResult::Failed` and
-- `TaskResult::Rejected`.
abbrev pub finish : PoolState → Completion → Bool → PoolState × Completion
finish s c failed = (if failed then clear_for s c else s, record c { clear_loaded_on_drop = false })

-- `AtomicUsize::fetch_sub(1)`, which wraps.
abbrev pub fetch_sub_one : ℕ → ℕ
fetch_sub_one depth = (depth + (2 ^ 64 - 1)) % 2 ^ 64

-- `WorkerCompletion::drop`.
unfoldable pub drop_completion : Pool → Completion → List Completion → Pool
drop_completion w c others = record w {
  state = if c.clear_loaded_on_drop then clear_for w.state c else w.state;
  queue_depths =
      set w.queue_depths c.worker_idx (fetch_sub_one (item 0 w.queue_depths c.worker_idx));
  inflight = others;
}

-- The steps, in any order between the tasks. A reservation read some number first, then what its
-- failed exchanges report, and the exchange that succeeds finds the value that it expects. A
-- completion may be dropped without having been finished, when its command is.
pub data Step (w : Pool) : Pool → Type 0 where
  reserves :
      (idx current depth : ℕ) (failed : List ℕ)
      → reserve_loop w.queue_capacity current failed ≡ some depth
      → get_elem? w.queue_depths idx ≡ some depth
      → Step w (reserve w idx depth)
  dispatches :
      (before after : List ℕ) (idx : ℕ) (profile : WorkerProfile) (source : Option String) (now : ℕ)
      → w.reserved ≡ before ++ (idx ∷ after)
      → Step w (dispatch w idx (before ++ after) profile source now)
  finishes :
      (before after : List Completion) (c : Completion) (failed : Bool)
      → w.inflight ≡ before ++ (c ∷ after)
      → Step w (record w {
        state = (finish w.state c failed).0;
        inflight = before ++ ((finish w.state c failed).1 ∷ after);
      })
  drops :
      (before after : List Completion) (c : Completion)
      → w.inflight ≡ before ++ (c ∷ after)
      → Step w (drop_completion w c (before ++ after))

pub data Reach (w : Pool) : Pool → Type 0 where
  here : Reach w w
  next : {v u : Pool} → Reach w v → Step v u → Reach w u
