-- ===== src/Workers/Accounts/Steps.antt =====
-- Every interleaving of tasks in the pool of crates/biei-core/src/worker_pool.rs.
use biei.Prelude.{
  ℕ, ◌+◌, ◌<◌, ◌≤◌, ◌^◌, ◌≡◌, refl, sym, ap, ◌∙◌, List, ◌∷◌, ◌++◌, Bool, true, false, if◌then◌else◌,
  eqb, ne→eqb, eqb_refl, item, length, length-set, arith, occurrences, nat_Eq,
}
use biei.Workers.State.{PoolState}
use biei.Workers.State.Sound.{IsPoolState}
use biei.Workers.State.Keeps.{clear_loaded_if_latest-keeps}
use biei.Workers.Reserve.{reserve_loop-lt}
use biei.Workers.Accounts.{
  Completion, Pool, spawn, clear_for, finish, fetch_sub_one, drop_completion, Step, reserves,
  dispatches, finishes, drops, Reach, here, next,
}
use biei.Workers.Accounts.Balance.{
  IsPool, held, workers_of, held-valid, set-depths, occurrences-inflight, spawn-IsPool,
  reserves-keeps, dispatches-keeps,
}

-- The worker of a task that is in flight is busy.
inflight-held :
    (w : Pool) (before after : List Completion) (c : Completion)
    → w.inflight ≡ before ++ (c ∷ after)
    → (i : ℕ)
    → held w i
      ≡ occurrences i w.reserved
        + (occurrences i (workers_of (before ++ after)) + (if eqb c.worker_idx i then 1 else 0))
inflight-held w before after c e i =
    rw e (ap (λ t. occurrences i w.reserved + t) (occurrences-inflight i c before after))

inflight-valid :
    (n : ℕ) (w : Pool) (before after : List Completion) (c : Completion)
    → w.inflight ≡ before ++ (c ∷ after)
    → IsPool n w
    → (c.worker_idx < n) × (0 < held w c.worker_idx)
inflight-valid n w before after c e h =
    let counted : held w c.worker_idx
        ≡ occurrences c.worker_idx w.reserved
          + (occurrences c.worker_idx (workers_of (before ++ after)) + 1) =
      inflight-held w before after c e c.worker_idx ∙ rw (eqb_refl c.worker_idx) refl in
    (held-valid n w c.worker_idx h (omega arith), omega arith)

clear_when :
    (n : ℕ) (s : PoolState) (c : Completion) (b : Bool)
    → c.worker_idx < n
    → IsPoolState n s
    → IsPoolState n (if b then clear_for s c else s)
clear_when n s c true inside h =
    clear_loaded_if_latest-keeps n s c.worker_idx c.dispatch_generation inside h
clear_when n s c false inside h = h

finishes-keeps :
    (n : ℕ) (w : Pool) (before after : List Completion) (c : Completion) (failed : Bool)
    → w.inflight ≡ before ++ (c ∷ after)
    → IsPool n w
    → IsPool n (record w {
      state = (finish w.state c failed).0;
      inflight = before ++ ((finish w.state c failed).1 ∷ after);
    })
finishes-keeps n w before after c failed e h =
    let (inside, busy) = inflight-valid n w before after c e h in
    record {
      sound = clear_when n w.state c failed inside h.sound;
      size = h.size;
      balance = λ i.
          h.balance i
          ∙ inflight-held w before after c e i
          ∙ ap (λ t. occurrences i w.reserved + t)
              (sym (occurrences-inflight i (finish w.state c failed).1 before after));
      bounded = h.bounded;
      usize = h.usize;
    }

drops-keeps :
    (n : ℕ) (w : Pool) (before after : List Completion) (c : Completion)
    → w.inflight ≡ before ++ (c ∷ after)
    → IsPool n w
    → IsPool n (drop_completion w c (before ++ after))
unfolding drop_completion
drops-keeps n w before after c e h =
    let idx = c.worker_idx in
    let (inside, busy) = inflight-valid n w before after c e h in
    let depth = item 0 w.queue_depths idx in
    let fits : idx < length w.queue_depths = omega (arith, h.size) in
    let less : fetch_sub_one depth + 1 ≡ depth =
      omega (arith, h.balance idx, h.bounded idx, h.usize) in
    let counted = inflight-held w before after c e in
    let mine : held w idx
        ≡ occurrences idx w.reserved + (occurrences idx (workers_of (before ++ after)) + 1) =
      counted idx ∙ rw (eqb_refl idx) refl in
    record {
      sound = clear_when n w.state c c.clear_loaded_on_drop inside h.sound;
      size = length-set w.queue_depths idx (fetch_sub_one depth) ∙ h.size;
      balance =
          set-depths w.queue_depths idx (fetch_sub_one depth)
            (λ i d. d ≡ held (drop_completion w c (before ++ after)) i) fits
            (omega (arith, mine, h.balance idx))
            (λ i other. h.balance i ∙ counted i ∙ rw (ne→eqb idx i other) (omega arith));
      bounded =
          set-depths w.queue_depths idx (fetch_sub_one depth) (λ i d. d ≤ w.queue_capacity) fits
            (omega (arith, h.bounded idx)) (λ i other. h.bounded i);
      usize = h.usize;
    }

-- A step keeps the pool in order: its state, the number of its workers, and for each worker a
-- queue depth that is the number of tasks that hold a slot of it and is at most the hard limit.
Step-IsPool : (n : ℕ) (w w' : Pool) → IsPool n w → Step w w' → IsPool n w'
Step-IsPool n w w' h (reserves idx current depth failed room found) =
    reserves-keeps n w idx depth (reserve_loop-lt w.queue_capacity current failed depth room) found
      h
Step-IsPool n w w' h (dispatches before after idx profile source now e) =
    dispatches-keeps n w before after idx profile source now e h
Step-IsPool n w w' h (finishes before after c failed e) =
    finishes-keeps n w before after c failed e h
Step-IsPool n w w' h (drops before after c e) = drops-keeps n w before after c e h

-- In whatever order tasks reserve, are dispatched, finish and are dropped, from a new pool on: the
-- depth of each queue is the number of tasks that hold a slot of it and at most the hard limit, the
-- profile counts are those of the loaded profiles, and the source sets and queues agree.
pub Reach-IsPool :
    (n bl_capacity queue_capacity : ℕ) (w : Pool)
    → bl_capacity < 2 ^ 64
    → queue_capacity < 2 ^ 64
    → Reach (spawn n bl_capacity queue_capacity) w
    → IsPool n w
Reach-IsPool n bl_capacity queue_capacity w h k here = spawn-IsPool n bl_capacity queue_capacity h k
Reach-IsPool n bl_capacity queue_capacity w h k (next {v = v} before step) =
    Step-IsPool n v w (Reach-IsPool n bl_capacity queue_capacity v h k before) step
