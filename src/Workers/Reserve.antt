-- ===== src/Workers/Reserve.antt =====
-- `WorkerPool::try_reserve` and `reserve_best_available` of crates/biei-core/src/worker_pool.rs.
-- What other tasks do in between shows in the numbers that the loops read, which are arguments.
use biei.Prelude.{
  ℕ, ◌<◌, ◌≡◌, refl, List, [], ◌∷◌, Option, none, some, false, inl, inr, leb, lt→leb, ◌⊎◌,
  item-get_elem?, if◌then◌else◌, item, arith, Option-cases,
}
use biei.Workers.Pick.{PickContext, best_available_worker}
use biei.Workers.Pick.Least.{HasRoom, best_available_worker-AtMost}

-- The loop of `try_reserve` from the value that it has read; `failed` are the values that the
-- exchanges report which fail. An exchange that succeeds leaves the value plus 1.
unfoldable pub reserve_loop : ℕ → ℕ → List ℕ → Option ℕ
reserve_loop queue_capacity current [] = if leb queue_capacity current then none else some current
reserve_loop queue_capacity current (actual ∷ failed) =
    let next = reserve_loop queue_capacity actual failed in
    if leb queue_capacity current then none else next

abbrev pub try_reserve : ℕ → List ℕ → ℕ → List ℕ → Option ℕ
try_reserve queue_capacity queue_depths idx failed =
    reserve_loop queue_capacity (item 0 queue_depths idx) failed

-- One round of `reserve_best_available`: the pool as it is scanned, and the queue depths as the
-- reservation then reads them.
pub record Round : Type 0 where
  pub ctx : PickContext
  pub scanned : List ℕ
  pub loaded : List ℕ
  pub failed : List ℕ

pub data Reservation : Type 0 where
  reserved : ℕ → ℕ → Reservation
  queue_full retrying : Reservation

-- `WorkerPool::reserve_best_available` over the rounds that it goes through.
unfoldable pub reserve_best_available : List Round → Reservation
reserve_best_available [] = retrying
reserve_best_available (round ∷ rounds) =
    let again = reserve_best_available rounds in
    elim (best_available_worker round.ctx round.scanned) [
      | none ↦ queue_full
      | some idx ↦ elim (try_reserve round.ctx.queue_capacity round.loaded idx round.failed) [
        | some depth ↦ reserved idx depth
        | none ↦ again
      ]
    ]

pub reserve_loop-lt :
    (queue_capacity current : ℕ) (failed : List ℕ) (depth : ℕ)
    → reserve_loop queue_capacity current failed ≡ some depth
    → depth < queue_capacity
unfolding reserve_loop
reserve_loop-lt cap current [] depth h = ground arith
reserve_loop-lt cap current (actual ∷ failed) depth h =
    ground (arith, reserve_loop-lt cap actual failed depth)

-- When nothing interferes between the scan and the reservation, `reserve_best_available` ends in
-- its first round. It then reports a full queue exactly when no worker has room, and otherwise
-- reserves the best worker at the depth that was scanned.
pub reserve_best_available-quiet :
    (ctx : PickContext) (queue_depths : List ℕ) (rounds : List Round)
    → let quiet : Round = record {
      ctx = ctx;
      scanned = queue_depths;
      loaded = queue_depths;
      failed = [];
    } in
      ((reserve_best_available (quiet ∷ rounds) ≡ queue_full)
        × ((i depth : ℕ) → HasRoom ctx queue_depths i depth → ⊥))
      ⊎ ((idx : ℕ) × (depth : ℕ) × (reserve_best_available (quiet ∷ rounds) ≡ reserved idx depth)
          × (best_available_worker ctx queue_depths ≡ some idx)
          × HasRoom ctx queue_depths idx depth)
unfolding reserve_best_available reserve_loop
reserve_best_available-quiet ctx queue_depths rounds =
    elim (Option-cases (best_available_worker ctx queue_depths)) [
      | inl nothing ↦ inl (
        rw (reserve_best_available, nothing) refl,
        (best_available_worker-AtMost ctx queue_depths).0.0 nothing,
      )
      | inr (idx, picked) ↦
          let (depth, room, _) = (best_available_worker-AtMost ctx queue_depths).1 idx picked in
          let read : item 0 queue_depths idx ≡ depth =
            item-get_elem? 0 queue_depths idx depth room.0 in
          let below : leb ctx.queue_capacity depth ≡ false = lt→leb _ _ room.1 in
          inr (idx, depth, rw (reserve_best_available, picked, read, below) refl, picked, room)
    ]
