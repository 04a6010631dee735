-- ===== src/Tests/Pools.antt =====
-- Runs and instances of the worker pool on a pool of two workers.
use biei.Prelude.{
  ℕ, ◌+◌, ◌%◌, ◌^◌, ◌≡◌, ◌≢◌, ◌↔◌, ◌⊎◌, refl, [], ◌∷◌, ◌++◌, none, some, true, arith, item, set,
  without, last_items, string_Eq, nat_Eq,
}
use biei.Workers.Profile.{WorkerProfile, static_image, tile_image, x1, x2, profile_Eq}
use biei.Workers.Affinity.{affinity_capacity}
use biei.Workers.State.{
  PoolState, new_state, increment_profile_count, take_counts, mark_loaded, mark_addlayer_source,
  clear_loaded,
}
use biei.Workers.State.Sound.{IsPoolState}
use biei.Workers.State.Keeps.{
  new_state-IsPoolState, mark_loaded-keeps, mark_addlayer_source-keeps, clear_loaded-keeps,
}
use biei.Workers.Pick.{
  with_room, least_from, score_of, pick_tier, PickContext, pick_score, best_available_worker,
  compare_score,
}
use biei.Workers.Pick.Least.{AtMost, HasRoom, best_available_worker-AtMost}
use biei.Workers.Pick.Comfort.{IsComfortable, best_available_worker-IsComfortable}
use biei.Workers.Reserve.{
  reserve_loop, Round, reserve_best_available, reserve_best_available-quiet, reserved, queue_full,
}
use biei.Workers.Accounts.{Pool, spawn, reserve, dispatch, Reach, reserves, dispatches, here, next}
use biei.Workers.Accounts.Balance.{IsPool}
use biei.Workers.Accounts.Steps.{Reach-IsPool}
use biei.Workers.SourceCache.{SourceCache, new_cache, touch, cached}
use biei.Workers.SourceCache.Recent.{IsCache, touch-IsCache, new_cache-IsCache}

abbrev streets : WorkerProfile
streets = record {
  style = record { id = "demo/streets"; version = 3 };
  render_mode = tile_image;
  scale = x1;
}

abbrev outdoors : WorkerProfile
outdoors = record {
  style = record { id = "demo/outdoors"; version = 1 };
  render_mode = static_image;
  scale = x2;
}

-- Two workers, the second with `streets` loaded.
abbrev idle : PoolState
idle = new_state 2

abbrev warm : PoolState
warm = (mark_loaded idle 1 streets 50).0

warm_loaded : (warm.loaded ≡ none ∷ some streets ∷ []) × (warm.profile_counts ≡ (streets, 1) ∷ [])
unfolding mark_loaded increment_profile_count take_counts
warm_loaded = (refl, refl)

mark_loaded-keeps_example :
    IsPoolState 2 warm
    × (item none warm.loaded 1 ≡ some streets)
    × ((j : ℕ) → 1 ≢ j → item none warm.loaded j ≡ item none idle.loaded j)
    × (warm.dispatch_generations
        ≡ set idle.dispatch_generations 1 (mark_loaded idle 1 streets 50).1)
    × ((mark_loaded idle 1 streets 50).1 ≡ (item 0 idle.dispatch_generations 1 + 1) % 2 ^ 64)
mark_loaded-keeps_example =
    mark_loaded-keeps 2 idle 1 streets 50 (omega arith) (new_state-IsPoolState 2)

mark_addlayer_source-keeps_example :
    IsPoolState 2 (mark_addlayer_source idle 0 "points")
    × (item [] (mark_addlayer_source idle 0 "points").addlayer_source_lru 0
        ≡ last_items affinity_capacity
            (without "points" (item [] idle.addlayer_source_lru 0) ++ ("points" ∷ [])))
mark_addlayer_source-keeps_example =
    mark_addlayer_source-keeps 2 idle 0 "points" (omega arith) (new_state-IsPoolState 2)

warm-IsPoolState : IsPoolState 2 warm
warm-IsPoolState = (mark_loaded-keeps 2 idle 1 streets 50 (omega arith) (new_state-IsPoolState 2)).0

clear_loaded-keeps_example :
    IsPoolState 2 (clear_loaded warm 1)
    × (item none (clear_loaded warm 1).loaded 1 ≡ none)
    × ((j : ℕ) → 1 ≢ j → item none (clear_loaded warm 1).loaded j ≡ item none warm.loaded j)
    × ((clear_loaded warm 1).dispatch_generations ≡ warm.dispatch_generations)
clear_loaded-keeps_example = clear_loaded-keeps 2 warm 1 (omega arith) warm-IsPoolState

abbrev choice : PickContext
choice = record {
  state = warm;
  incoming_addlayer_source_id = none;
  incoming_profile = streets;
  bl_capacity = 6;
  queue_capacity = 8;
}

-- The warm worker is taken below two thirds of the soft limit, and the empty one from there on.
picks :
    (best_available_worker choice (0 ∷ 3 ∷ []) ≡ some 1)
    × (best_available_worker choice (0 ∷ 4 ∷ []) ≡ some 0)
    × (best_available_worker choice (8 ∷ 8 ∷ []) ≡ none)
unfolding best_available_worker mark_loaded with_room least_from compare_score pick_score score_of
    pick_tier
picks = (refl, refl, refl)

best_available_worker-IsComfortable_example :
    (depth : ℕ) × HasRoom choice (0 ∷ 3 ∷ []) 1 depth
    × (IsComfortable choice (item none choice.state.loaded 0) 0
        → IsComfortable choice (item none choice.state.loaded 1) depth)
    × (item none choice.state.loaded 0 ≡ none
        → IsComfortable choice (item none choice.state.loaded 1) depth
          ⊎ (item none choice.state.loaded 1 ≡ none))
best_available_worker-IsComfortable_example =
    best_available_worker-IsComfortable choice (0 ∷ 3 ∷ []) 1 0 0 picks.0 (refl, omega arith)

best_available_worker-AtMost_example :
    ((best_available_worker choice (8 ∷ 8 ∷ []) ≡ none)
      ↔ ((i depth : ℕ) → HasRoom choice (8 ∷ 8 ∷ []) i depth → ⊥))
    × ((idx : ℕ)
        → best_available_worker choice (8 ∷ 8 ∷ []) ≡ some idx
        → (depth : ℕ) × HasRoom choice (8 ∷ 8 ∷ []) idx depth
          × ((j other : ℕ)
              → HasRoom choice (8 ∷ 8 ∷ []) j other
              → AtMost (pick_score choice idx depth) (pick_score choice j other)))
best_available_worker-AtMost_example = best_available_worker-AtMost choice (8 ∷ 8 ∷ [])

abbrev quiet : Round
quiet = record { ctx = choice; scanned = 0 ∷ 3 ∷ []; loaded = 0 ∷ 3 ∷ []; failed = [] }

reserve_best_available-quiet_example :
    ((reserve_best_available (quiet ∷ []) ≡ queue_full)
      × ((i depth : ℕ) → HasRoom choice (0 ∷ 3 ∷ []) i depth → ⊥))
    ⊎ ((idx : ℕ) × (depth : ℕ) × (reserve_best_available (quiet ∷ []) ≡ reserved idx depth)
        × (best_available_worker choice (0 ∷ 3 ∷ []) ≡ some idx)
        × HasRoom choice (0 ∷ 3 ∷ []) idx depth)
reserve_best_available-quiet_example = reserve_best_available-quiet choice (0 ∷ 3 ∷ []) []

-- A task reserves the first worker and is dispatched to it.
abbrev one_task : Pool
one_task = dispatch (reserve (spawn 2 6 8) 0 0) 0 [] outdoors (some "points") 70

one_task-Reach : Reach (spawn 2 6 8) one_task
unfolding reserve_loop
one_task-Reach =
    next (next here (reserves 0 0 0 [] refl refl))
      (dispatches [] [] 0 outdoors (some "points") 70 refl)

Reach-IsPool_example : IsPool 2 one_task
Reach-IsPool_example = Reach-IsPool 2 6 8 one_task (omega arith) (omega arith) one_task-Reach

abbrev small : SourceCache
small = touch (touch (new_cache 2) 11) 22

small-IsCache : IsCache small
small-IsCache =
    (touch-IsCache (touch (new_cache 2) 11) 22
      (touch-IsCache (new_cache 2) 11 (new_cache-IsCache 2)).0).0

touch-IsCache_example :
    IsCache (touch small 33)
    × ((touch small 33).entries ≡ last_items small.capacity (without 33 small.entries ++ (33 ∷ [])))
    × (cached (touch small 33) 33 ≡ true)
touch-IsCache_example = touch-IsCache small 33 small-IsCache
