-- ===== src/Workers/Pick.antt =====
-- The choice of a worker in crates/biei-core/src/worker_pool.rs: `PickTier`, `PickScore`,
-- `pick_score` and `best_available_worker`.
pub mod Least
pub mod Comfort
use Prim.Native.Nat.{compare, Ordering}
use Prim.Native.String.{String}
use biei.Prelude.{
  ℕ, zero, suc, ◌+◌, ◌-◌, ◌*◌, ◌/◌, ◌^◌, max, List, [], ◌∷◌, Option, none, some, Bool, true, false,
  not, ◌&&◌, ◌||◌, ◌==◌, ltb, leb, if◌then◌else◌, eqb, item, contains, lookup, then_by, string_Eq,
}
use biei.Workers.Profile.{WorkerProfile, profile_Eq, mode_eqb, scale_eqb}
use biei.Workers.State.{PoolState}

pub data PickTier : Type 0 where
  warm_comfort fresh warm_full alloc_swap_idle warm_overflow warm_saturated shortest_queue :
      PickTier

-- The position of a tier in the declaration, by which the derived `Ord` compares.
abbrev pub tier_rank : PickTier → ℕ
tier_rank warm_comfort = 0
tier_rank fresh = 1
tier_rank warm_full = 2
tier_rank alloc_swap_idle = 3
tier_rank warm_overflow = 4
tier_rank warm_saturated = 5
tier_rank shortest_queue = 6

pub record PickScore : Type 0 where
  pub tier : PickTier
  pub source_miss : Bool
  pub queue_depth : ℕ
  pub protected_singleton : Bool
  pub shape_mismatch : Bool
  pub profile_count : ℕ
  pub last_seen : Option ℕ

abbrev pub bool_rank : Bool → ℕ
bool_rank false = 0
bool_rank true = 1

-- `None` before every `Some`.
abbrev pub seen_rank : Option ℕ → ℕ
seen_rank none = 0
seen_rank (some t) = suc t

-- The derived `Ord` of `PickScore`: field after field, `profile_count` being a `Reverse`.
unfoldable pub compare_score : PickScore → PickScore → Ordering
compare_score a b = then_by (compare (tier_rank a.tier) (tier_rank b.tier)) (
    then_by (compare (bool_rank a.source_miss) (bool_rank b.source_miss)) (
      then_by (compare a.queue_depth b.queue_depth) (
        then_by (compare (bool_rank a.protected_singleton) (bool_rank b.protected_singleton)) (
          then_by (compare (bool_rank a.shape_mismatch) (bool_rank b.shape_mismatch)) (
            then_by (compare b.profile_count a.profile_count)
              (compare (seen_rank a.last_seen) (seen_rank b.last_seen)))))))

-- What a choice is made for: `PickContext`, with the arrays of the pool state.
pub record PickContext : Type 0 where
  pub state : PoolState
  pub incoming_addlayer_source_id : Option String
  pub incoming_profile : WorkerProfile
  pub bl_capacity : ℕ
  pub queue_capacity : ℕ

abbrev pub expand_threshold : ℕ → ℕ
expand_threshold bl_capacity = max (bl_capacity * 2 / 3) 1

-- The `match` of `pick_score` on the loaded profile; its guards in their order.
unfoldable pub pick_tier : PickContext → Option WorkerProfile → ℕ → PickTier
pick_tier ctx none queue_depth = fresh
pick_tier ctx (some profile) queue_depth =
    let warm = eqb profile ctx.incoming_profile in
    if warm && ltb queue_depth (expand_threshold ctx.bl_capacity)
    then warm_comfort
    else if warm && ltb queue_depth ctx.bl_capacity
    then warm_full
    else if not warm && queue_depth == 0
    then alloc_swap_idle
    else if warm && ltb queue_depth ctx.queue_capacity
    then warm_overflow
    else if warm
    then warm_saturated
    else shortest_queue

-- `ctx.profile_counts.get(profile).copied().unwrap_or(0)`.
abbrev pub count_of : PoolState → WorkerProfile → ℕ
count_of s profile = elim (lookup profile s.profile_counts) [ none ↦ 0 | some count ↦ count ]

abbrev pub shape_differs : WorkerProfile → WorkerProfile → Bool
shape_differs profile incoming =
    not (mode_eqb profile.render_mode incoming.render_mode)
    || not (scale_eqb profile.scale incoming.scale)

-- `is_some_and(|id| !ctx.addlayer_source_ids[idx].contains(id))`.
abbrev pub misses_source : PickContext → ℕ → Bool
misses_source ctx idx = elim ctx.incoming_addlayer_source_id [
  | none ↦ false
  | some id ↦ not (contains id (item [] ctx.state.addlayer_source_ids idx))
]

abbrev usize_max : ℕ
usize_max = 2 ^ 64 - 1

-- A score outside the tier of idle swaps.
abbrev plain_score : PickContext → ℕ → PickTier → ℕ → PickScore
plain_score ctx idx tier queue_depth = record {
  tier = tier;
  source_miss = misses_source ctx idx;
  queue_depth = queue_depth;
  protected_singleton = false;
  shape_mismatch = false;
  profile_count = usize_max;
  last_seen = none;
}

abbrev swap_score : PickContext → ℕ → WorkerProfile → ℕ → PickScore
swap_score ctx idx profile queue_depth = record {
  tier = alloc_swap_idle;
  source_miss = misses_source ctx idx;
  queue_depth = queue_depth;
  protected_singleton = leb (count_of ctx.state profile) 1;
  shape_mismatch = shape_differs profile ctx.incoming_profile;
  profile_count = count_of ctx.state profile;
  last_seen = item none ctx.state.last_used idx;
}

-- `pick_score`. The tier of idle swaps has a loaded profile, so that `expect` does not fail.
unfoldable pub score_of : PickContext → ℕ → Option WorkerProfile → PickTier → ℕ → PickScore
score_of ctx idx (some profile) alloc_swap_idle queue_depth = swap_score ctx idx profile queue_depth
score_of ctx idx loaded tier queue_depth = plain_score ctx idx tier queue_depth

unfoldable pub pick_score : PickContext → ℕ → ℕ → PickScore
pick_score ctx idx queue_depth =
    let loaded = item none ctx.state.loaded idx in
    score_of ctx idx loaded (pick_tier ctx loaded queue_depth) queue_depth

-- The workers with room, from `idx` on, with their scores.
unfoldable pub with_room : PickContext → ℕ → List ℕ → List (ℕ × PickScore)
with_room ctx idx [] = []
with_room ctx idx (queue_depth ∷ queue_depths) =
    let rest = with_room ctx (suc idx) queue_depths in
    if ltb queue_depth ctx.queue_capacity
    then (idx, pick_score ctx idx queue_depth) ∷ rest
    else rest

-- `Iterator::min_by_key`, which keeps the first of several least items.
abbrev pub is_greater : Ordering → Bool
is_greater Ordering.gt = true
is_greater _ = false

unfoldable pub least_from : ℕ × PickScore → List (ℕ × PickScore) → ℕ × PickScore
least_from best [] = best
least_from best (candidate ∷ rest) =
    least_from (if is_greater (compare_score best.1 candidate.1) then candidate else best) rest

abbrev pub min_by_score : List (ℕ × PickScore) → Option ℕ
min_by_score [] = none
min_by_score (candidate ∷ rest) = some (least_from candidate rest).0

-- `WorkerPool::best_available_worker`, at the queue depths that it reads.
unfoldable pub best_available_worker : PickContext → List ℕ → Option ℕ
best_available_worker ctx queue_depths = min_by_score (with_room ctx 0 queue_depths)
