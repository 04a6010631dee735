-- ===== src/Dispatch/Warm.antt =====
-- The first tier of crates/biei-core/src/dispatcher.rs: `warm_candidate` and
-- `select_warm_target`. The generator of the package rand_xoshiro is a parameter.
pub mod Target
pub mod Nodes
use Prim.Native.Nat.{bit_xor}
use Prim.Native.String.{String}
use biei.Prelude.{
  ℕ, zero, suc, ◌+◌, ◌-◌, ◌<◌, ◌≡◌, Bool, true, false, not, ◌&&◌, ◌||◌, ◌==◌, List, [], ◌∷◌, Option,
  none, some, if◌then◌else◌, ltb, leb, length, eqb,
}
use biei.Workers.Profile.{WorkerProfile, profile_Eq, option_Eq}
use biei.Dispatch.Hrw.{wrapping_mul, splitmix64_finalize}
use biei.Dispatch.View.{WorkerView, NodeStateView, DispatchView, states}

pub record WarmCandidate : Type 0 where
  pub node : NodeStateView
  pub warm_count : ℕ
  pub style_spare_bl : ℕ

-- The loop of `warm_candidate` with its variables: the warm workers, their spare room, and whether
-- any worker can be used.
unfoldable pub scan_workers : WorkerProfile → ℕ → ℕ → ℕ → Bool → List WorkerView → ℕ × ℕ × Bool
scan_workers profile bl warm_count spare usable [] = (warm_count, spare, usable)
scan_workers profile bl warm_count spare usable (worker ∷ workers) =
    let warm = eqb worker.loaded_profile (some profile) in
    let vacant = eqb worker.loaded_profile none in
    scan_workers profile bl (if warm then warm_count + 1 else warm_count)
      (if warm then spare + (bl - worker.queue_depth) else spare)
      (if warm then usable || ltb worker.queue_depth bl else if vacant then true else usable)
      workers

-- `warm_candidate`.
unfoldable pub warm_candidate : NodeStateView → WorkerProfile → ℕ → Option WarmCandidate
warm_candidate node profile bl =
    let scanned = scan_workers profile bl 0 0 false node.workers in
    if node.accepts_new_renders && (ltb 0 scanned.0 && scanned.2)
    then some (record { node = node; warm_count = scanned.0; style_spare_bl = scanned.1 })
    else none

-- `filter_map`.
unfoldable pub keep_warm : WorkerProfile → ℕ → List NodeStateView → List WarmCandidate
keep_warm profile bl [] = []
keep_warm profile bl (node ∷ nodes) = elim (warm_candidate node profile bl) [
  | none ↦ keep_warm profile bl nodes
  | some candidate ↦ candidate ∷ keep_warm profile bl nodes
]

abbrev pub warm_candidates : DispatchView → WorkerProfile → ℕ → List WarmCandidate
warm_candidates view profile bl = keep_warm profile bl (states view)

-- `random_range(0..bound)` for a seed: the first and the second draw from a new generator.
pub record Generator : Type 0 where
  pub first_draw : ℕ → ℕ → ℕ
  pub second_draw : ℕ → ℕ → ℕ

-- What the package documents: a draw is in its range, when that is not empty.
pub record IsGenerator (rng : Generator) : Type 0 where
  pub first_below : (seed bound : ℕ) → 0 < bound → rng.first_draw seed bound < bound
  pub second_below : (seed bound : ℕ) → 0 < bound → rng.second_draw seed bound < bound

-- `routing_seed`.
abbrev pub routing_seed : ℕ → ℕ → ℕ
routing_seed seed task_id =
    splitmix64_finalize (bit_xor seed (wrapping_mul task_id 0x9e3779b97f4a7c15))

pub data Tier1Strategy : Type 0 where
  weighted_random power_of_two : Tier1Strategy

-- The target of the first tier; `panicked` is `unreachable!` or a failed `expect`.
pub data WarmTarget : Type 0 where
  no_target panicked : WarmTarget
  target : NodeStateView → WarmTarget

unfoldable pub total_weight : List WarmCandidate → ℕ
total_weight [] = 0
total_weight (c ∷ cs) = c.warm_count + total_weight cs

-- The walk to the candidate whose share of the tickets holds the drawn one.
unfoldable pub walk : ℕ → List WarmCandidate → WarmTarget
walk ticket [] = panicked
walk ticket (c ∷ cs) =
    let rest = walk (ticket - c.warm_count) cs in
    if ltb ticket c.warm_count then target c.node else rest

-- The pass that looks up both sampled candidates.
unfoldable pub gather :
    ℕ
    → ℕ
    → ℕ
    → Option WarmCandidate
    → Option WarmCandidate
    → List WarmCandidate
    → Option WarmCandidate × Option WarmCandidate
gather idx first_idx second_idx first second [] = (first, second)
gather idx first_idx second_idx first second (c ∷ cs) =
    gather (suc idx) first_idx second_idx (if idx == first_idx then some c else first)
      (if not (idx == first_idx) && idx == second_idx then some c else second) cs

-- The one with more spare room, the first one for a tie.
unfoldable pub roomier : Option WarmCandidate × Option WarmCandidate → WarmTarget
roomier (some first, some second) =
    target (if leb second.style_spare_bl first.style_spare_bl then first.node else second.node)
roomier _ = panicked

unfoldable pub choose_weighted : Generator → ℕ → List WarmCandidate → WarmTarget
choose_weighted rng seed candidates =
    let total = total_weight candidates in
    if total == 0 then no_target else walk (rng.first_draw seed total) candidates

unfoldable pub choose_of_two : Generator → ℕ → List WarmCandidate → WarmTarget
choose_of_two rng seed [] = no_target
choose_of_two rng seed (only ∷ []) = target only.node
choose_of_two rng seed (c ∷ (d ∷ cs)) =
    let count = length (c ∷ (d ∷ cs)) in
    let first_idx = rng.first_draw seed count in
    let drawn = rng.second_draw seed (count - 1) in
    let second_idx = if leb first_idx drawn then drawn + 1 else drawn in
    roomier (gather 0 first_idx second_idx none none (c ∷ (d ∷ cs)))

-- `select_warm_target`, from the candidates on.
unfoldable pub select_warm_target : Generator → Tier1Strategy → ℕ → List WarmCandidate → WarmTarget
select_warm_target rng weighted_random seed candidates = choose_weighted rng seed candidates
select_warm_target rng power_of_two seed candidates = choose_of_two rng seed candidates
