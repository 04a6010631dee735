-- ===== src/Tests/Routes.antt =====
-- Runs and instances of the dispatcher on a cluster of two nodes.
use Prim.Native.Nat.{Ordering}
use Prim.Native.String.{String}
use biei.Prelude.{
  inl, inr, ℕ, ◌≤◌, ◌≡◌, ◌⊎◌, refl, true, false, List, [], ◌∷◌, map, take, filter, Option, none,
  some, if◌then◌else◌, eqb, string_Eq, All, arith,
}
use biei.Workers.Profile.{WorkerProfile, static_image, tile_image, x1, x2}
use biei.Dispatch.Hrw.{splitmix64_finalize}
use biei.Dispatch.View.{
  WorkerView, NodeStateView, DispatchView, new_view, states, state_entries, has_admission_capacity,
}
use biei.Dispatch.TopHrw.{top_hrw_candidates, candidate_for, top_loop, offer, insert_position}
use biei.Dispatch.TopHrw.Ranked.{IsRanking, entries_of}
use biei.Dispatch.TopHrw.Stable.{top_hrw_candidates-IsRanking}
use biei.Dispatch.Warm.{
  choose_weighted, total_weight, warm_candidate, scan_workers, Generator, IsGenerator,
  weighted_random, power_of_two, select_warm_target, keep_warm, no_target,
}
use biei.Dispatch.Warm.Target.{TargetOf}
use biei.Dispatch.Warm.Nodes.{IsWarmNode, is_warm_node, select_warm_target-IsWarmNode}
use biei.Dispatch.Swap.{
  select_timely, sort_by, note_nodes, note_workers, CostConfig, CostRange, tier3_candidates,
  is_timely, insert_by, mid, compare_candidates, tier3_sort_key, checked_instant,
  estimate_drain_eta,
}
use biei.Dispatch.Swap.Fits.{IsModest}
use biei.Dispatch.Swap.Drain.{IsDrained, SelectedFrom, AllWorkers, tier3_candidates-SelectedFrom}
use biei.Dispatch.Decide.{
  materialize_candidates, first_tier, Dispatcher, Outside, InternalTask, Decision, decide_view,
  reject_no_capacity, state_satisfies,
}
use biei.Dispatch.Decide.Loops.{IsLoopless, decide_view-IsLoopless}
use biei.Dispatch.Decide.Rejects.{decide_view-reject}

-- The reference vectors of the repository's own test.
splitmix64_vectors :
    (splitmix64_finalize 0 ≡ 0)
    × (splitmix64_finalize 1 ≡ 0x5692161d100b05e5)
    × (splitmix64_finalize 0xdeadbeef ≡ 0x4e062702ec929eea)
    × (splitmix64_finalize 0xffffffffffffffff ≡ 0xb4d055fcf2cbbd7b)
unfolding splitmix64_finalize
splitmix64_vectors = (refl, refl, refl, refl)

abbrev streets : WorkerProfile
streets = record {
  style = record { id = "demo/streets"; version = 3 };
  render_mode = tile_image;
  scale = x1;
}

abbrev outdoors : WorkerProfile
outdoors = record {
  style = record { id = "demo/outdoors"; version = 1 };
  render_mode = static_image;
  scale = x2;
}

abbrev worker : ℕ → Option WorkerProfile → ℕ → WorkerView
worker id loaded depth = record { id = id; loaded_profile = loaded; queue_depth = depth }

abbrev node_a : NodeStateView
node_a = record { id = "a"; accepts_new_renders = true; workers = worker 0 (some streets) 1 ∷ [] }

abbrev node_b : NodeStateView
node_b = record { id = "b"; accepts_new_renders = true; workers = worker 0 (some outdoors) 8 ∷ [] }

abbrev view : DispatchView
view =
    new_view (record { members = "a" ∷ "b" ∷ []; states = ("a", node_a) ∷ ("b", node_b) ∷ [] })
      (some node_b)

abbrev zero_draws : Generator
zero_draws = record { first_draw = λ seed bound. 0; second_draw = λ seed bound. 0 }

zero_draws-IsGenerator : IsGenerator zero_draws
zero_draws-IsGenerator = record {
  first_below = λ seed bound h. h;
  second_below = λ seed bound h. h;
}

abbrev env : Outside
env = record {
  rng = zero_draws;
  as_bytes = λ s. if eqb s "a" then 97 ∷ [] else 98 ∷ [];
  compare_ids =
      λ s t. if eqb s t then Ordering.eq else if eqb s "a" then Ordering.lt else Ordering.gt;
  instant_max = 1000000;
}

abbrev range : CostRange
range = record { least = 10; most = 30 }

abbrev costs : CostConfig
costs = record {
  style_setup_cost = range;
  render_cpu_cost = range;
  render_resource_cost = range;
  first_render_resource_cost = range;
  sla = 500;
}

abbrev dispatcher : Dispatcher
dispatcher = record {
  node_id = "b";
  tier1_strategy = weighted_random;
  tier3_enabled = true;
  drain_max_queue = 3;
  costs = costs;
  bl_capacity = 6;
  queue_capacity = 8;
  seed = 7;
}

abbrev task : InternalTask
task = record { id = 1; profile = streets; arrived_at = 100; forwarding_hops = 0 }

top_hrw_candidates-IsRanking_example :
    (ranked : List (ℕ × String)) × IsRanking
      (entries_of (λ id. if eqb id "b" then 9 else 4) (filter (λ _. true) ("a" ∷ "b" ∷ [])))
      ranked
    × (top_hrw_candidates (λ id. if eqb id "b" then 9 else 4) ("a" ∷ "b" ∷ []) 2 (λ _. true)
        ≡ map (λ entry. candidate_for entry.1) (take 2 ranked))
top_hrw_candidates-IsRanking_example =
    top_hrw_candidates-IsRanking (λ id. if eqb id "b" then 9 else 4) ("a" ∷ "b" ∷ []) 2 (λ _. true)

heavier_first :
    top_hrw_candidates (λ id. if eqb id "b" then 9 else 4) ("a" ∷ "b" ∷ []) 2 (λ _. true)
    ≡ candidate_for "b" ∷ candidate_for "a" ∷ []
unfolding top_hrw_candidates top_loop offer insert_position
heavier_first = refl

-- A node of the cluster, by its name.
abbrev IsKnown : NodeStateView → Type 0
IsKnown node = (node.id ≡ "a") ⊎ (node.id ≡ "b")

states-IsKnown : All IsKnown (states view)
states-IsKnown = (inl refl, (inr refl, tt))

select_warm_target-IsWarmNode_example :
    (All (λ node. is_warm_node streets 6 node ≡ false) (states view)
      × (select_warm_target zero_draws power_of_two 7 (keep_warm streets 6 (states view))
          ≡ no_target))
    ⊎ TargetOf
        (λ node. IsKnown node × IsWarmNode streets 6 node)
        (select_warm_target zero_draws power_of_two 7 (keep_warm streets 6 (states view)))
select_warm_target-IsWarmNode_example =
    select_warm_target-IsWarmNode IsKnown zero_draws power_of_two 7 streets 6 (states view)
      zero_draws-IsGenerator states-IsKnown

costs-IsModest : IsModest costs
costs-IsModest = record { warm = omega arith; first = omega arith }

decide_view-IsLoopless_example :
    (decision : Decision) × (decide_view env dispatcher view task 120 ≡ some decision)
    × IsLoopless "b" 0 decision
decide_view-IsLoopless_example =
    decide_view-IsLoopless env dispatcher view task 120 zero_draws-IsGenerator costs-IsModest

abbrev OnKnown : String × WorkerView → Type 0
OnKnown c = (c.0 ≡ "a") ⊎ (c.0 ≡ "b")

workers-OnKnown : AllWorkers OnKnown (state_entries view)
workers-OnKnown = (λ _. (inl refl, tt), (λ _. (inr refl, tt), tt))

-- The worker of the first node is done at 120 + 1 * 40 + 40.
drained :
    tier3_candidates env.compare_ids 1000000 costs 3 view outdoors 100 120 2
    ≡ some (record { node_id = "a"; drain_worker = some 0 } ∷ [])
unfolding tier3_candidates select_timely sort_by insert_by note_nodes note_workers
    estimate_drain_eta mid compare_candidates tier3_sort_key
drained = refl

tier3_candidates-SelectedFrom_example :
    All
      (SelectedFrom (IsDrained OnKnown 3 outdoors) (λ w.
        is_timely 1000000 120
          (checked_instant 1000000 100 500)
          (estimate_drain_eta costs w outdoors)))
      (record { node_id = "a"; drain_worker = some 0 } ∷ [])
    × (1 ≤ 2)
tier3_candidates-SelectedFrom_example =
    tier3_candidates-SelectedFrom OnKnown env.compare_ids 1000000 costs 3 view outdoors 100 120 2
      (record { node_id = "a"; drain_worker = some 0 } ∷ []) (omega arith) workers-OnKnown drained

-- A cluster of one full node.
abbrev full_view : DispatchView
full_view = new_view (record { members = "b" ∷ []; states = ("b", node_b) ∷ [] }) none

full_view_rejects : decide_view env dispatcher full_view task 120 ≡ some reject_no_capacity
unfolding decide_view select_warm_target choose_weighted total_weight keep_warm warm_candidate
    scan_workers materialize_candidates first_tier top_hrw_candidates top_loop tier3_candidates
    select_timely sort_by note_nodes note_workers
full_view_rejects = refl

decide_view-reject_example :
    All (λ id. state_satisfies full_view (λ n. has_admission_capacity n 8) id ≡ false) ("b" ∷ [])
decide_view-reject_example =
    decide_view-reject env dispatcher full_view task 120 zero_draws-IsGenerator full_view_rejects
