-- ===== src/Dispatch/Swap.antt =====
-- The third tier of crates/biei-core/src/dispatcher.rs: `tier3_candidates_view`, which picks workers
-- to drain and swap, with `estimate_drain_eta`. Times are in nanoseconds. A `none` is the panic of
-- `+` on durations that overflow.
pub mod Drain
pub mod Fits
use Prim.Native.Nat.{compare, Ordering}
use Prim.Native.String.{String}
use biei.Prelude.{
  ℕ, zero, suc, ◌+◌, ◌-◌, ◌*◌, ◌/◌, ◌^◌, ◌%◌, min, Bool, true, false, not, ◌&&◌, ◌||◌, List, [],
  ◌∷◌, ◌++◌, Option, none, some, if◌then◌else◌, ltb, leb, eqb, lookup, then_by,
}
use biei.Workers.Profile.{WorkerProfile, profile_Eq, option_Eq}
use biei.Workers.State.{increment_profile_count}
use biei.Workers.Pick.{shape_differs, bool_rank, is_greater}
use biei.Dispatch.View.{WorkerView, NodeStateView, ForwardCandidate, DispatchView, state_entries}

-- `Duration::MAX`.
abbrev pub duration_max : ℕ
duration_max = 2 ^ 64 * 10 ^ 9 - 1

pub record CostRange : Type 0 where
  pub least : ℕ
  pub most : ℕ

-- `+` on durations.
abbrev pub add_durations : ℕ → ℕ → Option ℕ
add_durations a b = if leb (a + b) duration_max then some (a + b) else none

abbrev pub and_then : {A B : Type 0} → Option A → (A → Option B) → Option B
and_then none rest = none
and_then (some a) rest = rest a

-- `CostRange::mid`.
unfoldable pub mid : CostRange → Option ℕ
mid c = and_then (add_durations c.least c.most) (λ total. some (total / 2))

abbrev pub saturating_add : ℕ → ℕ → ℕ
saturating_add a b = min (a + b) duration_max

-- `CostRange::saturating_add`.
abbrev pub add_costs : CostRange → CostRange → CostRange
add_costs a b = record {
  least = saturating_add a.least b.least;
  most = saturating_add a.most b.most;
}

pub record CostConfig : Type 0 where
  pub style_setup_cost : CostRange
  pub render_cpu_cost : CostRange
  pub render_resource_cost : CostRange
  pub first_render_resource_cost : CostRange
  pub sla : ℕ

-- `Duration::checked_mul` with a u32, and `unwrap_or(Duration::MAX)`.
abbrev pub queue_wait : ℕ → ℕ → ℕ
queue_wait per_ahead queue_depth =
    let product = per_ahead * (queue_depth % 2 ^ 32) in
    if leb product duration_max then product else duration_max

-- `Dispatcher::estimate_drain_eta`.
unfoldable pub estimate_drain_eta : CostConfig → WorkerView → WorkerProfile → Option ℕ
estimate_drain_eta costs w task_profile =
    and_then (mid (add_costs costs.render_cpu_cost costs.render_resource_cost)) (λ warm_p.
      and_then (mid (add_costs costs.render_cpu_cost costs.first_render_resource_cost)) (λ first_p.
        and_then (mid costs.style_setup_cost) (λ s. and_then (add_durations first_p s) (λ per_ahead.
          and_then
            (if eqb w.loaded_profile (some task_profile)
              then some warm_p
              else add_durations s first_p)
            (λ own. some (saturating_add (queue_wait per_ahead w.queue_depth) own))))))

-- A worker with the node that it belongs to, and the profile counts of the cluster.
abbrev pub Candidates : Type 0
Candidates = List (String × WorkerView)

abbrev pub Counts : Type 0
Counts = List (WorkerProfile × ℕ)

-- `is_candidate`: a short queue, and not the profile of the task.
abbrev pub is_drainable : ℕ → WorkerProfile → WorkerView → Bool
is_drainable drain_max task_profile worker =
    ltb worker.queue_depth drain_max && not (eqb worker.loaded_profile (some task_profile))

-- The inner loop over the workers of a node.
unfoldable pub note_workers :
    ℕ → WorkerProfile → String → List WorkerView → Counts → Candidates → Counts × Candidates
note_workers drain_max task_profile nid [] counts candidates = (counts, candidates)
note_workers drain_max task_profile nid (worker ∷ workers) counts candidates =
    note_workers drain_max task_profile nid workers
      (elim worker.loaded_profile [
        | none ↦ counts
        | some profile ↦ increment_profile_count counts profile
      ])
      (if is_drainable drain_max task_profile worker
        then candidates ++ ((nid, worker) ∷ [])
        else candidates)

-- The outer loop over the nodes.
unfoldable pub note_nodes :
    ℕ → WorkerProfile → List (String × NodeStateView) → Counts → Candidates → Counts × Candidates
note_nodes drain_max task_profile [] counts candidates = (counts, candidates)
note_nodes drain_max task_profile ((nid, node) ∷ entries) counts candidates =
    let noted = note_workers drain_max task_profile nid node.workers counts candidates in
    note_nodes drain_max task_profile entries (if node.accepts_new_renders then noted.0 else counts)
      (if node.accepts_new_renders then noted.1 else candidates)

pub record SortKey : Type 0 where
  pub protected_singleton : Bool
  pub shape_mismatch : Bool
  pub count : ℕ

-- `tier3_sort_key`; the count is a `Reverse`.
unfoldable pub tier3_sort_key : Option WorkerProfile → WorkerProfile → Counts → SortKey
tier3_sort_key none task_profile counts = record {
  protected_singleton = false;
  shape_mismatch = true;
  count = 2 ^ 64 - 1;
}
tier3_sort_key (some profile) task_profile counts =
    let n : ℕ = elim (lookup profile counts) [ none ↦ 0 | some count ↦ count ] in
    record {
      protected_singleton = leb n 1;
      shape_mismatch = shape_differs profile task_profile;
      count = n;
    }

abbrev pub compare_keys : SortKey → SortKey → Ordering
compare_keys a b =
    then_by (compare (bool_rank a.protected_singleton) (bool_rank b.protected_singleton)) (
      then_by (compare (bool_rank a.shape_mismatch) (bool_rank b.shape_mismatch))
        (compare b.count a.count))

-- The comparison of `candidates.sort_by`; `compare_ids` is the order of strings.
unfoldable pub compare_candidates :
    (String → String → Ordering)
    → WorkerProfile
    → Counts
    → String × WorkerView
    → String × WorkerView
    → Ordering
compare_candidates compare_ids task_profile counts a b =
    then_by
      (compare_keys (tier3_sort_key a.1.loaded_profile task_profile counts)
        (tier3_sort_key b.1.loaded_profile task_profile counts))
      (then_by (compare a.1.queue_depth b.1.queue_depth)
        (then_by (compare_ids a.0 b.0) (compare a.1.id b.1.id)))

-- A stable sort, as `sort_by` is: an item goes before those that it does not exceed.
unfoldable pub insert_by {ℓ} : {A : Type ℓ} → (A → A → Ordering) → A → List A → List A
insert_by cmp a [] = a ∷ []
insert_by cmp a (x ∷ xs) = if is_greater (cmp a x) then x ∷ insert_by cmp a xs else a ∷ (x ∷ xs)

unfoldable pub sort_by {ℓ} : {A : Type ℓ} → (A → A → Ordering) → List A → List A
sort_by cmp [] = []
sort_by cmp (x ∷ xs) = insert_by cmp x (sort_by cmp xs)

-- `checked_add` on instants, the last of which is `instant_max`.
abbrev pub checked_instant : ℕ → ℕ → ℕ → Option ℕ
checked_instant instant_max t duration =
    if leb (t + duration) instant_max then some (t + duration) else none

-- The worker is estimated to be done by the deadline; no deadline is always met.
abbrev pub is_in_time : ℕ → ℕ → Option ℕ → ℕ → Bool
is_in_time instant_max now none eta = true
is_in_time instant_max now (some deadline) eta = elim (checked_instant instant_max now eta) [
  | none ↦ false
  | some done ↦ leb done deadline
]

-- The same for an estimate that may have panicked.
abbrev pub is_timely : ℕ → ℕ → Option ℕ → Option ℕ → Option Bool
is_timely instant_max now deadline none = none
is_timely instant_max now deadline (some eta) = some (is_in_time instant_max now deadline eta)

abbrev pub prepend :
    ForwardCandidate → Option (List ForwardCandidate) → Option (List ForwardCandidate)
prepend c none = none
prepend c (some rest) = some (c ∷ rest)

-- One round of the selection: `more` is the rest after a selection, `others` the rest without one.
abbrev pub put_timely :
    Option Bool
    → Bool
    → ForwardCandidate
    → Option (List ForwardCandidate)
    → Option (List ForwardCandidate)
    → Option (List ForwardCandidate)
put_timely none full c more others = none
put_timely (some false) full c more others = others
put_timely (some true) true c more others = some (c ∷ [])
put_timely (some true) false c more others = prepend c more

-- The selection: it stops when `limit` are selected.
unfoldable pub select_timely :
    (WorkerView → Option Bool) → ℕ → ℕ → Candidates → Option (List ForwardCandidate)
select_timely in_time limit selected [] = some []
select_timely in_time limit selected ((nid, w) ∷ candidates) =
    let more = select_timely in_time limit (selected + 1) candidates in
    let others = select_timely in_time limit selected candidates in
    put_timely (in_time w) (leb limit (selected + 1))
      (record { node_id = nid; drain_worker = some w.id }) more others

-- `tier3_candidates_view` at the time `now`, for a task that arrived at `arrived_at`.
unfoldable pub tier3_candidates :
    (String → String → Ordering)
    → ℕ
    → CostConfig
    → ℕ
    → DispatchView
    → WorkerProfile
    → ℕ
    → ℕ
    → ℕ
    → Option (List ForwardCandidate)
tier3_candidates compare_ids instant_max costs drain_max view task_profile arrived_at now limit =
    let noted = note_nodes drain_max task_profile (state_entries view) [] [] in
    let sorted = sort_by (compare_candidates compare_ids task_profile noted.0) noted.1 in
    let deadline = checked_instant instant_max arrived_at costs.sla in
    select_timely
      (λ w. is_timely instant_max now deadline (estimate_drain_eta costs w task_profile)) limit 0
      sorted
