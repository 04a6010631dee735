-- ===== src/Dispatch/View.antt =====
-- What a node knows of the cluster: `WorkerView`, `NodeStateView` and `ClusterView` of
-- crates/biei-core/src/types.rs, and `DispatchView` of dispatcher.rs. A `HashMap` is the list of
-- its pairs in the order of its iteration.
use Prim.Native.String.{String}
use biei.Prelude.{
  any, ℕ, Bool, not, ◌&&◌, List, [], ◌∷◌, ◌++◌, map, Option, none, some, if◌then◌else◌, ltb, filter,
  eqb, contains, lookup, string_Eq,
}
use biei.Workers.Profile.{WorkerProfile}

pub record WorkerView : Type 0 where
  pub id : ℕ
  pub loaded_profile : Option WorkerProfile
  pub queue_depth : ℕ

pub record NodeStateView : Type 0 where
  pub id : String
  pub accepts_new_renders : Bool
  pub workers : List WorkerView

abbrev pub has_capacity : NodeStateView → ℕ → Bool
has_capacity node bl_capacity =
    node.accepts_new_renders && any (λ w. ltb w.queue_depth bl_capacity) node.workers

abbrev pub has_admission_capacity : NodeStateView → ℕ → Bool
has_admission_capacity node queue_capacity =
    node.accepts_new_renders && any (λ w. ltb w.queue_depth queue_capacity) node.workers

pub record ClusterView : Type 0 where
  pub members : List String
  pub states : List (String × NodeStateView)

pub record DispatchView : Type 0 where
  pub cluster : ClusterView
  pub local : Option NodeStateView

-- `DispatchView::new`: the local state counts only for a member.
abbrev pub new_view : ClusterView → Option NodeStateView → DispatchView
new_view cluster none = record { cluster = cluster; local = none }
new_view cluster (some state) = record {
  cluster = cluster;
  local = if contains state.id cluster.members then some state else none;
}

-- `DispatchView::state`.
abbrev pub state_of : DispatchView → String → Option NodeStateView
state_of view id = elim view.local [
  | none ↦ lookup id view.cluster.states
  | some state ↦ if eqb state.id id then some state else lookup id view.cluster.states
]

-- `DispatchView::state_entries`: the local state stands in for that of the cluster.
abbrev pub state_entries : DispatchView → List (String × NodeStateView)
state_entries view = elim view.local [
  | none ↦ view.cluster.states
  | some state ↦
      filter (λ entry. not (eqb state.id entry.0)) view.cluster.states ++ ((state.id, state) ∷ [])
]

-- `DispatchView::states`.
abbrev pub states : DispatchView → List NodeStateView
states view = map (λ entry. entry.1) (state_entries view)

pub record ForwardCandidate : Type 0 where
  pub node_id : String
  pub drain_worker : Option ℕ
