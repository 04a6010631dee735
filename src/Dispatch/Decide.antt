-- ===== src/Dispatch/Decide.antt =====
-- `decide_view` and `materialize_candidates` of crates/biei-core/src/dispatcher.rs: the four tiers
-- in their order, and what a node makes of the candidates.
pub mod Loops
pub mod Rejects
use Prim.Native.Nat.{Ordering}
use Prim.Native.String.{String}
use biei.Prelude.{
  ℕ, zero, suc, ◌+◌, Bool, true, false, not, ◌&&◌, List, [], ◌∷◌, ◌++◌, take, filter, Option, none,
  some, if◌then◌else◌, leb, eqb, string_Eq,
}
use biei.Workers.Profile.{WorkerProfile}
use biei.Dispatch.Hrw.{hrw_weight}
use biei.Dispatch.View.{
  NodeStateView, has_capacity, has_admission_capacity, DispatchView, state_of, ForwardCandidate,
}
use biei.Dispatch.TopHrw.{top_hrw_candidates, candidate_for}
use biei.Dispatch.Warm.{
  Generator, Tier1Strategy, routing_seed, WarmTarget, no_target, panicked, target, warm_candidates,
  select_warm_target,
}
use biei.Dispatch.Swap.{CostConfig, tier3_candidates}

-- `Dispatcher`.
pub record Dispatcher : Type 0 where
  pub node_id : String
  pub tier1_strategy : Tier1Strategy
  pub tier3_enabled : Bool
  pub drain_max_queue : ℕ
  pub costs : CostConfig
  pub bl_capacity : ℕ
  pub queue_capacity : ℕ
  pub seed : ℕ

-- What the code takes from outside: the generator, the bytes and the order of strings, and the last
-- instant.
pub record Outside : Type 0 where
  pub rng : Generator
  pub as_bytes : String → List ℕ
  pub compare_ids : String → String → Ordering
  pub instant_max : ℕ

-- The fields of `InternalTask` that a decision reads.
pub record InternalTask : Type 0 where
  pub id : ℕ
  pub profile : WorkerProfile
  pub arrived_at : ℕ
  pub forwarding_hops : ℕ

pub data RouteTier : Type 0 where
  tier1_warm_tracking tier2_hrw_bl tier3_drain_swap tier4_overflow : RouteTier

pub data Decision : Type 0 where
  render_local : RouteTier → Option ℕ → List ForwardCandidate → Decision
  forward : RouteTier → List ForwardCandidate → Decision
  reject_no_capacity : Decision

abbrev pub default_forward_candidates : ℕ
default_forward_candidates = 2

-- `filter(|candidate| candidate.node_id != self.node_id)`.
abbrev pub others : String → List ForwardCandidate → List ForwardCandidate
others node_id = filter (λ candidate. not (eqb candidate.node_id node_id))

-- `materialize_candidates`.
unfoldable pub materialize_candidates : String → ℕ → RouteTier → List ForwardCandidate → Decision
materialize_candidates node_id hops tier [] = reject_no_capacity
materialize_candidates node_id hops tier (first ∷ rest) =
    if eqb first.node_id node_id
    then render_local tier first.drain_worker (if leb 1 hops then [] else others node_id rest)
    else if leb 1 hops
    then render_local tier none []
    else forward tier (others node_id (first ∷ rest))

-- The eligibility of a member by its state; a member without one is not eligible.
abbrev pub state_satisfies : DispatchView → (NodeStateView → Bool) → String → Bool
state_satisfies view p id = elim (state_of view id) [ none ↦ false | some node ↦ p node ]

-- `top_hrw_candidates` over the members of the view.
abbrev pub ranked : Outside → DispatchView → WorkerProfile → (String → Bool) → List ForwardCandidate
ranked env view profile eligible =
    top_hrw_candidates (hrw_weight env.as_bytes profile) view.cluster.members
      default_forward_candidates eligible

-- The first tier: the target, and one fallback behind it.
abbrev pub tier1 :
    Outside → Dispatcher → DispatchView → WorkerProfile → NodeStateView → List ForwardCandidate
tier1 env d view profile node =
    candidate_for node.id
    ∷ take 1 (
        ranked env view profile (λ id.
          not (eqb id node.id) && state_satisfies view (λ n. has_capacity n d.bl_capacity) id))

abbrev pub tier2 : Outside → Dispatcher → DispatchView → WorkerProfile → List ForwardCandidate
tier2 env d view profile =
    ranked env view profile (state_satisfies view (λ n. has_capacity n d.bl_capacity))

abbrev pub tier3 :
    Outside → Dispatcher → DispatchView → InternalTask → ℕ → Option (List ForwardCandidate)
tier3 env d view task now =
    if d.tier3_enabled
    then tier3_candidates env.compare_ids env.instant_max d.costs d.drain_max_queue view
        task.profile task.arrived_at now default_forward_candidates
    else some []

abbrev pub tier4 : Outside → Dispatcher → DispatchView → WorkerProfile → List ForwardCandidate
tier4 env d view profile =
    ranked env view profile (state_satisfies view (λ n. has_admission_capacity n d.queue_capacity))

-- The first tier of these that has candidates.
unfoldable pub first_tier :
    List (RouteTier × List ForwardCandidate) → RouteTier × List ForwardCandidate
first_tier [] = (tier4_overflow, [])
first_tier ((tier, []) ∷ tiers) = first_tier tiers
first_tier ((tier, c ∷ cs) ∷ tiers) = (tier, c ∷ cs)

abbrev pub materialize : Dispatcher → InternalTask → RouteTier × List ForwardCandidate → Decision
materialize d task tier = materialize_candidates d.node_id task.forwarding_hops tier.0 tier.1

-- The second tier if it has candidates, and else the third one, which may panic, and the fourth.
abbrev pub after_tier2 :
    List ForwardCandidate
    → Option (List ForwardCandidate)
    → List ForwardCandidate
    → Option (RouteTier × List ForwardCandidate)
after_tier2 (c ∷ cs) third fourth = some (tier2_hrw_bl, c ∷ cs)
after_tier2 [] none fourth = none
after_tier2 [] (some third) fourth =
    some (first_tier ((tier3_drain_swap, third) ∷ ((tier4_overflow, fourth) ∷ [])))

-- The tier that is taken when there is no warm target.
abbrev pub later_tiers :
    Outside
    → Dispatcher
    → DispatchView
    → InternalTask
    → ℕ
    → Option (RouteTier × List ForwardCandidate)
later_tiers env d view task now =
    after_tier2 (tier2 env d view task.profile) (tier3 env d view task now)
      (tier4 env d view task.profile)

abbrev pub materialize_later :
    Dispatcher → InternalTask → Option (RouteTier × List ForwardCandidate) → Option Decision
materialize_later d task none = none
materialize_later d task (some tier) = some (materialize d task tier)

-- `decide_view` at the time `now`; `none` is a panic.
unfoldable pub decide_view :
    Outside → Dispatcher → DispatchView → InternalTask → ℕ → Option Decision
decide_view env d view task now =
    elim (select_warm_target env.rng d.tier1_strategy (routing_seed d.seed task.id)
      (warm_candidates view task.profile d.bl_capacity)) [
        | panicked ↦ none
        | target node ↦
            some (materialize d task (tier1_warm_tracking, tier1 env d view task.profile node))
        | no_target ↦ materialize_later d task (later_tiers env d view task now)
      ]
