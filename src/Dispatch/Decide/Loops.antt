-- ===== src/Dispatch/Decide/Loops.antt =====
-- A decision of crates/biei-core/src/dispatcher.rs never sends a task in a circle.
use Prim.Native.String.{String}
use biei.Prelude.{
  ℕ, ◌≤◌, ◌≡◌, ◌≢◌, ◌⊎◌, refl, false, inl, inr, List, [], ◌∷◌, some, leb, eqb, string_Eq, All, ap,
  ◌∙◌, Option, none, arith, Bool-cases,
}
use biei.Dispatch.View.{NodeStateView, DispatchView, states, ForwardCandidate}
use biei.Dispatch.Warm.{IsGenerator, routing_seed}
use biei.Dispatch.Warm.Nodes.{select_warm_target-IsWarmNode}
use biei.Dispatch.Swap.Fits.{IsModest, tier3_candidates-IsSome}
use biei.Dispatch.Decide.{
  Dispatcher, Outside, InternalTask, RouteTier, Decision, render_local, forward, reject_no_capacity,
  others, materialize_candidates, materialize, decide_view, later_tiers, tier1, tier1_warm_tracking,
  tier2, tier3, tier4, after_tier2, materialize_later, default_forward_candidates,
}

-- No candidate is the node itself.
abbrev pub AllOthers : String → List ForwardCandidate → Type 0
AllOthers node_id = All (λ candidate. eqb candidate.node_id node_id ≡ false)

-- A task that was forwarded once is not forwarded again, no node forwards to itself, and a
-- forwarded task has a candidate to go to.
abbrev pub IsLoopless : String → ℕ → Decision → Type 0
IsLoopless node_id hops (render_local tier hint fallback) =
    AllOthers node_id fallback × (1 ≤ hops → fallback ≡ [])
IsLoopless node_id hops (forward tier candidates) =
    AllOthers node_id candidates × (hops ≡ 0) × (candidates ≢ [])
IsLoopless node_id hops reject_no_capacity = Unit {0}

others-AllOthers :
    (node_id : String) (cs : List ForwardCandidate) → AllOthers node_id (others node_id cs)
others-AllOthers node_id [] = tt
others-AllOthers node_id (c ∷ cs) = elim (Bool-cases (eqb c.node_id node_id)) [
  | inl t ↦ rw t (others-AllOthers node_id cs)
  | inr f ↦ rw f (f, others-AllOthers node_id cs)
]

materialize_candidates-IsLoopless :
    (node_id : String) (hops : ℕ) (tier : RouteTier) (candidates : List ForwardCandidate)
    → IsLoopless node_id hops (materialize_candidates node_id hops tier candidates)
unfolding materialize_candidates
materialize_candidates-IsLoopless node_id hops tier [] = tt
materialize_candidates-IsLoopless node_id hops tier (c ∷ cs) =
    elim (Bool-cases (eqb c.node_id node_id)) [
      | inl mine ↦ elim (Bool-cases (leb 1 hops)) [
        | inl again ↦ rw (mine, again) (tt, λ _. refl)
        | inr first ↦ rw (mine, first) (others-AllOthers node_id cs, λ h. absurd (ground arith))
      ]
      | inr theirs ↦ elim (Bool-cases (leb 1 hops)) [
        | inl again ↦ rw (theirs, again) (tt, λ _. refl)
        | inr first ↦
            rw (theirs, first) ((theirs, others-AllOthers node_id cs), ground arith, λ e. cc)
      ]
    ]

All-unit : (nodes : List NodeStateView) → All (λ (n : NodeStateView). Unit {0}) nodes
All-unit [] = tt
All-unit (n ∷ nodes) = (tt, All-unit nodes)

-- What `decide_view` does with and without a warm target.
pub decide_view-cases :
    (env : Outside) (d : Dispatcher) (view : DispatchView) (task : InternalTask) (now : ℕ)
    → IsGenerator env.rng
    → (decide_view env d view task now ≡ materialize_later d task (later_tiers env d view task now))
      ⊎ ((node : NodeStateView) × (decide_view env d view task now
            ≡ some (materialize d task (tier1_warm_tracking, tier1 env d view task.profile node))))
unfolding decide_view
decide_view-cases env d view task now g =
    elim (select_warm_target-IsWarmNode (λ _. Unit {0}) env.rng d.tier1_strategy
      (routing_seed d.seed task.id) task.profile d.bl_capacity (states view) g
      (All-unit (states view))) [
        | inl (_, nothing) ↦ inl (rw (decide_view, nothing) refl)
        | inr (node, found, _) ↦ inr (node, rw (decide_view, found) refl)
      ]

after_tier2-some :
    (second third fourth : List ForwardCandidate) (o : Option (List ForwardCandidate))
    → o ≡ some third
    → (tier : RouteTier × List ForwardCandidate) × (after_tier2 second o fourth ≡ some tier)
after_tier2-some (c ∷ cs) third fourth o h = (_, refl)
after_tier2-some [] third fourth none h = absurd (cc)
after_tier2-some [] third fourth (some x) h = (_, refl)

tier3-some :
    (env : Outside) (d : Dispatcher) (view : DispatchView) (task : InternalTask) (now : ℕ)
    → IsModest d.costs
    → (third : List ForwardCandidate) × (tier3 env d view task now ≡ some third)
tier3-some env d view task now h = elim (Bool-cases d.tier3_enabled) [
  | inl t ↦
      let (third, e) =
        tier3_candidates-IsSome env.compare_ids env.instant_max d.costs d.drain_max_queue view
          task.profile task.arrived_at now default_forward_candidates h in
      (third, rw (t, e) refl)
  | inr f ↦ ([], rw f refl)
]

-- When the generator draws from the ranges it is given, and the bounds of the configured costs that
-- are added together are in sum at most the longest duration, `decide_view` does not panic. A task
-- that was forwarded before is not forwarded again, a node never forwards to itself, and there is a
-- candidate to forward to.
pub decide_view-IsLoopless :
    (env : Outside) (d : Dispatcher) (view : DispatchView) (task : InternalTask) (now : ℕ)
    → IsGenerator env.rng
    → IsModest d.costs
    → (decision : Decision) × (decide_view env d view task now ≡ some decision)
      × IsLoopless d.node_id task.forwarding_hops decision
decide_view-IsLoopless env d view task now g modest =
    elim (decide_view-cases env d view task now g) [
      | inl e ↦
          let (third, e3) = tier3-some env d view task now modest in
          let (tier, taken) =
            after_tier2-some (tier2 env d view task.profile) third (tier4 env d view task.profile)
              (tier3 env d view task now) e3 in
          (
            materialize d task tier,
            e ∙ ap (materialize_later d task) taken,
            materialize_candidates-IsLoopless d.node_id task.forwarding_hops tier.0 tier.1,
          )
      | inr (node, e) ↦
          let candidates = tier1 env d view task.profile node in
          (
            materialize d task (tier1_warm_tracking, candidates),
            e,
            materialize_candidates-IsLoopless d.node_id task.forwarding_hops tier1_warm_tracking
                candidates,
          )
    ]
