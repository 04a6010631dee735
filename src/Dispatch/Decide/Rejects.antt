-- ===== src/Dispatch/Decide/Rejects.antt =====
-- A decision of crates/biei-core/src/dispatcher.rs rejects a task only when the cluster is full.
use Prim.Native.String.{String}
use biei.Prelude.{
  ℕ, ◌≡◌, ◌≢◌, refl, sym, ap, ◌∙◌, Bool, true, false, inl, inr, List, [], ◌∷◌, filter, map, take,
  Option, none, some, if◌then◌else◌, leb, eqb, string_Eq, All, Bool-cases, Option-cases, ==_refl,
}
use biei.Dispatch.View.{DispatchView, has_admission_capacity, ForwardCandidate}
use biei.Dispatch.TopHrw.{top_hrw_candidates}
use biei.Dispatch.TopHrw.Ranked.{entries_of, of_weight}
use biei.Dispatch.TopHrw.Stable.{top_hrw_candidates-IsRanking}
use biei.Dispatch.Warm.{IsGenerator}
use biei.Dispatch.Decide.{
  Dispatcher, Outside, InternalTask, RouteTier, render_local, forward, reject_no_capacity, others,
  materialize_candidates, materialize, first_tier, decide_view, later_tiers, tier1, state_satisfies,
  tier1_warm_tracking, after_tier2, materialize_later, tier3_drain_swap, tier4_overflow,
}
use biei.Dispatch.Decide.Loops.{decide_view-cases}

cons_ne_nil {ℓ} : {A : Type ℓ} (x : A) (xs : List A) → (x ∷ xs) ≢ []
cons_ne_nil x xs h = cc

local_or_forward :
    (mine again : Bool) (tier : RouteTier) (hint : Option ℕ) (fallback cs : List ForwardCandidate)
    → (if mine
        then render_local tier hint fallback
        else if again
        then render_local tier none []
        else forward tier cs)
      ≢ reject_no_capacity
local_or_forward true again tier hint fallback cs h = cc
local_or_forward false true tier hint fallback cs h = cc
local_or_forward false false tier hint fallback cs h = cc

materialize-reject :
    (node_id : String) (hops : ℕ) (tier : RouteTier) (candidates : List ForwardCandidate)
    → materialize_candidates node_id hops tier candidates ≡ reject_no_capacity
    → candidates ≡ []
unfolding materialize_candidates
materialize-reject node_id hops tier [] h = refl
materialize-reject node_id hops tier (c ∷ cs) h = absurd (
    local_or_forward (eqb c.node_id node_id) (leb 1 hops) tier c.drain_worker
      (if leb 1 hops then [] else others node_id cs) (others node_id (c ∷ cs)) h)

first_tier-last :
    (a b : RouteTier × List ForwardCandidate) → (first_tier (a ∷ (b ∷ []))).1 ≡ [] → b.1 ≡ []
unfolding first_tier
first_tier-last (a, []) (b, []) h = refl
first_tier-last (a, []) (b, x ∷ xs) h = h
first_tier-last (a, x ∷ xs) b h = absurd (cc)

after_tier2-last :
    (second fourth : List ForwardCandidate) (third : Option (List ForwardCandidate))
    (tier : RouteTier × List ForwardCandidate)
    → after_tier2 second third fourth ≡ some tier
    → tier.1 ≡ []
    → fourth ≡ []
after_tier2-last (c ∷ cs) fourth third (t, candidates) e h =
    let same : candidates ≡ c ∷ cs = cc in absurd (cc (same, h))
after_tier2-last [] fourth none tier e h = absurd (cc)
after_tier2-last [] fourth (some third) tier e h =
    let last = first_tier ((tier3_drain_swap, third) ∷ ((tier4_overflow, fourth) ∷ [])) in
    let same : last ≡ tier = cc in
    first_tier-last (tier3_drain_swap, third) (tier4_overflow, fourth)
      (ap (λ (x : RouteTier × List ForwardCandidate). x.1) same ∙ h)

take-empty : (xs : List (ℕ × String)) → take 2 xs ≡ [] → xs ≡ []
take-empty [] h = refl
take-empty (x ∷ xs) h = absurd (cc)

map-empty {ℓ κ} : {A : Type ℓ} {B : Type κ} (f : A → B) (xs : List A) → map f xs ≡ [] → xs ≡ []
map-empty f [] h = refl
map-empty f (x ∷ xs) h = absurd (cc)

-- No candidate among the first means no eligible member.
no_entries :
    (weight : String → ℕ) (members : List String)
    → ((w : ℕ) → of_weight w (entries_of weight members) ≡ [])
    → members ≡ []
no_entries weight [] h = refl
no_entries weight (id ∷ members) h = absurd (
    cons_ne_nil {A = ℕ × String} (weight id, id) (of_weight (weight id) (entries_of weight members))
      (rw (==_refl (weight id)) at (h (weight id))))

top_hrw_candidates-none :
    (weight : String → ℕ) (members : List String) (eligible : String → Bool)
    → top_hrw_candidates weight members 2 eligible ≡ []
    → filter eligible members ≡ []
top_hrw_candidates-none weight members eligible h =
    let (ranked, sorted, e) = top_hrw_candidates-IsRanking weight members 2 eligible in
    let empty : ranked ≡ [] = take-empty ranked (map-empty _ (take 2 ranked) (sym e ∙ h)) in
    no_entries weight (filter eligible members)
      (λ w. sym (sorted.stable w) ∙ ap (of_weight w) empty)

filter-none : (p : String → Bool) (xs : List String) → filter p xs ≡ [] → All (λ x. p x ≡ false) xs
filter-none p [] h = tt
filter-none p (x ∷ xs) h = elim (Bool-cases (p x)) [
  | inl t ↦ absurd (cons_ne_nil x (filter p xs) (rw t at h))
  | inr f ↦ (f, filter-none p xs (rw f at h))
]

-- When the generator draws from the ranges it is given, `decide_view` rejects a task only when no
-- member with a known state accepts renders and has a worker below the hard limit.
pub decide_view-reject :
    (env : Outside) (d : Dispatcher) (view : DispatchView) (task : InternalTask) (now : ℕ)
    → IsGenerator env.rng
    → decide_view env d view task now ≡ some reject_no_capacity
    → All
        (λ id. state_satisfies view (λ n. has_admission_capacity n d.queue_capacity) id ≡ false)
        view.cluster.members
decide_view-reject env d view task now g h = elim (decide_view-cases env d view task now g) [
  | inl e ↦ elim (Option-cases (later_tiers env d view task now)) [
    | inl panics ↦
        let gone : materialize_later d task (later_tiers env d view task now) ≡ none =
          ap (materialize_later d task) panics in
        absurd (cc (gone, e, h))
    | inr (tier, taken) ↦
        let made : materialize_later d task (later_tiers env d view task now)
            ≡ some (materialize d task tier) =
          ap (materialize_later d task) taken in
        let rejected : materialize d task tier ≡ reject_no_capacity = cc in
        let none_left = materialize-reject d.node_id task.forwarding_hops _ _ rejected in
        filter-none _ view.cluster.members
          (top_hrw_candidates-none _ _ _ (after_tier2-last _ _ _ tier taken none_left))
  ]
  | inr (node, e) ↦
      let rejected : materialize d task (tier1_warm_tracking, tier1 env d view task.profile node)
          ≡ reject_no_capacity =
        cc in
      let none_left = materialize-reject d.node_id task.forwarding_hops _ _ rejected in absurd (cc)
]
