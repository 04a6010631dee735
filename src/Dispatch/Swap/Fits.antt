-- ===== src/Dispatch/Swap/Fits.antt =====
-- Costs for which no sum of durations in the third tier of crates/biei-core/src/dispatcher.rs
-- overflows.
use biei.Prelude.{
  ℕ, ◌+◌, ◌/◌, ◌≤◌, ◌≡◌, refl, arith, Bool, true, false, List, [], ◌∷◌, Option, none, some,
  if◌then◌else◌, leb, le→leb, eqb,
}
use Prim.Native.Nat.{Ordering}
use Prim.Native.String.{String}
use biei.Workers.Profile.{WorkerProfile, profile_Eq, option_Eq}
use biei.Dispatch.View.{WorkerView, ForwardCandidate, DispatchView}
use biei.Dispatch.Swap.{
  duration_max, CostRange, CostConfig, add_durations, mid, add_costs, saturating_add, queue_wait,
  estimate_drain_eta, is_timely, is_in_time, put_timely, select_timely, Candidates,
  tier3_candidates,
}

-- The bounds of all cost ranges together are at most the longest duration.
pub record IsModest (costs : CostConfig) : Type 0 where
  pub warm :
      costs.render_cpu_cost.least + costs.render_cpu_cost.most + costs.render_resource_cost.least
        + costs.render_resource_cost.most
      ≤ duration_max
  pub first :
      costs.render_cpu_cost.least + costs.render_cpu_cost.most
        + costs.first_render_resource_cost.least + costs.first_render_resource_cost.most
        + costs.style_setup_cost.least + costs.style_setup_cost.most
      ≤ duration_max

abbrev IsSome : {A : Type 0} → Option A → Type 0
IsSome {A} o = (a : A) × (o ≡ some a)

add_durations-IsSome : (a b : ℕ) → a + b ≤ duration_max → add_durations a b ≡ some (a + b)
add_durations-IsSome a b h = rw (le→leb (a + b) duration_max h) refl

mid-IsSome :
    (c : CostRange) → c.least + c.most ≤ duration_max → mid c ≡ some ((c.least + c.most) / 2)
unfolding mid
mid-IsSome c h = rw (add_durations-IsSome c.least c.most h) refl

own-IsSome :
    (same : Bool) (warm_p first_p s : ℕ)
    → s + first_p ≤ duration_max
    → IsSome (if same then some warm_p else add_durations s first_p)
own-IsSome true warm_p first_p s h = (warm_p, refl)
own-IsSome false warm_p first_p s h = (s + first_p, add_durations-IsSome s first_p h)

estimate_drain_eta-IsSome :
    (costs : CostConfig) (w : WorkerView) (profile : WorkerProfile)
    → IsModest costs
    → IsSome (estimate_drain_eta costs w profile)
unfolding estimate_drain_eta
estimate_drain_eta-IsSome costs w profile h =
    let warm = add_costs costs.render_cpu_cost costs.render_resource_cost in
    let first = add_costs costs.render_cpu_cost costs.first_render_resource_cost in
    let setup = costs.style_setup_cost in
    let first_p = (first.least + first.most) / 2 in
    let s = (setup.least + setup.most) / 2 in
    let m1 = mid-IsSome warm (omega (arith, h.warm)) in
    let m2 = mid-IsSome first (omega (arith, h.first)) in
    let m3 = mid-IsSome setup (omega (arith, h.first)) in
    let m4 = add_durations-IsSome first_p s (omega (arith, h.first)) in
    let (own, m5) =
      own-IsSome (eqb w.loaded_profile (some profile)) ((warm.least + warm.most) / 2) first_p s
        (omega (arith, h.first)) in
    (
      saturating_add (queue_wait (first_p + s) w.queue_depth) own,
      rw (estimate_drain_eta, m1, m2, m3, m4, m5) refl,
    )

put_timely-IsSome :
    (timely : Option Bool) (full : Bool) (c : ForwardCandidate)
    (more others : Option (List ForwardCandidate))
    → IsSome timely
    → IsSome more
    → IsSome others
    → IsSome (put_timely timely full c more others)
put_timely-IsSome none full c more others (_, h) m o = absurd (cc)
put_timely-IsSome (some false) full c more others t m o = o
put_timely-IsSome (some true) true c more others t m o = (c ∷ [], refl)
put_timely-IsSome (some true) false c none others t (_, h) o = absurd (cc)
put_timely-IsSome (some true) false c (some rest) others t m o = (c ∷ rest, refl)

select_timely-IsSome :
    (in_time : WorkerView → Option Bool)
    → ((w : WorkerView) → IsSome (in_time w))
    → (limit selected : ℕ) (candidates : Candidates)
    → IsSome (select_timely in_time limit selected candidates)
unfolding select_timely
select_timely-IsSome in_time h limit selected [] = ([], refl)
select_timely-IsSome in_time h limit selected ((nid, w) ∷ candidates) =
    put_timely-IsSome (in_time w) (leb limit (selected + 1)) _ _ _ (h w)
      (select_timely-IsSome in_time h limit (selected + 1) candidates)
      (select_timely-IsSome in_time h limit selected candidates)

is_timely-IsSome :
    (instant_max now : ℕ) (deadline eta : Option ℕ)
    → IsSome eta
    → IsSome (is_timely instant_max now deadline eta)
is_timely-IsSome instant_max now deadline none (_, h) = absurd (cc)
is_timely-IsSome instant_max now deadline (some eta) h =
    (is_in_time instant_max now deadline eta, refl)

pub tier3_candidates-IsSome :
    (compare_ids : String → String → Ordering) (instant_max : ℕ) (costs : CostConfig)
    (drain_max : ℕ) (view : DispatchView) (profile : WorkerProfile) (arrived_at now limit : ℕ)
    → IsModest costs
    → (selected : List ForwardCandidate) × (tier3_candidates compare_ids instant_max costs drain_max
          view profile arrived_at now limit
        ≡ some selected)
unfolding tier3_candidates
tier3_candidates-IsSome compare_ids instant_max costs drain_max view profile arrived_at now limit
      h =
    select_timely-IsSome _
      (λ w.
        is_timely-IsSome instant_max now _ (estimate_drain_eta costs w profile)
          (estimate_drain_eta-IsSome costs w profile h))
      limit 0 _
