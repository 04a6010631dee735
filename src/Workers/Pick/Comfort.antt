-- ===== src/Workers/Pick/Comfort.antt =====
-- What the order of the tiers in crates/biei-core/src/worker_pool.rs means for the worker that is
-- picked.
use Prim.Native.Nat.{compare, Ordering}
use biei.Prelude.{
  ℕ, ◌<◌, ◌≤◌, ◌≡◌, ◌≢◌, refl, ap, List, Option, none, some, Bool, true, false, inl, inr, ◌⊎◌, ◌==◌,
  ltb, if◌then◌else◌, eqb, eqb→eq, eqb_refl, item, arith, ltb→lt, lt→ltb, Bool-cases,
  then_by-not_gt,
}
use biei.Workers.Profile.{WorkerProfile, profile_Eq}
use biei.Workers.Pick.{
  PickTier, warm_comfort, fresh, warm_full, alloc_swap_idle, warm_overflow, warm_saturated,
  shortest_queue, tier_rank, PickScore, compare_score, PickContext, expand_threshold, pick_tier,
  score_of, pick_score, best_available_worker,
}
use biei.Workers.Pick.Least.{AtMost, HasRoom, best_available_worker-AtMost}

rank_at_most : (m n : ℕ) → compare m n ≢ Ordering.gt → m ≤ n
rank_at_most m n h = grind arith

AtMost-tier : (a b : PickScore) → AtMost a b → tier_rank a.tier ≤ tier_rank b.tier
unfolding compare_score
AtMost-tier a b h =
    rank_at_most (tier_rank a.tier) (tier_rank b.tier)
      (then_by-not_gt (compare (tier_rank a.tier) (tier_rank b.tier)) _ h)

score_of_tier :
    (ctx : PickContext) (idx : ℕ) (loaded : Option WorkerProfile) (tier : PickTier) (depth : ℕ)
    → (score_of ctx idx loaded tier depth).tier ≡ tier
unfolding score_of
score_of_tier ctx idx none tier depth = refl
score_of_tier ctx idx (some profile) warm_comfort depth = refl
score_of_tier ctx idx (some profile) fresh depth = refl
score_of_tier ctx idx (some profile) warm_full depth = refl
score_of_tier ctx idx (some profile) alloc_swap_idle depth = refl
score_of_tier ctx idx (some profile) warm_overflow depth = refl
score_of_tier ctx idx (some profile) warm_saturated depth = refl
score_of_tier ctx idx (some profile) shortest_queue depth = refl

-- A worker has the profile of the task loaded, and a queue below the first threshold.
abbrev pub IsComfortable : PickContext → Option WorkerProfile → ℕ → Type 0
IsComfortable ctx loaded depth =
    (loaded ≡ some ctx.incoming_profile) × (depth < expand_threshold ctx.bl_capacity)

comfortable_tier :
    (ctx : PickContext) (loaded : Option WorkerProfile) (depth : ℕ)
    → IsComfortable ctx loaded depth
    → pick_tier ctx loaded depth ≡ warm_comfort
unfolding pick_tier
comfortable_tier ctx loaded depth (warm, short) =
    let below = lt→ltb depth (expand_threshold ctx.bl_capacity) short in
    rw (warm, eqb_refl ctx.incoming_profile, below) refl

warm_rank :
    (below_soft below_hard : Bool)
    → tier_rank
        (if below_soft then warm_full else (if below_hard then warm_overflow else warm_saturated))
      ≤ 1
    → ⊥
warm_rank true b h = omega arith
warm_rank false true h = omega arith
warm_rank false false h = omega arith

cold_rank : (idle : Bool) → tier_rank (if idle then alloc_swap_idle else shortest_queue) ≤ 1 → ⊥
cold_rank true h = omega arith
cold_rank false h = omega arith

-- The first two tiers have no other members.
tier-IsComfortable :
    (ctx : PickContext) (loaded : Option WorkerProfile) (depth : ℕ)
    → tier_rank (pick_tier ctx loaded depth) ≤ 1
    → (IsComfortable ctx loaded depth × (pick_tier ctx loaded depth ≡ warm_comfort))
      ⊎ (loaded ≡ none)
unfolding pick_tier
tier-IsComfortable ctx none depth h = inr refl
tier-IsComfortable ctx (some profile) depth h =
    elim (Bool-cases (eqb profile ctx.incoming_profile)) [
      | inl warm ↦ elim (Bool-cases (ltb depth (expand_threshold ctx.bl_capacity))) [
        | inl short ↦ inl (
          (
            ap (λ (p : WorkerProfile). some p) (eqb→eq profile ctx.incoming_profile warm),
            ltb→lt _ _ short,
          ),
          rw (warm, short) refl,
        )
        | inr long ↦ absurd (
            warm_rank (ltb depth ctx.bl_capacity) (ltb depth ctx.queue_capacity)
              (rw (warm, long) at h))
      ]
      | inr other ↦ absurd (cold_rank (depth == 0) (rw other at h))
    ]

fresh_tier :
    (ctx : PickContext) (loaded : Option WorkerProfile) (depth : ℕ)
    → loaded ≡ none
    → pick_tier ctx loaded depth ≡ fresh
unfolding pick_tier
fresh_tier ctx loaded depth empty = rw empty refl

fresh_rank :
    (ctx : PickContext) (loaded : Option WorkerProfile) (depth : ℕ)
    → loaded ≡ none
    → tier_rank (pick_tier ctx loaded depth) ≤ 0
    → ⊥
fresh_rank ctx loaded depth empty h =
    let one : 1 ≤ 0 = rw (fresh_tier ctx loaded depth empty) at h in absurd (omega arith)

-- `best_available_worker` prefers what the pool means it to. A worker with the profile of the task
-- and a queue below two thirds of the soft limit (below 1 for small limits) is picked when there is
-- one. When there is none but a worker with nothing loaded has room, the one that is picked has
-- nothing loaded.
pub best_available_worker-IsComfortable :
    (ctx : PickContext) (queue_depths : List ℕ) (idx j other : ℕ)
    → best_available_worker ctx queue_depths ≡ some idx
    → HasRoom ctx queue_depths j other
    → (depth : ℕ) × HasRoom ctx queue_depths idx depth
      × (IsComfortable ctx (item none ctx.state.loaded j) other
          → IsComfortable ctx (item none ctx.state.loaded idx) depth)
      × (item none ctx.state.loaded j ≡ none
          → IsComfortable ctx (item none ctx.state.loaded idx) depth
            ⊎ (item none ctx.state.loaded idx ≡ none))
unfolding pick_score
best_available_worker-IsComfortable ctx queue_depths idx j other picked room =
    let (depth, room', least) = (best_available_worker-AtMost ctx queue_depths).1 idx picked in
    let mine = item none ctx.state.loaded idx in
    let theirs = item none ctx.state.loaded j in
    let order : tier_rank (pick_tier ctx mine depth) ≤ tier_rank (pick_tier ctx theirs other) =
      rw
        (
          score_of_tier ctx idx mine (pick_tier ctx mine depth) depth,
          score_of_tier ctx j theirs (pick_tier ctx theirs other) other,
        )
        at (AtMost-tier (pick_score ctx idx depth) (pick_score ctx j other) (least j other room)) in
    (
      depth,
      room',
      λ comfortable.
          let best : tier_rank (pick_tier ctx mine depth) ≤ 0 =
            rw (comfortable_tier ctx theirs other comfortable) at order in
          elim (tier-IsComfortable ctx mine depth (omega arith)) [
            | inl (good, _) ↦ good
            | inr empty ↦ absurd (fresh_rank ctx mine depth empty best)
          ],
      λ vacant.
          let good : tier_rank (pick_tier ctx mine depth) ≤ 1 =
            rw (fresh_tier ctx theirs other vacant) at order in
          elim (tier-IsComfortable ctx mine depth good) [
            | inl (fine, _) ↦ inl fine
            | inr empty ↦ inr empty
          ],
    )
