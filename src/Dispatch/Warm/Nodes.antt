-- ===== src/Dispatch/Warm/Nodes.antt =====
-- Which nodes `warm_candidate` of crates/biei-core/src/dispatcher.rs accepts, and that the target of
-- the first tier is one of them.
use biei.Prelude.{
  any, ◌+◌, ◌-◌, ◌∙◌, lt→ltb, ℕ, ◌<◌, ◌≤◌, ◌≡◌, ◌⊎◌, refl, sym, ap, Bool, true, false, ◌&&◌, ◌||◌,
  inl, inr, List, [], ◌∷◌, none, some, if◌then◌else◌, ltb, ltb→lt, length, All, arith, Bool-cases,
  Option-cases, eqb,
}
use biei.Workers.Profile.{WorkerProfile, profile_Eq, option_Eq}
use biei.Dispatch.View.{WorkerView, NodeStateView}
use biei.Dispatch.Warm.{
  WarmCandidate, scan_workers, warm_candidate, keep_warm, Generator, IsGenerator, Tier1Strategy,
  weighted_random, power_of_two, no_target, total_weight, choose_weighted, choose_of_two,
  select_warm_target,
}
use biei.Dispatch.Warm.Target.{TargetOf, AllNodes, choose_weighted-TargetOf, choose_of_two-TargetOf}

abbrev pub is_warm : WorkerProfile → WorkerView → Bool
is_warm profile worker = eqb worker.loaded_profile (some profile)

-- A warm worker below the soft limit, or one with nothing loaded.
abbrev pub is_usable : WorkerProfile → ℕ → WorkerView → Bool
is_usable profile bl worker =
    if is_warm profile worker then ltb worker.queue_depth bl else eqb worker.loaded_profile none

-- A node that accepts renders, with a worker that has the profile loaded and a usable one.
abbrev pub IsWarmNode : WorkerProfile → ℕ → NodeStateView → Type 0
IsWarmNode profile bl node =
    (node.accepts_new_renders ≡ true)
    × (any (is_warm profile) node.workers ≡ true)
    × (any (is_usable profile bl) node.workers ≡ true)

use_now :
    (warm usable below vacant later : Bool)
    → (if warm then usable || below else if vacant then true else usable) ≡ true
    → (usable ≡ true) ⊎ (((if warm then below else vacant) || later) ≡ true)
use_now true true below vacant later h = inl refl
use_now true false true vacant later h = inr refl
use_now true false false vacant later h = absurd (cc)
use_now false usable below true later h = inr refl
use_now false usable below false later h = inl h

or_true : (b : Bool) → (b || true) ≡ true
or_true true = refl
or_true false = refl

or_nothing : (b : Bool) → (b || false) ≡ b
or_nothing true = refl
or_nothing false = refl

and_nothing : (b : Bool) → (b && false) ≡ false
and_nothing true = refl
and_nothing false = refl

accepted :
    (a b c : Bool) (made found : WarmCandidate)
    → (if a && (b && c) then some made else none) ≡ some found
    → (a ≡ true) × ((b ≡ true) × (c ≡ true)) × (made ≡ found)
accepted true true true made found h = (refl, (refl, refl), cc)
accepted true true false made found h = absurd (cc)
accepted true false c made found h = absurd (cc)
accepted false b c made found h = absurd (cc)

chosen :
    (P : NodeStateView → Type 0) (rng : Generator) (strategy : Tier1Strategy) (seed : ℕ)
    (candidates : List WarmCandidate)
    → IsGenerator rng
    → AllNodes P candidates
    → length candidates ≤ total_weight candidates
    → ((candidates ≡ []) × (select_warm_target rng strategy seed candidates ≡ no_target))
      ⊎ TargetOf P (select_warm_target rng strategy seed candidates)
unfolding select_warm_target choose_weighted choose_of_two total_weight
chosen P rng weighted_random seed [] g k many = inl (refl, refl)
chosen P rng power_of_two seed [] g k many = inl (refl, refl)
chosen P rng weighted_random seed (c ∷ cs) g k many =
    inr (choose_weighted-TargetOf P rng seed (c ∷ cs) g (omega arith) k)
chosen P rng power_of_two seed (c ∷ cs) g k many = inr (choose_of_two-TargetOf P rng seed c cs g k)

scan-warm :
    (profile : WorkerProfile) (bl : ℕ) (workers : List WorkerView) (count spare : ℕ) (usable : Bool)
    → 0 < (scan_workers profile bl count spare usable workers).0
    → (0 < count) ⊎ (any (is_warm profile) workers ≡ true)
unfolding scan_workers
scan-warm profile bl [] count spare usable h = inl h
scan-warm profile bl (w ∷ ws) count spare usable h = elim (Bool-cases (is_warm profile w)) [
  | inl t ↦ inr (rw t refl)
  | inr f ↦ elim (scan-warm profile bl ws _ _ _ h) [
    | inl pos ↦ inl (rw f at pos)
    | inr later ↦ inr (rw (f, later) refl)
  ]
]

scan-usable :
    (profile : WorkerProfile) (bl : ℕ) (workers : List WorkerView) (count spare : ℕ) (usable : Bool)
    → (scan_workers profile bl count spare usable workers).2 ≡ true
    → (usable ≡ true) ⊎ (any (is_usable profile bl) workers ≡ true)
unfolding scan_workers
scan-usable profile bl [] count spare usable h = inl h
scan-usable profile bl (w ∷ ws) count spare usable h = elim (scan-usable profile bl ws _ _ _ h) [
  | inl first ↦
      use_now (is_warm profile w) usable (ltb w.queue_depth bl) (eqb w.loaded_profile none)
        (any (is_usable profile bl) ws) first
  | inr later ↦ inr (rw later (or_true (is_usable profile bl w)))
]

warm_candidate-IsWarmNode :
    (node : NodeStateView) (profile : WorkerProfile) (bl : ℕ) (c : WarmCandidate)
    → warm_candidate node profile bl ≡ some c
    → (c.node ≡ node) × (0 < c.warm_count) × IsWarmNode profile bl node
unfolding warm_candidate
warm_candidate-IsWarmNode node profile bl c h =
    let scanned = scan_workers profile bl 0 0 false node.workers in
    let (open_, rest, e) =
      accepted node.accepts_new_renders (ltb 0 scanned.0) scanned.2
        (record { node = node; warm_count = scanned.0; style_spare_bl = scanned.1 }) c h in
    let (counted, usable) = rest in
    let pos : 0 < scanned.0 = ltb→lt 0 scanned.0 counted in
    (
      ap (λ (k : WarmCandidate). k.node) (sym e),
      rw (← e) pos,
      (
        open_,
        elim (scan-warm profile bl node.workers 0 0 false pos) [
          | inl none_yet ↦ absurd (omega arith)
          | inr w ↦ w
        ],
        elim (scan-usable profile bl node.workers 0 0 false usable) [
          | inl not_yet ↦ absurd (cc)
          | inr u ↦ u
        ],
      ),
    )

-- A node as in `IsWarmNode`.
abbrev pub is_warm_node : WorkerProfile → ℕ → NodeStateView → Bool
is_warm_node profile bl node =
    node.accepts_new_renders
    && (any (is_warm profile) node.workers && any (is_usable profile bl) node.workers)

use_later :
    (warm usable below vacant later : Bool)
    → ((if warm then usable || below else if vacant then true else usable) || later)
      ≡ (usable || ((if warm then below else vacant) || later))
use_later true true below vacant later = refl
use_later true false below vacant later = refl
use_later false true below true later = refl
use_later false true below false later = refl
use_later false false below true later = refl
use_later false false below false later = refl

scan-counts :
    (profile : WorkerProfile) (bl : ℕ) (workers : List WorkerView) (count spare : ℕ) (usable : Bool)
    → (count ≤ (scan_workers profile bl count spare usable workers).0)
      × (any (is_warm profile) workers ≡ true
          → count < (scan_workers profile bl count spare usable workers).0)
unfolding scan_workers
scan-counts profile bl [] count spare usable = (omega arith, λ h. absurd (cc))
scan-counts profile bl (w ∷ ws) count spare usable = elim (Bool-cases (is_warm profile w)) [
  | inl t ↦
      let spare' = spare + (bl - w.queue_depth) in
      let usable' = usable || ltb w.queue_depth bl in
      let step : scan_workers profile bl count spare usable (w ∷ ws)
          ≡ scan_workers profile bl (count + 1) spare' usable' ws =
        rw (scan_workers, t) refl in
      let (kept, _) = scan-counts profile bl ws (count + 1) spare' usable' in
      rw step (omega arith, λ h. omega arith)
  | inr f ↦
      let usable' = if eqb w.loaded_profile none then true else usable in
      let step : scan_workers profile bl count spare usable (w ∷ ws)
          ≡ scan_workers profile bl count spare usable' ws =
        rw (scan_workers, f) refl in
      rw (step, f) (scan-counts profile bl ws count spare usable')
]

scan-uses :
    (profile : WorkerProfile) (bl : ℕ) (workers : List WorkerView) (count spare : ℕ) (usable : Bool)
    → (scan_workers profile bl count spare usable workers).2
      ≡ (usable || any (is_usable profile bl) workers)
unfolding scan_workers
scan-uses profile bl [] count spare usable = sym (or_nothing usable)
scan-uses profile bl (w ∷ ws) count spare usable =
    scan-uses profile bl ws _ _ _
    ∙ use_later (is_warm profile w) usable (ltb w.queue_depth bl) (eqb w.loaded_profile none)
        (any (is_usable profile bl) ws)

refused_all :
    (a b c : Bool) (made : WarmCandidate)
    → (if a && (b && c) then some made else none) ≡ none
    → (a && (b && c)) ≡ false
refused_all true true true made h = absurd (cc)
refused_all true true false made h = refl
refused_all true false c made h = refl
refused_all false b c made h = refl

warm_candidate-none :
    (node : NodeStateView) (profile : WorkerProfile) (bl : ℕ)
    → warm_candidate node profile bl ≡ none
    → is_warm_node profile bl node ≡ false
unfolding warm_candidate
warm_candidate-none node profile bl h =
    let scanned = scan_workers profile bl 0 0 false node.workers in
    let counts = (scan-counts profile bl node.workers 0 0 false).1 in
    let uses : scanned.2 ≡ any (is_usable profile bl) node.workers =
      scan-uses profile bl node.workers 0 0 false in
    let none_ =
      refused_all node.accepts_new_renders (ltb 0 scanned.0) scanned.2
        (record { node = node; warm_count = scanned.0; style_spare_bl = scanned.1 }) h in
    elim (Bool-cases (any (is_warm profile) node.workers)) [
      | inl warm ↦
          let pos : ltb 0 scanned.0 ≡ true = lt→ltb 0 scanned.0 (counts warm) in
          let same : (any (is_warm profile) node.workers && any (is_usable profile bl) node.workers)
              ≡ (ltb 0 scanned.0 && scanned.2) =
            rw (warm, pos, uses) refl in
          ap (λ b. node.accepts_new_renders && b) same ∙ none_
      | inr cold ↦ rw cold (and_nothing node.accepts_new_renders)
    ]

keep_warm-empty :
    (profile : WorkerProfile) (bl : ℕ) (nodes : List NodeStateView)
    → keep_warm profile bl nodes ≡ []
    → All (λ node. is_warm_node profile bl node ≡ false) nodes
unfolding keep_warm
keep_warm-empty profile bl [] h = tt
keep_warm-empty profile bl (node ∷ nodes) h = elim (Option-cases (warm_candidate node profile bl)) [
  | inl cold ↦
      let step : keep_warm profile bl (node ∷ nodes) ≡ keep_warm profile bl nodes =
        rw (keep_warm, cold) refl in
      (warm_candidate-none node profile bl cold, keep_warm-empty profile bl nodes (sym step ∙ h))
  | inr (c, warm) ↦
      let step : keep_warm profile bl (node ∷ nodes) ≡ c ∷ keep_warm profile bl nodes =
        rw (keep_warm, warm) refl in
      absurd (cc (step, h))
]

keep_warm-nodes :
    (P : NodeStateView → Type 0) (profile : WorkerProfile) (bl : ℕ) (nodes : List NodeStateView)
    → All P nodes
    → AllNodes (λ node. P node × IsWarmNode profile bl node) (keep_warm profile bl nodes)
      × (length (keep_warm profile bl nodes) ≤ total_weight (keep_warm profile bl nodes))
unfolding keep_warm total_weight
keep_warm-nodes P profile bl [] h = (tt, omega arith)
keep_warm-nodes P profile bl (node ∷ nodes) h =
    let (good, many) = keep_warm-nodes P profile bl nodes h.1 in
    elim (Option-cases (warm_candidate node profile bl)) [
      | inl cold ↦
          let step : keep_warm profile bl (node ∷ nodes) ≡ keep_warm profile bl nodes =
            rw (keep_warm, cold) refl in
          rw step (good, many)
      | inr (c, warm) ↦
          let step : keep_warm profile bl (node ∷ nodes) ≡ c ∷ keep_warm profile bl nodes =
            rw (keep_warm, warm) refl in
          let (same, counted, is) = warm_candidate-IsWarmNode node profile bl c warm in
          rw step ((rw same (h.0, is), good), omega arith)
    ]

-- When the generator draws from the ranges it is given, `select_warm_target` does not panic, with
-- either strategy. It finds no target exactly when no node of the view accepts renders, has a worker
-- with the profile of the task loaded, and has one that is warm and below the soft limit or has
-- nothing loaded; otherwise it finds such a node.
pub select_warm_target-IsWarmNode :
    (P : NodeStateView → Type 0) (rng : Generator) (strategy : Tier1Strategy) (seed : ℕ)
    (profile : WorkerProfile) (bl : ℕ) (nodes : List NodeStateView)
    → IsGenerator rng
    → All P nodes
    → (All (λ node. is_warm_node profile bl node ≡ false) nodes
        × (select_warm_target rng strategy seed (keep_warm profile bl nodes) ≡ no_target))
      ⊎ TargetOf
          (λ node. P node × IsWarmNode profile bl node)
          (select_warm_target rng strategy seed (keep_warm profile bl nodes))
select_warm_target-IsWarmNode P rng strategy seed profile bl nodes g h =
    let (good, many) = keep_warm-nodes P profile bl nodes h in
    elim (chosen (λ node. P node × IsWarmNode profile bl node) rng strategy seed
      (keep_warm profile bl nodes) g good many) [
        | inl (empty, nothing) ↦ inl (keep_warm-empty profile bl nodes empty, nothing)
        | inr found ↦ inr found
      ]
