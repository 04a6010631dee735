-- ===== src/Workers/Stages/Draws.antt =====
-- The stages of crates/biei-core/src/worker.rs draw every task with its own style and source.
use biei.Prelude.{
  ℕ, ◌⊎◌, ◌≢◌, List, [], ◌≡◌, refl, sym, subst, Bool, true, false, not, ◌||◌, inl, inr, ◌∷◌, Option,
  none, some, Result, ok, err, leb, ltb, eqb, eqb→eq, eqb_refl, nat_Eq, contains, Bool-cases,
  Option-cases, Result-cases,
}
use biei.Workers.Profile.{WorkerProfile, profile_Eq, option_Eq}
use biei.Workers.SourceCache.{cached}
use biei.Workers.Stages.{
  DeadlineStage, acquire_render_permit, style_swap, ensure_source, acquire_native_render_permit,
  render, timeout, StageFailure, deadline_exceeded, permit_closed, renderer_error, CachePolicy,
  cacheable, one_shot, PermitAnswer, granted, closed, too_late, Task, Answers, source_ensured,
  drawn, Slot, Stage, and_then, check_deadline_at, acquire_permit, needs_swap, set_up_profile,
  swap_style, touch_cacheable, load_source, draw_task, run_stages, settle, process_task,
  StageSuccess, Rendered, Call, setup_broken, draw_broken, style_not_ready, loaded, holds_style,
  reach_actor, Turn, processes, repairs, take_turn, worker_loop, new_slot,
}
use biei.Workers.Stages.Tracks.{
  reach_actor-IsTracked, setup_broken-IsTracked, draw_broken-IsTracked, ensured, HasSource,
  IsTracked, Post, settle-IsTracked, touch_cacheable-IsTracked, ensured-IsTracked, cached-ensured,
}

and_then-Post :
    {A B : Type 0} (P : A → Slot → Type 0) (Q : B → Slot → Type 0)
    (x : Slot × Result StageFailure A) (rest : A → Stage B)
    → Post P x
    → ((a : A) (s : Slot) → P a s → Post Q (rest a s))
    → Post Q (and_then x rest)
and_then-Post P Q (s, ok a) rest h k = k a s h
and_then-Post P Q (s, err e) rest h k = h

both_kept : (x y : Bool) → (not x || not y) ≡ false → (x ≡ true) × (y ≡ true)
both_kept true true h = (refl, refl)
both_kept true false h = absurd (cc)
both_kept false y h = absurd (cc)

needs_swap-same :
    (task : Task) (current : Option (WorkerProfile × Option ℕ))
    → needs_swap task current ≡ false
    → current ≡ some (task.profile, task.partition)
unfolding needs_swap
needs_swap-same task none h = absurd (cc)
needs_swap-same task (some (profile, partition)) h =
    let (p, q) = both_kept (eqb profile task.profile) (eqb partition task.partition) h in
    let profiles : profile ≡ task.profile = eqb→eq profile task.profile p in
    let partitions : partition ≡ task.partition = eqb→eq partition task.partition q in
    rw (profiles, partitions) refl

settled :
    (ran : Slot × Result StageFailure StageSuccess)
    → Post (λ _ s'. IsTracked s') ran
    → IsTracked
        (elim ran.1 as (λ _. Slot × Result StageFailure StageSuccess) [
          | ok success ↦ ran
          | err failure ↦ (settle ran.0 failure, err failure)
        ]).0
settled (s, ok success) h = h
settled (s, err failure) h = h

module _ (a : Answers) (task : Task) where
  -- The slot before each stage.
  pub record IsCurrent (s : Slot) : Type 0 where
    pub tracked : IsTracked s
    pub mine : s.current_profile ≡ some (task.profile, task.partition)

  pub record IsReady (s : Slot) : Type 0 where
    pub tracked : IsTracked s
    pub mine : s.current_profile ≡ some (task.profile, task.partition)
    pub source : (loaded s.calls ≡ none) ⊎ HasSource task.source s.calls

  check_deadline_at-Post :
      (R : Slot → Type 0) (at : DeadlineStage) (s : Slot)
      → IsTracked s
      → R s
      → Post (λ _ s'. R s') (check_deadline_at a task at s)
  unfolding check_deadline_at
  check_deadline_at-Post R at s h r = elim (Bool-cases (leb task.deadline (a.now at))) [
    | inl late ↦ rw late (settle-IsTracked s (deadline_exceeded at) h)
    | inr early ↦ rw early r
  ]

  permit_answer-Post :
      (R : Slot → Type 0) (at : DeadlineStage) (answer : PermitAnswer) (s : Slot)
      → IsTracked s
      → R s
      → Post
          (λ (_ : Unit {0}) s'. R s')
          (elim answer as (λ _. Slot × Result StageFailure (Unit {0})) [
            | granted ↦ (s, ok tt)
            | closed ↦ (s, err (permit_closed at))
            | too_late ↦ (s, err (deadline_exceeded at))
          ])
  unfolding settle
  permit_answer-Post R at granted s h r = r
  permit_answer-Post R at closed s h r = h
  permit_answer-Post R at too_late s h r = h

  acquire_permit-Post :
      (R : Slot → Type 0) (at : DeadlineStage) (s : Slot)
      → IsTracked s
      → R s
      → Post (λ _ s'. R s') (acquire_permit a task at s)
  unfolding acquire_permit
  acquire_permit-Post R at s h r =
      and_then-Post (λ _ s'. IsTracked s' × R s') (λ _ s'. R s') (check_deadline_at a task at s) _
        (check_deadline_at-Post (λ s'. IsTracked s' × R s') at s h (h, r))
        (λ _ s' (h', r'). permit_answer-Post R at (a.permit at) s' h' r')

  set_up_profile-Post :
      (s : Slot) → IsTracked s → Post (λ _ s'. IsCurrent s') (set_up_profile a task s)
  unfolding set_up_profile
  set_up_profile-Post s h = elim (Result-cases a.set_up) [
    | inl (u, done) ↦ rw done (record {
      tracked = record { held = inr (λ p found. found, tt); faithful = h.faithful };
      mine = refl;
    })
    | inr (e, broken) ↦ rw broken (
        settle-IsTracked (record s { calls = setup_broken (a.loses style_swap) ∷ s.calls })
          (renderer_error style_swap e) (setup_broken-IsTracked (a.loses style_swap) s h))
  ]

  swap_style-Post : (s : Slot) → IsTracked s → Post (λ _ s'. IsCurrent s') (swap_style a task s)
  unfolding swap_style
  swap_style-Post s h = elim (Bool-cases (needs_swap task s.current_profile)) [
    | inl swap ↦ rw swap (
        and_then-Post (λ _ s'. IsTracked s') (λ _ s'. IsCurrent s')
          (check_deadline_at a task style_swap s) _
          (check_deadline_at-Post IsTracked style_swap s h h)
          (λ _ s' h'.
            set_up_profile-Post (reach_actor (a.renews style_swap) s')
              (reach_actor-IsTracked (a.renews style_swap) s' h')))
    | inr keep ↦
        rw keep (record { tracked = h; mine = needs_swap-same task s.current_profile keep })
  ]

  touched-IsReady :
      (policy : CachePolicy) (hash : ℕ) (s : Slot)
      → IsTracked s
      → s.current_profile ≡ some (task.profile, task.partition)
      → (loaded s.calls ≡ none) ⊎ HasSource task.source s.calls
      → (loaded s.calls ≡ none) ⊎ (contains hash (ensured s.calls) ≡ true)
      → IsReady (touch_cacheable policy hash s)
  touched-IsReady cacheable hash s h mine source known = record {
    tracked = touch_cacheable-IsTracked cacheable hash s known h;
    mine = mine;
    source = source;
  }
  touched-IsReady one_shot hash s h mine source known = record {
    tracked = h;
    mine = mine;
    source = source;
  }

  has_source :
      (hash : ℕ) (policy : CachePolicy) (calls : List Call)
      → task.source ≡ some (hash, policy)
      → (loaded calls ≡ none) ⊎ (contains hash (ensured calls) ≡ true)
      → (loaded calls ≡ none) ⊎ HasSource task.source calls
  has_source hash policy calls found (inl nothing) = inl nothing
  has_source hash policy calls found (inr known) = inr (rw found known)

  load_source-Post : (s : Slot) → IsCurrent s → Post (λ _ s'. IsReady s') (load_source a task s)
  unfolding load_source
  load_source-Post s h =
      let Goal = λ (x : Slot × Result StageFailure Bool). Post (λ _ s'. IsReady s') x in
      elim (Option-cases task.source) [
        | inl nothing ↦
            let step : load_source a task s ≡ (s, ok false) = rw nothing refl in
            let source : HasSource task.source s.calls = rw nothing tt in
            subst Goal (sym step)
              (record { tracked = h.tracked; mine = h.mine; source = inr source })
        | inr ((hash, policy), found) ↦ elim (Bool-cases (cached s.cache hash)) [
          | inl hit ↦
              let known : (loaded s.calls ≡ none) ⊎ (contains hash (ensured s.calls) ≡ true) =
                elim h.tracked.held [
                  | inl lost ↦ inl lost
                  | inr (_, sources) ↦ inr (cached-ensured hash s.calls s.cache.entries sources hit)
                ] in
              let step : load_source a task s ≡ (touch_cacheable policy hash s, ok false) =
                rw (found, hit) refl in
              subst Goal (sym step) (
                touched-IsReady policy hash s h.tracked h.mine
                  (has_source hash policy s.calls found known) known)
          | inr miss ↦ elim (Result-cases a.ensure) [
            | inl (u, done) ↦
                let s' : Slot = record s { calls = source_ensured hash ∷ s.calls } in
                let known : (loaded s'.calls ≡ none) ⊎ (contains hash (ensured s'.calls) ≡ true) =
                  inr (rw (eqb_refl hash) refl) in
                let step : load_source a task s ≡ (touch_cacheable policy hash s', ok true) =
                  rw (found, miss, done) refl in
                subst Goal (sym step) (
                  touched-IsReady policy hash s' (ensured-IsTracked hash s h.tracked) h.mine
                    (has_source hash policy s'.calls found known) known)
            | inr (e, failed) ↦
                let step : load_source a task s ≡ (s, err (renderer_error ensure_source e)) =
                  rw (found, miss, failed) refl in
                subst Goal (sym step)
                  (settle-IsTracked s (renderer_error ensure_source e) h.tracked)
          ]
        ]
      ]

  reach_actor-IsReady : (renews : Bool) (s : Slot) → IsReady s → IsReady (reach_actor renews s)
  reach_actor-IsReady true s h = record {
    tracked = reach_actor-IsTracked true s h.tracked;
    mine = h.mine;
    source = inl refl;
  }
  reach_actor-IsReady false s h = h

  holds_style-some : (o : Option (WorkerProfile × Option ℕ)) → holds_style o task ≡ true → o ≢ none
  unfolding holds_style
  holds_style-some none h = absurd (cc)
  holds_style-some (some p) h = λ e. cc

  -- A renderer that takes the task holds its own profile, partition and source.
  holds_style-own :
      (s : Slot)
      → IsReady s
      → holds_style (loaded s.calls) task ≡ true
      → (loaded s.calls ≡ some (task.profile, task.partition)) × HasSource task.source s.calls
  holds_style-own s h t =
      let held = holds_style-some (loaded s.calls) t in
      (
        elim h.tracked.held [
          | inl nothing ↦ absurd (held nothing)
          | inr (current, _) ↦ current (task.profile, task.partition) h.mine
        ],
        elim h.source [ inl nothing ↦ absurd (held nothing) | inr source ↦ source ],
      )

  draw_task-Post : (s : Slot) → IsReady s → Post (λ _ s'. IsTracked s') (draw_task a task s)
  unfolding draw_task
  draw_task-Post s h =
      let loses = a.loses render in
      let broken = draw_broken-IsTracked loses s h.tracked in
      let lost : Slot = record s { calls = draw_broken loses ∷ s.calls } in
      let called : Slot = record s { calls = drawn task ∷ s.calls } in
      let Goal = λ (x : Slot × Result StageFailure Rendered). Post (λ _ s'. IsTracked s') x in
      elim (Bool-cases (holds_style (loaded s.calls) task)) [
        | inr f ↦
            let step : draw_task a task s ≡ (lost, err (renderer_error render style_not_ready)) =
              rw (draw_task, f) refl in
            subst Goal (sym step)
              (settle-IsTracked lost (renderer_error render style_not_ready) broken)
        | inl t ↦
            let drew : IsTracked called = record {
              held = h.tracked.held;
              faithful = (holds_style-own s h t, h.tracked.faithful);
            } in
            elim (Result-cases a.draw) [
              | inl (output, done) ↦ elim (Bool-cases (ltb task.deadline a.completed_at)) [
                | inl late ↦
                    let step : draw_task a task s ≡ (called, err (renderer_error render timeout)) =
                      rw (draw_task, t, done, late) refl in
                    subst Goal (sym step)
                      (settle-IsTracked called (renderer_error render timeout) drew)
                | inr early ↦
                    let step : draw_task a task s ≡ (called, ok output) =
                      rw (draw_task, t, done, early) refl in
                    subst Goal (sym step) drew
              ]
              | inr (e, failed) ↦
                  let step : draw_task a task s ≡ (lost, err (renderer_error render e)) =
                    rw (draw_task, t, failed) refl in
                  subst Goal (sym step) (settle-IsTracked lost (renderer_error render e) broken)
            ]
      ]

  run_stages-Post : (s : Slot) → IsTracked s → Post (λ _ s'. IsTracked s') (run_stages a task s)
  unfolding run_stages
  run_stages-Post s h =
      and_then-Post (λ _ t. IsTracked t) (λ _ t. IsTracked t) _ _
        (acquire_permit-Post IsTracked acquire_render_permit s h h)
        (λ _ s1 h1.
          and_then-Post (λ _ t. IsCurrent t) (λ _ t. IsTracked t) _ _ (swap_style-Post s1 h1)
            (λ _ s2 h2.
              and_then-Post (λ _ t. IsCurrent t) (λ _ t. IsTracked t) _ _
                (check_deadline_at-Post IsCurrent ensure_source s2 h2.tracked h2)
                (λ _ s3 h3.
                  and_then-Post (λ _ t. IsReady t) (λ _ t. IsTracked t) _ _ (load_source-Post s3 h3)
                    (λ _ s4 h4.
                      and_then-Post (λ _ t. IsReady t) (λ _ t. IsTracked t) _ _
                        (acquire_permit-Post IsReady acquire_native_render_permit s4 h4.tracked h4)
                        (λ _ s5 h5.
                          and_then-Post (λ _ t. IsReady t) (λ _ t. IsTracked t) _ _
                            (check_deadline_at-Post IsReady render s5 h5.tracked h5)
                            (λ _ s6 h6.
                              and_then-Post (λ _ t. IsTracked t) (λ _ t. IsTracked t) _ _
                                (draw_task-Post (reach_actor (a.renews render) s6)
                                  (reach_actor-IsReady (a.renews render) s6 h6))
                                (λ _ s7 h7. h7)))))))

take_turn-IsTracked : (turn : Turn) (slot : Slot) → IsTracked slot → IsTracked (take_turn turn slot)
unfolding take_turn process_task
take_turn-IsTracked (processes a task) slot h =
    settled (run_stages a task slot) (run_stages-Post a task slot h)
take_turn-IsTracked (repairs renewed) slot h = reach_actor-IsTracked renewed slot h

turns-IsTracked :
    (turns : List Turn) (slot : Slot) → IsTracked slot → IsTracked (worker_loop turns slot)
unfolding worker_loop
turns-IsTracked [] slot h = h
turns-IsTracked (turn ∷ turns) slot h =
    turns-IsTracked turns (take_turn turn slot) (take_turn-IsTracked turn slot h)

-- Whatever tasks a worker takes up, and whatever the clock, the semaphores and the backend answer,
-- with repairs and new actors at any time: every task that was drawn was drawn by a renderer that
-- held its own profile and credential partition, with its source ensured since. After every turn
-- the renderer holds nothing, or the worker knows what it holds: the profile that it takes for set
-- up is set up, and the sources in its cache are ensured.
pub worker_loop-IsTracked :
    (capacity : ℕ) (turns : List Turn) → IsTracked (worker_loop turns (new_slot capacity))
worker_loop-IsTracked capacity turns =
    turns-IsTracked turns (new_slot capacity) (record { held = inl refl; faithful = tt })
