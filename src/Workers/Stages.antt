-- ===== src/Workers/Stages.antt =====
-- `run_stages` and `worker_loop` of crates/biei-core/src/worker.rs. The clock, the semaphores and the
-- backend of the renderer are the answers that they give to a task; the calls that change the
-- renderer are recorded, the newest first. What the renderer holds is `loaded` of `run_actor` in
-- servers/biei/src/renderer/actor/protocol.rs: it refuses a task of another style, it may lose its
-- profile with a failure, and a new actor takes its place at a repair or before a call. Durations
-- are left out, and so is the prepared profile, which the renderer is handed as it is.
pub mod Tracks
pub mod Draws
use biei.Prelude.{
  ℕ, ◌≡◌, Bool, true, false, not, ◌&&◌, ◌||◌, List, [], ◌∷◌, Option, none, some, Result, ok, err,
  if◌then◌else◌, leb, ltb, eqb, nat_Eq, string_Eq, ◌==◌,
}
use biei.Workers.Profile.{WorkerProfile, profile_Eq, option_Eq}
use biei.Workers.SourceCache.{SourceCache, new_cache, cached, touch, clear}

pub data DeadlineStage : Type 0 where
  acquire_render_permit style_swap ensure_source acquire_native_render_permit render : DeadlineStage

pub data RendererError : Type 0 where
  style_load_failed setup_failed style_not_ready source_fetch_failed render_failed timeout
        actor_dead :
      RendererError

pub data StageFailure : Type 0 where
  deadline_exceeded permit_closed : DeadlineStage → StageFailure
  renderer_error : DeadlineStage → RendererError → StageFailure

pub data CachePolicy : Type 0 where
  cacheable one_shot : CachePolicy

-- What the stages read of a task: the credential partition is that of its authorization, the
-- source its hash and policy.
pub record Task : Type 0 where
  pub profile : WorkerProfile
  pub partition : Option ℕ
  pub source : Option (ℕ × CachePolicy)
  pub deadline : ℕ

-- How the wait for a permit ends, before or at the deadline.
pub data PermitAnswer : Type 0 where
  granted closed too_late : PermitAnswer

-- `Rendered`: the output, and whether the call set up a source.
pub record Rendered : Type 0 where
  pub image : ℕ
  pub source_set_up : Bool

pub record Answers : Type 0 where
  pub now : DeadlineStage → ℕ
  pub permit : DeadlineStage → PermitAnswer
  pub set_up : Result RendererError (Unit {0})
  pub ensure : Result RendererError (Unit {0})
  pub draw : Result RendererError Rendered
  pub completed_at : ℕ
  -- Whether the call of the stage finds a new actor, and whether its failure loses the profile.
  pub renews : DeadlineStage → Bool
  pub loses : DeadlineStage → Bool

pub data Call : Type 0 where
  setup_done : WorkerProfile → Option ℕ → Call
  setup_broken draw_broken : Bool → Call
  actor_renewed : Call
  source_ensured : ℕ → Call
  drawn : Task → Call

-- `loaded` of `run_actor`: what the renderer holds after its calls. The actor stores the style
-- revision; the mode, scale and partition are those that its set-up was for.
abbrev pub loaded : List Call → Option (WorkerProfile × Option ℕ)
loaded [] = none
loaded (setup_done profile partition ∷ calls) = some (profile, partition)
loaded (setup_broken loses ∷ calls) = if loses then none else loaded calls
loaded (draw_broken loses ∷ calls) = if loses then none else loaded calls
loaded (actor_renewed ∷ calls) = none
loaded (source_ensured hash ∷ calls) = loaded calls
loaded (drawn task ∷ calls) = loaded calls

-- `loaded.as_ref() == Some(&task.style)`.
unfoldable pub holds_style : Option (WorkerProfile × Option ℕ) → Task → Bool
holds_style none task = false
holds_style (some (profile, partition)) task =
    eqb profile.style.id task.profile.style.id
    && profile.style.version == task.profile.style.version

-- `current_profile` and `cache`, and the record of the calls.
pub record Slot : Type 0 where
  pub current_profile : Option (WorkerProfile × Option ℕ)
  pub cache : SourceCache
  pub calls : List Call

-- A stage, which may fail with the slot changed.
abbrev pub Stage : Type 0 → Type 0
Stage A = Slot → Slot × Result StageFailure A

abbrev pub and_then :
    {A B : Type 0} → Slot × Result StageFailure A → (A → Stage B) → Slot × Result StageFailure B
and_then (slot, ok a) rest = rest a slot
and_then (slot, err e) rest = (slot, err e)

-- `check_deadline_at`.
unfoldable pub check_deadline_at : Answers → Task → DeadlineStage → Stage (Unit {0})
check_deadline_at a task at slot =
    if leb task.deadline (a.now at) then (slot, err (deadline_exceeded at)) else (slot, ok tt)

-- `acquire_permit`.
unfoldable pub acquire_permit : Answers → Task → DeadlineStage → Stage (Unit {0})
acquire_permit a task at slot = and_then (check_deadline_at a task at slot) (λ _ slot'.
    elim (a.permit at) [
      | granted ↦ (slot', ok tt)
      | closed ↦ (slot', err (permit_closed at))
      | too_late ↦ (slot', err (deadline_exceeded at))
    ])

-- `style_swap`: nothing is set up, or another profile or partition.
unfoldable pub needs_swap : Task → Option (WorkerProfile × Option ℕ) → Bool
needs_swap task none = true
needs_swap task (some (profile, partition)) =
    not (eqb profile task.profile) || not (eqb partition task.partition)

-- `MapLibreRenderer::actor`: the actor for a call, a new one where the old one is gone.
abbrev pub reach_actor : Bool → Slot → Slot
reach_actor true slot = record slot { calls = actor_renewed ∷ slot.calls }
reach_actor false slot = slot

-- The call of `setup_profile` and what follows it.
unfoldable pub set_up_profile : Answers → Task → Stage (Unit {0})
set_up_profile a task slot = elim a.set_up [
  | err e ↦ (
    record slot { calls = setup_broken (a.loses style_swap) ∷ slot.calls },
    err (renderer_error style_swap e),
  )
  | ok _ ↦ (
    record slot {
      current_profile = some (task.profile, task.partition);
      cache = clear slot.cache;
      calls = setup_done task.profile task.partition ∷ slot.calls;
    },
    ok tt,
  )
]

unfoldable pub swap_style : Answers → Task → Stage (Unit {0})
swap_style a task slot =
    if needs_swap task slot.current_profile
    then and_then (check_deadline_at a task style_swap slot)
        (λ _ slot'. set_up_profile a task (reach_actor (a.renews style_swap) slot'))
    else (slot, ok tt)

abbrev pub touch_cacheable : CachePolicy → ℕ → Slot → Slot
touch_cacheable cacheable hash slot = record slot { cache = touch slot.cache hash }
touch_cacheable one_shot hash slot = slot

-- The source is ensured unless it is cached; the result says whether it was loaded.
unfoldable pub load_source : Answers → Task → Stage Bool
load_source a task slot = elim task.source [
  | none ↦ (slot, ok false)
  | some source ↦
      if cached slot.cache source.0
      then (touch_cacheable source.1 source.0 slot, ok false)
      else elim a.ensure [
        | err e ↦ (slot, err (renderer_error ensure_source e))
        | ok _ ↦ (
          touch_cacheable source.1 source.0
              (record slot { calls = source_ensured source.0 ∷ slot.calls }),
          ok true,
        )
      ]
]

-- The answer of the actor to `Render`.
abbrev pub render_answer : Answers → Task → Bool → Result RendererError Rendered
render_answer a task true = a.draw
render_answer a task false = err style_not_ready

-- The call of `render`, and the deadline that it may miss.
unfoldable pub draw_task : Answers → Task → Stage Rendered
draw_task a task slot = elim (render_answer a task (holds_style (loaded slot.calls) task)) [
  | err e ↦ (
    record slot { calls = draw_broken (a.loses render) ∷ slot.calls },
    err (renderer_error render e),
  )
  | ok rendered ↦
      let called : Slot = record slot { calls = drawn task ∷ slot.calls } in
      if ltb task.deadline a.completed_at
      then (called, err (renderer_error render timeout))
      else (called, ok rendered)
]

pub record StageSuccess : Type 0 where
  pub output : ℕ
  pub style_swapped : Bool
  pub cold_start : Bool
  pub source_loaded : Bool

abbrev pub is_cold : Option (WorkerProfile × Option ℕ) → Bool
is_cold none = true
is_cold (some p) = false

-- `run_stages`.
unfoldable pub run_stages : Answers → Task → Stage StageSuccess
run_stages a task slot = and_then (acquire_permit a task acquire_render_permit slot) (λ _ s1.
    and_then (swap_style a task s1) (λ _ s2.
      and_then (check_deadline_at a task ensure_source s2) (λ _ s3.
        and_then (load_source a task s3) (λ loaded s4.
          and_then (acquire_permit a task acquire_native_render_permit s4) (λ _ s5.
            and_then (check_deadline_at a task render s5) (λ _ s6.
              and_then (draw_task a task (reach_actor (a.renews render) s6)) (λ rendered s7. (
                s7,
                ok (record {
                  output = rendered.image;
                  style_swapped = needs_swap task slot.current_profile;
                  cold_start = is_cold slot.current_profile;
                  source_loaded = loaded || rendered.source_set_up;
                }),
              ))))))))

-- `renderer_error_invalidates_warm_state`.
abbrev pub invalidates_warm_state : RendererError → Bool
invalidates_warm_state source_fetch_failed = false
invalidates_warm_state render_failed = false
invalidates_warm_state _ = true

-- What `worker_loop` does to the slot for a failure.
unfoldable pub settle : Slot → StageFailure → Slot
settle slot (renderer_error at e) =
    if invalidates_warm_state e
    then record slot { current_profile = none; cache = clear slot.cache }
    else slot
settle slot (deadline_exceeded at) = slot
settle slot (permit_closed at) = slot

-- One `Process` command in `worker_loop`.
unfoldable pub process_task : Answers → Task → Stage StageSuccess
process_task a task slot =
    let ran = run_stages a task slot in
    elim ran.1 [ ok success ↦ ran | err failure ↦ (settle ran.0 failure, err failure) ]

-- What `worker_loop` takes up: a command, or a tick of the repair, which may find a new actor.
pub data Turn : Type 0 where
  processes : Answers → Task → Turn
  repairs : Bool → Turn

unfoldable pub take_turn : Turn → Slot → Slot
take_turn (processes a task) slot = (process_task a task slot).0
take_turn (repairs renewed) slot = reach_actor renewed slot

-- `worker_loop`, over the turns until its channel is closed.
unfoldable pub worker_loop : List Turn → Slot → Slot
worker_loop [] slot = slot
worker_loop (turn ∷ turns) slot = worker_loop turns (take_turn turn slot)

-- The slot before the first turn.
abbrev pub new_slot : ℕ → Slot
new_slot capacity = record { current_profile = none; cache = new_cache capacity; calls = [] }
