-- ===== src/Tests/Slots.antt =====
-- A renderer slot that draws its first task.
use biei.Prelude.{◌≡◌, refl, true, false, List, [], ◌∷◌, some, ok}
use biei.Workers.Profile.{WorkerProfile, tile_image, x1}
use biei.Workers.SourceCache.{touch, trim, remove_first}
use biei.Workers.Stages.{
  Answers, granted, Task, cacheable, new_slot, Turn, processes, repairs, worker_loop, take_turn,
  draw_broken, actor_renewed, holds_style, settle, setup_done, source_ensured, drawn, process_task,
  run_stages, acquire_permit, check_deadline_at, swap_style, needs_swap, set_up_profile,
  load_source, draw_task,
}
use biei.Workers.Stages.Tracks.{IsTracked}
use biei.Workers.Stages.Draws.{worker_loop-IsTracked}

abbrev streets : WorkerProfile
streets = record {
  style = record { id = "demo/streets"; version = 3 };
  render_mode = tile_image;
  scale = x1;
}

abbrev task : Task
task = record {
  profile = streets;
  partition = some 4;
  source = some (77, cacheable);
  deadline = 100;
}

abbrev answers : Answers
answers = record {
  now = λ stage. 20;
  permit = λ stage. granted;
  set_up = ok tt;
  ensure = ok tt;
  draw = ok (record { image = 9; source_set_up = false });
  completed_at = 60;
  renews = λ stage. false;
  loses = λ stage. true;
}

draws :
    (process_task answers task (new_slot 3)).0.calls
    ≡ drawn task ∷ source_ensured 77 ∷ setup_done streets (some 4) ∷ []
unfolding process_task run_stages acquire_permit check_deadline_at swap_style needs_swap
    set_up_profile load_source draw_task holds_style
draws = refl

-- The task again, on a worker whose actor was replaced.
abbrev turns : List Turn
turns = processes answers task ∷ repairs true ∷ processes answers task ∷ []

refused :
    (worker_loop turns (new_slot 3)).calls
    ≡ draw_broken true
      ∷ actor_renewed
      ∷ drawn task
      ∷ source_ensured 77
      ∷ setup_done streets (some 4)
      ∷ []
unfolding worker_loop take_turn process_task run_stages acquire_permit check_deadline_at swap_style
    needs_swap set_up_profile load_source draw_task holds_style settle touch trim remove_first
refused = refl

worker_loop-IsTracked_example : IsTracked (worker_loop turns (new_slot 3))
worker_loop-IsTracked_example = worker_loop-IsTracked 3 turns
