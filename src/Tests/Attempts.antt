-- ===== src/Tests/Attempts.antt =====
-- A task for which one node is out of reach, one is busy, and one renders.
use biei.Prelude.{ℕ, ◌≡◌, refl, true, List, [], if◌then◌else◌, ◌∷◌, none, Bool, ok, ltb}
use biei.Renders.Outputs.{Lookup, disabled, leads, waits}
use biei.Dispatch.View.{ForwardCandidate}
use biei.Dispatch.Decide.{Decision, render_local, tier2_hrw_bl}
use biei.Nodes.Outcomes.{
  queue_full, renderer_degraded, full, retryable, TaskResult, SendAnswer, completed, rejected,
  responded, processed, sent, Task, Outside, Run, new_run,
}
use biei.Nodes.Handling.{
  process_local_task, forward_loop, forward_with_failover, process_local_route,
  acquire_render_output_cache, handle_incoming, handle_forwarded,
}
use biei.Nodes.Served.{
  IsServedOnce, handle_incoming-IsServedOnce, IsPooled, handle_forwarded-IsPooled,
}

abbrev task : Task
task = record { deadline = 1000000000; forwarding_hops = 0 }

abbrev cases_of_a_send : ℕ → SendAnswer ℕ
cases_of_a_send n =
    if ltb n 12
    then retryable
    else if ltb n 14
    then responded (rejected renderer_degraded)
    else responded (completed 7)

abbrev outside : Outside ℕ
outside = record {
  now = λ n. n;
  can_start_render = λ n. true;
  prepare = λ n. ok tt;
  process = λ n. full;
  send = λ n node. cases_of_a_send n;
}

abbrev peer : ForwardCandidate
peer = record { node_id = "b"; drain_worker = none }

abbrev lookups : List (Lookup ℕ ℕ)
lookups = disabled ∷ []

abbrev decision : Bool → Decision
decision available = render_local tier2_hrw_bl none (peer ∷ peer ∷ peer ∷ peer ∷ [])

abbrev incoming : Run ℕ × TaskResult ℕ
incoming = handle_incoming outside task lookups true decision new_run

attempts :
    incoming.0.calls
    ≡ sent "b" (responded (completed 7))
      ∷ sent "b" (responded (rejected renderer_degraded))
      ∷ sent "b" retryable
      ∷ processed full
      ∷ []
unfolding handle_incoming acquire_render_output_cache process_local_route process_local_task
    forward_with_failover forward_loop
attempts = refl

-- A follower that leads after one wait.
abbrev led : List (Lookup ℕ ℕ)
led = waits 4 ∷ leads (record { key = 9; required_namespaces = none }) ∷ []

abbrev led_run : Run ℕ × TaskResult ℕ
led_run = handle_incoming outside task led true decision new_run

offers : led_run.0.offered ≡ completed 7 ∷ []
unfolding handle_incoming acquire_render_output_cache process_local_route process_local_task
    forward_with_failover forward_loop
offers = refl

handle_incoming-IsServedOnce_example : IsServedOnce true led_run
handle_incoming-IsServedOnce_example = handle_incoming-IsServedOnce outside task led true decision

abbrev forwarded : Run ℕ × TaskResult ℕ
forwarded = handle_forwarded outside task lookups true new_run

forwarded_calls : forwarded.0.calls ≡ processed full ∷ []
unfolding handle_forwarded acquire_render_output_cache process_local_task
forwarded_calls = refl

forwarded_outcome : forwarded.1 ≡ rejected queue_full
unfolding handle_forwarded acquire_render_output_cache process_local_task
forwarded_outcome = refl

handle_forwarded-IsPooled_example : IsPooled forwarded.1 forwarded.0.calls
handle_forwarded-IsPooled_example = handle_forwarded-IsPooled outside task lookups true
