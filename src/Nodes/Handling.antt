-- ===== src/Nodes/Handling.antt =====
-- `Node::handle_incoming` and `Node::handle_forwarded` of crates/biei-core/src/node.rs, with the
-- local route and the failover. What the clock, the admission of renders, the preparation of
-- profiles, the pool and the peers answer may differ at each question; the calls that may render
-- are recorded with their answers, the newest first. Metrics and the fields that only
-- accompany an outcome are left out, and a check that the code skips also takes a number. Times
-- are in nanoseconds.
use Prim.Native.String.{String}
use biei.Prelude.{
  ℕ, ◌+◌, ◌-◌, Bool, true, false, not, ◌&&◌, ◌||◌, List, [], ◌∷◌, Option, none, some, Result, ok,
  err, if◌then◌else◌, ltb, leb,
}
use biei.Dispatch.View.{ForwardCandidate}
use biei.Dispatch.Decide.{Decision, render_local, forward, reject_no_capacity}
use biei.Renders.Outputs.{Lookup, disabled, hit, leads, waits}
use biei.Nodes.Outcomes.{
  no_capacity, renderer_degraded, unknown_style, hop_limit_exceeded, deadline_too_close,
  deadline_exceeded, no_queue, render_admission_closed, queue_disconnected, full, disconnected,
  retryable, fatal, RejectionReason, FailureKind, TaskResult, ProcessError, PoolAnswer, SendAnswer,
  LoopEnd, completed, rejected, failed, done, late, responded, processed, sent, finished, exhausted,
  Task, Outside, Run, next, is_style_failure, process_error_outcome, exhaustion_reason,
  is_retryable_at_forward, min_forward_budget, max_forwarding_hops,
}

module _ {V : Type 0} (o : Outside V) (task : Task) where
  abbrev pub record_process : Run V → PoolAnswer V → Run V
  record_process run answer = record (next run) { calls = processed answer ∷ run.calls }

  -- What `process_local_task` makes of the answer of the pool.
  abbrev pub pool_result : Run V → PoolAnswer V → Run V × Result ProcessError (TaskResult V)
  pool_result run (done result) = (
    if is_style_failure result then record run { style_failures = run.style_failures + 1 } else run,
    ok result,
  )
  pool_result run full = (run, err no_queue)
  pool_result run disconnected = (run, err queue_disconnected)

  -- `process_local_task`.
  unfoldable pub process_local_task : Run V → Run V × Result ProcessError (TaskResult V)
  process_local_task run =
      let asked = next run in
      if o.can_start_render run.asked
      then pool_result (record_process asked (o.process asked.asked)) (o.process asked.asked)
      else (asked, err render_admission_closed)

  -- `forward_budget_too_small`, at a time.
  abbrev pub forward_budget_too_small : ℕ → Bool
  forward_budget_too_small now = ltb (task.deadline - now) min_forward_budget

  abbrev pub record_send : Run V → String → SendAnswer V → Run V
  record_send run node answer = record (next run) { calls = sent node answer ∷ run.calls }

  -- What the loop of `forward_with_failover` makes of an answer; `retry` is the rest of the loop.
  abbrev pub after_send :
      (Option RejectionReason → Bool → Run V → Run V × LoopEnd V)
      → Option RejectionReason
      → Bool
      → Run V
      → SendAnswer V
      → Run V × LoopEnd V
  after_send retry last saw_failure run late = (run, finished (rejected deadline_exceeded))
  after_send retry last saw_failure run retryable = retry last true run
  after_send retry last saw_failure run fatal = retry last true run
  after_send retry last saw_failure run (responded (completed output)) =
      (run, finished (completed output))
  after_send retry last saw_failure run (responded (failed kind)) = (run, finished (failed kind))
  after_send retry last saw_failure run (responded (rejected reason)) =
      if is_retryable_at_forward reason
      then retry (some reason) saw_failure run
      else (run, finished (rejected reason))

  -- The loop of `forward_with_failover`.
  unfoldable pub forward_loop :
      List ForwardCandidate → Option RejectionReason → Bool → Run V → Run V × LoopEnd V
  forward_loop [] last saw_failure run = (run, exhausted last saw_failure)
  forward_loop (candidate ∷ rest) last saw_failure run =
      let asked = next run in
      let answer = o.send asked.asked candidate.node_id in
      if forward_budget_too_small (o.now run.asked)
      then (asked, finished (rejected deadline_too_close))
      else after_send (forward_loop rest) last saw_failure
          (record_send asked candidate.node_id answer) answer

  -- What `forward_with_failover` makes of its local attempt.
  abbrev pub overflow_result :
      RejectionReason → Run V × Result ProcessError (TaskResult V) → Run V × TaskResult V
  overflow_result reason (run, ok result) = (run, result)
  overflow_result reason (run, err render_admission_closed) = (run, rejected renderer_degraded)
  overflow_result reason (run, err queue_disconnected) =
      (run, process_error_outcome queue_disconnected)
  overflow_result reason (run, err no_queue) = (run, rejected reason)

  -- The profile is prepared, and then the task is processed.
  abbrev pub prepared :
      Result FailureKind (Unit {0})
      → Run V
      → (Run V × Result ProcessError (TaskResult V) → Run V × TaskResult V)
      → Run V × TaskResult V
  prepared (err kind) run rest = (run, failed kind)
  prepared (ok _) run rest = rest (process_local_task run)

  -- The local overflow at the end of `forward_with_failover`.
  unfoldable pub try_overflow : RejectionReason → Run V → Run V × TaskResult V
  try_overflow reason run =
      let r1 = next run in
      let r2 = next r1 in
      if o.can_start_render run.asked
      then (if leb task.deadline (o.now r1.asked)
          then (r2, rejected deadline_exceeded)
          else prepared (o.prepare r2.asked) (next r2) (overflow_result reason))
      else (r1, rejected reason)

  abbrev pub after_loop : Run V × LoopEnd V → Run V × TaskResult V
  after_loop (run, finished result) = (run, result)
  after_loop (run, exhausted last saw_failure) =
      try_overflow (exhaustion_reason last saw_failure) run

  -- `forward_with_failover`.
  unfoldable pub forward_with_failover : List ForwardCandidate → Run V → Run V × TaskResult V
  forward_with_failover candidates run =
      if leb max_forwarding_hops task.forwarding_hops
      then (run, rejected hop_limit_exceeded)
      else if forward_budget_too_small (o.now run.asked)
      then (next run, rejected deadline_too_close)
      else after_loop (forward_loop candidates none false (next run))

  -- What `process_local_route` makes of its local attempt.
  abbrev pub local_result :
      List ForwardCandidate → Run V × Result ProcessError (TaskResult V) → Run V × TaskResult V
  local_result fallbacks (run, ok result) = (run, result)
  local_result fallbacks (run, err queue_disconnected) =
      (run, process_error_outcome queue_disconnected)
  local_result [] (run, err no_queue) = (run, process_error_outcome no_queue)
  local_result [] (run, err render_admission_closed) = (run, rejected renderer_degraded)
  local_result (c ∷ rest) (run, err no_queue) = forward_with_failover (c ∷ rest) run
  local_result (c ∷ rest) (run, err render_admission_closed) = forward_with_failover (c ∷ rest) run

  abbrev pub degraded_route : List ForwardCandidate → Run V → Run V × TaskResult V
  degraded_route [] run = (run, rejected renderer_degraded)
  degraded_route (c ∷ rest) run = forward_with_failover (c ∷ rest) run

  -- `process_local_route`.
  unfoldable pub process_local_route : List ForwardCandidate → Run V → Run V × TaskResult V
  process_local_route fallbacks run =
      let asked = next run in
      if o.can_start_render run.asked
      then prepared (o.prepare asked.asked) (next asked) (local_result fallbacks)
      else degraded_route fallbacks asked

  -- The `match` on the decision in `handle_incoming_inner`.
  abbrev pub follow : Bool → Decision → Run V → Run V × TaskResult V
  follow local_available (render_local tier hint fallbacks) run = process_local_route fallbacks run
  follow local_available (forward tier candidates) run = forward_with_failover candidates run
  follow local_available reject_no_capacity run =
      (run, rejected (if local_available then no_capacity else renderer_degraded))

  -- `maybe_insert_render_output_cache`: the leader, if there is one, is offered the outcome.
  abbrev pub offer_outcome : Bool → Run V × TaskResult V → Run V × TaskResult V
  offer_outcome true (run, result) = (record run { offered = result ∷ run.offered }, result)
  offer_outcome false (run, result) = (run, result)

  -- `acquire_render_output_cache`: the answers are those of the first lookup and of the rechecks;
  -- a wait that no recheck follows ends at the deadline. The result says whether the caller leads.
  unfoldable pub acquire_render_output_cache :
      {K : Type 0} → Bool → List (Lookup K V) → Run V → Run V × Result (TaskResult V) Bool
  acquire_render_output_cache requires_local [] run = (run, err (rejected deadline_exceeded))
  acquire_render_output_cache requires_local (disabled ∷ rest) run =
      if requires_local && not (o.can_start_render run.asked)
      then (next run, err (rejected renderer_degraded))
      else (next run, ok false)
  acquire_render_output_cache requires_local (hit output ∷ rest) run = (run, err (completed output))
  acquire_render_output_cache requires_local (leads leader ∷ rest) run =
      if requires_local && not (o.can_start_render run.asked)
      then (next run, err (rejected renderer_degraded))
      else (next run, ok true)
  acquire_render_output_cache requires_local (waits channel ∷ rest) run =
      acquire_render_output_cache requires_local rest run

  -- `handle_incoming_inner` after the cache: `loaded` says whether the view was there in time, and
  -- `decide` is the decision for the admission of this node.
  abbrev pub incoming_miss :
      Bool → (Bool → Decision) → Run V × Result (TaskResult V) Bool → Run V × TaskResult V
  incoming_miss loaded decide (run, err result) = (run, result)
  incoming_miss loaded decide (run, ok is_leader) =
      if not loaded || leb task.deadline (o.now run.asked)
      then (next run, rejected deadline_exceeded)
      else (let r1 = next run in
          let available = o.can_start_render r1.asked in
          offer_outcome is_leader (follow available (decide available) (next r1)))

  -- `handle_incoming_inner`.
  unfoldable pub handle_incoming :
      {K : Type 0} → List (Lookup K V) → Bool → (Bool → Decision) → Run V → Run V × TaskResult V
  handle_incoming lookups loaded decide run =
      if leb task.deadline (o.now run.asked)
      then (next run, rejected deadline_exceeded)
      else incoming_miss loaded decide (acquire_render_output_cache false lookups (next run))

  -- What `handle_forwarded_inner` makes of its local attempt.
  abbrev pub forwarded_result : Run V × Result ProcessError (TaskResult V) → Run V × TaskResult V
  forwarded_result (run, ok result) = (run, result)
  forwarded_result (run, err e) = (run, process_error_outcome e)

  abbrev pub forwarded_prepared :
      Bool → Result FailureKind (Unit {0}) → Run V → Run V × TaskResult V
  forwarded_prepared is_leader (err kind) run = (run, failed kind)
  forwarded_prepared is_leader (ok _) run =
      offer_outcome is_leader (forwarded_result (process_local_task run))

  abbrev pub forwarded_miss : Run V × Result (TaskResult V) Bool → Run V × TaskResult V
  forwarded_miss (run, err result) = (run, result)
  forwarded_miss (run, ok is_leader) = forwarded_prepared is_leader (o.prepare run.asked) (next run)

  -- `handle_forwarded_inner`; `known` says whether the catalogue accepts the style.
  unfoldable pub handle_forwarded :
      {K : Type 0} → List (Lookup K V) → Bool → Run V → Run V × TaskResult V
  handle_forwarded lookups known run =
      if not known
      then (run, rejected unknown_style)
      else if leb task.deadline (o.now run.asked)
      then (next run, rejected deadline_exceeded)
      else forwarded_miss (acquire_render_output_cache true lookups (next run))
