-- ===== src/Nodes/Once.antt =====
-- A node of node.rs renders a task at most once: it makes another attempt only after an answer by
-- which the last one was not carried out, or was lost by the transport.
use Prim.Native.String.{String}
use biei.Prelude.{
  ◌≡◌, refl, ◌⊎◌, inl, inr, Bool, true, false, List, [], ◌∷◌, Option, none, some, Result, ok, err,
  if◌then◌else◌, leb, All, Bool-cases,
}
use biei.Dispatch.View.{ForwardCandidate}
use biei.Dispatch.Decide.{Decision, render_local, forward, reject_no_capacity}
use biei.Nodes.Outcomes.{
  queue_full, no_capacity, renderer_degraded, hop_limit_exceeded, deadline_too_close,
  deadline_exceeded, other, no_queue, render_admission_closed, queue_disconnected, full,
  disconnected, retryable, fatal, RejectionReason, FailureKind, TaskResult, ProcessError,
  PoolAnswer, SendAnswer, Call, LoopEnd, completed, rejected, failed, done, late, responded,
  processed, sent, finished, exhausted, Task, Outside, Run, next, is_style_failure,
  exhaustion_reason, is_retryable_at_forward, max_forwarding_hops,
}
use biei.Nodes.Handling.{
  record_process, pool_result, process_local_task, forward_budget_too_small, record_send,
  after_send, forward_loop, overflow_result, prepared, try_overflow, after_loop,
  forward_with_failover, local_result, degraded_route, process_local_route, follow,
}

module _ {V : Type 0} where
  -- The outcome that a response decides, unless the peer asks to try elsewhere.
  abbrev pub response_outcome : TaskResult V → Option (TaskResult V)
  response_outcome (rejected reason) =
      if is_retryable_at_forward reason then none else some (rejected reason)
  response_outcome (completed output) = some (completed output)
  response_outcome (failed kind) = some (failed kind)

  -- The outcome that a call decides. A call that may have rendered decides one, but for a failure
  -- of the transport.
  abbrev pub outcome_of : Call V → Option (TaskResult V)
  outcome_of (processed (done result)) = some result
  outcome_of (processed full) = none
  outcome_of (processed disconnected) = some (failed other)
  outcome_of (sent node late) = some (rejected deadline_exceeded)
  outcome_of (sent node retryable) = none
  outcome_of (sent node fatal) = none
  outcome_of (sent node (responded result)) = response_outcome result

  -- No call has decided an outcome.
  abbrev pub IsOpen : List (Call V) → Type 0
  IsOpen = All (λ c. outcome_of c ≡ none)

  -- Only the last call may decide, and then the result is what it decides.
  abbrev pub IsOnce : TaskResult V → List (Call V) → Type 0
  IsOnce result [] = Unit {0}
  IsOnce result (c ∷ rest) = ((outcome_of c ≡ none) ⊎ (outcome_of c ≡ some result)) × IsOpen rest

  open-IsOnce : (result : TaskResult V) (calls : List (Call V)) → IsOpen calls → IsOnce result calls
  open-IsOnce result [] h = tt
  open-IsOnce result (c ∷ rest) h = (inl h.0, h.1)

  -- No call has decided, and the cache was offered nothing.
  abbrev pub IsUndecided : Run V → Type 0
  IsUndecided run = IsOpen run.calls × (run.offered ≡ [])

  abbrev pub Post : Run V × TaskResult V → Type 0
  Post (run, result) = IsOnce result run.calls × (run.offered ≡ [])

  pub undecided-Post : (result : TaskResult V) (run : Run V) → IsUndecided run → Post (run, result)
  undecided-Post result run h = (open-IsOnce result run.calls h.0, h.1)

  abbrev ProcessPost : Run V × Result ProcessError (TaskResult V) → Type 0
  ProcessPost (run, ok result) = Post (run, result)
  ProcessPost (run, err no_queue) = IsUndecided run
  ProcessPost (run, err render_admission_closed) = IsUndecided run
  ProcessPost (run, err queue_disconnected) = Post (run, failed other)

  abbrev LoopPost : Run V × LoopEnd V → Type 0
  LoopPost (run, finished result) = Post (run, result)
  LoopPost (run, exhausted last saw_failure) = IsUndecided run

module _ {V : Type 0} (o : Outside V) (task : Task) where
  pool_result-ProcessPost :
      (run : Run V) (answer : PoolAnswer V)
      → IsUndecided run
      → ProcessPost (pool_result o task (record_process o task run answer) answer)
  pool_result-ProcessPost run (done result) h = elim (Bool-cases (is_style_failure result)) [
    | inl t ↦ rw t ((inr refl, h.0), h.1)
    | inr f ↦ rw f ((inr refl, h.0), h.1)
  ]
  pool_result-ProcessPost run full h = ((refl, h.0), h.1)
  pool_result-ProcessPost run disconnected h = ((inr refl, h.0), h.1)

  process_local_task-ProcessPost :
      (run : Run V) → IsUndecided run → ProcessPost (process_local_task o task run)
  unfolding process_local_task
  process_local_task-ProcessPost run h = elim (Bool-cases (o.can_start_render run.asked)) [
    | inl t ↦ rw t (pool_result-ProcessPost (next run) (o.process (next run).asked) h)
    | inr f ↦ rw f h
  ]

  prepared-Post :
      (profile : Result FailureKind (Unit {0})) (run : Run V)
      (rest : Run V × Result ProcessError (TaskResult V) → Run V × TaskResult V)
      → IsUndecided run
      → ((x : Run V × Result ProcessError (TaskResult V)) → ProcessPost x → Post (rest x))
      → Post (prepared o task profile run rest)
  prepared-Post (err kind) run rest h k = undecided-Post (failed kind) run h
  prepared-Post (ok u) run rest h k =
      k (process_local_task o task run) (process_local_task-ProcessPost run h)

  overflow_result-Post :
      (reason : RejectionReason) (x : Run V × Result ProcessError (TaskResult V))
      → ProcessPost x
      → Post (overflow_result o task reason x)
  overflow_result-Post reason (run, ok result) h = h
  overflow_result-Post reason (run, err no_queue) h = undecided-Post (rejected reason) run h
  overflow_result-Post reason (run, err render_admission_closed) h =
      undecided-Post (rejected renderer_degraded) run h
  overflow_result-Post reason (run, err queue_disconnected) h = h

  try_overflow-Post :
      (reason : RejectionReason) (run : Run V)
      → IsUndecided run
      → Post (try_overflow o task reason run)
  unfolding try_overflow
  try_overflow-Post reason run h = elim (Bool-cases (o.can_start_render run.asked)) [
    | inr f ↦ rw f (undecided-Post (rejected reason) run h)
    | inl t ↦ elim (Bool-cases (leb task.deadline (o.now (next run).asked))) [
      | inl over ↦ rw (t, over) (undecided-Post (rejected deadline_exceeded) run h)
      | inr early ↦
          rw (t, early)
            (prepared-Post (o.prepare (next (next run)).asked) (next (next (next run)))
              (overflow_result o task reason) h (overflow_result-Post reason))
    ]
  ]

  after_loop-Post : (x : Run V × LoopEnd V) → LoopPost x → Post (after_loop o task x)
  after_loop-Post (run, finished result) h = h
  after_loop-Post (run, exhausted last saw_failure) h =
      try_overflow-Post (exhaustion_reason last saw_failure) run h

  after_send-LoopPost :
      (retry : Option RejectionReason → Bool → Run V → Run V × LoopEnd V)
      → ((last : Option RejectionReason) (saw_failure : Bool) (run : Run V)
          → IsUndecided run
          → LoopPost (retry last saw_failure run))
      → (last : Option RejectionReason) (saw_failure : Bool) (run : Run V) (node : String)
        (answer : SendAnswer V)
      → IsUndecided run
      → LoopPost
          (after_send o task retry last saw_failure (record_send o task run node answer) answer)
  after_send-LoopPost retry k last saw run node late h = ((inr refl, h.0), h.1)
  after_send-LoopPost retry k last saw run node retryable h =
      k last true (record_send o task run node retryable) ((refl, h.0), h.1)
  after_send-LoopPost retry k last saw run node fatal h =
      k last true (record_send o task run node fatal) ((refl, h.0), h.1)
  after_send-LoopPost retry k last saw run node (responded (completed output)) h =
      ((inr refl, h.0), h.1)
  after_send-LoopPost retry k last saw run node (responded (failed kind)) h = ((inr refl, h.0), h.1)
  after_send-LoopPost retry k last saw run node (responded (rejected reason)) h =
      elim (Bool-cases (is_retryable_at_forward reason)) [
        | inl t ↦ rw t (
            k (some reason) saw (record_send o task run node (responded (rejected reason)))
              ((rw t refl, h.0), h.1))
        | inr f ↦ rw f ((inr (rw f refl), h.0), h.1)
      ]

  forward_loop-LoopPost :
      (candidates : List ForwardCandidate) (last : Option RejectionReason) (saw_failure : Bool)
      (run : Run V)
      → IsUndecided run
      → LoopPost (forward_loop o task candidates last saw_failure run)
  unfolding forward_loop
  forward_loop-LoopPost [] last saw_failure run h = h
  forward_loop-LoopPost (candidate ∷ rest) last saw_failure run h =
      elim (Bool-cases (forward_budget_too_small o task (o.now run.asked))) [
        | inl t ↦ rw t (undecided-Post (rejected deadline_too_close) run h)
        | inr f ↦ rw f (
            after_send-LoopPost (forward_loop o task rest) (forward_loop-LoopPost rest) last
              saw_failure (next run) candidate.node_id (o.send (next run).asked candidate.node_id)
              h)
      ]

  forward_with_failover-Post :
      (candidates : List ForwardCandidate) (run : Run V)
      → IsUndecided run
      → Post (forward_with_failover o task candidates run)
  unfolding forward_with_failover
  forward_with_failover-Post candidates run h =
      elim (Bool-cases (leb max_forwarding_hops task.forwarding_hops)) [
        | inl over ↦ rw over (undecided-Post (rejected hop_limit_exceeded) run h)
        | inr hop ↦ elim (Bool-cases (forward_budget_too_small o task (o.now run.asked))) [
          | inl small ↦ rw (hop, small) (undecided-Post (rejected deadline_too_close) run h)
          | inr enough ↦
              rw (hop, enough)
                (after_loop-Post (forward_loop o task candidates none false (next run))
                  (forward_loop-LoopPost candidates none false (next run) h))
        ]
      ]

  degraded_route-Post :
      (fallbacks : List ForwardCandidate) (run : Run V)
      → IsUndecided run
      → Post (degraded_route o task fallbacks run)
  degraded_route-Post [] run h = undecided-Post (rejected renderer_degraded) run h
  degraded_route-Post (c ∷ rest) run h = forward_with_failover-Post (c ∷ rest) run h

  local_result-Post :
      (fallbacks : List ForwardCandidate) (x : Run V × Result ProcessError (TaskResult V))
      → ProcessPost x
      → Post (local_result o task fallbacks x)
  local_result-Post fallbacks (run, ok result) h = h
  local_result-Post fallbacks (run, err queue_disconnected) h = h
  local_result-Post [] (run, err no_queue) h = undecided-Post (rejected queue_full) run h
  local_result-Post [] (run, err render_admission_closed) h =
      undecided-Post (rejected renderer_degraded) run h
  local_result-Post (c ∷ rest) (run, err no_queue) h = forward_with_failover-Post (c ∷ rest) run h
  local_result-Post (c ∷ rest) (run, err render_admission_closed) h =
      forward_with_failover-Post (c ∷ rest) run h

  process_local_route-Post :
      (fallbacks : List ForwardCandidate) (run : Run V)
      → IsUndecided run
      → Post (process_local_route o task fallbacks run)
  unfolding process_local_route
  process_local_route-Post fallbacks run h = elim (Bool-cases (o.can_start_render run.asked)) [
    | inl t ↦ rw t (
        prepared-Post (o.prepare (next run).asked) (next (next run)) (local_result o task fallbacks)
          h (local_result-Post fallbacks))
    | inr f ↦ rw f (degraded_route-Post fallbacks (next run) h)
  ]

  pub follow-Post :
      (available : Bool) (d : Decision) (run : Run V)
      → IsUndecided run
      → Post (follow o task available d run)
  follow-Post available (render_local tier hint fallbacks) run h =
      process_local_route-Post fallbacks run h
  follow-Post available (forward tier candidates) run h =
      forward_with_failover-Post candidates run h
  follow-Post available reject_no_capacity run h =
      undecided-Post (rejected (if available then no_capacity else renderer_degraded)) run h
