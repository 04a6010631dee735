-- ===== src/Nodes/Outcomes.antt =====
-- Outcomes of tasks, as in types.rs, and what a node of node.rs asks of its surroundings. Times are
-- in nanoseconds.
use Prim.Native.String.{String}
use biei.Prelude.{ℕ, ◌+◌, ◌*◌, Bool, true, false, List, [], Option, none, some, Result}

pub data RejectionReason : Type 0 where
  queue_full no_capacity renderer_degraded drain_too_slow unknown_style hop_limit_exceeded
        forward_failed deadline_too_close deadline_exceeded :
      RejectionReason

pub data FailureKind : Type 0 where
  render_timeout renderer_dead style_unavailable style_not_ready source_unavailable
        preparation_timeout other :
      FailureKind

-- `TaskResult`.
pub data TaskResult (V : Type 0) : Type 0 where
  completed : V → TaskResult V
  rejected : RejectionReason → TaskResult V
  failed : FailureKind → TaskResult V

pub data ProcessError : Type 0 where
  no_queue render_admission_closed queue_disconnected : ProcessError

-- What `WorkerPool::process` answers.
pub data PoolAnswer (V : Type 0) : Type 0 where
  done : TaskResult V → PoolAnswer V
  full disconnected : PoolAnswer V

-- What the transport answers, up to the deadline.
pub data SendAnswer (V : Type 0) : Type 0 where
  late : SendAnswer V
  responded : TaskResult V → SendAnswer V
  retryable fatal : SendAnswer V

pub data Call (V : Type 0) : Type 0 where
  processed : PoolAnswer V → Call V
  sent : String → SendAnswer V → Call V

abbrev pub min_forward_budget : ℕ
min_forward_budget = 200 * 1000000

abbrev pub max_forwarding_hops : ℕ
max_forwarding_hops = 1

-- `is_retryable_at_forward`.
abbrev pub is_retryable_at_forward : RejectionReason → Bool
is_retryable_at_forward queue_full = true
is_retryable_at_forward no_capacity = true
is_retryable_at_forward renderer_degraded = true
is_retryable_at_forward drain_too_slow = true
is_retryable_at_forward _ = false

-- What the node reads of a task.
pub record Task : Type 0 where
  pub deadline : ℕ
  pub forwarding_hops : ℕ

-- The answers, by the number of the question.
pub record Outside (V : Type 0) : Type 0 where
  pub now : ℕ → ℕ
  pub can_start_render : ℕ → Bool
  pub prepare : ℕ → Result FailureKind (Unit {0})
  pub process : ℕ → PoolAnswer V
  pub send : ℕ → String → SendAnswer V

-- How many questions were asked, the calls, the outcomes that a leader offered to the cache, and
-- the styles that were marked as failed.
pub record Run (V : Type 0) : Type 0 where
  pub asked : ℕ
  pub calls : List (Call V)
  pub offered : List (TaskResult V)
  pub style_failures : ℕ

abbrev pub new_run : {V : Type 0} → Run V
new_run = record { asked = 0; calls = []; offered = []; style_failures = 0 }

abbrev pub next : {V : Type 0} → Run V → Run V
next run = record run { asked = run.asked + 1 }

-- `Failed` by an unavailable style.
abbrev pub is_style_failure : {V : Type 0} → TaskResult V → Bool
is_style_failure (failed style_unavailable) = true
is_style_failure _ = false

-- `TaskMeta::process_error_outcome`.
abbrev pub process_error_outcome : {V : Type 0} → ProcessError → TaskResult V
process_error_outcome no_queue = rejected queue_full
process_error_outcome render_admission_closed = rejected renderer_degraded
process_error_outcome queue_disconnected = failed other

-- How the loop over the candidates ends.
pub data LoopEnd (V : Type 0) : Type 0 where
  finished : TaskResult V → LoopEnd V
  exhausted : Option RejectionReason → Bool → LoopEnd V

-- `last_retryable_rejection.unwrap_or(…)`.
abbrev pub exhaustion_reason : Option RejectionReason → Bool → RejectionReason
exhaustion_reason (some reason) saw_transport_failure = reason
exhaustion_reason none true = forward_failed
exhaustion_reason none false = no_capacity
