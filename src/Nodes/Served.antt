-- ===== src/Nodes/Served.antt =====
-- What `Node::handle_incoming` and `Node::handle_forwarded` of node.rs do to a task from its start.
use biei.Prelude.{
  ℕ, ◌+◌, if◌then◌else◌, ◌&&◌, ap, sym, subst, ◌||◌, ◌≡◌, refl, inl, inr, Bool, not, true, false,
  List, [], ◌∷◌, Result, ok, err, leb, Bool-cases,
}
use biei.Dispatch.Decide.{Decision}
use biei.Renders.Outputs.{Lookup, disabled, hit, leads, waits}
use biei.Nodes.Outcomes.{
  deadline_exceeded, queue_full, other, full, disconnected, FailureKind, TaskResult, PoolAnswer,
  Call, rejected, failed, done, processed, sent, Task, Outside, Run, new_run, next,
  is_style_failure,
}
use biei.Nodes.Handling.{
  follow, incoming_miss, record_process, pool_result, process_local_task, offer_outcome,
  acquire_render_output_cache, handle_incoming, forwarded_result, forwarded_prepared,
  forwarded_miss, handle_forwarded,
}
use biei.Nodes.Once.{IsOnce, IsOpen, IsUndecided, Post, undecided-Post, follow-Post}

-- What a task that was forwarded gets from an answer of the pool.
abbrev pub pool_outcome : {V : Type 0} → PoolAnswer V → TaskResult V
pool_outcome (done result) = result
pool_outcome full = rejected queue_full
pool_outcome disconnected = failed other

-- The calls are none, or one of the pool that gave the result.
abbrev pub IsPooled : {V : Type 0} → TaskResult V → List (Call V) → Type 0
IsPooled result [] = Unit {0}
IsPooled result (processed answer ∷ []) = result ≡ pool_outcome answer
IsPooled result (processed answer ∷ c ∷ rest) = ⊥
IsPooled result (sent node answer ∷ rest) = ⊥

-- A lookup, or the last recheck of a follower, makes the caller a leader.
abbrev pub elects : {K V : Type 0} → List (Lookup K V) → Bool
elects [] = false
elects (disabled ∷ rest) = false
elects (hit output ∷ rest) = false
elects (leads leader ∷ rest) = true
elects (waits channel ∷ rest) = elects rest

-- The caller leads, comes in before the deadline, and has the view of the cluster before it.
abbrev pub serves : {K V : Type 0} → Outside V → Task → List (Lookup K V) → Bool → Bool
serves o task lookups loaded =
    elects lookups
    && (not (leb task.deadline (o.now 0)) && (loaded && not (leb task.deadline (o.now 2))))

-- The last call may have decided the result and no other did, and the cache was offered the result
-- if `offers`, and else nothing.
abbrev pub IsServedOnce : {V : Type 0} → Bool → Run V × TaskResult V → Type 0
IsServedOnce offers (run, result) =
    IsOnce result run.calls × (run.offered ≡ (if offers then result ∷ [] else []))

-- The caller knows whether it leads, one question later, or has its result.
abbrev IsAcquired : {V : Type 0} → Bool → ℕ → Run V × Result (TaskResult V) Bool → Type 0
IsAcquired elected asked (run, err result) = elected ≡ false
IsAcquired elected asked (run, ok is_leader) = (is_leader ≡ elected) × (run.asked ≡ asked + 1)

and_nothing : (b : Bool) → (b && false) ≡ false
and_nothing true = refl
and_nothing false = refl

and_everything : (b : Bool) → (b && true) ≡ b
and_everything true = refl
and_everything false = refl

not_both : (a b : Bool) → (not a || b) ≡ true → (a && not b) ≡ false
not_both true true h = refl
not_both true false h = absurd (cc)
not_both false b h = refl

both : (a b : Bool) → (not a || b) ≡ false → (a && not b) ≡ true
both true true h = absurd (cc)
both true false h = refl
both false b h = absurd (cc)

module _ {V : Type 0} (o : Outside V) (task : Task) where
  offer_outcome-IsServedOnce :
      (is_leader : Bool) (x : Run V × TaskResult V)
      → Post x
      → IsServedOnce is_leader (offer_outcome o task is_leader x)
  offer_outcome-IsServedOnce true (run, result) h = (h.0, ap (λ offered. result ∷ offered) h.1)
  offer_outcome-IsServedOnce false (run, result) h = h

  undecided-IsServedOnce :
      (offers : Bool) (result : TaskResult V) (run : Run V)
      → offers ≡ false
      → IsUndecided run
      → IsServedOnce offers (run, result)
  undecided-IsServedOnce offers result run never h = rw never (undecided-Post result run h)

  acquire_render_output_cache-IsAcquired :
      {K : Type 0} (lookups : List (Lookup K V)) (run : Run V)
      → IsAcquired (elects lookups) run.asked (acquire_render_output_cache o task false lookups run)
  unfolding acquire_render_output_cache
  acquire_render_output_cache-IsAcquired [] run = refl
  acquire_render_output_cache-IsAcquired (disabled ∷ rest) run = (refl, refl)
  acquire_render_output_cache-IsAcquired (hit output ∷ rest) run = refl
  acquire_render_output_cache-IsAcquired (leads leader ∷ rest) run = (refl, refl)
  acquire_render_output_cache-IsAcquired (waits channel ∷ rest) run =
      acquire_render_output_cache-IsAcquired rest run

  acquire_render_output_cache-calls :
      {K : Type 0} (requires_local : Bool) (lookups : List (Lookup K V)) (run : Run V)
      → let end = (acquire_render_output_cache o task requires_local lookups run).0 in
        (end.calls ≡ run.calls) × (end.offered ≡ run.offered)
  unfolding acquire_render_output_cache
  acquire_render_output_cache-calls requires_local [] run = (refl, refl)
  acquire_render_output_cache-calls requires_local (disabled ∷ rest) run =
      elim (Bool-cases (requires_local && not (o.can_start_render run.asked))) [
        | inl t ↦ rw t (refl, refl)
        | inr f ↦ rw f (refl, refl)
      ]
  acquire_render_output_cache-calls requires_local (hit output ∷ rest) run = (refl, refl)
  acquire_render_output_cache-calls requires_local (leads leader ∷ rest) run =
      elim (Bool-cases (requires_local && not (o.can_start_render run.asked))) [
        | inl t ↦ rw t (refl, refl)
        | inr f ↦ rw f (refl, refl)
      ]
  acquire_render_output_cache-calls requires_local (waits channel ∷ rest) run =
      acquire_render_output_cache-calls requires_local rest run

  incoming_miss-IsServedOnce :
      (elected loaded : Bool) (decide : Bool → Decision) (asked : ℕ)
      (x : Run V × Result (TaskResult V) Bool)
      → IsUndecided x.0
      → IsAcquired elected asked x
      → IsServedOnce
          (elected && (loaded && not (leb task.deadline (o.now (asked + 1)))))
          (incoming_miss o task loaded decide x)
  incoming_miss-IsServedOnce elected loaded decide asked (run, err result) h k =
      undecided-IsServedOnce _ result run (rw k refl) h
  incoming_miss-IsServedOnce elected loaded decide asked (run, ok is_leader) h k =
      let late = leb task.deadline (o.now run.asked) in
      let at : leb task.deadline (o.now (asked + 1)) ≡ late =
        ap (λ n. leb task.deadline (o.now n)) (sym k.1) in
      elim (Bool-cases (not loaded || late)) [
        | inl t ↦ rw t (
            undecided-IsServedOnce _ (rejected deadline_exceeded) (next run)
              (rw (at, not_both loaded late t) (and_nothing elected)) h)
        | inr f ↦
            let available = o.can_start_render (next run).asked in
            let offers : (elected && (loaded && not (leb task.deadline (o.now (asked + 1)))))
                ≡ is_leader =
              rw (at, both loaded late f, k.0) (and_everything elected) in
            rw (f, offers)
              (offer_outcome-IsServedOnce is_leader
                (follow o task available (decide available) (next (next run)))
                (follow-Post o task available (decide available) (next (next run)) h))
      ]

  -- Whatever the clock, the admission, the pool and the peers answer, only the last call of a task
  -- that comes in may decide an outcome, and then the task gets that outcome. A call decides one
  -- unless it is a full queue, a rejection that asks to try elsewhere, or a failure of the
  -- transport. A caller that leads, with the view loaded and neither check of the deadline failed,
  -- offers the cache exactly the outcome that the task gets, once; any other offers nothing.
  pub handle_incoming-IsServedOnce :
      {K : Type 0} (lookups : List (Lookup K V)) (loaded : Bool) (decide : Bool → Decision)
      → IsServedOnce
          (serves o task lookups loaded)
          (handle_incoming o task lookups loaded decide new_run)
  unfolding handle_incoming
  handle_incoming-IsServedOnce lookups loaded decide =
      elim (Bool-cases (leb task.deadline (o.now 0))) [
        | inl t ↦ rw (t, and_nothing (elects lookups)) (tt, refl)
        | inr f ↦
            let run = next (new_run {V = V}) in
            let same = acquire_render_output_cache-calls false lookups run in
            rw f (
              incoming_miss-IsServedOnce (elects lookups) loaded decide 1
                (acquire_render_output_cache o task false lookups run)
                (subst IsOpen (sym same.0) tt, same.1)
                (acquire_render_output_cache-IsAcquired lookups run))
      ]

  abbrev PooledPost : Run V × TaskResult V → Type 0
  PooledPost (run, result) = IsPooled result run.calls

  pool_result-PooledPost :
      (run : Run V) (answer : PoolAnswer V)
      → run.calls ≡ []
      → PooledPost
          (forwarded_result o task (pool_result o task (record_process o task run answer) answer))
  pool_result-PooledPost run (done result) h = elim (Bool-cases (is_style_failure result)) [
    | inl t ↦ rw (t, h) refl
    | inr f ↦ rw (f, h) refl
  ]
  pool_result-PooledPost run full h = rw h refl
  pool_result-PooledPost run disconnected h = rw h refl

  process_local_task-PooledPost :
      (run : Run V)
      → run.calls ≡ []
      → PooledPost (forwarded_result o task (process_local_task o task run))
  unfolding process_local_task
  process_local_task-PooledPost run h = elim (Bool-cases (o.can_start_render run.asked)) [
    | inl t ↦ rw t (pool_result-PooledPost (next run) (o.process (next run).asked) h)
    | inr f ↦ rw (f, h) tt
  ]

  offer_outcome-PooledPost :
      (is_leader : Bool) (x : Run V × TaskResult V)
      → PooledPost x
      → PooledPost (offer_outcome o task is_leader x)
  offer_outcome-PooledPost true (run, result) h = h
  offer_outcome-PooledPost false (run, result) h = h

  forwarded_prepared-PooledPost :
      (is_leader : Bool) (profile : Result FailureKind (Unit {0})) (run : Run V)
      → run.calls ≡ []
      → PooledPost (forwarded_prepared o task is_leader profile run)
  forwarded_prepared-PooledPost is_leader (err kind) run h = rw h tt
  forwarded_prepared-PooledPost is_leader (ok u) run h =
      offer_outcome-PooledPost is_leader (forwarded_result o task (process_local_task o task run))
        (process_local_task-PooledPost run h)

  forwarded_miss-PooledPost :
      (x : Run V × Result (TaskResult V) Bool)
      → x.0.calls ≡ []
      → PooledPost (forwarded_miss o task x)
  forwarded_miss-PooledPost (run, err result) h = rw h tt
  forwarded_miss-PooledPost (run, ok is_leader) h =
      forwarded_prepared-PooledPost is_leader (o.prepare run.asked) (next run) h

  -- A task that another node forwarded is never sent on, whatever the answers: there is no call at
  -- all, or one call of the pool of this node, and then the task gets what the pool answered, a
  -- full queue as a rejection and a lost worker as a failure.
  pub handle_forwarded-IsPooled :
      {K : Type 0} (lookups : List (Lookup K V)) (known : Bool)
      → let end = handle_forwarded o task lookups known new_run in IsPooled end.1 end.0.calls
  unfolding handle_forwarded
  handle_forwarded-IsPooled lookups known = elim (Bool-cases (not known)) [
    | inl t ↦ rw t tt
    | inr f ↦ elim (Bool-cases (leb task.deadline (o.now 0))) [
      | inl over ↦ rw (f, over) tt
      | inr early ↦
          rw (f, early)
            (forwarded_miss-PooledPost
              (acquire_render_output_cache o task true lookups (next (new_run {V = V})))
              (acquire_render_output_cache-calls true lookups (next (new_run {V = V}))).0)
    ]
  ]
