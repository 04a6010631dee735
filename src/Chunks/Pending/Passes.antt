-- ===== src/Chunks/Pending/Passes.antt =====
-- The rounds of the scheduler of coordinator.rs, and the removal of an entry.
use biei.Prelude.{
  ℕ, ◌+◌, ◌-◌, ◌≤◌, ◌≡◌, refl, sym, subst, ◌∙◌, inl, inr, arith, Bool, true, false, List, [], ◌∷◌,
  ◌++◌, Option, none, some, if◌then◌else◌, leb, nat_Eq, length, take, length-take, length-append,
  Bool-cases,
}
use biei.Chunks.Pending.{
  TilesetFetchState, is_empty, is_drainable, retain_open, has_key, prune_cancelled_waiters,
  contiguous_chunk_ranges, max_chunk_gap, select_dispatch_groups, dispatch_groups, DispatchDecision,
  idle, throttled, move_groups, remove_drainable_state, decided, scheduler_pass,
  max_concurrent_fetches_per_tileset,
}
use biei.Chunks.Pending.Members.{
  covered-append, contains-filter, has_key-retain_open, move_groups-IsMoved,
}
use biei.Chunks.Pending.Coordinator.{Coordinator, after_pass}
use biei.Chunks.Pending.Serving.{IsServing, IsServed, is_empty-contains}

-- Pruning unschedules chunks that nobody waits for.
pub prune_cancelled_waiters-IsServing :
    (closed : ℕ → Bool) (s : TilesetFetchState) (groups : List (ℕ × ℕ)) (scheduler : Bool)
    → IsServing s groups scheduler
    → IsServing (prune_cancelled_waiters closed s).0 groups scheduler
unfolding prune_cancelled_waiters
prune_cancelled_waiters-IsServing closed s groups scheduler h =
    let kept = (retain_open closed s.waiters).0 in
    record {
      held = record {
        counted = h.held.counted;
        bounded = h.held.bounded;
        flight = h.held.flight;
        waiting = λ i w. ground (
          arith,
          h.held.waiting i (has_key-retain_open closed i s.waiters w),
          contains-filter (λ c. has_key c kept) i s.pending_chunks,
        );
      };
      running = h.running;
      pending = λ i p.
          h.pending i (ground (arith, contains-filter (λ c. has_key c kept) i s.pending_chunks));
    }

-- The groups of a dispatch join those that are being fetched.
dispatch_groups-IsServing :
    (gs : List (ℕ × ℕ)) (s : TilesetFetchState) (now : ℕ) (groups : List (ℕ × ℕ))
    → length groups + length gs ≤ max_concurrent_fetches_per_tileset
    → IsServing s groups true
    → IsServing
        (record (move_groups gs s) {
          first_pending_at =
              if is_empty (move_groups gs s).pending_chunks
              then none
              else (move_groups gs s).first_pending_at;
          inflight_fetch_count = (move_groups gs s).inflight_fetch_count + length gs;
        })
        (groups ++ gs)
        true
dispatch_groups-IsServing gs s now groups room h =
    let moved = move_groups-IsMoved gs s in
    let t = move_groups gs s in
    let total : length (groups ++ gs) ≡ length groups + length gs = length-append groups gs in
    record {
      held = record {
        counted = omega (arith, moved.counted, h.held.counted, total);
        bounded = omega (arith, total);
        flight = λ i f. ground (arith, moved.flight i, h.held.flight i, covered-append i groups gs);
        waiting = λ i w.
            let before : has_key i s.waiters ≡ true =
              subst (λ m. has_key i m ≡ true) moved.waiters w in
            ground (arith, moved.flight i, moved.pending i, h.held.waiting i before);
      };
      running = moved.running ∙ h.running;
      pending = λ i p. refl;
    }

no_groups : (groups : List (ℕ × ℕ)) → length groups ≡ 0 → groups ≡ []
no_groups [] h = refl
no_groups (g ∷ rest) h = absurd (omega arith)

-- An entry is removed only when nothing runs.
pub remove_drainable_state-IsServed :
    (s : TilesetFetchState) (groups : List (ℕ × ℕ)) (scheduler : Bool)
    → IsServing s groups scheduler
    → IsServed (remove_drainable_state s) groups scheduler
unfolding remove_drainable_state is_drainable
remove_drainable_state-IsServed s groups scheduler h = elim (Bool-cases (is_drainable s)) [
  | inl drained ↦
      let stopped : s.scheduler_running ≡ false = ground arith in
      let empty : length groups ≡ 0 = ground (arith, h.held.counted) in
      rw drained (no_groups groups empty, sym h.running ∙ stopped)
  | inr busy ↦ rw busy h
]

abbrev pub IsAttended : Coordinator → Type 0
IsAttended c = IsServed c.entry c.groups c.scheduler

dispatch_groups-IsAttended :
    (c : Coordinator) (s : TilesetFetchState) (gs : List (ℕ × ℕ)) (now : ℕ)
    → c.scheduler ≡ true
    → IsServing s c.groups true
    → length c.groups + length gs ≤ max_concurrent_fetches_per_tileset
    → IsAttended (after_pass c (decided (dispatch_groups s now gs)))
unfolding dispatch_groups
dispatch_groups-IsAttended c s [] now alive h room = rw alive h
dispatch_groups-IsAttended c s (g ∷ rest) now alive h room =
    rw alive (dispatch_groups-IsServing (g ∷ rest) s now c.groups room h)

pub scheduler_pass-IsAttended :
    (c : Coordinator) (closed : ℕ → Bool) (max_fetch now : ℕ) (entry : Option TilesetFetchState)
    → c.scheduler ≡ true
    → IsServed entry c.groups c.scheduler
    → IsAttended (after_pass c (scheduler_pass closed max_fetch now entry))
unfolding scheduler_pass select_dispatch_groups
scheduler_pass-IsAttended c closed max_fetch now none alive h = (h.0, refl)
scheduler_pass-IsAttended c closed max_fetch now (some s0) alive h0 =
    let s = (prune_cancelled_waiters closed s0).0 in
    let Goal =
      λ (x : TilesetFetchState × DispatchDecision). IsAttended (after_pass c (decided x)) in
    let h : IsServing s c.groups true =
      subst (λ b. IsServing s c.groups b) alive
        (prune_cancelled_waiters-IsServing closed s0 c.groups c.scheduler h0) in
    elim (Bool-cases (is_empty s.pending_chunks)) [
      | inl nothing ↦
          let stopped : TilesetFetchState = record s { scheduler_running = false } in
          let idles : IsServing stopped c.groups false = record {
            held = record {
              counted = h.held.counted;
              bounded = h.held.bounded;
              flight = h.held.flight;
              waiting = h.held.waiting;
            };
            running = refl;
            pending = λ i p. cc (is_empty-contains i s.pending_chunks nothing);
          } in
          let step : select_dispatch_groups s max_fetch now ≡ (stopped, idle) = rw nothing refl in
          subst Goal (sym step) (remove_drainable_state-IsServed stopped c.groups false idles)
      | inr work ↦
          elim (Bool-cases (leb max_concurrent_fetches_per_tileset s.inflight_fetch_count)) [
            | inl full ↦
                let step : select_dispatch_groups s max_fetch now ≡ (s, throttled) =
                  rw (work, full) refl in
                subst Goal (sym step) (rw alive h)
            | inr slots ↦
                let ranges = contiguous_chunk_ranges s.pending_chunks max_fetch max_chunk_gap in
                let free = max_concurrent_fetches_per_tileset - s.inflight_fetch_count in
                let step : select_dispatch_groups s max_fetch now
                    ≡ dispatch_groups s now (take free ranges) =
                  rw (work, slots) refl in
                subst Goal (sym step) (
                  dispatch_groups-IsAttended c s (take free ranges) now alive h
                    (omega (arith, length-take free ranges, h.held.counted, h.held.bounded)))
          ]
    ]
