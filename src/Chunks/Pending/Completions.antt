-- ===== src/Chunks/Pending/Completions.antt =====
-- The completion of a fetch group of coordinator.rs.
use biei.Prelude.{
  ℕ, suc, ◌+◌, ◌-◌, ◌≡◌, refl, sym, ap, ◌∙◌, arith, Bool, true, not, ◌&&◌, List, [], ◌∷◌, ◌++◌,
  Option, none, some, Result, nat_Eq, contains, without, erase, length, length-append,
}
use biei.Chunks.Error.{ChunkFetchError}
use biei.Chunks.Store.{Bytes}
use biei.Chunks.Pending.{
  TilesetFetchState, waiters_of, has_key, chunks_in, release_chunks, complete_group,
  complete_dispatched_group, Delivery, send_all, chunk_result,
}
use biei.Chunks.Pending.Members.{
  covered-append, contains-without, contains-chunks_in, has_key-erase,
}
use biei.Chunks.Pending.Serving.{IsServing, IsServed}
use biei.Chunks.Pending.Passes.{remove_drainable_state-IsServed}

-- What the loop of `complete_group` takes away.
pub record IsReleased (cs : List ℕ) (s t : TilesetFetchState) : Type 0 where
  pub flight :
      (i : ℕ) → contains i t.inflight_chunks ≡ (not (contains i cs) && contains i s.inflight_chunks)
  pub waiting : (i : ℕ) → has_key i t.waiters ≡ (not (contains i cs) && has_key i s.waiters)
  pub pending : t.pending_chunks ≡ s.pending_chunks
  pub running : t.scheduler_running ≡ s.scheduler_running
  pub counted : t.inflight_fetch_count ≡ s.inflight_fetch_count

pub release_chunks-IsReleased :
    (closed : ℕ → Bool) (result : Result ChunkFetchError (List (ℕ × Bytes))) (cs : List ℕ)
    (s : TilesetFetchState) (d : Delivery)
    → IsReleased cs s (release_chunks closed result cs s d).0
unfolding release_chunks
release_chunks-IsReleased closed result [] s d = record {
  flight = λ i. refl;
  waiting = λ i. refl;
  pending = refl;
  running = refl;
  counted = refl;
}
release_chunks-IsReleased closed result (c ∷ rest) s d =
    let s' : TilesetFetchState = record s {
      inflight_chunks = without c s.inflight_chunks;
      waiters = erase c s.waiters;
    } in
    let later =
      release_chunks-IsReleased closed result rest s'
        (send_all closed (chunk_result result c) (waiters_of c s.waiters) d) in
    record {
      flight = λ i. ground (arith, later.flight i, contains-without i c s.inflight_chunks);
      waiting = λ i. ground (arith, later.waiting i, has_key-erase i c s.waiters);
      pending = later.pending;
      running = later.running;
      counted = later.counted;
    }

pub complete_group-IsServing :
    (closed : ℕ → Bool) (range : ℕ × ℕ) (result : Result ChunkFetchError (List (ℕ × Bytes)))
    (s : TilesetFetchState) (before after : List (ℕ × ℕ)) (scheduler : Bool)
    → IsServing s (before ++ (range ∷ after)) scheduler
    → IsServing (complete_group closed range result s).0 (before ++ after) scheduler
unfolding complete_group
complete_group-IsServing closed range result s before after scheduler h =
    let s' : TilesetFetchState = record s { inflight_fetch_count = s.inflight_fetch_count - 1 } in
    let d : Delivery = record { delivered = []; cancelled = 0 } in
    let t = (release_chunks closed result (chunks_in range) s' d).0 in
    let gone = release_chunks-IsReleased closed result (chunks_in range) s' d in
    let n1 : length (before ++ (range ∷ after)) ≡ length before + suc (length after) =
      length-append before (range ∷ after) in
    let n2 : length (before ++ after) ≡ length before + length after = length-append before after in
    record {
      held = record {
        counted = omega (arith, gone.counted, h.held.counted);
        bounded = omega (arith, h.held.bounded);
        flight = λ i f. ground (
          arith,
          gone.flight i,
          contains-chunks_in i range,
          h.held.flight i,
          covered-append i before (range ∷ after),
          covered-append i before after,
        );
        waiting = λ i w.
            let kept : (not (contains i (chunks_in range)) && has_key i s.waiters) ≡ true =
              sym (gone.waiting i) ∙ w in
            let still : contains i t.pending_chunks ≡ contains i s.pending_chunks =
              ap (contains i) gone.pending in
            ground (arith, kept, gone.flight i, still, h.held.waiting i);
      };
      running = gone.running ∙ h.running;
      pending = λ i p. h.pending i (sym (ap (contains i) gone.pending) ∙ p);
    }

pub complete_dispatched_group-IsServed :
    (closed : ℕ → Bool) (range : ℕ × ℕ) (result : Result ChunkFetchError (List (ℕ × Bytes)))
    (entry : Option TilesetFetchState) (before after : List (ℕ × ℕ)) (scheduler : Bool)
    → IsServed entry (before ++ (range ∷ after)) scheduler
    → IsServed (complete_dispatched_group closed range result entry).0 (before ++ after) scheduler
unfolding complete_dispatched_group
complete_dispatched_group-IsServed closed range result none [] after scheduler h = absurd (cc (h.0))
complete_dispatched_group-IsServed closed range result none (g ∷ before) after scheduler h =
    absurd (cc (h.0))
complete_dispatched_group-IsServed closed range result (some s) before after scheduler h =
    remove_drainable_state-IsServed (complete_group closed range result s).0 (before ++ after)
      scheduler (complete_group-IsServing closed range result s before after scheduler h)
