-- ===== src/Chunks/Pending/Requests.antt =====
-- Callers that ask for chunks of coordinator.rs, and callers that leave.
use biei.Prelude.{
  ℕ, ◌+◌, ◌≡◌, refl, ◌∙◌, inl, inr, arith, Bool, not, ◌&&◌, List, [], ◌∷◌, ◌++◌, Option, none, some,
  nat_Eq, contains, Bool-cases, max,
}
use biei.Chunks.Pending.{
  TilesetFetchState, new_state, or_new, is_empty, enqueue_chunk, enqueue_chunks, waiters_of,
  request_chunks,
}
use biei.Chunks.Pending.Members.{contains-set_insert, has_key-insert}
use biei.Chunks.Pending.Coordinator.{started}
use biei.Chunks.Pending.Serving.{IsHeld, IsServing, IsServed, is_empty-contains}

-- A caller registers for a chunk.
enqueue_chunk-IsHeld :
    (s : TilesetFetchState) (tx now c : ℕ) (groups : List (ℕ × ℕ))
    → IsHeld s groups
    → IsHeld (enqueue_chunk s tx now c).0 groups
      × ((enqueue_chunk s tx now c).0.scheduler_running ≡ s.scheduler_running)
unfolding enqueue_chunk
enqueue_chunk-IsHeld s tx now c groups h =
    let ws = waiters_of c s.waiters ++ (tx ∷ []) in
    elim (Bool-cases (contains c s.inflight_chunks)) [
      | inl flying ↦ rw flying (
        record {
          counted = h.counted;
          bounded = h.bounded;
          flight = h.flight;
          waiting = λ i w. ground (arith, h.waiting i, has_key-insert i c ws s.waiters);
        },
        refl,
      )
      | inr grounded ↦ elim (Bool-cases (contains c s.pending_chunks)) [
        | inl queued ↦
            rw (grounded, queued)
              (
                record {
                  counted = h.counted;
                  bounded = h.bounded;
                  flight = h.flight;
                  waiting = λ i w. ground (arith, h.waiting i, has_key-insert i c ws s.waiters);
                },
                refl,
              )
        | inr fresh ↦
            rw (grounded, fresh)
              (
                record {
                  counted = h.counted;
                  bounded = h.bounded;
                  flight = h.flight;
                  waiting = λ i w. ground (
                    arith,
                    h.waiting i,
                    has_key-insert i c ws s.waiters,
                    contains-set_insert i c s.pending_chunks,
                  );
                },
                refl,
              )
      ]
    ]

enqueue_chunks-IsHeld :
    (list : List ℕ) (s : TilesetFetchState) (tx now : ℕ) (groups : List (ℕ × ℕ))
    → IsHeld s groups
    → IsHeld (enqueue_chunks s tx now list).0 groups
      × ((enqueue_chunks s tx now list).0.scheduler_running ≡ s.scheduler_running)
unfolding enqueue_chunks
enqueue_chunks-IsHeld [] s tx now groups h = (h, refl)
enqueue_chunks-IsHeld (c ∷ rest) s tx now groups h =
    let (h1, e1) = enqueue_chunk-IsHeld s tx now c groups h in
    let (h2, e2) = enqueue_chunks-IsHeld rest (enqueue_chunk s tx now c).0 (tx + 1) now groups h1 in
    (h2, e2 ∙ e1)

new_state-IsHeld : IsHeld new_state []
new_state-IsHeld = record {
  counted = refl;
  bounded = omega arith;
  flight = λ i h. absurd (cc);
  waiting = λ i h. absurd (cc);
}

or_new-IsHeld :
    (entry : Option TilesetFetchState) (groups : List (ℕ × ℕ)) (scheduler : Bool)
    → IsServed entry groups scheduler
    → IsHeld (or_new entry) groups × ((or_new entry).scheduler_running ≡ scheduler)
or_new-IsHeld none groups scheduler h = rw (h.0, h.1) (new_state-IsHeld, refl)
or_new-IsHeld (some s) groups scheduler h = (h.held, h.running)

pub request_chunks-IsServing :
    (entry : Option TilesetFetchState) (groups : List (ℕ × ℕ)) (scheduler : Bool) (tx now : ℕ)
    (required : List ℕ) (len : ℕ)
    → IsServed entry groups scheduler
    → IsServing
        (request_chunks entry tx now required len).0
        groups
        (started (request_chunks entry tx now required len).2 scheduler)
unfolding request_chunks
request_chunks-IsServing entry groups scheduler tx now required len h =
    let (held, running) = or_new-IsHeld entry groups scheduler h in
    let s : TilesetFetchState = record (or_new entry) {
      archive_len = max (or_new entry).archive_len len;
    } in
    let held' : IsHeld s groups = record {
      counted = held.counted;
      bounded = held.bounded;
      flight = held.flight;
      waiting = held.waiting;
    } in
    let (kept, same) = enqueue_chunks-IsHeld required s tx now groups held' in
    let s' = (enqueue_chunks s tx now required).0 in
    elim (Bool-cases (not s'.scheduler_running && not (is_empty s'.pending_chunks))) [
      | inl starts ↦ rw starts (record {
        held = record {
          counted = kept.counted;
          bounded = kept.bounded;
          flight = kept.flight;
          waiting = kept.waiting;
        };
        running = refl;
        pending = λ i p. refl;
      })
      | inr goes_on ↦ rw goes_on (record {
        held = kept;
        running = same ∙ running;
        pending = λ i p. ground (arith, same, running, is_empty-contains i s'.pending_chunks);
      })
    ]
