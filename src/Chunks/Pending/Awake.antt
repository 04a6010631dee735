-- ===== src/Chunks/Pending/Awake.antt =====
-- The scheduler of coordinator.rs that waits for capacity is notified.
use biei.Prelude.{
  ℕ, zero, suc, ◌+◌, ◌-◌, ◌<◌, ◌≡◌, refl, sym, ap, ◌∙◌, subst, inl, inr, arith, Bool, true, false,
  not, ◌&&◌, ◌||◌, List, [], ◌∷◌, Option, none, some, Result, leb, ltb, ◌==◌, nat_Eq, contains,
  length, take, max, Bool-cases,
}
use biei.Chunks.Error.{ChunkFetchError}
use biei.Chunks.Store.{Bytes}
use biei.Chunks.Pending.{
  TilesetFetchState, is_empty, is_drainable, set_insert, enqueue_chunk, enqueue_chunks,
  request_chunks, prune_cancelled_waiters, group_chunks, contiguous_chunk_ranges, max_chunk_gap,
  select_dispatch_groups, dispatch_groups, DispatchDecision, idle, throttled,
  remove_drainable_state, decided, scheduler_pass, chunks_in, max_concurrent_fetches_per_tileset,
  complete_group, complete_dispatched_group, Delivery, release_chunks,
}
use biei.Chunks.Pending.Serving.{IsServed}
use biei.Chunks.Pending.Coordinator.{Coordinator, after_pass, started}
use biei.Chunks.Pending.Passes.{prune_cancelled_waiters-IsServing}
use biei.Chunks.Pending.Completions.{release_chunks-IsReleased}

abbrev pub has_work : Option TilesetFetchState → Bool
has_work none = false
has_work (some s) = not (is_empty s.pending_chunks)

-- A notification is stored, or all the groups are taken, so that the next completion notifies.
abbrev pub is_awaited : Coordinator → Bool
is_awaited c = c.permit || leb max_concurrent_fetches_per_tileset (length c.groups)

-- A scheduler that waits for capacity is alive, has pending chunks, and will be notified.
abbrev pub IsAwake : Coordinator → Type 0
IsAwake c =
    c.parked ≡ true → (has_work c.entry ≡ true) × (c.scheduler ≡ true) × (is_awaited c ≡ true)

-- A request leaves the pending chunks pending.
set_insert-is_empty : (x : ℕ) (xs : List ℕ) → is_empty (set_insert x xs) ≡ false
set_insert-is_empty x [] = refl
set_insert-is_empty x (y ∷ ys) = elim (Bool-cases (ltb x y)) [
  | inl t ↦ rw t refl
  | inr f ↦ elim (Bool-cases (x == y)) [ inl t ↦ rw (f, t) refl | inr g ↦ rw (f, g) refl ]
]

enqueue_chunk-is_empty :
    (s : TilesetFetchState) (tx now c : ℕ)
    → is_empty s.pending_chunks ≡ false
    → is_empty (enqueue_chunk s tx now c).0.pending_chunks ≡ false
unfolding enqueue_chunk
enqueue_chunk-is_empty s tx now c h = elim (Bool-cases (contains c s.inflight_chunks)) [
  | inl flying ↦ rw flying h
  | inr grounded ↦ elim (Bool-cases (contains c s.pending_chunks)) [
    | inl queued ↦ rw (grounded, queued) h
    | inr fresh ↦ rw (grounded, fresh) (set_insert-is_empty c s.pending_chunks)
  ]
]

enqueue_chunks-is_empty :
    (list : List ℕ) (s : TilesetFetchState) (tx now : ℕ)
    → is_empty s.pending_chunks ≡ false
    → is_empty (enqueue_chunks s tx now list).0.pending_chunks ≡ false
unfolding enqueue_chunks
enqueue_chunks-is_empty [] s tx now h = h
enqueue_chunks-is_empty (c ∷ rest) s tx now h =
    enqueue_chunks-is_empty rest (enqueue_chunk s tx now c).0 (tx + 1) now
      (enqueue_chunk-is_empty s tx now c h)

pub request_chunks-has_work :
    (entry : Option TilesetFetchState) (tx now : ℕ) (required : List ℕ) (len : ℕ)
    → has_work entry ≡ true
    → has_work (some (request_chunks entry tx now required len).0) ≡ true
unfolding request_chunks
request_chunks-has_work none tx now required len h = absurd (cc)
request_chunks-has_work (some e) tx now required len h =
    let s : TilesetFetchState = record e { archive_len = max e.archive_len len } in
    let s' = (enqueue_chunks s tx now required).0 in
    let busy : is_empty e.pending_chunks ≡ false = ground (arith, h) in
    let kept : is_empty s'.pending_chunks ≡ false =
      enqueue_chunks-is_empty required s tx now busy in
    elim (Bool-cases (not s'.scheduler_running && not (is_empty s'.pending_chunks))) [
      | inl starts ↦ rw (starts, kept) refl
      | inr goes_on ↦ rw (goes_on, kept) refl
    ]

pub started_alive : (o : Option Bool) → started o true ≡ true
started_alive none = refl
started_alive (some b) = refl

-- Pending chunks are cut into at least one range, and free capacity takes one.
group_chunks-is_empty :
    (max_fetch gap start end : ℕ) (list : List ℕ)
    → is_empty (group_chunks max_fetch gap start end list) ≡ false
unfolding group_chunks
group_chunks-is_empty max_fetch gap start end [] = refl
group_chunks-is_empty max_fetch gap start end (c ∷ rest) =
    elim (Bool-cases (leb c (end + gap) && leb (c + 1 - start) max_fetch)) [
      | inl t ↦
          let step : group_chunks max_fetch gap start end (c ∷ rest)
              ≡ group_chunks max_fetch gap start (c + 1) rest =
            rw (group_chunks, t) refl in
          ap is_empty step ∙ group_chunks-is_empty max_fetch gap start (c + 1) rest
      | inr f ↦
          let step : group_chunks max_fetch gap start end (c ∷ rest)
              ≡ (start, end) ∷ group_chunks max_fetch gap c (c + 1) rest =
            rw (group_chunks, f) refl in
          ap is_empty step
    ]

contiguous_chunk_ranges-is_empty :
    (list : List ℕ) (max_fetch gap : ℕ)
    → is_empty list ≡ false
    → is_empty (contiguous_chunk_ranges list max_fetch gap) ≡ false
unfolding contiguous_chunk_ranges
contiguous_chunk_ranges-is_empty [] max_fetch gap h = absurd (cc)
contiguous_chunk_ranges-is_empty (start ∷ rest) max_fetch gap h =
    group_chunks-is_empty (max max_fetch 1) gap start (start + 1) rest

take-is_empty :
    (n : ℕ) (xs : List (ℕ × ℕ)) → 0 < n → is_empty xs ≡ false → is_empty (take n xs) ≡ false
take-is_empty zero xs n h = absurd (omega arith)
take-is_empty (suc n) [] p h = absurd (cc)
take-is_empty (suc n) (x ∷ xs) p h = refl

dispatch_groups-IsAwake :
    (c : Coordinator) (s : TilesetFetchState) (now : ℕ) (gs : List (ℕ × ℕ))
    → is_empty gs ≡ false
    → c.parked ≡ false
    → IsAwake (after_pass c (decided (dispatch_groups s now gs)))
unfolding dispatch_groups
dispatch_groups-IsAwake c s now [] h free parked = absurd (cc)
dispatch_groups-IsAwake c s now (g ∷ rest) h free parked = absurd (cc)

-- The scheduler waits only while all the groups are taken.
pub scheduler_pass-IsAwake :
    (c : Coordinator) (closed : ℕ → Bool) (max_fetch now : ℕ) (entry : Option TilesetFetchState)
    → c.scheduler ≡ true
    → c.parked ≡ false
    → IsServed entry c.groups c.scheduler
    → IsAwake (after_pass c (scheduler_pass closed max_fetch now entry))
unfolding scheduler_pass select_dispatch_groups
scheduler_pass-IsAwake c closed max_fetch now none alive free h = λ parked. absurd (cc)
scheduler_pass-IsAwake c closed max_fetch now (some s0) alive free h0 =
    let s = (prune_cancelled_waiters closed s0).0 in
    let Goal = λ (x : TilesetFetchState × DispatchDecision). IsAwake (after_pass c (decided x)) in
    let h = (prune_cancelled_waiters-IsServing closed s0 c.groups c.scheduler h0).held in
    elim (Bool-cases (is_empty s.pending_chunks)) [
      | inl nothing ↦
          let stopped : TilesetFetchState = record s { scheduler_running = false } in
          let step : select_dispatch_groups s max_fetch now ≡ (stopped, idle) = rw nothing refl in
          subst Goal (sym step) (λ parked. absurd (cc))
      | inr work ↦
          elim (Bool-cases (leb max_concurrent_fetches_per_tileset s.inflight_fetch_count)) [
            | inl full ↦
                let step : select_dispatch_groups s max_fetch now ≡ (s, throttled) =
                  rw (work, full) refl in
                let taken : leb max_concurrent_fetches_per_tileset (length c.groups) ≡ true =
                  ap (leb max_concurrent_fetches_per_tileset) (sym h.counted) ∙ full in
                subst Goal (sym step) (λ parked. (rw work refl, alive, ground (arith, taken)))
            | inr slots ↦
                let ranges = contiguous_chunk_ranges s.pending_chunks max_fetch max_chunk_gap in
                let room = max_concurrent_fetches_per_tileset - s.inflight_fetch_count in
                let step : select_dispatch_groups s max_fetch now
                    ≡ dispatch_groups s now (take room ranges) =
                  rw (work, slots) refl in
                let some_room : 0 < room = ground (arith, slots) in
                subst Goal (sym step) (
                  dispatch_groups-IsAwake c s now (take room ranges)
                    (take-is_empty room ranges some_room (
                      contiguous_chunk_ranges-is_empty s.pending_chunks max_fetch max_chunk_gap
                        work))
                    free)
          ]
    ]

-- A completion keeps what is pending, and notifies when all the groups were taken.
pub complete_dispatched_group-has_work :
    (closed : ℕ → Bool) (range : ℕ × ℕ) (result : Result ChunkFetchError (List (ℕ × Bytes)))
    (entry : Option TilesetFetchState) (groups : List (ℕ × ℕ)) (scheduler : Bool)
    → IsServed entry groups scheduler
    → scheduler ≡ true
    → has_work entry ≡ true
    → (has_work (complete_dispatched_group closed range result entry).0 ≡ true)
      × ((complete_dispatched_group closed range result entry).2
          ≡ leb max_concurrent_fetches_per_tileset (length groups))
unfolding complete_dispatched_group complete_group remove_drainable_state is_drainable
complete_dispatched_group-has_work closed range result none groups scheduler h alive work =
    absurd (cc)
complete_dispatched_group-has_work closed range result (some s) groups scheduler h alive work =
    let s' : TilesetFetchState = record s { inflight_fetch_count = s.inflight_fetch_count - 1 } in
    let d : Delivery = record { delivered = []; cancelled = 0 } in
    let t = (release_chunks closed result (chunks_in range) s' d).0 in
    let gone = release_chunks-IsReleased closed result (chunks_in range) s' d in
    let runs : t.scheduler_running ≡ true = gone.running ∙ h.running ∙ alive in
    let pending : is_empty t.pending_chunks ≡ false =
      ap is_empty gone.pending ∙ ground (arith, work) in
    let busy : is_drainable t ≡ false = rw runs refl in
    let counted : leb max_concurrent_fetches_per_tileset s.inflight_fetch_count
        ≡ leb max_concurrent_fetches_per_tileset (length groups) =
      ap (leb max_concurrent_fetches_per_tileset) h.held.counted in
    (rw (busy, pending) refl, ground (arith, counted, work))
