-- ===== src/Chunks/Pending/Kept.antt =====
-- Which receivers of coordinator.rs still wait after a round of the scheduler or a completion.
use biei.Prelude.{
  ℕ, ◌-◌, ◌≡◌, refl, sym, subst, inl, inr, arith, Bool, true, false, not, ◌&&◌, ◌||◌, List, [], ◌∷◌,
  ◌++◌, Option, none, some, Result, leb, nat_Eq, contains, length, take, Bool-cases, All, max,
}
use biei.Chunks.Error.{ChunkFetchError}
use biei.Chunks.Store.{Bytes}
use biei.Chunks.Pending.{
  TilesetFetchState, is_empty, is_drainable, prune_cancelled_waiters, contiguous_chunk_ranges,
  max_chunk_gap, select_dispatch_groups, dispatch_groups, DispatchDecision, idle, throttled,
  remove_drainable_state, decided, scheduler_pass, chunks_in, max_concurrent_fetches_per_tileset,
  complete_group, complete_dispatched_group, Delivery, release_chunks, or_new, enqueue_chunks,
  request_chunks,
}
use biei.Chunks.Pending.Members.{covered, move_groups-IsMoved}
use biei.Chunks.Pending.Serving.{IsHeld, IsServed, is_empty-contains}
use biei.Chunks.Pending.Passes.{prune_cancelled_waiters-IsServing}
use biei.Chunks.Pending.Completions.{complete_group-IsServing}
use biei.Chunks.Pending.Waiting.{
  waits, waits-has_key, retain_open-waits, enqueue_chunks-waits, enqueue_chunks-receipts,
}
use biei.Chunks.Pending.Sends.{release_chunks-waits, is_answered}
use biei.Chunks.Pending.Coordinator.{receipts}

-- The receiver waits for the chunk in the entry of the map.
abbrev pub waits_in : ℕ → ℕ → Option TilesetFetchState → Bool
waits_in r chunk none = false
waits_in r chunk (some s) = waits r chunk s.waiters

no_cover : (i : ℕ) (groups : List (ℕ × ℕ)) → length groups ≡ 0 → covered i groups ≡ false
no_cover i [] h = refl
no_cover i (g ∷ rest) h = absurd (omega arith)

-- Nobody waits in an entry that is removed.
remove_drainable_state-waits :
    (s : TilesetFetchState) (groups : List (ℕ × ℕ)) (r chunk : ℕ)
    → IsHeld s groups
    → waits r chunk s.waiters ≡ true
    → waits_in r chunk (remove_drainable_state s) ≡ true
unfolding remove_drainable_state is_drainable
remove_drainable_state-waits s groups r chunk h w = elim (Bool-cases (is_drainable s)) [
  | inl drained ↦
      let empty : is_empty s.pending_chunks ≡ true = ground arith in
      let none_left : length groups ≡ 0 = ground (arith, h.counted) in
      let wanted : (contains chunk s.pending_chunks || contains chunk s.inflight_chunks) ≡ true =
        h.waiting chunk (waits-has_key r chunk s.waiters w) in
      let not_pending : contains chunk s.pending_chunks ≡ false =
        is_empty-contains chunk s.pending_chunks empty in
      let flying : contains chunk s.inflight_chunks ≡ true = ground (arith, wanted, not_pending) in
      let fetched : covered chunk groups ≡ true = h.flight chunk flying in
      let nothing : covered chunk groups ≡ false = no_cover chunk groups none_left in absurd (cc)
  | inr busy ↦ rw busy w
]

dispatch_groups-waits :
    (s : TilesetFetchState) (now : ℕ) (gs : List (ℕ × ℕ)) (r chunk : ℕ)
    → waits r chunk s.waiters ≡ true
    → waits_in r chunk (decided (dispatch_groups s now gs)).0 ≡ true
unfolding dispatch_groups
dispatch_groups-waits s now [] r chunk w = w
dispatch_groups-waits s now (g ∷ rest) r chunk w =
    subst (λ m. waits r chunk m ≡ true) (sym (move_groups-IsMoved (g ∷ rest) s).waiters) w

-- Only closed receivers leave in a round of the scheduler.
pub scheduler_pass-waits :
    (closed : ℕ → Bool) (max_fetch now : ℕ) (entry : Option TilesetFetchState)
    (groups : List (ℕ × ℕ)) (scheduler : Bool) (r chunk : ℕ)
    → IsServed entry groups scheduler
    → closed r ≡ false
    → waits_in r chunk entry ≡ true
    → waits_in r chunk (scheduler_pass closed max_fetch now entry).0 ≡ true
unfolding scheduler_pass select_dispatch_groups prune_cancelled_waiters
scheduler_pass-waits closed max_fetch now none groups scheduler r chunk h alive w = absurd (cc)
scheduler_pass-waits closed max_fetch now (some s0) groups scheduler r chunk h0 alive w0 =
    let s = (prune_cancelled_waiters closed s0).0 in
    let Goal =
      λ (x : TilesetFetchState × DispatchDecision). waits_in r chunk (decided x).0 ≡ true in
    let h = (prune_cancelled_waiters-IsServing closed s0 groups scheduler h0).held in
    let w : waits r chunk s.waiters ≡ true = retain_open-waits closed r chunk s0.waiters alive w0 in
    elim (Bool-cases (is_empty s.pending_chunks)) [
      | inl nothing ↦
          let stopped : TilesetFetchState = record s { scheduler_running = false } in
          let held : IsHeld stopped groups = record {
            counted = h.counted;
            bounded = h.bounded;
            flight = h.flight;
            waiting = h.waiting;
          } in
          let step : select_dispatch_groups s max_fetch now ≡ (stopped, idle) = rw nothing refl in
          subst Goal (sym step) (remove_drainable_state-waits stopped groups r chunk held w)
      | inr work ↦
          elim (Bool-cases (leb max_concurrent_fetches_per_tileset s.inflight_fetch_count)) [
            | inl full ↦
                let step : select_dispatch_groups s max_fetch now ≡ (s, throttled) =
                  rw (work, full) refl in
                subst Goal (sym step) w
            | inr slots ↦
                let ranges = contiguous_chunk_ranges s.pending_chunks max_fetch max_chunk_gap in
                let free = max_concurrent_fetches_per_tileset - s.inflight_fetch_count in
                let step : select_dispatch_groups s max_fetch now
                    ≡ dispatch_groups s now (take free ranges) =
                  rw (work, slots) refl in
                subst Goal (sym step) (dispatch_groups-waits s now (take free ranges) r chunk w)
          ]
    ]

-- Whoever waited before a completion still waits, was sent a result, or had left.
pub complete_dispatched_group-waits :
    (closed : ℕ → Bool) (range : ℕ × ℕ) (result : Result ChunkFetchError (List (ℕ × Bytes)))
    (entry : Option TilesetFetchState) (before after : List (ℕ × ℕ)) (scheduler : Bool)
    (r chunk : ℕ)
    → IsServed entry (before ++ (range ∷ after)) scheduler
    → waits_in r chunk entry ≡ true
    → (waits_in r chunk (complete_dispatched_group closed range result entry).0
        || is_answered closed r (complete_dispatched_group closed range result entry).1)
      ≡ true
unfolding complete_dispatched_group complete_group
complete_dispatched_group-waits closed range result none before after scheduler r chunk h w =
    absurd (cc)
complete_dispatched_group-waits closed range result (some s) before after scheduler r chunk h w =
    let s' : TilesetFetchState = record s { inflight_fetch_count = s.inflight_fetch_count - 1 } in
    let d : Delivery = record { delivered = []; cancelled = 0 } in
    let t = (release_chunks closed result (chunks_in range) s' d).0 in
    let sent = (release_chunks closed result (chunks_in range) s' d).1 in
    let held = (complete_group-IsServing closed range result s before after scheduler h).held in
    let waited : (waits r chunk s'.waiters || is_answered closed r d) ≡ true = rw w refl in
    let either : (waits r chunk t.waiters || is_answered closed r sent) ≡ true =
      release_chunks-waits closed result r chunk (chunks_in range) s' d waited in
    elim (Bool-cases (waits r chunk t.waiters)) [
      | inl still ↦
          let kept : waits_in r chunk (remove_drainable_state t) ≡ true =
            remove_drainable_state-waits t (before ++ after) r chunk held still in
          rw kept refl
      | inr done ↦
          let answered : is_answered closed r sent ≡ true = ground (arith, either, done) in
          ground (arith, answered)
    ]

-- Whoever waited before a request still waits.
pub request_chunks-waits :
    (entry : Option TilesetFetchState) (tx now : ℕ) (required : List ℕ) (len r chunk : ℕ)
    → waits_in r chunk entry ≡ true
    → waits r chunk (request_chunks entry tx now required len).0.waiters ≡ true
unfolding request_chunks
request_chunks-waits none tx now required len r chunk h = absurd (cc)
request_chunks-waits (some e) tx now required len r chunk h =
    let s : TilesetFetchState = record e { archive_len = max e.archive_len len } in
    let s' = (enqueue_chunks s tx now required).0 in
    let kept = enqueue_chunks-waits required s tx now r chunk h in
    elim (Bool-cases (not s'.scheduler_running && not (is_empty s'.pending_chunks))) [
      | inl starts ↦ rw starts kept
      | inr goes_on ↦ rw goes_on kept
    ]

-- The receivers that a caller holds wait for their chunks.
pub request_chunks-receipts :
    (entry : Option TilesetFetchState) (tx now : ℕ) (required : List ℕ) (len : ℕ)
    → All
        (λ p. waits p.0 p.1 (request_chunks entry tx now required len).0.waiters ≡ true)
        (receipts (request_chunks entry tx now required len).1)
unfolding request_chunks
request_chunks-receipts entry tx now required len =
    let s : TilesetFetchState = record (or_new entry) {
      archive_len = max (or_new entry).archive_len len;
    } in
    let s' = (enqueue_chunks s tx now required).0 in
    let kept = enqueue_chunks-receipts required s tx now in
    elim (Bool-cases (not s'.scheduler_running && not (is_empty s'.pending_chunks))) [
      | inl starts ↦ rw starts kept
      | inr goes_on ↦ rw goes_on kept
    ]
