-- ===== src/Chunks/Pending/Coordinator.antt =====
-- Callers, the scheduler and the fetch groups of coordinator.rs, in any order of their steps, with
-- the results that reach the callers and the `Notify` that the scheduler waits on.
use biei.Prelude.{
  ℕ, ◌+◌, ◌≡◌, Bool, true, false, ◌||◌, List, [], ◌∷◌, ◌++◌, Option, none, some, Result, nat_Eq,
  contains, length, ltb,
}
use biei.Chunks.Error.{ChunkFetchError}
use biei.Chunks.Store.{Bytes}
use biei.Chunks.Pending.{
  TilesetFetchState, EnqueuedChunk, request_chunks, DispatchDecision, idle, throttled, dispatch,
  complete_dispatched_group, scheduler_pass,
}

-- The entry of a tileset in the map, the groups that are being fetched, whether the task of the
-- scheduler is alive and whether it waits to be notified, and whether a notification is stored.
-- Channels have numbers: `channels` is how many there are, `asked` has the receiver and the chunk
-- of each, `answered` the receivers that were sent a result, and `left` those that were dropped.
pub record Coordinator : Type 0 where
  pub entry : Option TilesetFetchState
  pub groups : List (ℕ × ℕ)
  pub scheduler : Bool
  pub parked : Bool
  pub permit : Bool
  pub channels : ℕ
  pub asked : List (ℕ × ℕ)
  pub answered : List ℕ
  pub left : List ℕ

abbrev pub new_coordinator : Coordinator
new_coordinator = record {
  entry = none;
  groups = [];
  scheduler = false;
  parked = false;
  permit = false;
  channels = 0;
  asked = [];
  answered = [];
  left = [];
}

abbrev pub after_pass : Coordinator → Option TilesetFetchState × DispatchDecision → Coordinator
after_pass c (entry, idle) = record c { entry = entry; scheduler = false }
after_pass c (entry, throttled) = record c { entry = entry; parked = true }
after_pass c (entry, dispatch groups len delay pending) = record c {
  entry = entry;
  groups = c.groups ++ groups;
}

abbrev pub started : Option Bool → Bool → Bool
started none running = running
started (some flush_immediately) running = true

-- What a caller holds: its receivers, each with its chunk.
abbrev pub receipts : List EnqueuedChunk → List (ℕ × ℕ)
receipts [] = []
receipts (e ∷ rest) = (e.receiver, e.index) ∷ receipts rest

-- The receivers of the results that were sent.
abbrev pub receivers : List (ℕ × Result ChunkFetchError Bytes) → List ℕ
receivers [] = []
receivers ((w, result) ∷ rest) = w ∷ receivers rest

-- `Notify` belongs to the entry: a new entry has a new one.
abbrev pub stored : Option TilesetFetchState → Bool → Bool
stored none permit = false
stored (some s) permit = permit

abbrev pub is_closed : Coordinator → ℕ → Bool
is_closed c w = contains w c.left

pub data Step (c : Coordinator) : Coordinator → Type 0 where
  requests :
      (now : ℕ) (required : List ℕ) (len : ℕ)
      → Step c (record c {
        entry = some (request_chunks c.entry c.channels now required len).0;
        scheduler = started (request_chunks c.entry c.channels now required len).2 c.scheduler;
        permit = stored c.entry c.permit;
        channels = c.channels + length required;
        asked = receipts (request_chunks c.entry c.channels now required len).1 ++ c.asked;
      })
  leaves : (w : ℕ) → ltb w c.channels ≡ true → Step c (record c { left = w ∷ c.left })
  passes :
      (max_fetch now : ℕ)
      → c.scheduler ≡ true
      → c.parked ≡ false
      → Step c (after_pass c (scheduler_pass (is_closed c) max_fetch now c.entry))
  wakes : c.parked ≡ true → c.permit ≡ true → Step c (record c { parked = false; permit = false })
  completes :
      (before after : List (ℕ × ℕ)) (range : ℕ × ℕ)
      (result : Result ChunkFetchError (List (ℕ × Bytes)))
      → c.groups ≡ before ++ (range ∷ after)
      → Step c (record c {
        entry = (complete_dispatched_group (is_closed c) range result c.entry).0;
        groups = before ++ after;
        permit = c.permit || (complete_dispatched_group (is_closed c) range result c.entry).2;
        answered =
            receivers (complete_dispatched_group (is_closed c) range result c.entry).1.delivered
            ++ c.answered;
      })

pub data Reach (c : Coordinator) : Coordinator → Type 0 where
  here : Reach c c
  next : {d e : Coordinator} → Reach c d → Step d e → Reach c e
