-- ===== src/Chunks/Pending/Serving.antt =====
-- When the fetch state of a tileset in coordinator.rs serves whoever waits for its chunks.
use biei.Prelude.{
  ℕ, ◌≤◌, ◌≡◌, refl, Bool, true, false, ◌||◌, List, [], ◌∷◌, Option, none, some, nat_Eq, contains,
  length,
}
use biei.Chunks.Pending.{TilesetFetchState, is_empty, has_key, max_concurrent_fetches_per_tileset}
use biei.Chunks.Pending.Members.{covered}

-- The chunks on their way, for the groups that are being fetched.
pub record IsHeld (s : TilesetFetchState) (groups : List (ℕ × ℕ)) : Type 0 where
  pub counted : s.inflight_fetch_count ≡ length groups
  pub bounded : length groups ≤ max_concurrent_fetches_per_tileset
  pub flight : (i : ℕ) → contains i s.inflight_chunks ≡ true → covered i groups ≡ true
  pub waiting :
      (i : ℕ)
      → has_key i s.waiters ≡ true
      → (contains i s.pending_chunks || contains i s.inflight_chunks) ≡ true

-- The state of a tileset serves its waiters: each waits for a chunk that a group is fetching, or
-- that is pending while the scheduler is alive.
pub record IsServing (s : TilesetFetchState) (groups : List (ℕ × ℕ)) (scheduler : Bool)
    : Type 0 where
  pub held : IsHeld s groups
  pub running : s.scheduler_running ≡ scheduler
  pub pending : (i : ℕ) → contains i s.pending_chunks ≡ true → scheduler ≡ true

-- With no entry in the map, nothing runs.
abbrev pub IsServed : Option TilesetFetchState → List (ℕ × ℕ) → Bool → Type 0
IsServed none groups scheduler = (groups ≡ []) × (scheduler ≡ false)
IsServed (some s) groups scheduler = IsServing s groups scheduler

pub is_empty-contains : (i : ℕ) (xs : List ℕ) → is_empty xs ≡ true → contains i xs ≡ false
is_empty-contains i [] h = refl
is_empty-contains i (x ∷ xs) h = absurd (cc)
