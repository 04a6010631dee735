-- ===== src/Workers/State.antt =====
-- `PoolState` of crates/biei-core/src/worker_pool.rs. Each `Vec` has one item per worker; an index
-- past the end panics there, and the pool passes none. `Instant::now()` is an argument.
pub mod Sound
pub mod Keeps
use Prim.Native.String.{String}
use biei.Prelude.{
  ℕ, zero, suc, ◌+◌, ◌-◌, ◌^◌, ◌%◌, List, [], ◌∷◌, Option, none, some, if◌then◌else◌, eqb, ◌==◌,
  item, set, replicate, lookup, insert, erase, nat_Eq,
}
use biei.Workers.Profile.{WorkerProfile, profile_Eq, option_Eq}
use biei.Workers.Affinity.{mark_source}

pub record PoolState : Type 0 where
  pub loaded : List (Option WorkerProfile)
  pub dispatch_generations : List ℕ
  pub profile_counts : List (WorkerProfile × ℕ)
  pub last_used : List (Option ℕ)
  pub addlayer_source_ids : List (List String)
  pub addlayer_source_lru : List (List String)

-- `PoolState::new`.
abbrev pub new_state : ℕ → PoolState
new_state n = record {
  loaded = replicate n none;
  dispatch_generations = replicate n 0;
  profile_counts = [];
  last_used = replicate n none;
  addlayer_source_ids = replicate n [];
  addlayer_source_lru = replicate n [];
}

-- `PoolState::decrement_profile_count`, on the map: an entry that reaches 0 is removed. No entry
-- is 0 beforehand, so that the subtraction does not wrap.
unfoldable pub decrement_profile_count :
    List (WorkerProfile × ℕ) → WorkerProfile → List (WorkerProfile × ℕ)
decrement_profile_count counts profile = elim (lookup profile counts) [
  | none ↦ counts
  | some count ↦ if count - 1 == 0 then erase profile counts else insert profile (count - 1) counts
]

-- `*self.profile_counts.entry(profile).or_insert(0) += 1`.
unfoldable pub increment_profile_count :
    List (WorkerProfile × ℕ) → WorkerProfile → List (WorkerProfile × ℕ)
increment_profile_count counts profile =
    insert profile (elim (lookup profile counts) [ none ↦ 1 | some count ↦ count + 1 ]) counts

abbrev pub clear_addlayer_sources : PoolState → ℕ → PoolState
clear_addlayer_sources s idx = record s {
  addlayer_source_ids = set s.addlayer_source_ids idx [];
  addlayer_source_lru = set s.addlayer_source_lru idx [];
}

-- `if let Some(previous) = self.loaded[idx].take() { self.decrement_profile_count(&previous) }`.
unfoldable pub take_counts :
    List (WorkerProfile × ℕ) → Option WorkerProfile → List (WorkerProfile × ℕ)
take_counts counts none = counts
take_counts counts (some previous) = decrement_profile_count counts previous

abbrev pub take_loaded : PoolState → ℕ → PoolState
take_loaded s idx = record s {
  loaded = set s.loaded idx none;
  profile_counts = take_counts s.profile_counts (item none s.loaded idx);
}

-- The new dispatch generation and the time of use.
abbrev pub stamp : PoolState → ℕ → ℕ → PoolState
stamp s idx now = record s {
  dispatch_generations =
      set s.dispatch_generations idx ((item 0 s.dispatch_generations idx + 1) % 2 ^ 64);
  last_used = set s.last_used idx (some now);
}

-- `*self.profile_counts.entry(..).or_insert(0) += 1; self.loaded[idx] = Some(profile)`.
abbrev pub enter_profile : PoolState → ℕ → WorkerProfile → PoolState
enter_profile s idx profile = record s {
  profile_counts = increment_profile_count s.profile_counts profile;
  loaded = set s.loaded idx (some profile);
}

-- `PoolState::mark_loaded`, with the generation that it returns.
unfoldable pub mark_loaded : PoolState → ℕ → WorkerProfile → ℕ → PoolState × ℕ
mark_loaded s idx profile now =
    let stamped = stamp s idx now in
    let generation = item 0 stamped.dispatch_generations idx in
    if eqb (item none stamped.loaded idx) (some profile) then (stamped, generation) else (
      enter_profile (clear_addlayer_sources (take_loaded stamped idx) idx) idx profile,
      generation,
    )

-- `PoolState::mark_addlayer_source`.
unfoldable pub mark_addlayer_source : PoolState → ℕ → String → PoolState
mark_addlayer_source s idx source_id =
    let marked =
      mark_source (item [] s.addlayer_source_ids idx) (item [] s.addlayer_source_lru idx)
        source_id in
    record s {
      addlayer_source_ids = set s.addlayer_source_ids idx marked.0;
      addlayer_source_lru = set s.addlayer_source_lru idx marked.1;
    }

-- `PoolState::clear_loaded`.
unfoldable pub clear_loaded : PoolState → ℕ → PoolState
clear_loaded s idx =
    let taken = take_loaded s idx in
    clear_addlayer_sources (record taken { last_used = set taken.last_used idx none }) idx

-- `PoolState::clear_loaded_if_latest`.
unfoldable pub clear_loaded_if_latest : PoolState → ℕ → ℕ → PoolState
clear_loaded_if_latest s idx dispatch_generation =
    if item 0 s.dispatch_generations idx == dispatch_generation then clear_loaded s idx else s
