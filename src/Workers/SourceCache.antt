-- ===== src/Workers/SourceCache.antt =====
-- `SourceCache` of crates/biei-core/src/worker.rs: the sources that a renderer slot has loaded,
-- the least recently used in front. A `SourceHash` is a number.
pub mod Recent
use biei.Prelude.{
  ℕ, ◌+◌, ◌≡◌, max, Bool, List, [], ◌∷◌, ◌++◌, if◌then◌else◌, leb, length, eqb, contains, nat_Eq,
}

pub record SourceCache : Type 0 where
  pub capacity : ℕ
  pub entries : List ℕ

-- `SourceCache::new`.
abbrev pub new_cache : ℕ → SourceCache
new_cache capacity = record { capacity = max capacity 1; entries = [] }

-- `SourceCache::contains`.
abbrev pub cached : SourceCache → ℕ → Bool
cached cache h = contains h cache.entries

-- `if let Some(pos) = entries.iter().position(..) { entries.remove(pos) }`.
unfoldable pub remove_first : ℕ → List ℕ → List ℕ
remove_first h [] = []
remove_first h (x ∷ xs) = if eqb x h then xs else x ∷ remove_first h xs

-- `while entries.len() > capacity { entries.pop_front() }`.
unfoldable pub trim : ℕ → List ℕ → List ℕ
trim capacity [] = []
trim capacity (x ∷ xs) =
    let rest = trim capacity xs in if leb (length (x ∷ xs)) capacity then x ∷ xs else rest

-- `SourceCache::touch`.
unfoldable pub touch : SourceCache → ℕ → SourceCache
touch cache h = record cache {
  entries = trim cache.capacity (remove_first h cache.entries ++ (h ∷ []));
}

-- `SourceCache::clear`.
abbrev pub clear : SourceCache → SourceCache
clear cache = record cache { entries = [] }
