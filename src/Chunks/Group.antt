-- ===== src/Chunks/Group.antt =====
-- `ChunkCache` of crates/ishikari-core/src/storage/chunked_store/cache.rs, `cache_chunk_group` of
-- store.rs and `run_fetch_chunk_group` of coordinator.rs: a group of chunks is fetched, cut and
-- put into the cache.
pub mod Keeps
use biei.Prelude.{
  ℕ, ◌≡◌, refl, ap, ◌∙◌, Bool, true, false, ◌&&◌, List, [], ◌∷◌, Option, Result, ok, err, ◌>>=◌, Eq,
  eqb, eqb→eq, eqb_refl, nat_Eq, ◌↔◌, length, ◌==◌, arith,
}
use biei.Caches.{Moka}
use biei.Chunks.Error.{ChunkRangeError, ChunkFetchError, message, range_error}
use biei.Chunks.Store.{Bytes, chunk_slices, cut, range_message}
use biei.Chunks.Fetcher.{RangeAnswer, fetch_chunk_group}

pub record ChunkCacheKey : Type 0 where
  pub tileset_id : ℕ
  pub index : ℕ

abbrev pub key_eqb : ChunkCacheKey → ChunkCacheKey → Bool
key_eqb a b = a.tileset_id == b.tileset_id && a.index == b.index

pub key_eqb_iff : (a b : ChunkCacheKey) → (key_eqb a b ≡ true) ↔ (a ≡ b)
key_eqb_iff a b = (λ h. ground arith, λ h. rw h (ground arith))

instance abbrev pub key_Eq : Eq ChunkCacheKey
key_Eq = record { same = key_eqb; same_iff = key_eqb_iff }

module _ (moka : Moka ChunkCacheKey Bytes) where
  -- `chunk_cache_get`.
  abbrev pub chunk_cache_get : moka.Store → ℕ → ℕ → Option Bytes
  chunk_cache_get s tileset_id index =
      moka.get s (record { tileset_id = tileset_id; index = index })

  -- The loop of `cache_chunk_group`.
  abbrev pub put_chunks : moka.Store → ℕ → List (ℕ × Bytes) → moka.Store
  put_chunks s tileset_id [] = s
  put_chunks s tileset_id ((index, chunk) ∷ rest) =
      put_chunks (moka.insert s (record { tileset_id = tileset_id; index = index }) chunk)
        tileset_id rest

  -- `cache_chunk_group`.
  unfoldable pub cache_chunk_group :
      moka.Store
      → ℕ
      → ℕ
      → ℕ × ℕ
      → ℕ
      → Bytes
      → moka.Store × Result ChunkRangeError (List (ℕ × Bytes))
  cache_chunk_group s chunk_size tileset_id range archive_len bytes =
      elim (chunk_slices range chunk_size archive_len (length bytes)) [
        | err e ↦ (s, err e)
        | ok slices ↦ (put_chunks s tileset_id (cut bytes slices), ok (cut bytes slices))
      ]

  -- `run_fetch_chunk_group`, up to the completion of the group with the result.
  unfoldable pub run_fetch_chunk_group :
      moka.Store
      → (ℕ → ℕ → RangeAnswer)
      → ℕ
      → ℕ
      → ℕ × ℕ
      → ℕ
      → moka.Store × Result ChunkFetchError (List (ℕ × Bytes))
  run_fetch_chunk_group s answer chunk_size tileset_id range archive_len =
      elim (fetch_chunk_group answer chunk_size range archive_len) [
        | err e ↦ (s, err e)
        | ok bytes ↦
            let (s', chunks) = cache_chunk_group s chunk_size tileset_id range archive_len bytes in
            (s', range_message chunks)
      ]
