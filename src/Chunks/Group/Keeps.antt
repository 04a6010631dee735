-- ===== src/Chunks/Group/Keeps.antt =====
-- A fetched group of coordinator.rs becomes exactly the chunks of the archive, also in the cache.
use biei.Prelude.{
  ℕ, zero, suc, ◌+◌, ◌-◌, ◌*◌, ◌≤◌, ◌<◌, min, ◌≡◌, refl, sym, subst, ap, ◌∙◌, inl, inr, arith, true,
  false, List, [], ◌∷◌, some, Result, ok, ltb, leb, ==_refl, length, take, drop, length-take-drop,
  take-drop-take-drop, take-min_length, length-drop, u64_mod, le→ltb, lt→ltb, lt→leb,
}
use biei.Caches.{Moka}
use biei.Chunks.Error.{ChunkFetchError}
use biei.Chunks.Store.{Bytes, slice, indices, chunk_slices_loop, chunk_slices, cut}
use biei.Chunks.Store.Copies.{chunk_of, add-one_mul}
use biei.Chunks.Fetcher.{
  RangeAnswer, fetched, exact, invalid_length, fetch_range, fetch_chunk_group,
}
use biei.Chunks.Group.{
  ChunkCacheKey, chunk_cache_get, put_chunks, cache_chunk_group, run_fetch_chunk_group,
}

split_mul : (i k m : ℕ) → (i + k) * m ≡ i * m + k * m
split_mul i k m = grind arith

pub mul_mono : (i j m : ℕ) → i ≤ j → i * m ≤ j * m
mul_mono i j m h =
    let e : i + (j - i) ≡ j = omega arith in
    let s : j * m ≡ i * m + (j - i) * m = ap (λ (t : ℕ). t * m) (sym e) ∙ split_mul i (j - i) m in
    omega arith

le-mul : (r m : ℕ) → 0 < m → r ≤ r * m
le-mul r m h = grind arith

-- The chunks of the archive with their indices.
abbrev pub chunks_of : Bytes → ℕ → List ℕ → List (ℕ × Bytes)
chunks_of archive chunk_size [] = []
chunks_of archive chunk_size (i ∷ rest) =
    (i, chunk_of archive chunk_size i) ∷ chunks_of archive chunk_size rest

module _ (archive : Bytes) (chunk_size : ℕ) (range : ℕ × ℕ) (positive : 0 < chunk_size)
    (start_in : range.0 < range.1) (last_in : (range.1 - 1) * chunk_size < length archive)
    (small : range.1 * chunk_size < u64_mod) where
  abbrev from_byte : ℕ
  from_byte = range.0 * chunk_size

  abbrev to_byte : ℕ
  to_byte = min (range.1 * chunk_size) (length archive)

  -- The bytes that the object store has for the group.
  abbrev pub group_bytes : Bytes
  group_bytes = slice archive from_byte to_byte

  chunk_slices_loop-cut :
      (n i : ℕ)
      → range.0 ≤ i
      → i + n ≡ range.1
      → (slices : List (ℕ × ℕ × ℕ)) × (chunk_slices_loop chunk_size
            (length archive)
            (length group_bytes)
            from_byte
            (indices i n)
          ≡ ok slices)
        × (cut group_bytes slices ≡ chunks_of archive chunk_size (indices i n))
  unfolding chunk_slices_loop
  chunk_slices_loop-cut zero i low high = ([], refl, refl)
  chunk_slices_loop-cut (suc n) i low high =
      let (slices, looped, rest) = chunk_slices_loop-cut n (i + 1) (omega arith) (omega arith) in
      let base : range.0 * chunk_size ≤ i * chunk_size = mul_mono range.0 i chunk_size low in
      let above : (i + 1) * chunk_size ≤ range.1 * chunk_size =
        mul_mono (i + 1) range.1 chunk_size (omega arith) in
      let inside : i * chunk_size ≤ (range.1 - 1) * chunk_size =
        mul_mono i (range.1 - 1) chunk_size (omega arith) in
      let next : (i + 1) * chunk_size ≡ i * chunk_size + chunk_size = add-one_mul i chunk_size in
      let counted : range.1 ≤ range.1 * chunk_size = le-mul range.1 chunk_size positive in
      let len : length group_bytes ≡ min (to_byte - from_byte) (length archive - from_byte) =
        length-take-drop (to_byte - from_byte) from_byte archive in
      let ends = min ((i + 1) * chunk_size) (length archive) in
      let from = i * chunk_size - from_byte in
      let to = ends - from_byte in
      let e1 : ltb (i * chunk_size) u64_mod ≡ true =
        lt→ltb (i * chunk_size) u64_mod (omega arith) in
      let e2 : ltb (i + 1) u64_mod ≡ true = lt→ltb (i + 1) u64_mod (omega arith) in
      let e3 : ltb ((i + 1) * chunk_size) u64_mod ≡ true =
        lt→ltb ((i + 1) * chunk_size) u64_mod (omega arith) in
      let e4 : leb ends (i * chunk_size) ≡ false = lt→leb ends (i * chunk_size) (omega arith) in
      let e5 : ltb to from ≡ false = le→ltb to from (omega arith) in
      let e6 : ltb (length group_bytes) to ≡ false = le→ltb (length group_bytes) to (omega arith) in
      let step : chunk_slices_loop chunk_size (length archive) (length group_bytes) from_byte
            (indices i (suc n))
          ≡ ok ((i, from, to) ∷ slices) =
        rw (e1, e2, e3, e4, e5, e6, looped) refl in
      let back : from_byte + from ≡ i * chunk_size = omega arith in
      let size : to - from ≡ min chunk_size (length (drop (i * chunk_size) archive)) =
        omega (arith, length-drop (i * chunk_size) archive) in
      let part : slice group_bytes from to ≡ chunk_of archive chunk_size i =
        take-drop-take-drop (to - from) from (to_byte - from_byte) from_byte archive (omega arith)
        ∙ ap (λ t. take (to - from) (drop t archive)) back
        ∙ ap (λ t. take t (drop (i * chunk_size) archive)) size
        ∙ take-min_length chunk_size (drop (i * chunk_size) archive) in
      (
        (i, from, to) ∷ slices,
        step,
        ap (λ c. (i, c) ∷ cut group_bytes slices) part
            ∙ ap (λ l. (i, chunk_of archive chunk_size i) ∷ l) rest,
      )

  -- The whole group, cut.
  chunk_slices-cut :
      (slices : List (ℕ × ℕ × ℕ)) × (chunk_slices range chunk_size
          (length archive)
          (length group_bytes)
        ≡ ok slices)
      × (cut group_bytes slices
          ≡ chunks_of archive chunk_size (indices range.0 (range.1 - range.0)))
  unfolding chunk_slices
  chunk_slices-cut =
      let (slices, looped, cuts) =
        chunk_slices_loop-cut (range.1 - range.0) range.0 (omega arith) (omega arith) in
      let base : range.0 * chunk_size ≤ range.1 * chunk_size =
        mul_mono range.0 range.1 chunk_size (omega arith) in
      let e1 : leb range.1 range.0 ≡ false = lt→leb range.1 range.0 start_in in
      let e2 : ltb from_byte u64_mod ≡ true = lt→ltb from_byte u64_mod (omega arith) in
      (slices, rw (e1, e2, looped) refl, cuts)

  fetch_chunk_group-group_bytes :
      (answer : ℕ → ℕ → RangeAnswer)
      → answer from_byte to_byte ≡ fetched group_bytes
      → fetch_chunk_group answer chunk_size range (length archive) ≡ ok group_bytes
  unfolding fetch_chunk_group fetch_range
  fetch_chunk_group-group_bytes answer honest =
      let base : range.0 * chunk_size ≤ (range.1 - 1) * chunk_size =
        mul_mono range.0 (range.1 - 1) chunk_size (omega arith) in
      let base' : range.0 * chunk_size < range.1 * chunk_size =
        let next = add-one_mul range.0 chunk_size in
        let mono : (range.0 + 1) * chunk_size ≤ range.1 * chunk_size =
          mul_mono (range.0 + 1) range.1 chunk_size (omega arith) in
        omega arith in
      let e1 : leb range.1 range.0 ≡ false = lt→leb range.1 range.0 start_in in
      let e2 : ltb from_byte u64_mod ≡ true = lt→ltb from_byte u64_mod (omega arith) in
      let e3 : ltb (range.1 * chunk_size) u64_mod ≡ true =
        lt→ltb (range.1 * chunk_size) u64_mod small in
      let e4 : leb to_byte from_byte ≡ false = lt→leb to_byte from_byte (omega arith) in
      let len : length group_bytes ≡ to_byte - from_byte =
        length-take-drop (to_byte - from_byte) from_byte archive ∙ omega arith in
      let fits : invalid_length exact (to_byte - from_byte) (length group_bytes) ≡ false = rw len (
        rw
          (
            le→ltb (to_byte - from_byte) (to_byte - from_byte) (omega arith),
            ==_refl (to_byte - from_byte),
          )
          refl) in
      rw (e1, e2, e3, e4, fetch_range, honest, fits) refl

module _ (moka : Moka ChunkCacheKey Bytes) (archives : ℕ → Bytes) (chunk_size : ℕ) where
  -- Whatever the cache has is a chunk of the archive that it is kept for.
  abbrev pub IsTrueCache : moka.Store → Type 0
  IsTrueCache s =
      (tileset_id i : ℕ) (c : Bytes)
      → chunk_cache_get moka s tileset_id i ≡ some c
      → c ≡ chunk_of (archives tileset_id) chunk_size i

  put_chunks-IsTrueCache :
      (tileset_id : ℕ) (list : List ℕ) (s : moka.Store)
      → IsTrueCache s
      → IsTrueCache (put_chunks moka s tileset_id (chunks_of (archives tileset_id) chunk_size list))
  put_chunks-IsTrueCache tileset_id [] s h = h
  put_chunks-IsTrueCache tileset_id (i ∷ rest) s h =
      let key : ChunkCacheKey = record { tileset_id = tileset_id; index = i } in
      let chunk = chunk_of (archives tileset_id) chunk_size i in
      put_chunks-IsTrueCache tileset_id rest (moka.insert s key chunk) (λ t j c got.
        let asked : ChunkCacheKey = record { tileset_id = t; index = j } in
        elim (moka.get-insert s key asked chunk c got) [
          | inr old ↦ h t j c old
          | inl (same, is) ↦
              let st : t ≡ tileset_id = ap (λ (k : ChunkCacheKey). k.tileset_id) same in
              let sj : j ≡ i = ap (λ (k : ChunkCacheKey). k.index) same in
              is
              ∙ ap (λ t'. chunk_of (archives t') chunk_size i) (sym st)
              ∙ ap (λ j'. chunk_of (archives t) chunk_size j') (sym sj)
        ])

-- A group of chunks, of positive size, that starts before it ends, whose last chunk lies in the
-- archive and whose end is below 2^64, when the object store returns the bytes of its range: the
-- fetch succeeds with exactly the chunks of the archive, in order, and a cache of true chunks
-- stays one.
pub run_fetch_chunk_group-chunks_of :
    (moka : Moka ChunkCacheKey Bytes) (archives : ℕ → Bytes) (chunk_size tileset_id : ℕ)
    (range : ℕ × ℕ) (s : moka.Store) (answer : ℕ → ℕ → RangeAnswer)
    → 0 < chunk_size
    → range.0 < range.1
    → (range.1 - 1) * chunk_size < length (archives tileset_id)
    → range.1 * chunk_size < u64_mod
    → answer (range.0 * chunk_size) (min (range.1 * chunk_size) (length (archives tileset_id)))
      ≡ fetched (
          slice
            (archives tileset_id)
            (range.0 * chunk_size)
            (min (range.1 * chunk_size) (length (archives tileset_id))))
    → IsTrueCache moka archives chunk_size s
    → ((run_fetch_chunk_group moka s answer chunk_size tileset_id range
          (length (archives tileset_id))).1
        ≡ ok (chunks_of (archives tileset_id) chunk_size (indices range.0 (range.1 - range.0))))
      × IsTrueCache moka archives chunk_size
          (run_fetch_chunk_group moka s answer chunk_size tileset_id range
            (length (archives tileset_id))).0
unfolding run_fetch_chunk_group cache_chunk_group
run_fetch_chunk_group-chunks_of moka archives chunk_size tileset_id range s answer positive start_in
      last_in small honest true_cache =
    let archive = archives tileset_id in
    let chunks = chunks_of archive chunk_size (indices range.0 (range.1 - range.0)) in
    let (slices, sliced, cuts) =
      chunk_slices-cut archive chunk_size range positive start_in last_in small in
    let got =
      fetch_chunk_group-group_bytes archive chunk_size range positive start_in last_in small answer
        honest in
    let step : run_fetch_chunk_group moka s answer chunk_size tileset_id range (length archive)
        ≡ (put_chunks moka s tileset_id chunks, ok chunks) =
      rw (run_fetch_chunk_group, got, cache_chunk_group, sliced, cuts) refl in
    subst
      (λ (x : moka.Store × Result ChunkFetchError (List (ℕ × Bytes))).
        (x.1 ≡ ok chunks) × IsTrueCache moka archives chunk_size x.0)
      (sym step)
      (
        refl,
        put_chunks-IsTrueCache moka archives chunk_size tileset_id
            (indices range.0 (range.1 - range.0)) s true_cache,
      )
