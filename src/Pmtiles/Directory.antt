-- ===== src/Pmtiles/Directory.antt =====
-- `Directory` and `DirectoryEntry` of crates/mmpf-pmtiles/src/format.rs.
pub mod Find
pub mod Parse
pub mod Columns
pub mod RoundTrip
use biei.Prelude.{
  ℕ, zero, suc, ◌+◌, ◌-◌, ◌*◌, ◌/◌, ◌^◌, ◌<◌, ◌≤◌, Bool, true, false, ◌||◌, List, [], ◌∷◌, Option,
  none, some, Result, ok, err, ◌>>=◌, ◌>>◌, ensure, or_err, ltb, leb, ◌==◌, if◌then◌else◌, length,
  replicate, get_elem?,
}
use biei.Pmtiles.Error.{
  Error, varint_exceeds_u32, entry_count_overflow, too_many_entries, tile_id_overflow,
  no_previous_entry, offset_overflow,
}
use biei.Pmtiles.Varint.{u64_mod, read_u64_varint}
use biei.Pmtiles.Header.{checked_add}
use biei.Pmtiles.Kinds.{Compression}
use biei.Pmtiles.Decompress.{Decoders, decompress_bytes_with_limit}

pub record Entry : Type 0 where
  pub tile_id : ℕ
  pub offset : ℕ
  pub length : ℕ
  pub run_length : ℕ

-- `DirectoryEntry::default()`.
abbrev pub default_entry : Entry
default_entry = record { tile_id = 0; offset = 0; length = 0; run_length = 0 }

abbrev pub is_leaf : Entry → Bool
is_leaf e = e.run_length == 0

-- `u32::try_from(read_u64_varint(..)?)`.
unfoldable pub read_u32_varint : List ℕ → Result Error (ℕ × List ℕ)
read_u32_varint buffer = do
  (value, rest) ← read_u64_varint buffer
  if ltb value (2 ^ 32) then ok (value, rest) else err varint_exceeds_u32

-- The four loops over `&mut entries`, each over the entries that are left.
unfoldable pub read_tile_ids : ℕ → List Entry → List ℕ → Result Error (List Entry × List ℕ)
read_tile_ids next_tile_id [] buffer = ok ([], buffer)
read_tile_ids next_tile_id (entry ∷ entries) buffer = do
  (delta, rest) ← read_u64_varint buffer
  tile_id ← or_err (checked_add next_tile_id delta) tile_id_overflow
  (done, rest') ← read_tile_ids tile_id entries rest
  ok (record entry { tile_id = tile_id } ∷ done, rest')

unfoldable pub read_run_lengths : List Entry → List ℕ → Result Error (List Entry × List ℕ)
read_run_lengths [] buffer = ok ([], buffer)
read_run_lengths (entry ∷ entries) buffer = do
  (run_length, rest) ← read_u32_varint buffer
  (done, rest') ← read_run_lengths entries rest
  ok (record entry { run_length = run_length } ∷ done, rest')

unfoldable pub read_lengths : List Entry → List ℕ → Result Error (List Entry × List ℕ)
read_lengths [] buffer = ok ([], buffer)
read_lengths (entry ∷ entries) buffer = do
  (length, rest) ← read_u32_varint buffer
  (done, rest') ← read_lengths entries rest
  ok (record entry { length = length } ∷ done, rest')

-- An offset of 0 stands for the end of the previous entry.
unfoldable pub next_offset : Option Entry → ℕ → Result Error ℕ
next_offset previous_entry zero = do
  previous ← or_err previous_entry no_previous_entry
  or_err (checked_add previous.offset previous.length) offset_overflow
next_offset previous_entry (suc offset) = ok offset

unfoldable pub read_offsets :
    Option Entry → List Entry → List ℕ → Result Error (List Entry × List ℕ)
read_offsets previous_entry [] buffer = ok ([], buffer)
read_offsets previous_entry (entry ∷ entries) buffer = do
  (value, rest) ← read_u64_varint buffer
  offset ← next_offset previous_entry value
  (done, rest') ← read_offsets (some (record entry { offset = offset })) entries rest
  ok (record entry { offset = offset } ∷ done, rest')

-- `parse_with_limit` from the decompressed bytes on.
unfoldable pub parse_entries : List ℕ → Result Error (List Entry)
parse_entries decompressed = do
  (n_entries, buffer) ← read_u64_varint decompressed
  ensure (ltb (n_entries * 4) u64_mod) entry_count_overflow
  ensure (leb (n_entries * 4) (length buffer)) too_many_entries
  (ids, buffer1) ← read_tile_ids 0 (replicate n_entries default_entry) buffer
  (runs, buffer2) ← read_run_lengths ids buffer1
  (lengths, buffer3) ← read_lengths runs buffer2
  (entries, _) ← read_offsets none lengths buffer3
  ok entries

-- `Directory::parse_with_limit`.
unfoldable pub parse_with_limit : Decoders → Compression → List ℕ → ℕ → Result Error (List Entry)
unfolding parse_entries
parse_with_limit d compression bytes max_decompressed_bytes = do
  decompressed ← decompress_bytes_with_limit d compression bytes max_decompressed_bytes
  parse_entries decompressed

-- The tile id at an index; 0 past the end, where the code never looks.
abbrev pub id_at : List Entry → ℕ → ℕ
id_at entries i = elim (get_elem? entries i) [ some e ↦ e.tile_id | none ↦ 0 ]

-- The standard library's `binary_search_by`: it halves `size` while more than one index is left,
-- and keeps the upper half unless its first id is greater.
unfoldable pub search_loop : ℕ → List Entry → ℕ → ℕ → ℕ → ℕ
search_loop zero entries target base size = base
search_loop (suc fuel) entries target base size =
    let half = size / 2 in
    let mid = base + half in
    let next =
      search_loop fuel entries target (if ltb target (id_at entries mid) then base else mid)
        (size - half) in
    if ltb 1 size then next else base

-- `Ok(index)` and `Err(index)`.
pub data Position : Type 0 where
  found insert_at : ℕ → Position

unfoldable pub binary_search : List Entry → ℕ → Position
binary_search entries target =
    let base = search_loop (length entries) entries target 0 (length entries) in
    let id = id_at entries base in
    if length entries == 0
    then insert_at 0
    else if id == target
    then found base
    else if ltb id target
    then insert_at (base + 1)
    else insert_at base

-- `Directory::find_tile_id`.
unfoldable pub find_tile_id : List Entry → ℕ → Option (ℕ × Entry)
find_tile_id entries tile_id = elim (binary_search entries tile_id) [
  | found index ↦ elim (get_elem? entries index) [ some entry ↦ some (index, entry) | none ↦ none ]
  | insert_at next_id ↦
      if ltb 0 next_id
      then elim (get_elem? entries (next_id - 1)) [
        | some previous ↦
            if is_leaf previous || ltb (tile_id - previous.tile_id) previous.run_length
            then some (next_id - 1, previous)
            else none
        | none ↦ none
      ]
      else none
]
