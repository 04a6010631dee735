-- ===== src/Pmtiles/Directory/Columns.antt =====
-- The four columns of a directory as a writer of the format lays them out.
use biei.Prelude.{
  ℕ, ◌+◌, ◌-◌, ◌<◌, ◌≤◌, List, [], ◌∷◌, ◌++◌, Option, none, some, arith, ◌==◌, length, All,
  All-append, if◌then◌else◌, length-append,
}
use biei.Pmtiles.Varint.{IsByte, IsU64, u64_mod}
use biei.Pmtiles.Varint.Spell.{put_varint, put_varint_bytes}
use biei.Pmtiles.Directory.{Entry, default_entry}
use biei.Pmtiles.Directory.Parse.{Ascends, RunsFit, LengthsFit}

unfoldable pub put_ids : ℕ → List Entry → List ℕ
put_ids low [] = []
put_ids low (e ∷ entries) = put_varint (e.tile_id - low) ++ put_ids e.tile_id entries

unfoldable pub put_runs : List Entry → List ℕ
put_runs [] = []
put_runs (e ∷ entries) = put_varint e.run_length ++ put_runs entries

unfoldable pub put_lengths : List Entry → List ℕ
put_lengths [] = []
put_lengths (e ∷ entries) = put_varint e.length ++ put_lengths entries

-- An entry that starts where the one before it ends is written as 0.
unfoldable pub offset_code : Option Entry → ℕ → ℕ
offset_code none offset = offset + 1
offset_code (some p) offset = if p.offset + p.length == offset then 0 else offset + 1

unfoldable pub put_offsets : Option Entry → List Entry → List ℕ
put_offsets previous [] = []
put_offsets previous (e ∷ entries) =
    put_varint (offset_code previous e.offset) ++ put_offsets (some e) entries

-- The directory block before compression.
unfoldable pub put_entries : List Entry → List ℕ
put_entries entries =
    put_varint (length entries)
    ++ (put_ids 0 entries
        ++ (put_runs entries ++ (put_lengths entries ++ put_offsets none entries)))

-- The offsets leave room for the 1 that is added to them.
abbrev pub OffsetsRoom : List Entry → Type 0
OffsetsRoom = All (λ e. e.offset + 1 < u64_mod)

-- The entries with the columns that have been read so far.
abbrev pub ids_only : Entry → Entry
ids_only e = record default_entry { tile_id = e.tile_id }

abbrev pub with_runs : Entry → Entry
with_runs e = record (ids_only e) { run_length = e.run_length }

abbrev pub with_lengths : Entry → Entry
with_lengths e = record (with_runs e) { length = e.length }

pub put_ids_bytes :
    (low : ℕ) (entries : List Entry)
    → Ascends low entries
    → All IsByte (put_ids low entries) × (length entries ≤ length (put_ids low entries))
unfolding put_ids
put_ids_bytes low [] up = (tt, omega arith)
put_ids_bytes low (e ∷ entries) up =
    let code = put_varint (e.tile_id - low) in
    let (b, l) = put_varint_bytes (e.tile_id - low) (omega arith) in
    let (b', l') = put_ids_bytes e.tile_id entries up.2 in
    (All-append IsByte code _ b b', omega (arith, length-append code (put_ids e.tile_id entries)))

pub put_runs_bytes :
    (entries : List Entry)
    → RunsFit entries
    → All IsByte (put_runs entries) × (length entries ≤ length (put_runs entries))
unfolding put_runs
put_runs_bytes [] fits = (tt, omega arith)
put_runs_bytes (e ∷ entries) fits =
    let (b, l) = put_varint_bytes e.run_length (omega arith) in
    let (b', l') = put_runs_bytes entries fits.1 in
    (
      All-append IsByte (put_varint e.run_length) _ b b',
      omega (arith, length-append (put_varint e.run_length) (put_runs entries)),
    )

pub put_lengths_bytes :
    (entries : List Entry)
    → LengthsFit entries
    → All IsByte (put_lengths entries) × (length entries ≤ length (put_lengths entries))
unfolding put_lengths
put_lengths_bytes [] fits = (tt, omega arith)
put_lengths_bytes (e ∷ entries) fits =
    let (b, l) = put_varint_bytes e.length (omega arith) in
    let (b', l') = put_lengths_bytes entries fits.1 in
    (
      All-append IsByte (put_varint e.length) _ b b',
      omega (arith, length-append (put_varint e.length) (put_lengths entries)),
    )

pub offset_code-IsU64 :
    (previous : Option Entry) (offset : ℕ)
    → offset + 1 < u64_mod
    → IsU64 (offset_code previous offset)
unfolding offset_code
offset_code-IsU64 none offset h = h
offset_code-IsU64 (some p) offset h = ground arith

pub put_offsets_bytes :
    (previous : Option Entry) (entries : List Entry)
    → OffsetsRoom entries
    → All IsByte (put_offsets previous entries)
      × (length entries ≤ length (put_offsets previous entries))
unfolding put_offsets
put_offsets_bytes previous [] fits = (tt, omega arith)
put_offsets_bytes previous (e ∷ entries) fits =
    let code = put_varint (offset_code previous e.offset) in
    let (b, l) =
      put_varint_bytes (offset_code previous e.offset)
        (offset_code-IsU64 previous e.offset fits.0) in
    let (b', l') = put_offsets_bytes (some e) entries fits.1 in
    (
      All-append IsByte code _ b b',
      omega (arith, length-append code (put_offsets (some e) entries)),
    )
