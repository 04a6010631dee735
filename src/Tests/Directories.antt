-- ===== src/Tests/Directories.antt =====
-- Runs and instances of the directory, varint and header code on small inputs.
use biei.Prelude.{
  ℕ, ◌-◌, ◌^◌, ◌<◌, ◌≤◌, ◌≡◌, ◌↔◌, refl, List, [], ◌∷◌, none, some, ok, err, arith, All, true,
  false,
}
use biei.Pmtiles.Error.{varint_exceeds_u64, too_many_entries}
use biei.Pmtiles.Varint.{IsU64, read_varint_loop, read_u64_varint}
use biei.Pmtiles.Varint.Value.{Encodes, read_u64_varint-Encodes}
use biei.Pmtiles.Kinds.{Compression}
use biei.Pmtiles.Decompress.{
  Decoders, read_decompressed_limited, decompress_bytes_with_limit, Decoded, decompress_bounded,
}
use biei.Pmtiles.Directory.{
  Entry, find_tile_id, binary_search, search_loop, parse_entries, read_tile_ids, read_run_lengths,
  read_lengths, read_offsets, next_offset, read_u32_varint,
}
use biei.Pmtiles.Directory.Find.{IsSorted, Covers, find_tile_id-Covers}
use biei.Pmtiles.Directory.Parse.{
  Ascends-IsSorted, RunsFit, LengthsFit, OffsetsFit, parse_entries_fit,
}
use biei.Pmtiles.Directory.Columns.{put_entries}
use biei.Pmtiles.Directory.RoundTrip.{parse_entries-put_entries}

abbrev first : Entry
first = record { tile_id = 0; offset = 0; length = 10; run_length = 1 }

abbrev second : Entry
second = record { tile_id = 5; offset = 10; length = 7; run_length = 3 }

abbrev pointer : Entry
pointer = record { tile_id = 100; offset = 300; length = 20; run_length = 0 }

abbrev entries : List Entry
entries = first ∷ second ∷ pointer ∷ []

-- The varints of 300 and of the largest u64 (the unit tests of format.rs).
program : Unit {0}
unfolding read_u64_varint read_varint_loop read_tile_ids read_run_lengths read_lengths read_offsets
    next_offset read_u32_varint parse_entries find_tile_id binary_search search_loop
program = tt

read_300 : read_u64_varint (172 ∷ 2 ∷ 9 ∷ []) ≡ ok (300, 9 ∷ [])
unfolding program
read_300 = refl

read_max :
    read_u64_varint (255 ∷ 255 ∷ 255 ∷ 255 ∷ 255 ∷ 255 ∷ 255 ∷ 255 ∷ 255 ∷ 1 ∷ [])
    ≡ ok (2 ^ 64 - 1, [])
unfolding program
read_max = refl

read_too_large :
    read_u64_varint (255 ∷ 255 ∷ 255 ∷ 255 ∷ 255 ∷ 255 ∷ 255 ∷ 255 ∷ 255 ∷ 2 ∷ [])
    ≡ err varint_exceeds_u64
unfolding program
read_too_large = refl

find_run : find_tile_id entries 7 ≡ some (1, second)
unfolding program
find_run = refl

find_gap : find_tile_id entries 8 ≡ none
unfolding program
find_gap = refl

find_leaf : find_tile_id entries 4000 ≡ some (2, pointer)
unfolding program
find_leaf = refl

-- The unit test `directory_rejects_entry_count_larger_than_input`.
parse_count : parse_entries (100 ∷ []) ≡ err too_many_entries
unfolding program
parse_count = refl

abbrev block : List ℕ
block = 2 ∷ 0 ∷ 5 ∷ 1 ∷ 3 ∷ 10 ∷ 7 ∷ 1 ∷ 0 ∷ []

parse_block : parse_entries block ≡ ok (first ∷ second ∷ [])
unfolding program
parse_block = refl

entries-IsSorted : IsSorted entries
entries-IsSorted = Ascends-IsSorted 0 entries (omega arith)

read_u64_varint-Encodes_example :
    (read_u64_varint (172 ∷ 2 ∷ 9 ∷ []) ≡ ok (300, 9 ∷ []))
    ↔ Encodes (172 ∷ 2 ∷ 9 ∷ []) 300 (9 ∷ [])
read_u64_varint-Encodes_example =
    read_u64_varint-Encodes (172 ∷ 2 ∷ 9 ∷ []) 300 (9 ∷ []) (omega arith)

find_tile_id-Covers_example :
    (find_tile_id entries 7 ≡ some (1, second)) ↔ Covers entries 7 1 second
find_tile_id-Covers_example = find_tile_id-Covers entries 7 1 second entries-IsSorted

parse_entries_fit_example :
    IsSorted (first ∷ second ∷ [])
    × All (λ e. IsU64 e.tile_id) (first ∷ second ∷ [])
    × RunsFit (first ∷ second ∷ [])
    × LengthsFit (first ∷ second ∷ [])
    × OffsetsFit (first ∷ second ∷ [])
    × (8 < 9)
parse_entries_fit_example = parse_entries_fit block (first ∷ second ∷ []) (omega arith) parse_block

parse_entries-put_entries_example : parse_entries (put_entries entries) ≡ ok entries
parse_entries-put_entries_example =
    parse_entries-put_entries entries (omega arith) (omega arith) (omega arith) (omega arith)
      (omega arith)

-- A decoder that doubles every byte.
abbrev doubled : List ℕ → List ℕ
doubled [] = []
doubled (b ∷ bs) = b ∷ b ∷ doubled bs

abbrev doubling : Decoders
doubling = record {
  gunzip = λ bytes. record { produced = doubled bytes; fails = false };
  unbrotli = λ bytes. record { produced = doubled bytes; fails = true };
  unzstd = λ bytes. none;
}

decompress_bounded_example : (2 ≤ 3) × Decoded doubling Compression.gzip (7 ∷ []) (7 ∷ 7 ∷ [])
unfolding decompress_bytes_with_limit read_decompressed_limited
decompress_bounded_example =
    decompress_bounded doubling Compression.gzip (7 ∷ []) (7 ∷ 7 ∷ []) 3 refl
