-- ===== src/Tests/Archives.antt =====
-- Runs and instances of the tile id, header, walker and reader code on small inputs.
use biei.Prelude.{
  ℕ, ◌+◌, ◌*◌, ◌^◌, ◌<◌, ◌≤◌, ◌≡◌, ◌≢◌, refl, sym, max, List, [], ◌∷◌, ◌++◌, none, ok, err, arith,
  All, length, true, replicate, ap,
}
use biei.Pmtiles.Error.{Error, read_past_end}
use biei.Pmtiles.Varint.{u64_mod}
use biei.Pmtiles.Kinds.{Compression, TileType, compression_of, tile_type_of}
use biei.Pmtiles.TileId.{TileCoord, IsCurve, new_coord, new_tile_id, tile_id_of}
use biei.Pmtiles.TileId.Pyramid.{new_tile_id-tile_id_of}
use biei.Pmtiles.Get.{get_u8, get_le}
use biei.Pmtiles.Header.{
  Header, header_size, pmtiles_version, magic, bytes_eq, parse_fields, sections, check_sections,
  parse_version, parse, sections_end, archive_len,
}
use biei.Pmtiles.Header.Safety.{parse-archive_len, parse-ne-panic}
use biei.Pmtiles.Directory.{Entry, find_tile_id, binary_search, search_loop}
use biei.Pmtiles.Walker.{
  TileLocation, ArchiveRange, leaf, tile, Walker, new_walker, checked_section_offset, step_at, step,
}
use biei.Pmtiles.Walker.Bounds.{Within, IsWalker, step-Within}
use biei.Pmtiles.Reader.{ReaderLimits, ArchiveBootstrap, Backend, resolve_tile_location, get_tile}
use biei.Pmtiles.Reader.Contract.{Post}
use biei.Pmtiles.Reader.Lookup.{IsKept, Resolved, resolve_tile_location-Resolved, get_tile-Post}

-- The cells of a zoom level row by row: no Hilbert curve, but a numbering as the code needs it.
abbrev rows : ℕ → ℕ → ℕ → ℕ
rows x y z = x * 2 ^ z + y

row_in_range : (n x y : ℕ) → x < n → y < n → x * n + y < n * n
row_in_range n x y hx hy = grind arith

row_le : (n x y x' y' : ℕ) → y < n → y' < n → x * n + y ≡ x' * n + y' → x ≤ x'
row_le n x y x' y' hy hy' e = grind arith

row_distinct : (n x y x' y' : ℕ) → y < n → y' < n → x * n + y ≡ x' * n + y' → (x ≡ x') × (y ≡ y')
row_distinct n x y x' y' hy hy' e =
    let same : x ≡ x' =
      omega (arith, row_le n x y x' y' hy hy' e, row_le n x' y' x y hy' hy (sym e)) in
    (same, omega (arith, ap (λ (t : ℕ). t * n) same))

rows-IsCurve : IsCurve rows
rows-IsCurve = record {
  in_range = λ x y z. row_in_range (2 ^ z) x y;
  distinct = λ x y x' y' z hx hy hx' hy' e. row_distinct (2 ^ z) x y x' y' hy hy' e;
}

abbrev north : TileCoord
north = record { z = 3; x = 5; y = 2 }

new_coord-north : new_coord 3 5 2 ≡ ok north
unfolding new_coord
new_coord-north = refl

new_tile_id-tile_id_of_example : new_tile_id (tile_id_of rows north) ≡ ok (tile_id_of rows north)
new_tile_id-tile_id_of_example =
    new_tile_id-tile_id_of rows rows-IsCurve 3 5 2 north new_coord-north

-- A header with a root directory of 10 bytes at 127, a leaf section at 200 and tiles at 300.
abbrev word : ℕ → List ℕ
word n = n ∷ replicate 7 0

abbrev header_bytes : List ℕ
header_bytes =
    magic
    ++ (3 ∷ [])
    ++ (word 127
        ++ (word 10
            ++ (word 0
                ++ (word 0
                    ++ (word 200
                        ++ (word 50
                            ++ (word 250 ++ (word 90 ++ (word 3 ++ (word 3 ++ word 3))))))))))
    ++ (1 ∷ 1 ∷ 2 ∷ 1 ∷ 0 ∷ 5 ∷ [])
    ++ replicate 16 0
    ++ (2 ∷ [])
    ++ replicate 8 0

abbrev header : Header
header = record {
  version = 3;
  root_offset = 127;
  root_length = 10;
  metadata_offset = 0;
  metadata_length = 0;
  leaf_offset = 200;
  leaf_length = 50;
  data_offset = 250;
  data_length = 90;
  n_addressed_tiles = 3;
  n_tile_entries = 3;
  n_tile_contents = 3;
  clustered = true;
  internal_compression = Compression.plain;
  tile_compression = Compression.gzip;
  tile_type = TileType.mvt;
  min_zoom = 0;
  max_zoom = 5;
  min_longitude = 0;
  min_latitude = 0;
  max_longitude = 0;
  max_latitude = 0;
  center_zoom = 2;
  center_longitude = 0;
  center_latitude = 0;
}

parsing : Unit {0}
unfolding parse parse_version parse_fields bytes_eq check_sections get_u8 get_le compression_of
    tile_type_of archive_len sections_end
parsing = tt

parse_header : parse header_bytes ≡ ok header
unfolding parsing
parse_header = refl

parse-archive_len_example :
    (header_size ≤ length header_bytes)
    × (header.version ≡ pmtiles_version)
    × ((n : ℕ) × (archive_len header ≡ ok n)
        × (n < u64_mod)
        × All (λ s. s.0 + s.1 ≤ n) (sections header))
parse-archive_len_example = parse-archive_len header_bytes header parse_header

parse-ne-panic_example : parse magic ≢ err read_past_end
parse-ne-panic_example = parse-ne-panic magic

-- A directory whose second entry points to a leaf.
abbrev root : List Entry
root =
    record { tile_id = 0; offset = 0; length = 10; run_length = 1 }
    ∷ record { tile_id = 5; offset = 20; length = 30; run_length = 0 }
    ∷ []

abbrev walker : Walker
walker = record { header = header; archive_len = 340; tile_id = 7; depth = 0; max_depth = 4 }

walking : Unit {0}
unfolding parsing new_walker step step_at checked_section_offset find_tile_id binary_search
    search_loop
walking = tt

new_walker-walker : new_walker header 7 4 ≡ ok walker
unfolding walking
new_walker-walker = refl

walker-IsWalker : IsWalker walker
unfolding walking
walker-IsWalker = record { measured = refl; shallow = omega arith; limited = omega arith }

abbrev deeper : Walker
deeper = record walker { depth = 1 }

step_leaf : step walker root ≡ (deeper, ok (leaf (record { offset = 220; length = 30 })))
unfolding walking
step_leaf = refl

step-Within_example :
    ((r : ArchiveRange)
      → step walker root ≡ (deeper, ok (leaf r))
      → Within 200 50 r.offset r.length × (r.offset + r.length ≤ 340))
    × ((t : TileLocation)
        → step walker root ≡ (deeper, ok (tile t))
        → Within 250 90 t.offset t.length
          × (t.offset + t.length ≤ t.archive_len)
          × (t.archive_len ≡ 340))
step-Within_example = step-Within walker deeper root walker-IsWalker

-- A backend that counts the bytes that it is asked for, and answers each leaf request by a leaf
-- with the tile.
abbrev child : List Entry
child = record { tile_id = 7; offset = 40; length = 50; run_length = 1 } ∷ []

abbrev boot : ArchiveBootstrap
boot = record { header = header; root = root; metadata = none; archive_len = 340 }

abbrev counting : Backend ℕ Error
counting = record {
  load_bootstrap = λ s. (s, ok boot);
  load_leaf = λ q s. (max s q.length, ok child);
  read_range = λ q s. (max s q.length, ok (replicate q.length 0));
  invalid_tile_id = λ e. e;
  invalid_archive = λ e. e;
}

abbrev limits : ReaderLimits
limits = record {
  bootstrap_bytes = 16384;
  max_range_bytes = 20000;
  max_directory_depth = 4;
  max_decompressed_directory_bytes = 100000;
  max_decompressed_metadata_bytes = 100000;
}

-- No request was longer than the limit.
abbrev IsSmall : ℕ → Type 0
IsSmall s = s ≤ 20000

counting-IsKept : IsKept counting limits IsSmall
counting-IsKept = record {
  bootstraps = λ s p. p;
  leaves = λ q s legal p. omega arith;
  tiles = λ q s legal p. omega arith;
}

resolve_tile_location-Resolved_example :
    Post IsSmall
      (Resolved counting limits IsSmall counting-IsKept)
      (resolve_tile_location counting limits 5 7 0)
resolve_tile_location-Resolved_example =
    resolve_tile_location-Resolved counting limits IsSmall counting-IsKept 7 0 (omega arith)

get_tile-Post_example : Post IsSmall (λ got. Unit {0}) (get_tile counting limits 7 0)
get_tile-Post_example = get_tile-Post counting limits IsSmall counting-IsKept 7 0 (omega arith)
