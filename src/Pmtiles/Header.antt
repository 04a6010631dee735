-- ===== src/Pmtiles/Header.antt =====
-- `Header::parse` of crates/mmpf-pmtiles/src/format.rs and `archive_len` of reader.rs. The
-- coordinates are kept as the 32 bits that `get_i32_le` reads; the source divides that integer by
-- 10,000,000 as an `f64`.
pub mod Safety
pub use biei.Prelude.Words.{checked_add}
use biei.Prelude.{
  ℕ, ◌+◌, ◌-◌, ◌≤◌, ◌<◌, Bool, true, false, not, List, [], ◌∷◌, Option, some, none, Result, ok, err,
  ltb, leb, ◌==◌, if◌then◌else◌, length, take, drop, max, ◌&&◌, or_err, ensure,
}
use biei.Prelude.Results
use biei.Pmtiles.Error.{Error, header_truncated, invalid_magic, unsupported_version, range_overflow}
use biei.Pmtiles.Varint.{u64_mod}
use biei.Pmtiles.Kinds.{Compression, TileType, compression_of, tile_type_of}
use biei.Pmtiles.Get.{Get, ◌>>=◌, return, lift, get_u8, get_le}

abbrev pub header_size : ℕ
header_size = 127

abbrev pub pmtiles_version : ℕ
pmtiles_version = 3

pub record Header : Type 0 where
  pub version : ℕ
  pub root_offset : ℕ
  pub root_length : ℕ
  pub metadata_offset : ℕ
  pub metadata_length : ℕ
  pub leaf_offset : ℕ
  pub leaf_length : ℕ
  pub data_offset : ℕ
  pub data_length : ℕ
  pub n_addressed_tiles : ℕ
  pub n_tile_entries : ℕ
  pub n_tile_contents : ℕ
  pub clustered : Bool
  pub internal_compression : Compression
  pub tile_compression : Compression
  pub tile_type : TileType
  pub min_zoom : ℕ
  pub max_zoom : ℕ
  pub min_longitude : ℕ
  pub min_latitude : ℕ
  pub max_longitude : ℕ
  pub max_latitude : ℕ
  pub center_zoom : ℕ
  pub center_longitude : ℕ
  pub center_latitude : ℕ

abbrev pub magic : List ℕ
magic = b'P' ∷ b'M' ∷ b'T' ∷ b'i' ∷ b'l' ∷ b'e' ∷ b's' ∷ []

-- Equality of byte strings.
unfoldable pub bytes_eq : List ℕ → List ℕ → Bool
bytes_eq [] [] = true
bytes_eq [] (b ∷ bs) = false
bytes_eq (a ∷ as') [] = false
bytes_eq (a ∷ as') (b ∷ bs) = a == b && bytes_eq as' bs

-- The fields behind the version, in the order of the file.
unfoldable pub parse_fields : ℕ → Get Header
parse_fields version = do
  root_offset ← get_le 8
  root_length ← get_le 8
  metadata_offset ← get_le 8
  metadata_length ← get_le 8
  leaf_offset ← get_le 8
  leaf_length ← get_le 8
  data_offset ← get_le 8
  data_length ← get_le 8
  n_addressed_tiles ← get_le 8
  n_tile_entries ← get_le 8
  n_tile_contents ← get_le 8
  clustered ← get_u8
  internal ← get_u8
  internal_compression ← lift (compression_of internal)
  tile ← get_u8
  tile_compression ← lift (compression_of tile)
  kind ← get_u8
  tile_type ← lift (tile_type_of kind)
  min_zoom ← get_u8
  max_zoom ← get_u8
  min_longitude ← get_le 4
  min_latitude ← get_le 4
  max_longitude ← get_le 4
  max_latitude ← get_le 4
  center_zoom ← get_u8
  center_longitude ← get_le 4
  center_latitude ← get_le 4
  return (record {
    version = version;
    root_offset = root_offset;
    root_length = root_length;
    metadata_offset = metadata_offset;
    metadata_length = metadata_length;
    leaf_offset = leaf_offset;
    leaf_length = leaf_length;
    data_offset = data_offset;
    data_length = data_length;
    n_addressed_tiles = n_addressed_tiles;
    n_tile_entries = n_tile_entries;
    n_tile_contents = n_tile_contents;
    clustered = not (clustered == 0);
    internal_compression = internal_compression;
    tile_compression = tile_compression;
    tile_type = tile_type;
    min_zoom = min_zoom;
    max_zoom = max_zoom;
    min_longitude = min_longitude;
    min_latitude = min_latitude;
    max_longitude = max_longitude;
    max_latitude = max_latitude;
    center_zoom = center_zoom;
    center_longitude = center_longitude;
    center_latitude = center_latitude;
  })

-- The four sections, as (offset, length).
abbrev pub sections : Header → List (ℕ × ℕ)
sections h =
    (h.root_offset, h.root_length)
    ∷ (h.metadata_offset, h.metadata_length)
    ∷ (h.leaf_offset, h.leaf_length)
    ∷ (h.data_offset, h.data_length)
    ∷ []

-- The loop over the sections at the end of `Header::parse`.
unfoldable pub check_sections : List (ℕ × ℕ) → Result Error (Unit {0})
check_sections [] = ok tt
check_sections ((offset, length) ∷ rest) =
    Results.◌>>=◌ (or_err (checked_add offset length) range_overflow) (λ _. check_sections rest)

-- `Header::parse` from the version on.
unfoldable pub parse_version : ℕ → List ℕ → Result Error Header
parse_version version bytes =
    if version == pmtiles_version
    then Results.◌>>=◌ (parse_fields version bytes)
        (λ (header, _). Results.◌>>=◌ (check_sections (sections header)) (λ _. ok header))
    else err unsupported_version

unfoldable pub parse : List ℕ → Result Error Header
parse bytes =
    if ltb (length bytes) header_size
    then err header_truncated
    else if not (bytes_eq (take 7 bytes) magic)
    then err invalid_magic
    else Results.◌>>=◌ (get_u8 (drop 7 bytes)) (λ (version, rest). parse_version version rest)

-- The loop of `archive_len`, with its variable `end`.
unfoldable pub sections_end : ℕ → List (ℕ × ℕ) → Result Error ℕ
sections_end end [] = ok end
sections_end end ((offset, length) ∷ rest) =
    Results.◌>>=◌ (or_err (checked_add offset length) range_overflow)
      (λ section_end. sections_end (max end section_end) rest)

unfoldable pub archive_len : Header → Result Error ℕ
unfolding sections_end
archive_len header = sections_end 0 (sections header)
