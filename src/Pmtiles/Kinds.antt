-- ===== src/Pmtiles/Kinds.antt =====
-- `Compression` and `TileType` of crates/mmpf-pmtiles/src/format.rs, with their HTTP and TileJSON
-- names.
use Prim.Native.String.{String}
use biei.Prelude.{ℕ, Option, none, some, Result, ok, err, ◌==◌, if◌then◌else◌}
use biei.Pmtiles.Error.{Error, invalid_compression, invalid_tile_type}

pub data Compression : Type 0 where
  unknown plain gzip brotli zstd : Compression

pub content_encoding : Compression → Option String
content_encoding gzip = some "gzip"
content_encoding brotli = some "br"
content_encoding zstd = some "zstd"
content_encoding unknown = none
content_encoding plain = none

-- `Compression::try_from`.
unfoldable pub compression_of : ℕ → Result Error Compression
compression_of value =
    if value == 0
    then ok unknown
    else if value == 1
    then ok plain
    else if value == 2
    then ok gzip
    else if value == 3
    then ok brotli
    else if value == 4
    then ok zstd
    else err invalid_compression

pub data TileType : Type 0 where
  unknown mvt png jpeg webp avif mlt : TileType

pub content_type : TileType → String
content_type TileType.mvt = "application/vnd.mapbox-vector-tile"
content_type TileType.png = "image/png"
content_type TileType.jpeg = "image/jpeg"
content_type TileType.webp = "image/webp"
content_type TileType.avif = "image/avif"
content_type TileType.mlt = "application/vnd.maplibre-tile"
content_type TileType.unknown = "application/octet-stream"

pub tilejson_format : TileType → Option String
tilejson_format TileType.mvt = some "pbf"
tilejson_format TileType.mlt = some "pbf"
tilejson_format TileType.png = some "png"
tilejson_format TileType.jpeg = some "jpg"
tilejson_format TileType.webp = some "webp"
tilejson_format TileType.avif = some "avif"
tilejson_format TileType.unknown = none

pub tilejson_encoding : TileType → Option String
tilejson_encoding TileType.mvt = some "mvt"
tilejson_encoding TileType.mlt = some "mlt"
tilejson_encoding TileType.unknown = none
tilejson_encoding TileType.png = none
tilejson_encoding TileType.jpeg = none
tilejson_encoding TileType.webp = none
tilejson_encoding TileType.avif = none

-- `TileType::try_from`.
unfoldable pub tile_type_of : ℕ → Result Error TileType
tile_type_of value =
    if value == 0
    then ok TileType.unknown
    else if value == 1
    then ok TileType.mvt
    else if value == 2
    then ok TileType.png
    else if value == 3
    then ok TileType.jpeg
    else if value == 4
    then ok TileType.webp
    else if value == 5
    then ok TileType.avif
    else if value == 6
    then ok TileType.mlt
    else err invalid_tile_type
