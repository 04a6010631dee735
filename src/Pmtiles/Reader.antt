-- ===== src/Pmtiles/Reader.antt =====
-- `ArchiveReader` of crates/mmpf-pmtiles/src/reader.rs over an `ArchiveBackend`. A backend keeps a
-- state of its own (caches, observers, the network), which each call takes and returns.
pub mod Contract
pub mod Lookup
use Prim.Native.String.{String}
use biei.Prelude.{
  ℕ, zero, suc, ◌+◌, ◌-◌, ◌^◌, ◌<◌, ◌≤◌, Bool, Option, none, some, List, [], ◌∷◌, ◌++◌, Result, ok,
  err, ltb, leb, if◌then◌else◌, min,
}
use biei.Pmtiles.Error.{Error, range_too_long, address_overflow}
use biei.Pmtiles.Varint.{u64_mod}
use biei.Pmtiles.Kinds.{Compression, content_type, content_encoding}
use biei.Pmtiles.TileId.{new_tile_id}
use biei.Pmtiles.Header.{Header, archive_len}
use biei.Pmtiles.Directory.{Entry}
use biei.Pmtiles.Walker.{
  TileLocation, ArchiveRange, DirectoryStep, missing, leaf, tile, Walker, new_walker, step,
}

pub data ReadKind : Type 0 where
  bootstrap metadata leaf_directory tile_data : ReadKind

pub record ReadRequest : Type 0 where
  pub offset : ℕ
  pub length : ℕ
  pub archive_len : Option ℕ
  pub kind : ReadKind

pub record ReaderLimits : Type 0 where
  pub bootstrap_bytes : ℕ
  pub max_range_bytes : ℕ
  pub max_directory_depth : ℕ
  pub max_decompressed_directory_bytes : ℕ
  pub max_decompressed_metadata_bytes : ℕ

-- `ArchiveBootstrap`, with its metadata as the raw value that a decoder made of it.
pub record ArchiveBootstrap : Type 0 where
  pub header : Header
  pub root : List Entry
  pub metadata : Option String
  pub archive_len : ℕ

pub record LeafDirectoryRequest : Type 0 where
  pub offset : ℕ
  pub length : ℕ
  pub compression : Compression
  pub archive_len : ℕ

pub record TileData : Type 0 where
  pub bytes : List ℕ
  pub content_type : String
  pub content_encoding : Option String

pub record TileLookupTrace : Type 0 where
  pub bootstrap : ArchiveRange
  pub leaves : List ArchiveRange
  pub tile : Option TileLocation
  pub archive_len : ℕ

-- The trait `ArchiveBackend`; `S` is its state, and `E` its `Error`.
pub record Backend (S E : Type 0) : Type 0 where
  pub load_bootstrap : S → S × Result E ArchiveBootstrap
  pub load_leaf : LeafDirectoryRequest → S → S × Result E (List Entry)
  pub read_range : ReadRequest → S → S × Result E (List ℕ)
  pub invalid_tile_id : Error → E
  pub invalid_archive : Error → E

-- A call's outcome beside the backend's state; `none` is a traversal that ran out of fuel.
abbrev pub Run : Type 0 → Type 0 → Type 0 → Type 0
Run S E A = S → Option (S × Result E A)

infixl 5 ◌>>=◌
abbrev pub ◌>>=◌ : {S E A B : Type 0} → Run S E A → (A → Run S E B) → Run S E B
◌>>=◌ m f s = elim (m s) [
  | none ↦ none
  | some (s', ok a) ↦ f a s'
  | some (s', err e) ↦ some (s', err e)
]

module _ {S E : Type 0} where
  abbrev pub return : {A : Type 0} → A → Run S E A
  return a s = some (s, ok a)

  abbrev pub call : {A : Type 0} → (S → S × Result E A) → Run S E A
  call f s = some (f s)

  -- `.map_err(f)?`.
  abbrev pub lift : {A : Type 0} → (Error → E) → Result Error A → Run S E A
  lift f (ok a) s = some (s, ok a)
  lift f (err e) s = some (s, err (f e))

-- `ArchiveReader::check_range`, before its error is made the backend's.
unfoldable pub check_range : ReaderLimits → ℕ → ℕ → Result Error (Unit {0})
check_range limits offset length =
    if ltb limits.max_range_bytes length
    then err range_too_long
    else if leb u64_mod (offset + length)
    then err address_overflow
    else ok tt

-- The requests that the reader makes of its backend.
abbrev pub leaf_request : ArchiveBootstrap → ArchiveRange → LeafDirectoryRequest
leaf_request boot range = record {
  offset = range.offset;
  length = range.length;
  compression = boot.header.internal_compression;
  archive_len = boot.archive_len;
}

abbrev pub tile_request : TileLocation → ReadRequest
tile_request location = record {
  offset = location.offset;
  length = location.length;
  archive_len = some location.archive_len;
  kind = tile_data;
}

module _ {S E : Type 0} (backend : Backend S E) (limits : ReaderLimits) where
  -- The arm of `DirectoryStep::Leaf`; `next` is the round after it, at the child directory and the
  -- longer trace.
  unfoldable pub follow_leaf :
      ArchiveBootstrap
      → List ArchiveRange
      → (List Entry → List ArchiveRange → Run S E (Option TileLocation × List ArchiveRange))
      → ArchiveRange
      → Run S E (Option TileLocation × List ArchiveRange)
  follow_leaf boot leaves next range = do
    checked ← lift backend.invalid_archive (check_range limits range.offset range.length)
    child ← call (backend.load_leaf (leaf_request boot range))
    next child (leaves ++ (range ∷ []))

  -- One round of the loop of `resolve_tile_location`, once the walker has stepped.
  unfoldable pub on_step :
      ArchiveBootstrap
      → List ArchiveRange
      → (List Entry → List ArchiveRange → Run S E (Option TileLocation × List ArchiveRange))
      → Result Error DirectoryStep
      → Run S E (Option TileLocation × List ArchiveRange)
  on_step boot leaves next (err e) s = some (s, err (backend.invalid_archive e))
  on_step boot leaves next (ok missing) s = some (s, ok (none, leaves))
  on_step boot leaves next (ok (tile location)) s = some (s, ok (some location, leaves))
  on_step boot leaves next (ok (leaf range)) s = follow_leaf boot leaves next range s

  -- The loop, with fuel for its rounds. `leaves` is in the order of the reads.
  unfoldable pub resolve_loop :
      ℕ
      → ArchiveBootstrap
      → Walker
      → List Entry
      → List ArchiveRange
      → Run S E (Option TileLocation × List ArchiveRange)
  resolve_loop zero boot walker directory leaves s = none
  resolve_loop (suc fuel) boot walker directory leaves s =
      let (walker', stepped) = step walker directory in
      on_step boot leaves (resolve_loop fuel boot walker') stepped s

  -- `resolve_tile_location` once the bootstrap is loaded.
  unfoldable pub locate :
      ℕ → ℕ → ArchiveBootstrap → Run S E (Option TileLocation × List ArchiveRange × Header × ℕ)
  locate fuel tile_id boot = do
    walker ←
        lift backend.invalid_archive (new_walker boot.header tile_id limits.max_directory_depth)
    (found, leaves) ← resolve_loop fuel boot walker boot.root []
    return (found, leaves, boot.header, boot.archive_len)

  -- `resolve_tile_location`, with the fuel of the loop.
  unfoldable pub resolve_tile_location :
      ℕ → ℕ → Run S E (Option TileLocation × List ArchiveRange × Header × ℕ)
  resolve_tile_location fuel tile_id = do
    valid_id ← lift backend.invalid_tile_id (new_tile_id tile_id)
    boot ← call backend.load_bootstrap
    locate fuel valid_id boot

  -- The rounds that the depth limit allows, and one more.
  abbrev pub enough : ℕ
  enough = limits.max_directory_depth + 1

  -- `lookup_with_trace`.
  unfoldable pub lookup_with_trace : ℕ → Run S E TileLookupTrace
  lookup_with_trace tile_id = do
    (found, leaves, header, archive_len) ← resolve_tile_location enough tile_id
    return (record {
      bootstrap = record { offset = 0; length = min limits.bootstrap_bytes (2 ^ 32 - 1) };
      leaves = leaves;
      tile = found;
      archive_len = archive_len;
    })

  -- The end of `get_tile`, where a location was found.
  unfoldable pub read_location : TileLocation → Header → Run S E (Option TileData)
  read_location location header = do
    checked ← lift backend.invalid_archive (check_range limits location.offset location.length)
    bytes ← call (backend.read_range (tile_request location))
    return (
        some (record {
          bytes = bytes;
          content_type = content_type header.tile_type;
          content_encoding = content_encoding header.tile_compression;
        }))

  -- `get_tile`.
  unfoldable pub get_tile : ℕ → Run S E (Option TileData)
  get_tile tile_id = do
    (found, leaves, header, archive_len) ← resolve_tile_location enough tile_id
    elim found [ none ↦ return none | some location ↦ read_location location header ]
