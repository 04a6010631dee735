-- ===== src/Pmtiles/Walker.antt =====
-- `DirectoryWalker` and `checked_section_offset` of crates/mmpf-pmtiles/src/reader.rs.
pub mod Bounds
use biei.Prelude.{
  ℕ, ◌+◌, ◌<◌, ◌≤◌, Option, none, some, List, Result, ok, err, ◌>>=◌, ◌>>◌, ensure, or_err, ltb,
  leb, ◌==◌, if◌then◌else◌,
}
use biei.Pmtiles.Error.{
  Error, zero_depth_limit, depth_exceeded, entry_range_overflow, entry_outside_section,
  absolute_offset_overflow,
}
use biei.Pmtiles.Header.{Header, archive_len, checked_add}
use biei.Pmtiles.Directory.{Entry, is_leaf, find_tile_id}

pub record TileLocation : Type 0 where
  pub offset : ℕ
  pub length : ℕ
  pub archive_len : ℕ

pub record ArchiveRange : Type 0 where
  pub offset : ℕ
  pub length : ℕ

pub data DirectoryStep : Type 0 where
  missing : DirectoryStep
  leaf : ArchiveRange → DirectoryStep
  tile : TileLocation → DirectoryStep

pub record Walker : Type 0 where
  pub header : Header
  pub archive_len : ℕ
  pub tile_id : ℕ
  pub depth : ℕ
  pub max_depth : ℕ

-- `DirectoryWalker::new`.
unfoldable pub new_walker : Header → ℕ → ℕ → Result Error Walker
new_walker header tile_id max_depth =
    if max_depth == 0
    then err zero_depth_limit
    else archive_len header >>= λ archive_len. ok (record {
      header = header;
      archive_len = archive_len;
      tile_id = tile_id;
      depth = 0;
      max_depth = max_depth;
    })

unfoldable pub checked_section_offset : ℕ → ℕ → ℕ → ℕ → Result Error ℕ
checked_section_offset section_offset section_length relative_offset length =
    or_err (checked_add relative_offset length) entry_range_overflow >>= λ relative_end.
    if ltb section_length relative_end
    then err entry_outside_section
    else or_err (checked_add section_offset relative_offset) absolute_offset_overflow

-- `DirectoryWalker::step` at the entry that was found. The depth is counted before the offset of
-- the leaf is checked, so it is counted also where that check fails.
unfoldable pub step_at : Walker → Entry → Walker × Result Error DirectoryStep
step_at w entry =
    if is_leaf entry
    then (if leb w.max_depth w.depth then (w, err depth_exceeded) else (
      record w { depth = w.depth + 1 },
      checked_section_offset w.header.leaf_offset w.header.leaf_length entry.offset entry.length
          >>= λ offset. ok (leaf (record { offset = offset; length = entry.length })),
    ))
    else (
      w,
      checked_section_offset w.header.data_offset w.header.data_length entry.offset entry.length
          >>= λ offset. ok (
              tile
                (record { offset = offset; length = entry.length; archive_len = w.archive_len })),
    )

-- `DirectoryWalker::step`: the walker is `&mut self`.
unfoldable pub step : Walker → List Entry → Walker × Result Error DirectoryStep
step w directory = elim (find_tile_id directory w.tile_id) [
  | none ↦ (w, ok missing)
  | some (index, entry) ↦ step_at w entry
]
