-- ===== src/Pmtiles/Error.antt =====
-- The errors of crates/mmpf-pmtiles/src/format.rs and reader.rs (`anyhow` messages there).
pub data Error : Type 0 where
  read_past_end unexpected_eof varint_exceeds_u64 varint_exceeds_u32 : Error
  invalid_zoom invalid_coordinate invalid_tile_id : Error
  invalid_compression invalid_tile_type : Error
  header_truncated invalid_magic unsupported_version range_overflow : Error
  payload_too_large unsupported_compression codec_failed limit_overflow : Error
  entry_count_overflow too_many_entries tile_id_overflow : Error
  no_previous_entry offset_overflow : Error
  zero_depth_limit depth_exceeded entry_range_overflow entry_outside_section : Error
  absolute_offset_overflow : Error
  archive_truncated root_range_invalid root_outside_bootstrap : Error
  range_too_long address_overflow short_read : Error
  bad_metadata : Error
