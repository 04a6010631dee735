-- ===== src/Pmtiles/Directory/RoundTrip.antt =====
-- A directory written in the four columns of the format is read back entry by entry.
use mathlib.Core.List.{append_assoc, append-nil}
use biei.Prelude.{
  ℕ, ◌+◌, ◌-◌, ◌*◌, ◌^◌, ◌<◌, ◌≤◌, ◌≡◌, refl, List, [], ◌∷◌, ◌++◌, Option, none, some, arith,
  length, replicate, map, ok, All, All-append, length-append, lt→ltb, le→leb,
}
use biei.Pmtiles.Varint.{IsByte, IsU32, u64_mod}
use biei.Pmtiles.Varint.Spell.{put_varint, read-put_varint}
use biei.Pmtiles.Directory.{
  Entry, default_entry, read_u32_varint, read_tile_ids, read_run_lengths, read_lengths, next_offset,
  read_offsets, parse_entries,
}
use biei.Pmtiles.Directory.Parse.{Ascends, RunsFit, LengthsFit}
use biei.Pmtiles.Directory.Columns.{
  put_ids, put_runs, put_lengths, offset_code, put_offsets, put_entries, OffsetsRoom, ids_only,
  with_runs, with_lengths, put_ids_bytes, put_runs_bytes, put_lengths_bytes, put_offsets_bytes,
  offset_code-IsU64,
}

read-put_ids :
    (low : ℕ) (entries : List Entry) (rest : List ℕ)
    → Ascends low entries
    → All IsByte rest
    → read_tile_ids low (replicate (length entries) default_entry) (put_ids low entries ++ rest)
      ≡ ok (map ids_only entries, rest)
unfolding put_ids read_tile_ids
read-put_ids low [] rest up bytes = refl
read-put_ids low (e ∷ entries) rest up bytes =
    let tail = put_ids e.tile_id entries ++ rest in
    let all =
      All-append IsByte (put_ids e.tile_id entries) rest (put_ids_bytes e.tile_id entries up.2).0
        bytes in
    let back : low + (e.tile_id - low) ≡ e.tile_id = omega arith in
    rw (append_assoc (put_varint (e.tile_id - low)) (put_ids e.tile_id entries) rest) (
      rw (read-put_varint (e.tile_id - low) tail (omega arith) all) (
        rw (back, lt→ltb e.tile_id u64_mod up.1)
          (rw (read-put_ids e.tile_id entries rest up.2 bytes))))

read_u32-put_varint :
    (v : ℕ) (rest : List ℕ)
    → IsU32 v
    → All IsByte rest
    → read_u32_varint (put_varint v ++ rest) ≡ ok (v, rest)
unfolding read_u32_varint
read_u32-put_varint v rest h bytes =
    rw (read-put_varint v rest (omega arith) bytes) (rw (lt→ltb v (2 ^ 32) h))

read-put_runs :
    (entries : List Entry) (rest : List ℕ)
    → RunsFit entries
    → All IsByte rest
    → read_run_lengths (map ids_only entries) (put_runs entries ++ rest)
      ≡ ok (map with_runs entries, rest)
unfolding put_runs read_run_lengths
read-put_runs [] rest fits bytes = refl
read-put_runs (e ∷ entries) rest fits bytes =
    let all = All-append IsByte (put_runs entries) rest (put_runs_bytes entries fits.1).0 bytes in
    rw (append_assoc (put_varint e.run_length) (put_runs entries) rest) (
      rw (read_u32-put_varint e.run_length (put_runs entries ++ rest) fits.0 all)
        (rw (read-put_runs entries rest fits.1 bytes)))

read-put_lengths :
    (entries : List Entry) (rest : List ℕ)
    → LengthsFit entries
    → All IsByte rest
    → read_lengths (map with_runs entries) (put_lengths entries ++ rest)
      ≡ ok (map with_lengths entries, rest)
unfolding put_lengths read_lengths
read-put_lengths [] rest fits bytes = refl
read-put_lengths (e ∷ entries) rest fits bytes =
    let all =
      All-append IsByte (put_lengths entries) rest (put_lengths_bytes entries fits.1).0 bytes in
    rw (append_assoc (put_varint e.length) (put_lengths entries) rest) (
      rw (read_u32-put_varint e.length (put_lengths entries ++ rest) fits.0 all)
        (rw (read-put_lengths entries rest fits.1 bytes)))

next_offset-offset_code :
    (previous : Option Entry) (offset : ℕ)
    → offset + 1 < u64_mod
    → next_offset previous (offset_code previous offset) ≡ ok offset
unfolding next_offset offset_code
next_offset-offset_code none offset h = ground arith
next_offset-offset_code (some p) offset h = ground arith

read-put_offsets :
    (previous : Option Entry) (entries : List Entry) (rest : List ℕ)
    → OffsetsRoom entries
    → All IsByte rest
    → read_offsets previous (map with_lengths entries) (put_offsets previous entries ++ rest)
      ≡ ok (entries, rest)
unfolding put_offsets read_offsets
read-put_offsets previous [] rest fits bytes = refl
read-put_offsets previous (e ∷ entries) rest fits bytes =
    let code = offset_code previous e.offset in
    let all =
      All-append IsByte (put_offsets (some e) entries) rest
        (put_offsets_bytes (some e) entries fits.1).0 bytes in
    rw (append_assoc (put_varint code) (put_offsets (some e) entries) rest) (
      rw
        (read-put_varint code (put_offsets (some e) entries ++ rest)
          (offset_code-IsU64 previous e.offset fits.0) all)
        (rw (next_offset-offset_code previous e.offset fits.0)
          (rw (read-put_offsets (some e) entries rest fits.1 bytes))))

-- A directory whose ids do not fall and whose fields are in the ranges of the format is read back
-- unchanged from the block that a writer of the format makes of it.
pub parse_entries-put_entries :
    (entries : List Entry)
    → Ascends 0 entries
    → RunsFit entries
    → LengthsFit entries
    → OffsetsRoom entries
    → length entries * 4 < u64_mod
    → parse_entries (put_entries entries) ≡ ok entries
unfolding parse_entries put_entries
parse_entries-put_entries entries up runs lengths offsets small =
    let n = length entries in
    let (b4, l4) = put_offsets_bytes none entries offsets in
    let (b3, l3) = put_lengths_bytes entries lengths in
    let (b2, l2) = put_runs_bytes entries runs in
    let (b1, l1) = put_ids_bytes 0 entries up in
    let t4 = put_offsets none entries in
    let t3 = put_lengths entries ++ t4 in
    let t2 = put_runs entries ++ t3 in
    let a3 = All-append IsByte (put_lengths entries) t4 b3 b4 in
    let a2 = All-append IsByte (put_runs entries) t3 b2 a3 in
    let a1 = All-append IsByte (put_ids 0 entries) t2 b1 a2 in
    let room : n * 4 ≤ length (put_ids 0 entries ++ t2) = omega (
      arith,
      length-append (put_ids 0 entries) t2,
      length-append (put_runs entries) t3,
      length-append (put_lengths entries) t4,
    ) in
    let offsets_read : read_offsets none (map with_lengths entries) t4 ≡ ok (entries, []) =
      rw append-nil at (read-put_offsets none entries [] offsets tt) in
    rw (read-put_varint n (put_ids 0 entries ++ t2) (omega arith) a1) (
      rw (lt→ltb (n * 4) u64_mod small, le→leb (n * 4) (length (put_ids 0 entries ++ t2)) room)
        (rw (read-put_ids 0 entries t2 up a2) (
          rw (read-put_runs entries t3 runs a3)
            (rw (read-put_lengths entries t4 lengths b4) (rw offsets_read)))))
