-- ===== src/Pmtiles/Directory/Parse.antt =====
-- What a parsed directory looks like: sorted ids, fields in range, and no more entries than the
-- bytes allow.
use biei.Prelude.{
  ℕ, zero, suc, ◌*◌, ◌<◌, ◌≤◌, ◌≡◌, List, [], ◌∷◌, Option, none, some, arith, ltb, leb, length,
  replicate, ok, >>=-eq-ok, or_err, ensure, All, length-replicate,
}
use biei.Pmtiles.Varint.{IsByte, IsU64, IsU32, u64_mod, read_u64_varint}
use biei.Pmtiles.Varint.Value.{read_u64_varint_rest}
use biei.Pmtiles.Header.{checked_add}
use biei.Pmtiles.Directory.{
  Entry, default_entry, id_at, read_u32_varint, read_tile_ids, read_run_lengths, read_lengths,
  next_offset, read_offsets, parse_entries,
}
use biei.Pmtiles.Directory.Find.{IsSorted}

-- The ids are u64s, none is below `low`, and they do not fall.
abbrev pub Ascends : ℕ → List Entry → Type 0
Ascends low [] = Unit {0}
Ascends low (e ∷ entries) = (low ≤ e.tile_id) × IsU64 e.tile_id × Ascends e.tile_id entries

Ascends-id_at :
    (low : ℕ) (entries : List Entry) (i : ℕ)
    → Ascends low entries
    → i < length entries
    → low ≤ id_at entries i
Ascends-id_at low [] i h lt = absurd (omega arith)
Ascends-id_at low (e ∷ entries) zero h lt = h.0
Ascends-id_at low (e ∷ entries) (suc i) h lt =
    omega (arith, Ascends-id_at e.tile_id entries i h.2 (omega arith))

pub Ascends-IsSorted : (low : ℕ) (entries : List Entry) → Ascends low entries → IsSorted entries
Ascends-IsSorted low [] h i j le lt = absurd (omega arith)
Ascends-IsSorted low (e ∷ entries) h zero zero le lt = omega arith
Ascends-IsSorted low (e ∷ entries) h zero (suc j) le lt =
    Ascends-id_at e.tile_id entries j h.2 (omega arith)
Ascends-IsSorted low (e ∷ entries) h (suc i) zero le lt = absurd (omega arith)
Ascends-IsSorted low (e ∷ entries) h (suc i) (suc j) le lt =
    Ascends-IsSorted e.tile_id entries h.2 i j (omega arith) (omega arith)

Ascends-IsU64 :
    (low : ℕ) (entries : List Entry) → Ascends low entries → All (λ e. IsU64 e.tile_id) entries
Ascends-IsU64 low [] h = tt
Ascends-IsU64 low (e ∷ entries) h = (h.1, Ascends-IsU64 e.tile_id entries h.2)

read_u32_varint_rest :
    (bs : List ℕ) (v : ℕ) (rest : List ℕ)
    → All IsByte bs
    → read_u32_varint bs ≡ ok (v, rest)
    → IsU32 v × All IsByte rest
unfolding read_u32_varint
read_u32_varint_rest bs v rest bytes h =
    let ((v', rest'), e, k) = >>=-eq-ok (read_u64_varint bs) _ h in
    let (_, bytes', _) = read_u64_varint_rest bs v' rest' bytes e in ground arith

read_tile_ids_lem :
    (low : ℕ) (entries done : List Entry) (bs rest : List ℕ)
    → All IsByte bs
    → read_tile_ids low entries bs ≡ ok (done, rest)
    → Ascends low done × All IsByte rest × (length done ≡ length entries)
unfolding read_tile_ids
read_tile_ids_lem low [] done bs rest bytes h = ground arith
read_tile_ids_lem low (e ∷ entries) done bs rest bytes h =
    let ((delta, bs1), e1, k1) = >>=-eq-ok (read_u64_varint bs) _ h in
    let (id, e2, k2) = >>=-eq-ok (or_err (checked_add low delta) _) _ k1 in
    let ((done', rest'), e3, k3) = >>=-eq-ok (read_tile_ids id entries bs1) _ k2 in
    let (_, bytes1, _) = read_u64_varint_rest bs delta bs1 bytes e1 in
    let ih = read_tile_ids_lem id entries done' bs1 rest' bytes1 e3 in ground (arith, ih)

abbrev pub RunsFit : List Entry → Type 0
RunsFit = All (λ e. IsU32 e.run_length)

abbrev pub LengthsFit : List Entry → Type 0
LengthsFit = All (λ e. IsU32 e.length)

abbrev pub OffsetsFit : List Entry → Type 0
OffsetsFit = All (λ e. IsU64 e.offset)

read_run_lengths_lem :
    (low : ℕ) (entries done : List Entry) (bs rest : List ℕ)
    → All IsByte bs
    → Ascends low entries
    → read_run_lengths entries bs ≡ ok (done, rest)
    → Ascends low done × RunsFit done × All IsByte rest × (length done ≡ length entries)
unfolding read_run_lengths
read_run_lengths_lem low [] done bs rest bytes up h = ground arith
read_run_lengths_lem low (e ∷ entries) done bs rest bytes up h =
    let ((run, bs1), e1, k1) = >>=-eq-ok (read_u32_varint bs) _ h in
    let ((done', rest'), e2, k2) = >>=-eq-ok (read_run_lengths entries bs1) _ k1 in
    let (fits, bytes1) = read_u32_varint_rest bs run bs1 bytes e1 in
    let ih = read_run_lengths_lem e.tile_id entries done' bs1 rest' bytes1 up.2 e2 in
    ground (arith, ih)

read_lengths_lem :
    (low : ℕ) (entries done : List Entry) (bs rest : List ℕ)
    → All IsByte bs
    → Ascends low entries
    → RunsFit entries
    → read_lengths entries bs ≡ ok (done, rest)
    → Ascends low done
      × RunsFit done
      × LengthsFit done
      × All IsByte rest
      × (length done ≡ length entries)
unfolding read_lengths
read_lengths_lem low [] done bs rest bytes up runs h = ground arith
read_lengths_lem low (e ∷ entries) done bs rest bytes up runs h =
    let ((size, bs1), e1, k1) = >>=-eq-ok (read_u32_varint bs) _ h in
    let ((done', rest'), e2, k2) = >>=-eq-ok (read_lengths entries bs1) _ k1 in
    let (fits, bytes1) = read_u32_varint_rest bs size bs1 bytes e1 in
    let ih = read_lengths_lem e.tile_id entries done' bs1 rest' bytes1 up.2 runs.1 e2 in
    ground (arith, ih)

next_offset-IsU64 :
    (previous : Option Entry) (value offset : ℕ)
    → IsU64 value
    → next_offset previous value ≡ ok offset
    → IsU64 offset
unfolding next_offset
next_offset-IsU64 none zero offset fits h = absurd (cc)
next_offset-IsU64 (some previous) zero offset fits h = ground arith
next_offset-IsU64 previous (suc value) offset fits h = ground arith

read_offsets_lem :
    (low : ℕ) (previous : Option Entry) (entries done : List Entry) (bs rest : List ℕ)
    → All IsByte bs
    → Ascends low entries
    → RunsFit entries
    → LengthsFit entries
    → read_offsets previous entries bs ≡ ok (done, rest)
    → Ascends low done
      × RunsFit done
      × LengthsFit done
      × OffsetsFit done
      × (length done ≡ length entries)
unfolding read_offsets
read_offsets_lem low previous [] done bs rest bytes up runs lengths h = ground arith
read_offsets_lem low previous (e ∷ entries) done bs rest bytes up runs lengths h =
    let ((value, bs1), e1, k1) = >>=-eq-ok (read_u64_varint bs) _ h in
    let (offset, e2, k2) = >>=-eq-ok (next_offset previous value) _ k1 in
    let ((done', rest'), e3, k3) =
      >>=-eq-ok (read_offsets (some (record e { offset = offset })) entries bs1) _ k2 in
    let (fits, bytes1, _) = read_u64_varint_rest bs value bs1 bytes e1 in
    let ok64 = next_offset-IsU64 previous value offset fits e2 in
    let ih = read_offsets_lem e.tile_id _ entries done' bs1 rest' bytes1 up.2 runs.1 lengths.1 e3 in
    ground (arith, ih)

-- A directory that parses has tile ids that do not fall, ids and offsets that are u64s, and
-- lengths and run lengths that are u32s; and it was read from more than four bytes an entry.
pub parse_entries_fit :
    (bytes : List ℕ) (entries : List Entry)
    → All IsByte bytes
    → parse_entries bytes ≡ ok entries
    → IsSorted entries
      × All (λ e. IsU64 e.tile_id) entries
      × RunsFit entries
      × LengthsFit entries
      × OffsetsFit entries
      × (4 * length entries < length bytes)
unfolding parse_entries
parse_entries_fit bytes entries all h =
    let ((n, b0), e0, k0) = >>=-eq-ok (read_u64_varint bytes) _ h in
    let (_, e1, k1) = >>=-eq-ok (ensure (ltb (n * 4) u64_mod) _) _ k0 in
    let (_, e2, k2) = >>=-eq-ok (ensure (leb (n * 4) (length b0)) _) _ k1 in
    let ((ids, b1), e3, k3) = >>=-eq-ok (read_tile_ids 0 (replicate n default_entry) b0) _ k2 in
    let ((runs, b2), e4, k4) = >>=-eq-ok (read_run_lengths ids b1) _ k3 in
    let ((lengths, b3), e5, k5) = >>=-eq-ok (read_lengths runs b2) _ k4 in
    let ((done, b4), e6, k6) = >>=-eq-ok (read_offsets none lengths b3) _ k5 in
    let (_, all0, shorter) = read_u64_varint_rest bytes n b0 all e0 in
    let i = read_tile_ids_lem 0 (replicate n default_entry) ids b0 b1 all0 e3 in
    let r = read_run_lengths_lem 0 ids runs b1 b2 i.1 i.0 e4 in
    let l = read_lengths_lem 0 runs lengths b2 b3 r.2 r.0 r.1 e5 in
    let o = read_offsets_lem 0 none lengths done b3 b4 l.3 l.0 l.1 l.2 e6 in
    let room : n * 4 ≤ length b0 = ground arith in
    let count : length done ≡ n =
      omega (arith, length-replicate n default_entry, i.2, r.3, l.4, o.4) in
    let same : done ≡ entries = ground arith in
    rw (← same) (Ascends-IsSorted 0 done o.0, Ascends-IsU64 0 done o.0, o.1, o.2, o.3, omega arith)
