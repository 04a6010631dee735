-- ===== src/Pmtiles/Walker/Bounds.antt =====
-- The ranges that the walker asks for lie inside the sections that the header declares.
use biei.Prelude.{
  ℕ, ◌+◌, ◌<◌, ◌≤◌, max, ◌≡◌, ◌⊎◌, inl, inr, List, [], ◌∷◌, ok, arith, All, Option-cases,
  Result-cases, refl,
}
use biei.Pmtiles.Header.{Header, archive_len, sections, sections_end}
use biei.Pmtiles.Directory.{Entry, find_tile_id}
use biei.Pmtiles.Walker.{
  TileLocation, ArchiveRange, DirectoryStep, missing, leaf, tile, Walker, new_walker,
  checked_section_offset, step_at, step,
}

-- A range of bytes inside a section.
abbrev pub Within : ℕ → ℕ → ℕ → ℕ → Type 0
Within section_offset section_length offset length =
    (section_offset ≤ offset) × (offset + length ≤ section_offset + section_length)

checked_section_offset_lem :
    (section_offset section_length relative_offset length offset : ℕ)
    → checked_section_offset section_offset section_length relative_offset length ≡ ok offset
    → Within section_offset section_length offset length
      × (offset ≡ section_offset + relative_offset)
unfolding checked_section_offset
checked_section_offset_lem section_offset section_length relative_offset length offset h =
    ground arith

-- What a step promises of the range that it asks for.
abbrev pub Promise : Walker → DirectoryStep → Type 0
Promise w missing = Unit {0}
Promise w (leaf r) = Within w.header.leaf_offset w.header.leaf_length r.offset r.length
Promise w (tile t) =
    Within w.header.data_offset w.header.data_length t.offset t.length
    × (t.archive_len ≡ w.archive_len)

-- What a step does to the walker: only the depth changes, and only for a leaf pointer.
abbrev pub Moves : Walker → Walker → Type 0
Moves w w' = (w' ≡ w) ⊎ ((w.depth < w.max_depth) × (w' ≡ record w { depth = w.depth + 1 }))

step_at_lem :
    (w w' : Walker) (e : Entry) (d : DirectoryStep)
    → step_at w e ≡ (w', ok d)
    → Moves w w' × Promise w d
unfolding step_at
step_at_lem w w' e missing h = ground arith
step_at_lem w w' e (leaf r) h = ground (
  arith,
  checked_section_offset_lem w.header.leaf_offset w.header.leaf_length e.offset e.length r.offset,
)
step_at_lem w w' e (tile t) h = ground (
  arith,
  checked_section_offset_lem w.header.data_offset w.header.data_length e.offset e.length t.offset,
)

-- The walker has the length of its own archive, and has not gone deeper than its limit.
pub record IsWalker (w : Walker) : Type 0 where
  pub measured : archive_len w.header ≡ ok w.archive_len
  pub shallow : w.depth ≤ w.max_depth
  pub limited : 0 < w.max_depth

-- A walker that `DirectoryWalker::new` makes is well formed, stands at depth 0, and has the header,
-- tile id and limit that it was given.
pub new_walker-IsWalker :
    (h : Header) (tile_id max_depth : ℕ) (w : Walker)
    → new_walker h tile_id max_depth ≡ ok w
    → IsWalker w
      × (w.header ≡ h)
      × (w.tile_id ≡ tile_id)
      × (w.max_depth ≡ max_depth)
      × (w.depth ≡ 0)
unfolding new_walker
new_walker-IsWalker h tile_id max_depth w e = elim (Result-cases (archive_len h)) [
  | inl (n, total) ↦ ground (arith, total)
  | inr (x, bad) ↦ ground arith
]

step_at-Moves : (w : Walker) (e : Entry) → Moves w (step_at w e).0
unfolding step_at
step_at-Moves w e = ground arith

step-Moves : (w : Walker) (directory : List Entry) → Moves w (step w directory).0
unfolding step
step-Moves w directory = elim (Option-cases (find_tile_id directory w.tile_id)) [
  | inl e ↦ rw (e, step) (inl refl)
  | inr ((i, entry), e) ↦ rw (e, step) (step_at-Moves w entry)
]

-- Every step, failing ones included, keeps the walker well formed and changes nothing of it but the
-- depth, which rises by one at most.
pub step-IsWalker :
    (w : Walker) (directory : List Entry)
    → IsWalker w
    → Moves w (step w directory).0 × IsWalker (step w directory).0
step-IsWalker w directory h = ground (arith, step-Moves w directory)

step_lem :
    (w w' : Walker) (directory : List Entry) (d : DirectoryStep)
    → step w directory ≡ (w', ok d)
    → Promise w d
unfolding step
step_lem w w' directory d h = elim (Option-cases (find_tile_id directory w.tile_id)) [
  | inl e ↦ ground arith
  | inr ((i, entry), e) ↦ (step_at_lem w w' entry d (rw (e, step) at h)).1
]

sections_end-All :
    (end n : ℕ) (l : List (ℕ × ℕ))
    → sections_end end l ≡ ok n
    → (end ≤ n) × All (λ s. s.0 + s.1 ≤ n) l
unfolding sections_end
sections_end-All end n [] h = ground arith
sections_end-All end n ((offset, size) ∷ l) h =
    ground (arith, sections_end-All (max end (offset + size)) n l)

-- The tile or leaf range of a step lies inside the section that the header declares for it, and so
-- ends at or before the length of the archive.
pub step-Within :
    (w w' : Walker) (directory : List Entry)
    → IsWalker w
    → ((r : ArchiveRange)
        → step w directory ≡ (w', ok (leaf r))
        → Within w.header.leaf_offset w.header.leaf_length r.offset r.length
          × (r.offset + r.length ≤ w.archive_len))
      × ((t : TileLocation)
          → step w directory ≡ (w', ok (tile t))
          → Within w.header.data_offset w.header.data_length t.offset t.length
            × (t.offset + t.length ≤ t.archive_len)
            × (t.archive_len ≡ w.archive_len))
unfolding archive_len
step-Within w w' directory valid =
    let (_, ends) = sections_end-All 0 w.archive_len (sections w.header) valid.measured in
    (
      λ r h. let inside = step_lem w w' directory (leaf r) h in (inside, omega arith),
      λ t h. let (inside, same) = step_lem w w' directory (tile t) h in (inside, omega arith, same),
    )

step_at-leaf :
    (w w' : Walker) (e : Entry) (r : ArchiveRange)
    → step_at w e ≡ (w', ok (leaf r))
    → (w.depth < w.max_depth) × (w' ≡ record w { depth = w.depth + 1 })
unfolding step_at
step_at-leaf w w' e r h = ground arith

-- A leaf pointer is followed one level deeper, and only above the depth limit.
pub step-leaf :
    (w w' : Walker) (directory : List Entry) (r : ArchiveRange)
    → step w directory ≡ (w', ok (leaf r))
    → (w.depth < w.max_depth) × (w' ≡ record w { depth = w.depth + 1 })
unfolding step
step-leaf w w' directory r h = elim (Option-cases (find_tile_id directory w.tile_id)) [
  | inl e ↦ ground arith
  | inr ((i, entry), e) ↦ step_at-leaf w w' entry r (rw (e, step) at h)
]
