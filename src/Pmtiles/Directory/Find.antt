-- ===== src/Pmtiles/Directory/Find.antt =====
-- `find_tile_id` against the entry that covers a tile id.
use biei.Prelude.{
  ℕ, zero, suc, ◌+◌, ◌-◌, ◌/◌, ◌<◌, ◌≤◌, ◌≡◌, ◌↔◌, ◌⊎◌, inl, inr, true, refl, sym, ◌∙◌, List, [],
  ◌∷◌, Option, none, some, arith, ltb, lt→ltb, ltb→lt, Bool-cases, if◌then◌else◌, length, get_elem?,
  get_elem?_total, get_elem?_lt, ◌||◌,
}
use native.Mathlib.Decide.{dec_lt}
use biei.Pmtiles.Directory.{Entry, is_leaf, id_at, search_loop, binary_search, find_tile_id}

-- Tile ids do not fall along the entries.
abbrev pub IsSorted : List Entry → Type 0
IsSorted entries = (i j : ℕ) → i ≤ j → j < length entries → id_at entries i ≤ id_at entries j

module _ (entries : List Entry) (target : ℕ) where
  -- Every index from `end` on holds a greater id.
  abbrev pub GreaterFrom : ℕ → Type 0
  GreaterFrom end = (j : ℕ) → end ≤ j → j < length entries → target < id_at entries j

  abbrev AtMost : ℕ → Type 0
  AtMost base = (base ≡ 0) ⊎ (id_at entries base ≤ target)

  GreaterFrom-mid : IsSorted entries → (mid : ℕ) → target < id_at entries mid → GreaterFrom mid
  GreaterFrom-mid sorted mid h j le lt = omega (arith, sorted mid j le lt)

  search_loop_lem :
      (fuel base size : ℕ)
      → IsSorted entries
      → size ≤ fuel
      → 0 < size
      → base + size ≤ length entries
      → AtMost base
      → GreaterFrom (base + size)
      → let i = search_loop fuel entries target base size in
        (i < length entries) × AtMost i × GreaterFrom (i + 1)
  unfolding search_loop
  search_loop_lem zero base size sorted hf hs fits low high = absurd (omega arith)
  search_loop_lem (suc fuel) base size sorted hf hs fits low high = elim (dec_lt 1 size) [
    | no small ↦
        let one : size ≡ 1 = omega arith in
        rw one (omega arith, low, λ j le lt. high j (omega arith) lt)
    | yes large ↦
        rw (lt→ltb 1 size large) (elim (Bool-cases (ltb target (id_at entries (base + size / 2)))) [
          | inl above ↦ rw above (
              search_loop_lem fuel base (size - size / 2) sorted (omega arith) (omega arith)
                (omega arith) low
                (λ j le lt.
                  GreaterFrom-mid sorted (base + size / 2) (ltb→lt _ _ above) j (omega arith) lt))
          | inr below ↦ rw below (
              search_loop_lem fuel (base + size / 2) (size - size / 2) sorted (omega arith)
                (omega arith) (omega arith) (inr (ground arith))
                (λ j le lt. high j (omega arith) lt))
        ])
  ]

-- The entry at `i` is the last one whose id is at most `target`, and it is a leaf pointer or its
-- run reaches `target`.
abbrev pub Covers : List Entry → ℕ → ℕ → Entry → Type 0
Covers entries target i e =
    (get_elem? entries i ≡ some e)
    × (e.tile_id ≤ target)
    × ((j : ℕ) → i < j → j < length entries → target < id_at entries j)
    × ((is_leaf e ≡ true) ⊎ (target < e.tile_id + e.run_length))

-- Where the search ends, read from the entry that it stops at.
stop : List Entry → ℕ → ℕ
stop entries target = search_loop (length entries) entries target 0 (length entries)

stop_lem :
    (entries : List Entry) (target : ℕ)
    → IsSorted entries
    → 0 < length entries
    → (stop entries target < length entries)
      × AtMost entries target (stop entries target)
      × GreaterFrom entries target (stop entries target + 1)
unfolding stop
stop_lem entries target sorted h =
    search_loop_lem entries target (length entries) 0 (length entries) sorted (omega arith) h
      (omega arith) (inl refl) (λ j le lt. absurd (omega arith))

-- `find_tile_id` in terms of the entry where the search stops.
find_at : List Entry → ℕ → ℕ → Entry → Option (ℕ × Entry)
find_at entries target i e =
    if ltb target e.tile_id
    then none
    else if is_leaf e || ltb (target - e.tile_id) e.run_length
    then some (i, e)
    else none

find_tile_id-find_at :
    (entries : List Entry) (target : ℕ) (e : Entry)
    → IsSorted entries
    → get_elem? entries (stop entries target) ≡ some e
    → find_tile_id entries target ≡ find_at entries target (stop entries target) e
unfolding find_tile_id binary_search find_at stop
find_tile_id-find_at entries target e sorted at =
    let i = search_loop (length entries) entries target 0 (length entries) in
    let inside : i < length entries = get_elem?_lt entries i e at in
    let back : i + 1 - 1 ≡ i = omega arith in
    let low : AtMost entries target i = (stop_lem entries target sorted (omega arith)).1 in
    ground (arith, at, back)

id_at-get_elem? :
    (entries : List Entry) (i : ℕ) (e : Entry)
    → get_elem? entries i ≡ some e
    → id_at entries i ≡ e.tile_id
id_at-get_elem? entries i e at = rw (at, id_at)

find_at-Covers :
    (entries : List Entry) (target i j : ℕ) (e e' : Entry)
    → get_elem? entries j ≡ some e'
    → GreaterFrom entries target (j + 1)
    → find_at entries target j e' ≡ some (i, e)
    → Covers entries target i e
unfolding find_at
find_at-Covers entries target i j e e' at high h =
    let same : i ≡ j = ground arith in
    let entry : e ≡ e' = ground arith in
    rw (same, entry) (at, ground arith, (λ k lt inside. high k (omega arith) inside), ground arith)

find_at_covered :
    (entries : List Entry) (target i : ℕ) (e : Entry)
    → Covers entries target i e
    → find_at entries target i e ≡ some (i, e)
unfolding find_at
find_at_covered entries target i e (at, low, high, reach) = ground arith

Covers-stop :
    (entries : List Entry) (target i : ℕ) (e : Entry)
    → IsSorted entries
    → Covers entries target i e
    → stop entries target ≡ i
Covers-stop entries target i e sorted (at, low, high, reach) =
    let inside = get_elem?_lt entries i e at in
    let s = stop_lem entries target sorted (omega arith) in
    let id = id_at-get_elem? entries i e at in
    elim (dec_lt i (stop entries target)) [
      | yes lt ↦ ground (arith, high (stop entries target) lt s.0, s.1)
      | no ge ↦ elim (dec_lt (stop entries target) i) [
        | yes lt ↦ absurd (omega (arith, s.2 i (omega arith) inside))
        | no le ↦ omega arith
      ]
    ]

find_tile_id-empty : (target : ℕ) → find_tile_id [] target ≡ none
unfolding find_tile_id binary_search
find_tile_id-empty target = refl

-- On a directory whose tile ids do not fall, `find_tile_id` returns index `i` with entry `e` exactly
-- when `e` is the entry at `i`, its id is at most the tile id, all later entries have greater ids,
-- and `e` is a leaf pointer or its run reaches the tile id.
pub find_tile_id-Covers :
    (entries : List Entry) (target i : ℕ) (e : Entry)
    → IsSorted entries
    → (find_tile_id entries target ≡ some (i, e)) ↔ Covers entries target i e
find_tile_id-Covers [] target i e sorted =
    (λ h. ground (arith, find_tile_id-empty target), λ c. ground (arith, c.0))
find_tile_id-Covers (x ∷ xs) target i e sorted =
    let entries = x ∷ xs in
    let (inside, low, high) = stop_lem entries target sorted (omega arith) in
    let (e', at) = get_elem?_total entries (stop entries target) inside in
    let search = find_tile_id-find_at entries target e' sorted at in
    (
      λ h. find_at-Covers entries target i (stop entries target) e e' at high (sym search ∙ h),
      λ c.
          let here = Covers-stop entries target i e sorted c in
          let at' : get_elem? entries (stop entries target) ≡ some e = rw here c.0 in
          find_tile_id-find_at entries target e sorted at'
          ∙ rw here (find_at_covered entries target i e c),
    )
