-- ===== src/Pmtiles/Reader/Lookup.antt =====
-- `resolve_tile_location` and `get_tile` against any backend: they end within the depth limit, and
-- ask the backend for legal ranges only.
use biei.Prelude.{
  ℕ, zero, suc, ◌+◌, ◌-◌, ◌<◌, ◌≤◌, ◌≡◌, refl, ap, ◌∙◌, Option, none, some, List, [], ◌∷◌, ◌++◌,
  Result, ok, err, arith, length, length-append, All, All-append, Result-cases, inl, inr,
}
use biei.Pmtiles.Error.{Error}
use biei.Pmtiles.Kinds.{content_type, content_encoding}
use biei.Pmtiles.Varint.{u64_mod}
use biei.Pmtiles.TileId.{new_tile_id}
use biei.Pmtiles.Header.{Header}
use biei.Pmtiles.Directory.{Entry}
use biei.Pmtiles.Walker.{
  TileLocation, ArchiveRange, DirectoryStep, missing, leaf, tile, Walker, new_walker, step,
}
use biei.Pmtiles.Walker.Bounds.{
  Within, IsWalker, step-IsWalker, step-Within, step-leaf, new_walker-IsWalker,
}
use biei.Pmtiles.Reader.{
  Run, lift, call, return, ReaderLimits, ArchiveBootstrap, LeafDirectoryRequest, ReadRequest,
  TileData, Backend, check_range, locate, leaf_request, tile_request, follow_leaf, on_step,
  resolve_loop, resolve_tile_location, enough, read_location, get_tile,
}
use biei.Pmtiles.Reader.Contract.{Post, Post->>=, Post-call}

-- A range that is short enough to read and ends at a u64.
abbrev pub IsLegal : ReaderLimits → ℕ → ℕ → Type 0
IsLegal limits offset length = (length ≤ limits.max_range_bytes) × (offset + length < u64_mod)

check_range-IsLegal :
    (limits : ReaderLimits) (offset length : ℕ) (u : Unit {0})
    → check_range limits offset length ≡ ok u
    → IsLegal limits offset length
unfolding check_range
check_range-IsLegal limits offset length u h = ground arith

-- An invariant of the backend's state, kept by each call that the reader may make.
pub record IsKept {S E : Type 0} (backend : Backend S E) (limits : ReaderLimits) (P : S → Type 0)
    : Type 0 where
  pub bootstraps : (s : S) → P s → P (backend.load_bootstrap s).0
  pub leaves :
      (q : LeafDirectoryRequest) (s : S)
      → IsLegal limits q.offset q.length
      → P s
      → P (backend.load_leaf q s).0
  pub tiles :
      (q : ReadRequest) (s : S)
      → IsLegal limits q.offset q.length
      → P s
      → P (backend.read_range q s).0

-- What a lookup returns: at most as many leaf ranges as the depth limit, each legal and in the leaf
-- section, and a tile location, if any, in the data section.
abbrev pub FoundIn : Header → Option TileLocation → Type 0
FoundIn h none = Unit {0}
FoundIn h (some t) =
    Within h.data_offset h.data_length t.offset t.length × (t.offset + t.length ≤ t.archive_len)

abbrev pub TraceIn : ReaderLimits → Header → List ArchiveRange → Type 0
TraceIn limits h =
    All
      (λ r. IsLegal limits r.offset r.length × Within h.leaf_offset h.leaf_length r.offset r.length)

module _ {S E : Type 0} (backend : Backend S E) (limits : ReaderLimits) (P : S → Type 0)
    (kept : IsKept backend limits P) where
  Good : ArchiveBootstrap → Option TileLocation × List ArchiveRange → Type 0
  Good boot (found, leaves) =
      FoundIn boot.header found
      × TraceIn limits boot.header leaves
      × (length leaves ≤ limits.max_directory_depth)

  follow-Good :
      (boot : ArchiveBootstrap) (leaves : List ArchiveRange)
      (next : List Entry → List ArchiveRange → Run S E (Option TileLocation × List ArchiveRange))
      (r : ArchiveRange) (s : S)
      → P s
      → ((child : List Entry) (s' : S)
          → P s'
          → IsLegal limits r.offset r.length
          → Post P (Good boot) (next child (leaves ++ (r ∷ [])) s'))
      → Post P (Good boot) (follow_leaf backend limits boot leaves next r s)
  unfolding follow_leaf
  follow-Good boot leaves next r s p after =
      elim (Result-cases (check_range limits r.offset r.length)) [
        | inr (x, e) ↦ rw (e, lift) p
        | inl (u, e) ↦
            let legal = check_range-IsLegal limits r.offset r.length u e in
            rw (e, lift)
              (Post->>= P (λ child. Unit {0}) (Good boot)
                (call (backend.load_leaf (leaf_request boot r)))
                (λ child. next child (leaves ++ (r ∷ []))) s
                (Post-call P (backend.load_leaf (leaf_request boot r) s)
                  (kept.leaves (leaf_request boot r) s legal p))
                (λ child s' p' _. after child s' p' legal))
      ]

  -- One round, given that the rounds below keep the contract.
  on_step-Good :
      (boot : ArchiveBootstrap) (w : Walker) (directory : List Entry) (leaves : List ArchiveRange)
      (next : List Entry → List ArchiveRange → Run S E (Option TileLocation × List ArchiveRange))
      (s : S) (r : Result Error DirectoryStep)
      → step w directory ≡ ((step w directory).0, r)
      → IsWalker w
      → w.header ≡ boot.header
      → w.max_depth ≡ limits.max_directory_depth
      → length leaves ≡ w.depth
      → TraceIn limits boot.header leaves
      → P s
      → ((range : ArchiveRange) (child : List Entry) (s' : S)
          → w.depth < w.max_depth
          → (step w directory).0 ≡ record w { depth = w.depth + 1 }
          → TraceIn limits boot.header (leaves ++ (range ∷ []))
          → P s'
          → Post P (Good boot) (next child (leaves ++ (range ∷ [])) s'))
      → Post P (Good boot) (on_step backend limits boot leaves next r s)
  unfolding on_step Good
  on_step-Good boot w directory leaves next s (err e) h' valid head deep count legal p after = p
  on_step-Good boot w directory leaves next s (ok missing) h' valid head deep count legal p after =
      (p, (tt, legal, omega (arith, valid.shallow)))
  on_step-Good boot w directory leaves next s (ok (tile t)) h' valid head deep count legal p after =
      let (inside, short, same) = (step-Within w (step w directory).0 directory valid).1 t h' in
      (p, ((rw (← head) inside, short), legal, omega (arith, valid.shallow)))
  on_step-Good boot w directory leaves next s (ok (leaf r)) h' valid head deep count legal p after =
      let (inside, short) = (step-Within w (step w directory).0 directory valid).0 r h' in
      let (above, deeper) = step-leaf w (step w directory).0 directory r h' in
      follow-Good boot leaves next r s p (λ child s' p' fits.
        after r child s' above deeper
          (All-append _ leaves (r ∷ []) legal ((fits, rw (← head) inside), tt)) p')

  loop-Good :
      (fuel : ℕ) (boot : ArchiveBootstrap) (w : Walker) (directory : List Entry)
      (leaves : List ArchiveRange) (s : S)
      → w.max_depth - w.depth < fuel
      → IsWalker w
      → w.header ≡ boot.header
      → w.max_depth ≡ limits.max_directory_depth
      → length leaves ≡ w.depth
      → TraceIn limits boot.header leaves
      → P s
      → Post P (Good boot) (resolve_loop backend limits fuel boot w directory leaves s)
  unfolding resolve_loop
  loop-Good zero boot w directory leaves s h valid head deep count legal p = absurd (omega arith)
  loop-Good (suc fuel) boot w directory leaves s h valid head deep count legal p =
      let w' = (step w directory).0 in
      on_step-Good boot w directory leaves (resolve_loop backend limits fuel boot w') s
        (step w directory).1 refl valid head deep count legal p
        (λ r child s' above deeper legal' p'.
          let depth : w'.depth ≡ w.depth + 1 = ap (λ (x : Walker). x.depth) deeper in
          let limit : w'.max_depth ≡ w.max_depth = ap (λ (x : Walker). x.max_depth) deeper in
          let header : w'.header ≡ w.header = ap (λ (x : Walker). x.header) deeper in
          loop-Good fuel boot w' child (leaves ++ (r ∷ [])) s' (omega arith)
            (step-IsWalker w directory valid).1 (header ∙ head) (limit ∙ deep)
            (omega (arith, length-append leaves (r ∷ []))) legal' p')

  -- What `resolve_tile_location` promises of its result.
  abbrev pub Resolved : Option TileLocation × List ArchiveRange × Header × ℕ → Type 0
  Resolved (found, leaves, header, archive_len) =
      FoundIn header found
      × TraceIn limits header leaves
      × (length leaves ≤ limits.max_directory_depth)

  locate-Resolved :
      (tile_id : ℕ) (boot : ArchiveBootstrap) (s : S)
      → P s
      → Post P Resolved (locate backend limits (enough backend limits) tile_id boot s)
  unfolding locate Good
  locate-Resolved tile_id boot s p =
      elim (Result-cases (new_walker boot.header tile_id limits.max_directory_depth)) [
        | inr (x, e) ↦ rw (e, lift) p
        | inl (w, e) ↦
            let (valid, head, id, limit, depth) =
              new_walker-IsWalker boot.header tile_id limits.max_directory_depth w e in
            rw (e, lift)
              (Post->>= P (Good boot) Resolved
                (resolve_loop backend limits (enough backend limits) boot w boot.root [])
                (λ x. return (x.0, x.1, boot.header, boot.archive_len)) s
                (loop-Good (enough backend limits) boot w boot.root [] s (omega arith) valid head
                  limit (omega arith) tt p)
                (λ a s' p' good. (p', good)))
      ]

  -- With one round more than the depth limit allows, `resolve_tile_location` ends on every backend:
  -- it keeps every invariant of the backend's state that legal reads keep, and where it succeeds it
  -- has loaded at most as many leaf directories as the depth limit, each by a legal range inside the
  -- leaf section, and a location that it found lies inside the data section.
  pub resolve_tile_location-Resolved :
      (tile_id : ℕ) (s : S)
      → P s
      → Post P Resolved (resolve_tile_location backend limits (enough backend limits) tile_id s)
  unfolding resolve_tile_location
  resolve_tile_location-Resolved tile_id s p = elim (Result-cases (new_tile_id tile_id)) [
    | inr (x, e) ↦ rw (e, lift) p
    | inl (id, e) ↦
        rw (e, lift)
          (Post->>= P (λ boot. Unit {0}) Resolved (call backend.load_bootstrap)
            (locate backend limits (enough backend limits) id) s
            (Post-call P (backend.load_bootstrap s) (kept.bootstraps s p))
            (λ boot s' p' _. locate-Resolved id boot s' p'))
  ]

  read_location-Post :
      (t : TileLocation) (header : Header) (s : S)
      → P s
      → Post P (λ got. Unit {0}) (read_location backend limits t header s)
  unfolding read_location
  read_location-Post t header s p = elim (Result-cases (check_range limits t.offset t.length)) [
    | inr (x, e) ↦ rw (e, lift) p
    | inl (u, e) ↦
        let legal = check_range-IsLegal limits t.offset t.length u e in
        rw (e, lift)
          (Post->>= P (λ bytes. Unit {0}) (λ got. Unit {0})
            (call (backend.read_range (tile_request t)))
            (λ bytes. return (
              some (record {
                bytes = bytes;
                content_type = content_type header.tile_type;
                content_encoding = content_encoding header.tile_compression;
              })))
            s
            (Post-call P (backend.read_range (tile_request t) s)
              (kept.tiles (tile_request t) s legal p))
            (λ bytes s' p' _. (p', tt)))
  ]

  -- `get_tile` ends on every backend, and keeps every invariant of the backend's state that legal
  -- reads keep, on its error paths too: so no request that it makes is longer than
  -- `max_range_bytes` or ends beyond a u64.
  pub get_tile-Post :
      (tile_id : ℕ) (s : S) → P s → Post P (λ got. Unit {0}) (get_tile backend limits tile_id s)
  unfolding get_tile
  get_tile-Post tile_id s p =
      Post->>= P Resolved (λ got. Unit {0})
        (resolve_tile_location backend limits (enough backend limits) tile_id)
        (λ found. elim found.0 [
          | none ↦ return none
          | some location ↦ read_location backend limits location found.2
        ])
        s (resolve_tile_location-Resolved tile_id s p)
        (λ found s' p' good. by_found found.0 found.2 s' p')
    where
      by_found :
          (o : Option TileLocation) (header : Header) (s' : S)
          → P s'
          → Post P {A = Option TileData}
              (λ got. Unit {0})
              ((elim o as (λ x. Run S E (Option TileData)) [
                | none ↦ return none
                | some location ↦ read_location backend limits location header
              ])
                s')
      by_found none header s' p' = (p', tt)
      by_found (some t) header s' p' = read_location-Post t header s' p'
