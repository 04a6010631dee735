-- ===== src/Pmtiles/TileId/Pyramid.antt =====
-- Tile ids against a pyramid of zoom levels.
use native.Mathlib.Decide.{dec_lt, ℕ_discrete}
use native.Mathlib.Numerals.{towards_suc}
use native.Mathlib.Nat.{pow-suc}
use biei.Prelude.{ℕ, zero, suc, ◌+◌, ◌*◌, ◌^◌, ◌≤◌, ◌<◌, ◌≡◌, ap, ok, arith, le→ltb, sym, ◌↔◌, refl}
use biei.Pmtiles.TileId.{
  TileCoord, IsCurve, max_zoom, max_tile_id, new_coord, new_tile_id, pyramid_size_before_zoom,
  tile_id_of,
}

-- The tiles of the zoom levels below `z`, counted level by level.
abbrev pub tiles_below : ℕ → ℕ
tiles_below zero = 0
tiles_below (suc z) = tiles_below z + 2 ^ z * 2 ^ z

-- A coordinate inside the grid of its zoom level, at a zoom level that the format has.
abbrev pub InPyramid : TileCoord → Type 0
InPyramid c = (c.z ≤ max_zoom) × (c.x < 2 ^ c.z) × (c.y < 2 ^ c.z)

-- `TileCoord::new` accepts exactly the coordinates inside the pyramid, and keeps them as they are.
pub new_coord-InPyramid :
    (z x y : ℕ) (c : TileCoord)
    → (new_coord z x y ≡ ok c) ↔ ((c ≡ record { z = z; x = x; y = y }) × InPyramid c)
unfolding new_coord
new_coord-InPyramid z x y c = (λ h. ground arith, λ h. ground arith)

quadruple : (n : ℕ) → 2 ^ (n + 2) ≡ 4 * 2 ^ n
quadruple n = simp towards_suc (omega arith)

index : (z : ℕ) → suc z * 2 ≡ z * 2 + 2
index z = omega arith

double_exponent : (z : ℕ) → 2 ^ (z * 2) ≡ 2 ^ z * 2 ^ z
double_exponent zero = refl
double_exponent (suc z) = omega (
  arith,
  double_exponent z,
  quadruple (z * 2),
  ap (λ (t : ℕ). t * t) (pow-suc 2 z),
  ap (λ (t : ℕ). 2 ^ t) (index z),
)

tiles_below_closed : (z : ℕ) → 3 * tiles_below z + 1 ≡ 2 ^ z * 2 ^ z
tiles_below_closed zero = refl
tiles_below_closed (suc z) =
    omega (arith, tiles_below_closed z, ap (λ (t : ℕ). t * t) (pow-suc 2 z))

-- The closed form that the code computes is the number of tiles below the zoom level.
pub pyramid-tiles_below : (z : ℕ) → z ≤ max_zoom → pyramid_size_before_zoom z ≡ tiles_below z
unfolding pyramid_size_before_zoom
pyramid-tiles_below z h = ground (arith, tiles_below_closed z, double_exponent z)

tiles_below_mono : (a b : ℕ) → a ≤ b → tiles_below a ≤ tiles_below b
tiles_below_mono zero b h = omega arith
tiles_below_mono (suc a) zero h = absurd (omega arith)
tiles_below_mono (suc a) (suc b) h = elim (dec_lt a b) [
  | yes lt ↦ omega (arith, tiles_below_mono (suc a) b lt)
  | no ge ↦ let e : a ≡ b = omega arith in rw e (omega arith)
]

module _ (xy2h : ℕ → ℕ → ℕ → ℕ) (curve : IsCurve xy2h) where
  -- A coordinate at zoom 0 is the origin, so the branch for zoom 0 is no exception.
  pub tile_id_of-sum :
      (c : TileCoord) → InPyramid c → tile_id_of xy2h c ≡ tiles_below c.z + xy2h c.x c.y c.z
  unfolding tile_id_of
  tile_id_of-sum c (hz, hx, hy) = elim (ℕ_discrete c.z 0) [
    | yes e ↦
        let cell = curve.in_range c.x c.y c.z hx hy in
        let one : 2 ^ c.z * 2 ^ c.z ≡ 1 = ap (λ (t : ℕ). 2 ^ t * 2 ^ t) e in
        let bottom : tiles_below c.z ≡ 0 = ap tiles_below e in ground arith
    | no ne ↦ ground (arith, pyramid-tiles_below c.z hz)
  ]

  -- The tile id of a coordinate lies among the ids of its own zoom level: at or above the number
  -- of tiles of all lower levels, and below that number with its own level added.
  pub tile_id_of_level :
      (c : TileCoord)
      → InPyramid c
      → (tiles_below c.z ≤ tile_id_of xy2h c) × (tile_id_of xy2h c < tiles_below (suc c.z))
  tile_id_of_level c h =
      let e = tile_id_of-sum c h in
      let cell = curve.in_range c.x c.y c.z h.1 h.2 in (omega arith, omega arith)

  -- The tile id of every coordinate that `TileCoord::new` accepts is one that `TileId::new`
  -- accepts.
  pub new_tile_id-tile_id_of :
      (z x y : ℕ) (c : TileCoord)
      → new_coord z x y ≡ ok c
      → new_tile_id (tile_id_of xy2h c) ≡ ok (tile_id_of xy2h c)
  unfolding new_tile_id
  new_tile_id-tile_id_of z x y c h =
      let inside = ((new_coord-InPyramid z x y c).0 h).1 in
      let top = (tile_id_of_level c inside).1 in
      let all : tiles_below (suc c.z) ≤ tiles_below 32 =
        tiles_below_mono (suc c.z) 32 (omega arith) in
      rw (le→ltb max_tile_id (tile_id_of xy2h c) (omega arith))

  level_le :
      (c d : TileCoord)
      → InPyramid c
      → InPyramid d
      → tile_id_of xy2h c ≡ tile_id_of xy2h d
      → c.z ≤ d.z
  level_le c d hc hd e = elim (dec_lt d.z c.z) [
    | yes lt ↦
        let below = tiles_below_mono (suc d.z) c.z lt in
        omega (arith, tile_id_of_level c hc, tile_id_of_level d hd)
    | no ge ↦ omega arith
  ]

  same_level :
      (c d : TileCoord)
      → InPyramid c
      → InPyramid d
      → tile_id_of xy2h c ≡ tile_id_of xy2h d
      → c.z ≡ d.z
  same_level c d hc hd e = omega (arith, level_le c d hc hd e, level_le d c hd hc (sym e))

  -- Two coordinates inside the pyramid with the same tile id are the same coordinate.
  tile_id_of-injective :
      (c d : TileCoord) → InPyramid c → InPyramid d → tile_id_of xy2h c ≡ tile_id_of xy2h d → c ≡ d
  tile_id_of-injective c d hc hd e = ground (
    arith,
    same_level c d hc hd e,
    curve.distinct c.x c.y d.x d.y c.z hc.1 hc.2,
    tile_id_of-sum c hc,
    tile_id_of-sum d hd,
  )
