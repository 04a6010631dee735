-- ===== src/Pmtiles/TileId.antt =====
-- `TileCoord`, `TileId` and `pyramid_size_before_zoom` of crates/mmpf-pmtiles/src/format.rs.
-- `xy2h` is that of the package fast_hilbert: a parameter here.
pub mod Pyramid
use biei.Prelude.{
  ℕ, ◌+◌, ◌-◌, ◌*◌, ◌/◌, ◌^◌, ◌<◌, ◌≤◌, ◌||◌, ◌≡◌, Option, none, some, Result, ok, err, ◌>>=◌, ltb,
  leb, ◌==◌, if◌then◌else◌, or_err,
}
use biei.Pmtiles.Error.{Error, invalid_zoom, invalid_coordinate, invalid_tile_id}
use biei.Pmtiles.Varint.{u64_mod}

abbrev pub max_zoom : ℕ
max_zoom = 31

abbrev pub max_tile_id : ℕ
max_tile_id = 6_148_914_691_236_517_204

-- `1u64.checked_shl(n)`.
abbrev checked_shl_one : ℕ → Option ℕ
checked_shl_one n = if ltb n 64 then some (2 ^ n) else none

pub record TileCoord : Type 0 where
  pub z : ℕ
  pub x : ℕ
  pub y : ℕ

-- `TileCoord::new`.
unfoldable pub new_coord : ℕ → ℕ → ℕ → Result Error TileCoord
new_coord z x y = or_err (checked_shl_one z) invalid_zoom >>= λ extent.
    if ltb max_zoom z || leb extent x || leb extent y
    then err invalid_coordinate
    else ok (record { z = z; x = x; y = y })

-- `TileId::new`.
unfoldable pub new_tile_id : ℕ → Result Error ℕ
new_tile_id value = if ltb max_tile_id value then err invalid_tile_id else ok value

pub pyramid_size_before_zoom : ℕ → ℕ
pyramid_size_before_zoom z = elim (checked_shl_one (z * 2)) [
  | some count ↦ (count - 1) / 3
  | none ↦ (u64_mod - 1) / 3
]

-- `TileId::from(coord)`.
pub tile_id_of : (ℕ → ℕ → ℕ → ℕ) → TileCoord → ℕ
tile_id_of xy2h coord =
    if coord.z == 0 then 0 else pyramid_size_before_zoom coord.z + xy2h coord.x coord.y coord.z

-- What the code relies on of a space-filling curve: at zoom `z` it numbers the cells of the
-- 2 ^ z by 2 ^ z grid, each by another number below their count.
pub record IsCurve (xy2h : ℕ → ℕ → ℕ → ℕ) : Type 0 where
  pub in_range : (x y z : ℕ) → x < 2 ^ z → y < 2 ^ z → xy2h x y z < 2 ^ z * 2 ^ z
  pub distinct :
      (x y x' y' z : ℕ)
      → x < 2 ^ z
      → y < 2 ^ z
      → x' < 2 ^ z
      → y' < 2 ^ z
      → xy2h x y z ≡ xy2h x' y' z
      → (x ≡ x') × (y ≡ y')
