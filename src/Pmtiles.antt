-- ===== src/Pmtiles.antt =====
-- The format and reader of crates/mmpf-pmtiles, without the metadata document.
pub mod Error
pub mod Varint
pub mod TileId
pub mod Kinds
pub mod Get
pub mod Header
pub mod Decompress
pub mod Directory
pub mod Walker
pub mod Reader
