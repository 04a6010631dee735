-- ===== src/Pmtiles/Varint.antt =====
-- `read_u64_varint` of crates/mmpf-pmtiles/src/format.rs. A byte slice is a list of numbers
-- below 256, and `*buf = &buf[1..]` is the rest of that list in the result.
pub mod Value
pub mod Spell
use Prim.Native.Nat.{bit_and, bit_or}
pub use biei.Prelude.Words.{u64_mod}
use biei.Prelude.{
  ℕ, ◌+◌, ◌*◌, ◌%◌, ◌^◌, ◌<◌, Bool, ◌&&◌, List, [], ◌∷◌, Result, ok, err, ltb, leb, ◌==◌,
  if◌then◌else◌,
}
use biei.Pmtiles.Error.{Error, unexpected_eof, varint_exceeds_u64}

abbrev pub IsByte : ℕ → Type 0
IsByte b = b < 256

abbrev pub IsU64 : ℕ → Type 0
IsU64 v = v < u64_mod

abbrev pub IsU32 : ℕ → Type 0
IsU32 v = v < 2 ^ 32

-- `payload << shift` on a u64 drops the bits above 63.
abbrev shl64 : ℕ → ℕ → ℕ
shl64 payload shift = payload * 2 ^ shift % u64_mod

-- The loop, with its variables `shift` and `value`; it recurs on the bytes that are left.
unfoldable pub read_varint_loop : List ℕ → ℕ → ℕ → Result Error (ℕ × List ℕ)
read_varint_loop [] shift value = err unexpected_eof
read_varint_loop (byte ∷ rest) shift value =
    let payload = bit_and byte 0x7f in
    let value' = bit_or value (shl64 payload shift) in
    let next = read_varint_loop rest (shift + 7) value' in
    if shift == 63 && ltb 1 payload
    then err varint_exceeds_u64
    else if bit_and byte 0x80 == 0
    then ok (value', rest)
    else if leb 64 (shift + 7)
    then err varint_exceeds_u64
    else next

unfoldable pub read_u64_varint : List ℕ → Result Error (ℕ × List ℕ)
unfolding read_varint_loop
read_u64_varint buf = read_varint_loop buf 0 0
