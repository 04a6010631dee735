-- ===== src/Pmtiles/Decompress.antt =====
-- `decompress_bytes_with_limit` and `read_decompressed_limited` of
-- crates/mmpf-pmtiles/src/format.rs. The decoders of flate2, brotli and zstd are parameters.
use biei.Prelude.{
  ℕ, ◌+◌, ◌≤◌, ◌≡◌, Bool, List, Option, some, none, Result, ok, err, ltb, leb, if◌then◌else◌,
  length, take, arith, length-take, Option-cases, inl, inr,
}
use biei.Pmtiles.Error.{
  Error, payload_too_large, unsupported_compression, codec_failed, limit_overflow,
}
use biei.Pmtiles.Varint.{u64_mod}
use biei.Pmtiles.Kinds.{Compression, unknown, plain, gzip, brotli, zstd}

-- What a decoder gives when it is read to its end: bytes, and then an end or a failure.
pub record Stream : Type 0 where
  pub produced : List ℕ
  pub fails : Bool

-- `GzDecoder::new`, `Decompressor::new`, and zstd's `Decoder::new`, which can fail.
pub record Decoders : Type 0 where
  pub gunzip : List ℕ → Stream
  pub unbrotli : List ℕ → Stream
  pub unzstd : List ℕ → Option Stream

-- `reader.take(limit).read_to_end(..)`: a failure beyond the limit is not reached.
abbrev read_take : Stream → ℕ → Result Error (List ℕ)
read_take s limit =
    if leb limit (length s.produced)
    then ok (take limit s.produced)
    else if s.fails
    then err codec_failed
    else ok s.produced

unfoldable pub read_decompressed_limited : Stream → ℕ → Result Error (List ℕ)
read_decompressed_limited s max_bytes =
    if leb u64_mod (max_bytes + 1) then err limit_overflow else elim (read_take s (max_bytes + 1)) [
      | ok decompressed ↦
          if ltb max_bytes (length decompressed) then err payload_too_large else ok decompressed
      | err e ↦ err e
    ]

module _ (d : Decoders) where
  unfoldable pub decompress_bytes_with_limit : Compression → List ℕ → ℕ → Result Error (List ℕ)
  decompress_bytes_with_limit plain bytes max_bytes =
      if ltb max_bytes (length bytes) then err payload_too_large else ok bytes
  decompress_bytes_with_limit gzip bytes max_bytes =
      read_decompressed_limited (d.gunzip bytes) max_bytes
  decompress_bytes_with_limit brotli bytes max_bytes =
      read_decompressed_limited (d.unbrotli bytes) max_bytes
  decompress_bytes_with_limit zstd bytes max_bytes = elim (d.unzstd bytes) [
    | some s ↦ read_decompressed_limited s max_bytes
    | none ↦ err codec_failed
  ]
  decompress_bytes_with_limit unknown bytes max_bytes = err unsupported_compression

-- A decoder's result is handed on exactly when the whole of it fits the limit and it did not fail.
read_decompressed_limited_lem :
    (s : Stream) (max_bytes : ℕ) (out : List ℕ)
    → read_decompressed_limited s max_bytes ≡ ok out
    → (length out ≤ max_bytes) × (out ≡ s.produced)
unfolding read_decompressed_limited
read_decompressed_limited_lem s n out h = ground (arith, length-take (n + 1) s.produced)

-- What a compression's decoder makes of a payload.
abbrev pub Decoded : Decoders → Compression → List ℕ → List ℕ → Type 0
Decoded d plain bytes out = out ≡ bytes
Decoded d gzip bytes out = out ≡ (d.gunzip bytes).produced
Decoded d brotli bytes out = out ≡ (d.unbrotli bytes).produced
Decoded d zstd bytes out = (s : Stream) × (d.unzstd bytes ≡ some s) × (out ≡ s.produced)
Decoded d unknown bytes out = ⊥

-- For every compression, what `decompress_bytes_with_limit` returns is at most as long as the
-- limit, and it is all that the decoder produces, never a part of it.
pub decompress_bounded :
    (d : Decoders) (c : Compression) (bytes out : List ℕ) (max_bytes : ℕ)
    → decompress_bytes_with_limit d c bytes max_bytes ≡ ok out
    → (length out ≤ max_bytes) × Decoded d c bytes out
unfolding decompress_bytes_with_limit
decompress_bounded d plain bytes out n h = ground arith
decompress_bounded d gzip bytes out n h = read_decompressed_limited_lem (d.gunzip bytes) n out h
decompress_bounded d brotli bytes out n h = read_decompressed_limited_lem (d.unbrotli bytes) n out h
decompress_bounded d zstd bytes out n h = elim (Option-cases (d.unzstd bytes)) [
  | inl e ↦ ground arith
  | inr (s, e) ↦
      let (short, all) = read_decompressed_limited_lem s n out (ground arith) in
      (short, (s, e, all))
]
decompress_bounded d unknown bytes out n h = absurd (cc)
