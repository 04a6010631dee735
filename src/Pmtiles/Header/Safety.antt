-- ===== src/Pmtiles/Header/Safety.antt =====
-- `Header::parse` never reads past its input, and a header that it accepts has sections whose
-- ends are u64s.
use biei.Prelude.{
  ℕ, ◌+◌, ◌≤◌, ◌<◌, ◌≡◌, ◌≢◌, refl, inl, inr, List, [], ◌∷◌, Result, ok, err, arith, length, drop,
  max, All, length-drop, Result-cases, ◌↔◌, lt→ltb,
}
use native.Mathlib.Nat.{zero-add}
use native.Mathlib.Decide.{dec_lt}
use biei.Pmtiles.Error.{Error, read_past_end}
use biei.Pmtiles.Varint.{u64_mod}
use biei.Pmtiles.Kinds.{compression_of, tile_type_of}
use biei.Pmtiles.Get.{
  Get, ◌>>=◌, lift, get_le, return, Takes, Reads, get_u8, Reads-get_u8, Reads-get_le, Reads-return,
  Reads-lift, Reads->>=,
}
use biei.Pmtiles.Header.{
  Header, header_size, pmtiles_version, parse_fields, parse_version, sections, check_sections,
  parse, sections_end, archive_len,
}

compression_of-ne-panic : (v : ℕ) → compression_of v ≢ err read_past_end
unfolding compression_of
compression_of-ne-panic v = ground arith

tile_type_of-ne-panic : (v : ℕ) → tile_type_of v ≢ err read_past_end
unfolding tile_type_of
tile_type_of-ne-panic v = ground arith

module _ {ℓ} {B : Type ℓ} (k : ℕ) (f : ℕ → Get B) (next : (a : ℕ) → Reads k (f a)) where
  byte : Reads (1 + k) (get_u8 >>= f)
  byte = Reads->>= 1 k get_u8 f Reads-get_u8 next

  u32 : Reads (4 + k) (get_le 4 >>= f)
  u32 = Reads->>= 4 k (get_le 4) f (Reads-get_le 4) next

  u64 : Reads (8 + k) (get_le 8 >>= f)
  u64 = Reads->>= 8 k (get_le 8) f (Reads-get_le 8) next

module _ {ℓ κ} {A : Type ℓ} {B : Type κ} (k : ℕ) (r : Result Error A) (f : A → Get B) where
  code : r ≢ err read_past_end → ((a : A) → Reads k (f a)) → Reads k (lift r >>= f)
  code ne next = rw zero-add at (Reads->>= 0 k (lift r) f (Reads-lift r ne) next)

-- The fields take 119 bytes: eleven u64s, six i32s and seven single bytes.
parse_fields-Reads : (version : ℕ) → Reads 119 (parse_fields version)
unfolding parse_fields
parse_fields-Reads version = u64 111 _ λ a1. u64 103 _ λ a2. u64 95 _ λ a3. u64 87 _ λ a4.
    u64 79 _ λ a5. u64 71 _ λ a6. u64 63 _ λ a7. u64 55 _ λ a8. u64 47 _ λ a9. u64 39 _ λ a10.
      u64 31 _ λ a11. byte 30 _ λ b1. byte 29 _ λ b2. code 29 _ _ (compression_of-ne-panic b2) λ c1.
        byte 28 _ λ b3. code 28 _ _ (compression_of-ne-panic b3) λ c2. byte 27 _ λ b4.
          code 27 _ _ (tile_type_of-ne-panic b4) λ c3. byte 26 _ λ b5. byte 25 _ λ b6.
            u32 21 _ λ d1. u32 17 _ λ d2.
              u32 13 _ λ d3. u32 9 _ λ d4. byte 8 _ λ b7. u32 4 _ λ d5. u32 0 _ λ d6. Reads-return _

-- What holds of every value that a read can return.
Ends {ℓ κ} : {A : Type ℓ} (P : A → Type κ) → Get A → Type (ℓ ⊔ κ)
Ends {A = A} P m = (bytes rest : List ℕ) (a : A) → m bytes ≡ ok (a, rest) → P a

module _ {ℓ κ μ} {A : Type ℓ} {B : Type κ} (P : B → Type μ) where
  after : (m : Get A) (f : A → Get B) → ((a : A) → Ends P (f a)) → Ends P (m >>= f)
  unfolding Ends
  after m f next bytes rest b e = elim (Result-cases (m bytes)) [
    | inl ((a, rest'), e') ↦ next a rest' rest b (rw (e', ◌>>=◌) at e)
    | inr (x, e') ↦ absurd (let no : err x ≡ ok (b, rest) = rw (e', ◌>>=◌) at e in cc)
  ]

HasVersion : ℕ → Header → Type 0
HasVersion version h = h.version ≡ version

module _ (version : ℕ) (f : ℕ → Get Header) (next : (a : ℕ) → Ends (HasVersion version) (f a)) where
  past_le : (n : ℕ) → Ends (HasVersion version) (get_le n >>= f)
  past_le n = after (HasVersion version) (get_le n) f next

  past_u8 : Ends (HasVersion version) (get_u8 >>= f)
  past_u8 = after (HasVersion version) get_u8 f next

module _ {ℓ} (version : ℕ) {A : Type ℓ} (r : Result Error A) (f : A → Get Header) where
  past_code : ((a : A) → Ends (HasVersion version) (f a)) → Ends (HasVersion version) (lift r >>= f)
  past_code next = after (HasVersion version) (lift r) f next

return-HasVersion : (v : ℕ) (h : Header) → h.version ≡ v → Ends (HasVersion v) (return h)
unfolding Ends HasVersion
return-HasVersion v h e bytes rest a e' = cc

parse_fields-HasVersion : (version : ℕ) → Ends (HasVersion version) (parse_fields version)
unfolding parse_fields
parse_fields-HasVersion v =
    past_le v _
      (λ a1.
        past_le v _
          (λ a2.
            past_le v _
              (λ a3.
                past_le v _
                  (λ a4.
                    past_le v _
                      (λ a5.
                        past_le v _
                          (λ a6.
                            past_le v _
                              (λ a7.
                                past_le v _
                                  (λ a8.
                                    past_le v _
                                      (λ a9.
                                        past_le v _
                                          (λ a10.
                                            past_le v _
                                              (λ a11. past_u8 v _ (λ a12. past_u8 v _ (λ a13.
                                                past_code v _ _ λ a14. past_u8 v _ (λ a15.
                                                  past_code v _ _ λ a16. past_u8 v _ (λ a17.
                                                    past_code v _ _ λ a18. past_u8 v _ (λ a19.
                                                      past_u8 v _ (λ a20.
                                                        past_le v _
                                                          (λ a21.
                                                            past_le v _
                                                            (λ a22.
                                                            past_le v _
                                                            (λ a23.
                                                            past_le v _
                                                            (λ a24. past_u8 v _ (λ a25.
                                                            past_le v _
                                                            (λ a26.
                                                            past_le v _
                                                            (λ a27. return-HasVersion v _ refl) 4)
                                                            4))
                                                            4)
                                                            4)
                                                            4)
                                                          4)))))))
                                              8)
                                          8)
                                      8)
                                  8)
                              8)
                          8)
                      8)
                  8)
              8)
          8)
      8

parse_fields-version :
    (version : ℕ) (bytes rest : List ℕ) (h : Header)
    → parse_fields version bytes ≡ ok (h, rest)
    → h.version ≡ version
unfolding Ends HasVersion
parse_fields-version version bytes rest h e = parse_fields-HasVersion version bytes rest h e

-- `check_sections` passes exactly when every section ends at a u64.
abbrev pub SectionsFit : List (ℕ × ℕ) → Type 0
SectionsFit = All (λ s. s.0 + s.1 < u64_mod)

pub check_sections-SectionsFit : (l : List (ℕ × ℕ)) → (check_sections l ≡ ok tt) ↔ SectionsFit l
unfolding check_sections
check_sections-SectionsFit [] = (λ h. tt, λ h. refl)
check_sections-SectionsFit ((offset, size) ∷ l) =
    let (to, from) = check_sections-SectionsFit l in (λ h. ground arith, λ h. ground arith)

sections_end_lem :
    (end : ℕ) (l : List (ℕ × ℕ))
    → end < u64_mod
    → SectionsFit l
    → (n : ℕ) × (sections_end end l ≡ ok n) × (end ≤ n) × (n < u64_mod) × All (λ s. s.0 + s.1 ≤ n) l
unfolding sections_end
sections_end_lem end [] h fits = (end, refl, omega arith, h, tt)
sections_end_lem end ((offset, size) ∷ l) h (here, fits) =
    let (n, e, le, lt, all) = sections_end_lem (max end (offset + size)) l (omega arith) fits in
    (n, rw (lt→ltb (offset + size) u64_mod here) e, omega arith, lt, (omega arith, all))

parse_version_lem :
    (version : ℕ) (bytes : List ℕ) (h : Header)
    → parse_version version bytes ≡ ok h
    → (h.version ≡ pmtiles_version) × SectionsFit (sections h)
unfolding parse_version
parse_version_lem version bytes h e = elim (Result-cases (parse_fields version bytes)) [
  | inl ((h', rest), e') ↦ ground (
    arith,
    parse_fields-version version bytes rest h' e',
    check_sections-SectionsFit (sections h'),
  )
  | inr (x, e') ↦ ground arith
]

parse_accepts :
    (bytes : List ℕ) (h : Header)
    → parse bytes ≡ ok h
    → (header_size ≤ length bytes) × (h.version ≡ pmtiles_version) × SectionsFit (sections h)
unfolding parse
parse_accepts bytes h e = elim (Result-cases (get_u8 (drop 7 bytes))) [
  | inl ((v, rest), e') ↦ ground (arith, parse_version_lem v rest h)
  | inr (x, e') ↦ ground arith
]

-- A header that `Header::parse` accepts was read from at least 127 bytes and has version 3, and
-- `archive_len` succeeds on it: the result is a u64 at or above the end of every section.
pub parse-archive_len :
    (bytes : List ℕ) (h : Header)
    → parse bytes ≡ ok h
    → (header_size ≤ length bytes)
      × (h.version ≡ pmtiles_version)
      × ((n : ℕ) × (archive_len h ≡ ok n) × (n < u64_mod) × All (λ s. s.0 + s.1 ≤ n) (sections h))
unfolding archive_len
parse-archive_len bytes h e =
    let (long, version, fits) = parse_accepts bytes h e in
    let (n, total, _, lt, all) = sections_end_lem 0 (sections h) (omega arith) fits in
    (long, version, (n, total, lt, all))

parse_version-ne-panic :
    (v : ℕ) (bytes : List ℕ) → 119 ≤ length bytes → parse_version v bytes ≢ err read_past_end
unfolding parse_version check_sections Takes
parse_version-ne-panic v bytes h e = elim (parse_fields-Reads v bytes h) [
  | inl (header, rest, e', l) ↦ ground arith
  | inr (x, e', ne) ↦ ground arith
]

-- On every input `Header::parse` returns a header or an error: no read of it goes past the end.
pub parse-ne-panic : (bytes : List ℕ) → parse bytes ≢ err read_past_end
unfolding parse Takes
parse-ne-panic bytes e = elim (dec_lt (length bytes) header_size) [
  | yes short ↦ ground arith
  | no long ↦ elim (Reads-get_u8 (drop 7 bytes) (omega (arith, length-drop 7 bytes))) [
    | inl (v, rest, e', l) ↦
        ground (arith, parse_version-ne-panic v rest (omega (arith, length-drop 7 bytes)))
    | inr (x, e', ne) ↦ ground arith
  ]
]
