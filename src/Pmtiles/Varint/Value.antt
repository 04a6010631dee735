-- ===== src/Pmtiles/Varint/Value.antt =====
-- What `read_u64_varint` accepts and returns, against the base-128 number that the bytes spell.
use Prim.Native.Nat.{bit_and, bit_or}
use native.Mathlib.Nat.{pow-le-pow_right, mod-eq_of_lt}
use native.Mathlib.Decide.{dec_lt}
use native.Mathlib.Numerals.{towards_suc}
use biei.Prelude.{
  ℕ, ◌+◌, ◌*◌, ◌/◌, ◌%◌, ◌^◌, ◌≤◌, ◌<◌, ◌≡◌, refl, ap, ◌⊎◌, ◌↔◌, List, [], ◌∷◌, ◌++◌, ok, err,
  arith, ◌==◌, ltb, leb, ◌&&◌, if◌then◌else◌, length, All, All-append_left, All-append_right,
  length-append, inl, inr,
}
use biei.Prelude.Bits.{bit_and_payload, bit_and_more, bit_or-shifted}
use biei.Pmtiles.Error.{varint_exceeds_u64}
use biei.Pmtiles.Varint.{IsByte, IsU64, shl64, read_varint_loop, read_u64_varint}

-- The number that a group of bytes spells, seven bits a byte, the lowest first.
abbrev pub spelled : List ℕ → ℕ
spelled [] = 0
spelled (b ∷ bs) = b % 128 + 128 * spelled bs

-- Every byte but the last has its top bit set, and the last has not.
abbrev pub IsGroup : List ℕ → Type 0
IsGroup [] = ⊥
IsGroup (b ∷ bs) = ((b < 128) × (bs ≡ [])) ⊎ ((128 ≤ b) × IsGroup bs)

shift_seven : (s : ℕ) → 2 ^ (s + 7) ≡ 128 * 2 ^ s
shift_seven s = simp towards_suc (omega arith)

shift_room : (s : ℕ) → s ≤ 63 → 2 ^ s ≤ 2 ^ 63
shift_room s h = pow-le-pow_right (omega arith) h

shift_room_below : (s : ℕ) → s ≤ 56 → 2 ^ s ≤ 2 ^ 56
shift_room_below s h = pow-le-pow_right (omega arith) h

-- What one round adds to `value` keeps to 64 bits.
round_fits :
    (shift k value p : ℕ)
    → shift ≡ 7 * k
    → k ≤ 9
    → value < 2 ^ shift
    → p < 128
    → (shift ≡ 63 → p ≤ 1)
    → value + p * 2 ^ shift < 2 ^ 64
round_fits shift k value p e hk hv hp last = elim (dec_lt shift 63) [
  | yes lt ↦ grind (arith, shift_room_below shift)
  | no ge ↦
      let top : shift ≡ 63 = omega arith in
      let small : value < 2 ^ 63 = rw top at hv in rw top (omega (arith, last top))
]

round_value :
    (shift value b : ℕ)
    → b < 256
    → value < 2 ^ shift
    → value + b % 128 * 2 ^ shift < 2 ^ 64
    → bit_or value (shl64 (bit_and b 0x7f) shift) ≡ value + b % 128 * 2 ^ shift
round_value shift value b hb hv fits = rw (bit_and_payload b hb) (
    rw (mod-eq_of_lt {n = b % 128 * 2 ^ shift} {m = 2 ^ 64} (omega arith))
      (bit_or-shifted value (b % 128) shift hv))

-- One round, with the bit operations read as arithmetic.
round :
    (b : ℕ) (rest : List ℕ) (shift value : ℕ)
    → b < 256
    → read_varint_loop (b ∷ rest) shift value ≡ (
        if shift == 63 && ltb 1 (b % 128)
        then err varint_exceeds_u64
        else if b / 128 * 128 == 0
        then ok (bit_or value (shl64 (bit_and b 0x7f) shift), rest)
        else if leb 64 (shift + 7)
        then err varint_exceeds_u64
        else read_varint_loop rest (shift + 7) (bit_or value (shl64 (bit_and b 0x7f) shift)))
unfolding read_varint_loop
round b rest shift value hb = rw (bit_and_more b hb) (ground (arith, bit_and_payload b hb))

-- A round that succeeds has room for the payload.
last_bit :
    (b : ℕ) (bs : List ℕ) (shift value v : ℕ) (rest : List ℕ)
    → b < 256
    → read_varint_loop (b ∷ bs) shift value ≡ ok (v, rest)
    → shift ≡ 63
    → b % 128 ≤ 1
last_bit b bs shift value v rest hb h e = ground (arith, round b bs shift value hb)

last_round :
    (b : ℕ) (bs : List ℕ) (shift value v : ℕ) (rest : List ℕ)
    → b < 128
    → bit_or value (shl64 (bit_and b 0x7f) shift) ≡ value + b % 128 * 2 ^ shift
    → read_varint_loop (b ∷ bs) shift value ≡ ok (v, rest)
    → (v ≡ value + b % 128 * 2 ^ shift) × (bs ≡ rest)
last_round b bs shift value v rest hb e h = ground (arith, round b bs shift value (omega arith))

inner_round :
    (b : ℕ) (bs : List ℕ) (shift value v : ℕ) (rest : List ℕ)
    → b < 256
    → 128 ≤ b
    → bit_or value (shl64 (bit_and b 0x7f) shift) ≡ value + b % 128 * 2 ^ shift
    → read_varint_loop (b ∷ bs) shift value ≡ ok (v, rest)
    → (shift + 7 ≤ 63)
      × (read_varint_loop bs (shift + 7) (value + b % 128 * 2 ^ shift) ≡ ok (v, rest))
inner_round b bs shift value v rest hb big e h =
    ground (arith, round b bs shift value (omega arith))

-- The bytes before `rest` spell what the loop adds to `value`; `k` bytes have been read.
Reads : List ℕ → ℕ → ℕ → ℕ → ℕ → List ℕ → Type 0
Reads bs shift value k v rest =
    (pre : List ℕ) × (bs ≡ pre ++ rest)
    × IsGroup pre
    × (v ≡ value + spelled pre * 2 ^ shift)
    × IsU64 v
    × (k + length pre ≤ 10)

Reads-last :
    (b shift value k v : ℕ) (bs rest : List ℕ)
    → b < 128
    → k ≤ 9
    → v ≡ value + b % 128 * 2 ^ shift
    → bs ≡ rest
    → IsU64 v
    → Reads (b ∷ bs) shift value k v rest
unfolding Reads
Reads-last b shift value k v bs rest hb hk e split fits =
    (b ∷ [], ap (◌∷◌ b) split, inl (hb, refl), omega arith, fits, omega arith)

Reads-inner :
    (b shift value k v : ℕ) (bs rest : List ℕ)
    → 128 ≤ b
    → Reads bs (shift + 7) (value + b % 128 * 2 ^ shift) (k + 1) v rest
    → Reads (b ∷ bs) shift value k v rest
unfolding Reads
Reads-inner b shift value k v bs rest hb (pre, split, group, spells, fits, short) = (
  b ∷ pre,
  ap (◌∷◌ b) split,
  inr (hb, group),
  omega (arith, ap (λ (t : ℕ). spelled pre * t) (shift_seven shift)),
  fits,
  omega arith,
)

loop_sound :
    (bs : List ℕ) (shift value k v : ℕ) (rest : List ℕ)
    → All IsByte bs
    → shift ≡ 7 * k
    → k ≤ 9
    → value < 2 ^ shift
    → read_varint_loop bs shift value ≡ ok (v, rest)
    → Reads bs shift value k v rest
unfolding read_varint_loop
loop_sound [] shift value k v rest bytes e hk hv h = absurd (cc)
loop_sound (b ∷ bs) shift value k v rest bytes e hk hv h =
    let fits =
      round_fits shift k value (b % 128) e hk hv (omega arith)
        (last_bit b bs shift value v rest bytes.0 h) in
    let adds = round_value shift value b bytes.0 hv fits in
    elim (dec_lt b 128) [
      | yes last ↦
          let (spells, split) = last_round b bs shift value v rest last adds h in
          Reads-last b shift value k v bs rest last hk spells split (rw spells fits)
      | no more ↦
          let (room, next) = inner_round b bs shift value v rest bytes.0 (omega arith) adds h in
          Reads-inner b shift value k v bs rest (omega arith) (
            loop_sound bs (shift + 7) (value + b % 128 * 2 ^ shift) (k + 1) v rest bytes.1
              (omega arith) (omega arith) (grind (arith, shift_seven shift)) next)
    ]

split_spelled :
    (b shift n : ℕ) → (b % 128 + 128 * n) * 2 ^ shift ≡ b % 128 * 2 ^ shift + n * 2 ^ (shift + 7)
split_spelled b shift n = omega (arith, ap (λ (t : ℕ). n * t) (shift_seven shift))

one_bit : (shift value p : ℕ) → value + p * 2 ^ shift < 2 ^ 64 → shift ≡ 63 → p ≤ 1
one_bit shift value p fits e = let top : value + p * 2 ^ 63 < 2 ^ 64 = rw e at fits in omega arith

IsGroup-nonempty : (bs : List ℕ) → IsGroup bs → 1 ≤ length bs
IsGroup-nonempty [] g = elim g [ ]
IsGroup-nonempty (b ∷ bs) g = omega arith

-- The other way: a group that spells a u64 in at most ten bytes is read to its end.
loop_complete :
    (pre rest : List ℕ) (shift value k : ℕ)
    → All IsByte pre
    → IsGroup pre
    → shift ≡ 7 * k
    → k + length pre ≤ 10
    → value < 2 ^ shift
    → value + spelled pre * 2 ^ shift < 2 ^ 64
    → read_varint_loop (pre ++ rest) shift value ≡ ok (value + spelled pre * 2 ^ shift, rest)
loop_complete [] rest shift value k bytes group e short hv fits = elim group [ ]
loop_complete (b ∷ bs) rest shift value k bytes (inl (small, end)) e short hv fits =
    let room : value + b % 128 * 2 ^ shift < 2 ^ 64 =
      omega (arith, split_spelled b shift (spelled bs)) in
    let bit = one_bit shift value (b % 128) room in
    rw end (
      ground
        (arith, round b rest shift value bytes.0, round_value shift value b bytes.0 hv room, bit))
loop_complete (b ∷ bs) rest shift value k bytes (inr (big, group)) e short hv fits =
    let sum = split_spelled b shift (spelled bs) in
    let room : value + b % 128 * 2 ^ shift < 2 ^ 64 = omega arith in
    let next =
      loop_complete bs rest (shift + 7) (value + b % 128 * 2 ^ shift) (k + 1) bytes.1 group
        (omega arith) (omega arith) (grind (arith, shift_seven shift)) (omega arith) in
    ground (
      arith,
      round b (bs ++ rest) shift value bytes.0,
      round_value shift value b bytes.0 hv room,
      IsGroup-nonempty bs group,
      next,
      sum,
    )

-- Where a u64 ends in the bytes: the shape that the format gives it.
abbrev pub Encodes : List ℕ → ℕ → List ℕ → Type 0
Encodes bs v rest =
    (pre : List ℕ) × (bs ≡ pre ++ rest)
    × IsGroup pre
    × (length pre ≤ 10)
    × (v ≡ spelled pre)
    × IsU64 v

-- `read_u64_varint` succeeds on a byte slice with value `v` and rest `rest` exactly when the slice
-- begins with at most ten bytes, all but the last of them with the top bit set, that spell `v` in
-- base 128, lowest group first, `v` is below 2 ^ 64, and `rest` is what follows them.
pub read_u64_varint-Encodes :
    (bs : List ℕ) (v : ℕ) (rest : List ℕ)
    → All IsByte bs
    → (read_u64_varint bs ≡ ok (v, rest)) ↔ Encodes bs v rest
unfolding read_u64_varint Reads
read_u64_varint-Encodes bs v rest bytes = (sound, complete)
  where
    sound : read_varint_loop bs 0 0 ≡ ok (v, rest) → Encodes bs v rest
    sound h =
        let (pre, split, group, spells, fits, short) =
          loop_sound bs 0 0 0 v rest bytes (omega arith) (omega arith) (omega arith) h in
        (pre, split, group, omega arith, omega arith, fits)

    complete : Encodes bs v rest → read_varint_loop bs 0 0 ≡ ok (v, rest)
    complete (pre, split, group, short, spells, fits) =
        let whole : spelled pre * 2 ^ 0 ≡ spelled pre = omega arith in
        let done =
          loop_complete pre rest 0 0 0 (All-append_left IsByte pre rest (rw split at bytes)) group
            (omega arith) (omega arith) (omega arith) (omega arith) in
        rw split (ground (arith, done))

-- What follows a varint that was read is the end of the input, so its bytes are bytes.
pub read_u64_varint_rest :
    (bs : List ℕ) (v : ℕ) (rest : List ℕ)
    → All IsByte bs
    → read_u64_varint bs ≡ ok (v, rest)
    → IsU64 v × All IsByte rest × (length rest + 1 ≤ length bs)
read_u64_varint_rest bs v rest bytes h =
    let (pre, split, group, short, spells, fits) = (read_u64_varint-Encodes bs v rest bytes).0 h in
    (
      fits,
      All-append_right IsByte pre rest (rw split at bytes),
      omega (arith, ap length split, length-append pre rest, IsGroup-nonempty pre group),
    )
