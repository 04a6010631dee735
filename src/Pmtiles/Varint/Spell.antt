-- ===== src/Pmtiles/Varint/Spell.antt =====
-- The varint that a writer of the format makes of a u64, and its reading back.
use native.Mathlib.Nat.{pow-suc}
use biei.Prelude.{
  ℕ, zero, suc, ◌+◌, ◌/◌, ◌%◌, ◌^◌, ◌<◌, ◌≤◌, ◌≡◌, refl, sym, List, [], ◌∷◌, ◌++◌, arith, ltb,
  if◌then◌else◌, length, All, All-append, ok,
}
use biei.Pmtiles.Varint.{IsByte, IsU64, read_u64_varint}
use biei.Pmtiles.Varint.Value.{spelled, IsGroup, read_u64_varint-Encodes}

-- The groups of `v`, for at most `k` groups before the last.
spell : ℕ → ℕ → List ℕ
spell zero v = v ∷ []
spell (suc k) v = if ltb v 128 then v ∷ [] else (v % 128 + 128) ∷ spell k (v / 128)

pub put_varint : ℕ → List ℕ
put_varint v = spell 9 v

spell_lem :
    (k v : ℕ)
    → v < 128 ^ suc k
    → All IsByte (spell k v)
      × IsGroup (spell k v)
      × (spelled (spell k v) ≡ v)
      × (length (spell k v) ≤ k + 1)
unfolding spell
spell_lem zero v h = ground arith
spell_lem (suc k) v h = ground (arith, spell_lem k (v / 128) (omega (arith, pow-suc 128 (suc k))))

pub put_varint_bytes : (v : ℕ) → IsU64 v → All IsByte (put_varint v) × (1 ≤ length (put_varint v))
unfolding put_varint spell
put_varint_bytes v h = ((spell_lem 9 v (omega arith)).0, ground arith)

-- A u64 is read back from its varint, whatever bytes follow.
pub read-put_varint :
    (v : ℕ) (rest : List ℕ)
    → IsU64 v
    → All IsByte rest
    → read_u64_varint (put_varint v ++ rest) ≡ ok (v, rest)
unfolding put_varint
read-put_varint v rest h bytes =
    let (b, g, s, l) = spell_lem 9 v (omega arith) in
    (read_u64_varint-Encodes (spell 9 v ++ rest) v rest
        (All-append IsByte (spell 9 v) rest b bytes)).1
      (spell 9 v, refl, g, omega arith, sym s, h)
