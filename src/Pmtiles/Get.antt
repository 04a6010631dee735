-- ===== src/Pmtiles/Get.antt =====
-- The reads of the crate `bytes` that `Header::parse` makes (`get_u8`, `get_u64_le`,
-- `get_i32_le`): each takes bytes from the front, and panics when there are too few.
use biei.Prelude.{
  ℕ, zero, suc, ◌+◌, ◌*◌, ◌/◌, ◌%◌, ◌^◌, ◌<◌, ◌≤◌, ◌≡◌, refl, ◌≢◌, ◌⊎◌, inl, inr, List, [], ◌∷◌,
  ◌++◌, Result, ok, err, arith, length, ap,
}
use native.Mathlib.Nat.{pow-suc}
use biei.Pmtiles.Error.{Error, read_past_end}

-- A read returns its value and the bytes that are left.
abbrev pub Get {ℓ} : Type ℓ → Type ℓ
Get A = List ℕ → Result Error (A × List ℕ)

infixl 5 ◌>>=◌
abbrev pub ◌>>=◌ {ℓ κ} : {A : Type ℓ} {B : Type κ} → Get A → (A → Get B) → Get B
◌>>=◌ m f bytes = elim (m bytes) [ ok (a, rest) ↦ f a rest | err e ↦ err e ]

abbrev pub return {ℓ} : {A : Type ℓ} → A → Get A
return a bytes = ok (a, bytes)

-- `e?` on a result that reads nothing.
abbrev pub lift {ℓ} : {A : Type ℓ} → Result Error A → Get A
lift (ok a) bytes = ok (a, bytes)
lift (err e) bytes = err e

unfoldable pub get_u8 : Get ℕ
get_u8 [] = err read_past_end
get_u8 (b ∷ bytes) = ok (b, bytes)

-- `n` bytes, the lowest first.
unfoldable pub get_le : ℕ → Get ℕ
get_le zero bytes = ok (0, bytes)
get_le (suc n) [] = err read_past_end
get_le (suc n) (b ∷ bytes) = elim (get_le n bytes) [
  | ok (high, rest) ↦ ok (b + 256 * high, rest)
  | err e ↦ err e
]

-- The bytes that `get_le n` reads as `v`.
unfoldable pub put_le : ℕ → ℕ → List ℕ
put_le zero v = []
put_le (suc n) v = (v % 256) ∷ put_le n (v / 256)

pub get_le-put_le :
    (n v : ℕ) (rest : List ℕ) → v < 256 ^ n → get_le n (put_le n v ++ rest) ≡ ok (v, rest)
unfolding get_le put_le
get_le-put_le zero v rest h = ground arith
get_le-put_le (suc n) v rest h =
    ground (arith, get_le-put_le n (v / 256) rest (omega (arith, pow-suc 256 n)))

-- On enough bytes the read does not panic, and it takes `n` of them if it succeeds.
unfoldable pub Takes {ℓ} : {A : Type ℓ} → ℕ → Get A → List ℕ → Type ℓ
Takes {A = A} n m bytes =
    ((a : A) × (rest : List ℕ) × (m bytes ≡ ok (a, rest)) × (length rest + n ≡ length bytes))
    ⊎ ((e : Error) × (m bytes ≡ err e) × (e ≢ read_past_end))

abbrev pub Reads {ℓ} : {A : Type ℓ} → ℕ → Get A → Type ℓ
Reads n m = (bytes : List ℕ) → n ≤ length bytes → Takes n m bytes

pub Reads-get_u8 : Reads 1 get_u8
unfolding get_u8 Takes
Reads-get_u8 [] h = absurd (omega arith)
Reads-get_u8 (b ∷ bytes) h = inl (b, bytes, refl, omega arith)

get_le_takes :
    (n : ℕ) (bytes : List ℕ)
    → n ≤ length bytes
    → (a : ℕ) × (rest : List ℕ) × (get_le n bytes ≡ ok (a, rest)) × (length rest + n ≡ length bytes)
unfolding get_le
get_le_takes zero bytes h = (0, bytes, refl, omega arith)
get_le_takes (suc n) [] h = absurd (omega arith)
get_le_takes (suc n) (b ∷ bytes) h =
    let (a, rest, e, l) = get_le_takes n bytes (omega arith) in
    (b + 256 * a, rest, rw e, omega arith)

pub Reads-get_le : (n : ℕ) → Reads n (get_le n)
unfolding Takes
Reads-get_le n bytes h = inl (get_le_takes n bytes h)

module _ {ℓ} {A : Type ℓ} where
  pub Reads-return : (a : A) → Reads 0 (return a)
  unfolding Takes
  Reads-return a bytes h = inl (a, bytes, refl, omega arith)

  pub Reads-lift : (r : Result Error A) → r ≢ err read_past_end → Reads 0 (lift r)
  unfolding Takes
  Reads-lift (ok a) ne bytes h = inl (a, bytes, refl, omega arith)
  Reads-lift (err e) ne bytes h = inr (e, refl, λ p. ne (ap err p))

  pub Reads->>= {κ} :
      {B : Type κ} (n k : ℕ) (m : Get A) (f : A → Get B)
      → Reads n m
      → ((a : A) → Reads k (f a))
      → Reads (n + k) (m >>= f)
  unfolding Takes
  Reads->>= n k m f reads next bytes h = elim (reads bytes (omega arith)) [
    | inl (a, rest, e, l) ↦ elim (next a rest (omega arith)) [
      | inl (b, rest', e', l') ↦ inl (b, rest', rw (e, ◌>>=◌) e', omega arith)
      | inr (x, e', ne) ↦ inr (x, rw (e, ◌>>=◌) e', ne)
    ]
    | inr (x, e, ne) ↦ inr (x, rw (e, ◌>>=◌), ne)
  ]
