-- ===== src/Renders/Identity/Injective.antt =====
-- Distinct layers have distinct identities in render_cache.rs.
use mathlib.Core.List.{append_assoc, append-nil}
use biei.Prelude.{
  ℕ, zero, suc, ◌+◌, ◌-◌, ◌*◌, ◌/◌, ◌%◌, ◌≤◌, ◌<◌, ◌≡◌, ◌≢◌, refl, sym, ap, ◌∙◌, inl, inr, arith,
  List, [], ◌∷◌, ◌++◌, Option, none, some, ltb, length, All, Bool-cases,
}
use biei.Renders.Identity.{
  AddLayerSource, AddLayer, colon, digit, put_digits, decimal, frame, addlayer_identity,
}

-- The number that digits stand for, after those that are read.
abbrev value : ℕ → List ℕ → ℕ
value acc [] = acc
value acc (d ∷ rest) = value (acc * 10 + (d - 48)) rest

put_digits-value :
    (rounds n : ℕ) (written : List ℕ)
    → n ≤ rounds
    → value 0 (put_digits rounds n written) ≡ value n written
unfolding put_digits
put_digits-value zero n written h =
    let e : 0 * 10 + (48 + n % 10 - 48) ≡ n = omega arith in ap (λ t. value t written) e
put_digits-value (suc rounds) n written h = elim (Bool-cases (ltb n 10)) [
  | inl small ↦
      let e : 0 * 10 + (48 + n - 48) ≡ n = omega arith in rw small (ap (λ t. value t written) e)
  | inr large ↦
      let e : n / 10 * 10 + (48 + n % 10 - 48) ≡ n = omega arith in
      rw large (
        put_digits-value rounds (n / 10) (digit (n % 10) ∷ written) (ground arith)
        ∙ ap (λ t. value t written) e)
]

-- Digits are not the colon.
put_digits-All :
    (rounds n : ℕ) (written : List ℕ)
    → All (λ d. d < colon) written
    → All (λ d. d < colon) (put_digits rounds n written)
unfolding put_digits
put_digits-All zero n written h = (omega arith, h)
put_digits-All (suc rounds) n written h = elim (Bool-cases (ltb n 10)) [
  | inl small ↦ rw small (ground arith, h)
  | inr large ↦
      rw large (put_digits-All rounds (n / 10) (digit (n % 10) ∷ written) (omega arith, h))
]

-- What stands before the first colon is determined.
before_colon :
    (xs ys u v : List ℕ)
    → All (λ d. d < colon) xs
    → All (λ d. d < colon) ys
    → xs ++ (colon ∷ u) ≡ ys ++ (colon ∷ v)
    → (xs ≡ ys) × (u ≡ v)
before_colon [] [] u v hx hy e = (refl, cc)
before_colon [] (y ∷ ys) u v hx hy e =
    let same : colon ≡ y = cc in absurd (omega (arith, same, hy.0))
before_colon (x ∷ xs) [] u v hx hy e =
    let same : x ≡ colon = cc in absurd (omega (arith, same, hx.0))
before_colon (x ∷ xs) (y ∷ ys) u v hx hy e =
    let head : x ≡ y = cc in
    let tail : xs ++ (colon ∷ u) ≡ ys ++ (colon ∷ v) = cc in
    let (p, q) = before_colon xs ys u v hx.1 hy.1 tail in (cc, q)

-- Of two splits with first parts of one length.
same_split : (xs ys u v : List ℕ) → length xs ≡ length ys → xs ++ u ≡ ys ++ v → (xs ≡ ys) × (u ≡ v)
same_split [] [] u v h e = (refl, e)
same_split [] (y ∷ ys) u v h e = absurd (omega (arith, h))
same_split (x ∷ xs) [] u v h e = absurd (omega (arith, h))
same_split (x ∷ xs) (y ∷ ys) u v h e =
    let tail : xs ++ u ≡ ys ++ v = cc in
    let (p, q) = same_split xs ys u v (omega (arith, h)) tail in let head : x ≡ y = cc in (cc, q)

-- A frame says where it ends.
frame-append : (a b u v : List ℕ) → frame a ++ u ≡ frame b ++ v → (a ≡ b) × (u ≡ v)
frame-append a b u v e =
    let shape : decimal (length a) ++ (colon ∷ (a ++ u))
        ≡ decimal (length b) ++ (colon ∷ (b ++ v)) =
      sym (append_assoc (decimal (length a)) (colon ∷ a) u)
      ∙ e
      ∙ append_assoc (decimal (length b)) (colon ∷ b) v in
    let (digits, rest) =
      before_colon (decimal (length a)) (decimal (length b)) (a ++ u) (b ++ v)
        (put_digits-All (length a) (length a) [] tt) (put_digits-All (length b) (length b) [] tt)
        shape in
    let lengths : length a ≡ length b =
      sym (put_digits-value (length a) (length a) [] (omega arith))
      ∙ ap (value 0) digits
      ∙ put_digits-value (length b) (length b) [] (omega arith) in
    same_split a b u v lengths rest

frame-ne-nil : (a u : List ℕ) → frame a ++ u ≢ []
frame-ne-nil a u e =
    elim (decimal (length a)) as (λ d. (d ++ (colon ∷ a)) ++ u ≡ [] → ⊥) [
      | [] ↦ λ p. cc
      | d ∷ ds ↦ λ p. cc
    ]
      e

sources_equal :
    (s t : Option AddLayerSource)
    → elim s as (λ _. List ℕ) [
      | none ↦ []
      | some source ↦ frame source.tileset_id ++ frame source.json
    ]
      ≡ elim t as (λ _. List ℕ) [
        | none ↦ []
        | some source ↦ frame source.tileset_id ++ frame source.json
      ]
    → s ≡ t
sources_equal none none e = refl
sources_equal none (some t) e = absurd (frame-ne-nil t.tileset_id (frame t.json) (sym e))
sources_equal (some s) none e = absurd (frame-ne-nil s.tileset_id (frame s.json) e)
sources_equal (some s) (some t) e =
    let (ids, jsons) = frame-append s.tileset_id t.tileset_id (frame s.json) (frame t.json) e in
    let (json, _) =
      frame-append s.json t.json [] []
        (append-nil (frame s.json) ∙ jsons ∙ sym (append-nil (frame t.json))) in
    ground (arith, ids, json)

-- Two layers with the same identity have the same layer JSON and the same source, whatever bytes
-- these contain.
pub addlayer_identity-injective :
    (a b : AddLayer)
    → addlayer_identity a ≡ addlayer_identity b
    → (a.json ≡ b.json) × (a.source ≡ b.source)
unfolding addlayer_identity
addlayer_identity-injective a b e =
    let (json, rest) = frame-append a.json b.json _ _ e in
    (json, sources_equal a.source b.source rest)
