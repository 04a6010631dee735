-- ===== src/Prelude/Orders.antt =====
-- Comparisons as the derived `Ord` makes them: by a key, and field after field.
use Prim.Native.Nat.{ℕ, compare, Ordering}
use mathlib.Core.Path.{◌≡◌, refl, sym, ap, ◌∙◌}
use mathlib.Core.Logic.{◌≢◌, ◌⊎◌, inl, inr}
use native.Mathlib.Omega.{arith}

abbrev pub flip : Ordering → Ordering
flip Ordering.lt = Ordering.gt
flip Ordering.eq = Ordering.eq
flip Ordering.gt = Ordering.lt

-- `Ordering::then`.
abbrev pub then_by : Ordering → Ordering → Ordering
then_by Ordering.lt o = Ordering.lt
then_by Ordering.eq o = o
then_by Ordering.gt o = Ordering.gt

pub record IsOrder {ℓ} {A : Type ℓ} (cmp : A → A → Ordering) : Type ℓ where
  pub swap : (a b : A) → cmp b a ≡ flip (cmp a b)
  pub alike : (a b c : A) → cmp a b ≡ Ordering.eq → cmp a c ≡ cmp b c
  pub below : (a b c : A) → cmp a b ≡ Ordering.lt → cmp b c ≡ Ordering.lt → cmp a c ≡ Ordering.lt

flip-flip : (o : Ordering) → flip (flip o) ≡ o
flip-flip Ordering.lt = refl
flip-flip Ordering.eq = refl
flip-flip Ordering.gt = refl

pub compare-swap : (m n : ℕ) → compare n m ≡ flip (compare m n)
compare-swap m n = ground arith

module _ {ℓ} {A : Type ℓ} where
  pub by_key-IsOrder : (key : A → ℕ) → IsOrder (λ a b. compare (key a) (key b))
  by_key-IsOrder key = record {
    swap = λ a b. compare-swap (key a) (key b);
    alike = λ a b c h. let same : key a ≡ key b = ground arith in rw same refl;
    below = λ a b c h k. ground arith;
  }

  pub reverse-IsOrder : (key : A → ℕ) → IsOrder (λ a b. compare (key b) (key a))
  reverse-IsOrder key = record {
    swap = λ a b. compare-swap (key b) (key a);
    alike = λ a b c h. let same : key a ≡ key b = ground arith in rw same refl;
    below = λ a b c h k. ground arith;
  }

not-gt : (o : Ordering) → o ≢ Ordering.gt → (o ≡ Ordering.lt) ⊎ (o ≡ Ordering.eq)
not-gt Ordering.lt h = inl refl
not-gt Ordering.eq h = inr refl
not-gt Ordering.gt h = absurd (h refl)

lt-ne-gt : (o : Ordering) → o ≡ Ordering.lt → o ≢ Ordering.gt
lt-ne-gt Ordering.lt h = λ e. cc
lt-ne-gt Ordering.eq h = λ e. cc
lt-ne-gt Ordering.gt h = λ e. cc

pub then_by-eq :
    (x y : Ordering) → then_by x y ≡ Ordering.eq → (x ≡ Ordering.eq) × (y ≡ Ordering.eq)
then_by-eq Ordering.lt y h = absurd (cc)
then_by-eq Ordering.eq y h = (refl, h)
then_by-eq Ordering.gt y h = absurd (cc)

pub then_by-lt :
    (x y : Ordering)
    → then_by x y ≡ Ordering.lt
    → (x ≡ Ordering.lt) ⊎ ((x ≡ Ordering.eq) × (y ≡ Ordering.lt))
then_by-lt Ordering.lt y h = inl refl
then_by-lt Ordering.eq y h = inr (refl, h)
then_by-lt Ordering.gt y h = absurd (cc)

-- What is not greater is not greater in the first comparison.
pub then_by-not_gt : (x y : Ordering) → then_by x y ≢ Ordering.gt → x ≢ Ordering.gt
then_by-not_gt Ordering.lt y h = λ e. cc
then_by-not_gt Ordering.eq y h = λ e. cc
then_by-not_gt Ordering.gt y h = h

pub flip-then_by : (x y : Ordering) → then_by (flip x) (flip y) ≡ flip (then_by x y)
flip-then_by Ordering.lt y = refl
flip-then_by Ordering.eq y = refl
flip-then_by Ordering.gt y = refl

module _ {ℓ} {A : Type ℓ} (cmp : A → A → Ordering) (order : IsOrder cmp) where
  alike_right : (a b c : A) → cmp b c ≡ Ordering.eq → cmp a b ≡ cmp a c
  alike_right a b c h = order.swap b a ∙ ap flip (order.alike b c a h) ∙ sym (order.swap c a)

  pub not-gt_trans :
      (a b c : A) → cmp a b ≢ Ordering.gt → cmp b c ≢ Ordering.gt → cmp a c ≢ Ordering.gt
  not-gt_trans a b c h k = elim (not-gt (cmp a b) h) [
    | inl lt1 ↦ elim (not-gt (cmp b c) k) [
      | inl lt2 ↦ lt-ne-gt (cmp a c) (order.below a b c lt1 lt2)
      | inr eq2 ↦ lt-ne-gt (cmp a c) (sym (alike_right a b c eq2) ∙ lt1)
    ]
    | inr eq1 ↦ rw (order.alike a b c eq1) k
  ]

module _ {ℓ} {A : Type ℓ} (f g : A → A → Ordering) (first : IsOrder f) (second : IsOrder g) where
  pub then_by-IsOrder : IsOrder (λ a b. then_by (f a b) (g a b))
  then_by-IsOrder = record {
    swap = λ a b. rw (first.swap a b, second.swap a b) (flip-then_by (f a b) (g a b));
    alike = λ a b c h.
        let (e1, e2) = then_by-eq (f a b) (g a b) h in
        rw (first.alike a b c e1, second.alike a b c e2) refl;
    below = λ a b c h k. elim (then_by-lt (f a b) (g a b) h) [
      | inl lt1 ↦ elim (then_by-lt (f b c) (g b c) k) [
        | inl lt2 ↦ rw (first.below a b c lt1 lt2) refl
        | inr (eq2, _) ↦ rw (sym (alike_right f first a b c eq2) ∙ lt1) refl
      ]
      | inr (eq1, lt1) ↦ elim (then_by-lt (f b c) (g b c) k) [
        | inl lt2 ↦ rw (first.alike a b c eq1 ∙ lt2) refl
        | inr (eq2, lt2) ↦ rw (first.alike a b c eq1 ∙ eq2, second.below a b c lt1 lt2) refl
      ]
    ];
  }
