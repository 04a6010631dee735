-- ===== src/Prelude/Keyed.antt =====
-- What the operations on sets and maps do, key by key.
use Prim.Native.Nat.{ℕ, zero, suc, ◌+◌, ◌≤◌, ◌<◌}
use mathlib.Core.Path.{◌≡◌, refl, sym, ap, ◌∙◌}
use mathlib.Core.Logic.{inl, inr}
use mathlib.Core.Bool.{Bool, true, false, ◌||◌}
use mathlib.Core.Option.{Option, none, some}
use mathlib.Core.List.{List, [], ◌∷◌, ◌++◌}
use native.Mathlib.Omega.{arith}
use biei.Prelude.Tests.{if◌then◌else◌, Bool-cases}
use biei.Prelude.Lists.{item, set, length}
use biei.Prelude.Equality.{
  Eq, eqb, eqb→eq, eqb_refl, eqb_sym, contains, without, occurrences, IsDistinct, lookup, insert,
  erase, contains-append, without_absent,
}

or_swap : (a b c : Bool) → (a || (b || c)) ≡ (b || (a || c))
or_swap true true c = refl
or_swap true false c = refl
or_swap false b c = refl

or_false : (a b : Bool) → (a || b) ≡ false → (a ≡ false) × (b ≡ false)
or_false true b h = absurd (cc)
or_false false b h = (refl, h)

module _ {ℓ κ} {A : Type ℓ} {V : Type κ} ⦃e : Eq A⦄ where
  pub lookup-insert_self : (a : A) (w : V) (m : List (A × V)) → lookup a (insert a w m) ≡ some w
  lookup-insert_self a w [] = rw (eqb_refl a) refl
  lookup-insert_self a w ((k, v) ∷ rest) = elim (Bool-cases (eqb k a)) [
    | inl t ↦ rw (t, t) refl
    | inr f ↦ rw (f, f) (lookup-insert_self a w rest)
  ]

  pub lookup-insert_ne :
      (a b : A) (w : V) (m : List (A × V)) → eqb a b ≡ false → lookup b (insert a w m) ≡ lookup b m
  lookup-insert_ne a b w [] ne = rw ne refl
  lookup-insert_ne a b w ((k, v) ∷ rest) ne = elim (Bool-cases (eqb k a)) [
    | inl t ↦ let other : eqb k b ≡ false = rw (eqb→eq k a t) ne in rw (t, other) refl
    | inr f ↦
        rw f (ap (λ (t : Option V). if eqb k b then some v else t) (lookup-insert_ne a b w rest ne))
  ]

  pub lookup-erase_self : (a : A) (m : List (A × V)) → lookup a (erase a m) ≡ none
  lookup-erase_self a [] = refl
  lookup-erase_self a ((k, v) ∷ rest) = elim (Bool-cases (eqb k a)) [
    | inl t ↦ rw t (lookup-erase_self a rest)
    | inr f ↦ rw (f, f) (lookup-erase_self a rest)
  ]

  pub lookup-erase_ne :
      (a b : A) (m : List (A × V)) → eqb a b ≡ false → lookup b (erase a m) ≡ lookup b m
  lookup-erase_ne a b [] ne = refl
  lookup-erase_ne a b ((k, v) ∷ rest) ne = elim (Bool-cases (eqb k a)) [
    | inl t ↦
        let other : eqb k b ≡ false = rw (eqb→eq k a t) ne in
        rw (t, other) (lookup-erase_ne a b rest ne)
    | inr f ↦
        rw f (ap (λ (t : Option V). if eqb k b then some v else t) (lookup-erase_ne a b rest ne))
  ]

module _ {ℓ} {A : Type ℓ} ⦃e : Eq A⦄ where
  pub length-without-le : (a : A) (xs : List A) → length (without a xs) ≤ length xs
  length-without-le a [] = omega arith
  length-without-le a (x ∷ xs) = ground (arith, length-without-le a xs)

  -- In a list without duplicates there is one to remove.
  pub length-without_member :
      (a : A) (xs : List A)
      → IsDistinct xs
      → contains a xs ≡ true
      → suc (length (without a xs)) ≡ length xs
  length-without_member a [] d h = absurd (cc)
  length-without_member a (x ∷ xs) d h = elim (Bool-cases (eqb x a)) [
    | inl t ↦
        let absent : contains a xs ≡ false = rw (← eqb→eq x a t) d.0 in
        rw t (ap (λ (l : List A). suc (length l)) (without_absent a xs absent))
    | inr f ↦ rw f (ap suc (length-without_member a xs d.1 (ground arith)))
  ]

  pub IsDistinct-snoc :
      (xs : List A) (a : A) → IsDistinct xs → contains a xs ≡ false → IsDistinct (xs ++ (a ∷ []))
  IsDistinct-snoc [] a d h = (refl, tt)
  IsDistinct-snoc (x ∷ xs) a d h = elim (Bool-cases (eqb x a)) [
    | inl t ↦ absurd (cc (t, h))
    | inr f ↦
        let swapped : eqb a x ≡ false = rw (eqb_sym a x) f in
        (
          rw (contains-append x xs (a ∷ []), d.0, swapped) refl,
          IsDistinct-snoc xs a d.1 (ground arith),
        )
  ]

  pub occurrences-append :
      (a : A) (xs ys : List A) → occurrences a (xs ++ ys) ≡ occurrences a xs + occurrences a ys
  occurrences-append a [] ys = omega arith
  occurrences-append a (x ∷ xs) ys = ground (arith, occurrences-append a xs ys)

  -- Writing an item moves one occurrence from the old item to the new one.
  pub occurrences-set :
      (d a : A) (xs : List A) (i : ℕ) (v : A)
      → i < length xs
      → occurrences a (set xs i v) + (if eqb (item d xs i) a then 1 else 0)
        ≡ occurrences a xs + (if eqb v a then 1 else 0)
  occurrences-set d a [] i v h = absurd (omega arith)
  occurrences-set d a (x ∷ xs) zero v h = ground arith
  occurrences-set d a (x ∷ xs) (suc i) v h =
      ground (arith, occurrences-set d a xs i v (omega arith))

  pub contains-middle :
      (a x : A) (xs ys : List A) → contains a (xs ++ (x ∷ ys)) ≡ (eqb x a || contains a (xs ++ ys))
  contains-middle a x [] ys = refl
  contains-middle a x (z ∷ xs) ys = rw (contains-middle a x xs ys) (or_swap (eqb z a) (eqb x a) _)

  -- Taking one item out of a list without duplicates.
  pub IsDistinct-middle :
      (x : A) (xs ys : List A)
      → IsDistinct (xs ++ (x ∷ ys))
      → IsDistinct (xs ++ ys) × (contains x (xs ++ ys) ≡ false)
  IsDistinct-middle x [] ys h = (h.1, h.0)
  IsDistinct-middle x (z ∷ xs) ys h =
      let (rest, absent) = IsDistinct-middle x xs ys h.1 in
      let (other, fresh) =
        or_false (eqb x z) (contains z (xs ++ ys)) (sym (contains-middle z x xs ys) ∙ h.0) in
      ((fresh, rest), rw (eqb_sym z x, other) absent)
