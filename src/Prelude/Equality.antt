-- ===== src/Prelude/Equality.antt =====
-- Types with a Boolean equality, and lists searched by it: a `HashSet` is a list without
-- duplicates, a `HashMap` a list of pairs in which the first pair of a key counts.
use Prim.Native.Nat.{ℕ, suc}
use Prim.Native.String.{String}
use text.Mathlib.Text.{◌==◌ as string_eqb}
use text.Mathlib.TextEquality.{eq_iff}
use mathlib.Core.Path.{◌≡◌, refl, sym, ap}
use mathlib.Core.Logic.{◌≢◌, ◌↔◌, inl, inr}
use mathlib.Core.Bool.{Bool, true, false, ◌||◌, ◌&&◌}
use mathlib.Core.Option.{Option, none, some}
use mathlib.Core.List.{List, [], ◌∷◌, ◌++◌}
use native.Mathlib.Omega.{arith}
use biei.Prelude.Tests.{◌==◌, ==_iff, if◌then◌else◌, Bool-cases}

pub record Eq {ℓ} (A : Type ℓ) : Type ℓ where
  pub same : A → A → Bool
  pub same_iff : (a b : A) → (same a b ≡ true) ↔ (a ≡ b)

abbrev pub eqb {ℓ} : {A : Type ℓ} ⦃e : Eq A⦄ → A → A → Bool
eqb ⦃e⦄ = e.same

instance abbrev pub nat_Eq : Eq ℕ
nat_Eq = record { same = ◌==◌; same_iff = ==_iff }

instance abbrev pub string_Eq : Eq String
string_Eq = record { same = string_eqb; same_iff = eq_iff }

module _ {ℓ} {A : Type ℓ} ⦃e : Eq A⦄ where
  pub eqb→eq : (a b : A) → eqb a b ≡ true → a ≡ b
  eqb→eq a b h = (e.same_iff a b).0 h

  pub eqb_refl : (a : A) → eqb a a ≡ true
  eqb_refl a = (e.same_iff a a).1 refl

  pub eqb→ne : (a b : A) → eqb a b ≡ false → a ≢ b
  eqb→ne a b h p = let t : eqb a b ≡ true = (e.same_iff a b).1 p in cc

  pub ne→eqb : (a b : A) → a ≢ b → eqb a b ≡ false
  ne→eqb a b h = elim (Bool-cases (eqb a b)) [ inl t ↦ absurd (h (eqb→eq a b t)) | inr f ↦ f ]

  pub eqb_sym : (a b : A) → eqb a b ≡ eqb b a
  eqb_sym a b = elim (Bool-cases (eqb a b)) [
    | inl t ↦ rw (eqb→eq a b t) refl
    | inr f ↦ rw f (sym (ne→eqb b a (λ p. eqb→ne a b f (sym p))))
  ]

  abbrev pub contains : A → List A → Bool
  contains a [] = false
  contains a (x ∷ xs) = eqb x a || contains a xs

  -- `retain(|x| x != a)`, and the removal of a key from a set.
  abbrev pub without : A → List A → List A
  without a [] = []
  without a (x ∷ xs) = if eqb x a then without a xs else x ∷ without a xs

  abbrev pub occurrences : A → List A → ℕ
  occurrences a [] = 0
  occurrences a (x ∷ xs) = if eqb x a then suc (occurrences a xs) else occurrences a xs

  abbrev pub IsDistinct : List A → Type 0
  IsDistinct [] = Unit {0}
  IsDistinct (x ∷ xs) = (contains x xs ≡ false) × IsDistinct xs

module _ {ℓ κ} {A : Type ℓ} {V : Type κ} ⦃e : Eq A⦄ where
  abbrev pub lookup : A → List (A × V) → Option V
  lookup a [] = none
  lookup a ((k, v) ∷ rest) = if eqb k a then some v else lookup a rest

  abbrev pub insert : A → V → List (A × V) → List (A × V)
  insert a w [] = (a, w) ∷ []
  insert a w ((k, v) ∷ rest) = if eqb k a then (k, w) ∷ rest else (k, v) ∷ insert a w rest

  abbrev pub erase : A → List (A × V) → List (A × V)
  erase a [] = []
  erase a ((k, v) ∷ rest) = if eqb k a then erase a rest else (k, v) ∷ erase a rest

module _ {ℓ} {A : Type ℓ} ⦃e : Eq A⦄ where
  pub contains-append :
      (a : A) (xs ys : List A) → contains a (xs ++ ys) ≡ (contains a xs || contains a ys)
  contains-append a [] ys = refl
  contains-append a (x ∷ xs) ys = elim (Bool-cases (eqb x a)) [
    | inl t ↦ rw t refl
    | inr f ↦ rw f (contains-append a xs ys)
  ]

  pub contains-without_self : (a : A) (xs : List A) → contains a (without a xs) ≡ false
  contains-without_self a [] = refl
  contains-without_self a (x ∷ xs) = elim (Bool-cases (eqb x a)) [
    | inl t ↦ rw t (contains-without_self a xs)
    | inr f ↦ rw (f, f) (contains-without_self a xs)
  ]

  pub contains-without_ne :
      (a b : A) (xs : List A) → eqb b a ≡ false → contains b (without a xs) ≡ contains b xs
  contains-without_ne a b [] ne = refl
  contains-without_ne a b (x ∷ xs) ne = elim (Bool-cases (eqb x a)) [
    | inl t ↦
        let other : eqb x b ≡ false = rw (eqb→eq x a t, eqb_sym a b) ne in
        rw (t, other) (contains-without_ne a b xs ne)
    | inr f ↦ rw f (ap (λ t. eqb x b || t) (contains-without_ne a b xs ne))
  ]

  pub without_absent : (a : A) (xs : List A) → contains a xs ≡ false → without a xs ≡ xs
  without_absent a [] h = refl
  without_absent a (x ∷ xs) h = elim (Bool-cases (eqb x a)) [
    | inl t ↦ absurd (cc (t, h))
    | inr f ↦ rw f (ap (λ t. x ∷ t) (without_absent a xs (ground arith)))
  ]

  pub without-IsDistinct : (a : A) (xs : List A) → IsDistinct xs → IsDistinct (without a xs)
  without-IsDistinct a [] h = tt
  without-IsDistinct a (x ∷ xs) h = elim (Bool-cases (eqb x a)) [
    | inl t ↦ rw t (without-IsDistinct a xs h.1)
    | inr f ↦ rw f (rw (contains-without_ne a x xs f) h.0, without-IsDistinct a xs h.1)
  ]

abbrev pub list_eqb {ℓ} : {A : Type ℓ} ⦃e : Eq A⦄ → List A → List A → Bool
list_eqb [] [] = true
list_eqb [] (b ∷ bs) = false
list_eqb (a ∷ as') [] = false
list_eqb (a ∷ as') (b ∷ bs) = eqb a b && list_eqb as' bs

pub list_eqb_iff {ℓ} :
    {A : Type ℓ} ⦃e : Eq A⦄ (xs ys : List A) → (list_eqb xs ys ≡ true) ↔ (xs ≡ ys)
list_eqb_iff [] [] = (λ _. refl, λ _. refl)
list_eqb_iff [] (b ∷ bs) = (λ h. absurd (cc), λ h. absurd (cc))
list_eqb_iff (a ∷ as') [] = (λ h. absurd (cc), λ h. absurd (cc))
list_eqb_iff (a ∷ as') (b ∷ bs) = (
  λ h. elim (Bool-cases (eqb a b)) [
    | inl t ↦
        let rest : list_eqb as' bs ≡ true = rw t at h in
        let heads : a ≡ b = eqb→eq a b t in
        let tails : as' ≡ bs = (list_eqb_iff as' bs).0 rest in cc
    | inr f ↦ let no_way : false ≡ true = rw f at h in absurd (cc)
  ],
  λ h.
      let heads : a ≡ b = cc in
      let tails : as' ≡ bs = cc in rw (heads, eqb_refl b) ((list_eqb_iff as' bs).1 tails),
)

instance abbrev pub list_Eq {ℓ} : {A : Type ℓ} ⦃e : Eq A⦄ → Eq (List A)
list_Eq ⦃e⦄ = record { same = list_eqb; same_iff = list_eqb_iff }
