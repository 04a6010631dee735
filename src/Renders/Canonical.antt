-- ===== src/Renders/Canonical.antt =====
-- The sets that `NamespaceSet::try_new` of types.rs makes are those that `try_from_shared` accepts.
use Prim.Native.Nat.{Ordering}
use Prim.Native.String.{String, compare}
use text.Mathlib.TextEquality.{path_by_compare}
use biei.Prelude.{
  suc, ◌≤◌, ◌≡◌, refl, sym, subst, ap, ◌∙◌, inl, inr, arith, Bool, true, false, not, ◌&&◌, ◌||◌,
  List, [], ◌∷◌, ok, Bool-cases, eqb, eqb→eq, eqb→ne, string_Eq, contains, length, any,
}
use biei.Prelude.Orders.{flip}
use biei.Prelude.Strings.{string_compare-IsOrder}
use biei.Renders.Outputs.{NamespaceSet, first_is_star, allows}
use biei.Renders.Namespaces.{
  is_malformed, is_unbounded, is_gt, is_lt, insert_name, sort_names, dedup_after, dedup, canonical,
  try_new, has_descent, try_from_shared,
}

-- No name is above the next.
abbrev IsAscending : List String → Type 0
IsAscending [] = Unit {0}
IsAscending (n ∷ []) = Unit {0}
IsAscending (n ∷ m ∷ rest) = (is_gt (compare n m) ≡ false) × IsAscending (m ∷ rest)

flip-is_gt : (x : Ordering) → is_gt x ≡ true → is_gt (flip x) ≡ false
flip-is_gt Ordering.gt h = refl
flip-is_gt Ordering.lt h = absurd (cc)
flip-is_gt Ordering.eq h = absurd (cc)

is_gt-compare : (n m : String) → is_gt (compare n m) ≡ true → is_gt (compare m n) ≡ false
is_gt-compare n m h = rw (string_compare-IsOrder.swap n m) (flip-is_gt (compare n m) h)

under_insert_name :
    (m n : String) (l : List String)
    → IsAscending (m ∷ l)
    → is_gt (compare m n) ≡ false
    → IsAscending (m ∷ insert_name n l)
under_insert_name m n [] h first = (first, tt)
under_insert_name m n (k ∷ rest) h first = elim (Bool-cases (is_gt (compare n k))) [
  | inl t ↦ rw t (h.0, under_insert_name k n rest h.1 (is_gt-compare n k t))
  | inr f ↦ rw f (first, (f, h.1))
]

insert_name-IsAscending :
    (n : String) (l : List String) → IsAscending l → IsAscending (insert_name n l)
insert_name-IsAscending n [] h = tt
insert_name-IsAscending n (m ∷ rest) h = elim (Bool-cases (is_gt (compare n m))) [
  | inl t ↦ rw t (under_insert_name m n rest h (is_gt-compare n m t))
  | inr f ↦ rw f (f, h)
]

sort_names-IsAscending : (l : List String) → IsAscending (sort_names l)
sort_names-IsAscending [] = tt
sort_names-IsAscending (n ∷ rest) =
    insert_name-IsAscending n (sort_names rest) (sort_names-IsAscending rest)

not_alike-is_lt :
    (n m : String) (x : Ordering)
    → compare n m ≡ x
    → eqb n m ≡ false
    → is_gt x ≡ false
    → is_lt x ≡ true
not_alike-is_lt n m Ordering.lt e apart low = refl
not_alike-is_lt n m Ordering.eq e apart low = absurd (eqb→ne n m apart (path_by_compare n m e))
not_alike-is_lt n m Ordering.gt e apart low = absurd (cc)

is_lt-compare :
    (n m : String) → is_gt (compare n m) ≡ false → eqb n m ≡ false → is_lt (compare n m) ≡ true
is_lt-compare n m low apart = not_alike-is_lt n m (compare n m) refl apart low

has_descent-dedup_after :
    (n : String) (l : List String) → IsAscending (n ∷ l) → has_descent (n ∷ dedup_after n l) ≡ false
has_descent-dedup_after n [] h = refl
has_descent-dedup_after n (m ∷ rest) h = elim (Bool-cases (eqb n m)) [
  | inl t ↦
      let same = eqb→eq n m t in
      rw t (has_descent-dedup_after n rest (subst (λ k. IsAscending (k ∷ rest)) (sym same) h.1))
  | inr f ↦ rw (f, is_lt-compare n m h.0 f) (has_descent-dedup_after m rest h.1)
]

has_descent-dedup : (l : List String) → IsAscending l → has_descent (dedup l) ≡ false
has_descent-dedup [] h = refl
has_descent-dedup (n ∷ rest) h = has_descent-dedup_after n rest h

or_swap : (a b c : Bool) → (a || (b || c)) ≡ (b || (a || c))
or_swap true true c = refl
or_swap true false c = refl
or_swap false b c = refl

or_again : (a b : Bool) → (a || (a || b)) ≡ (a || b)
or_again true b = refl
or_again false b = refl

and_unit : (b : Bool) → (b && true) ≡ b
and_unit true = refl
and_unit false = refl

module _ (p : String → Bool) where
  any-insert_name : (n : String) (l : List String) → any p (insert_name n l) ≡ (p n || any p l)
  any-insert_name n [] = refl
  any-insert_name n (m ∷ rest) = elim (Bool-cases (is_gt (compare n m))) [
    | inl t ↦ rw (t, any-insert_name n rest) (or_swap (p m) (p n) (any p rest))
    | inr f ↦ rw f refl
  ]

  any-sort_names : (l : List String) → any p (sort_names l) ≡ any p l
  any-sort_names [] = refl
  any-sort_names (n ∷ rest) =
      any-insert_name n (sort_names rest) ∙ ap (λ b. p n || b) (any-sort_names rest)

  any-dedup_after :
      (n : String) (l : List String) → (p n || any p (dedup_after n l)) ≡ (p n || any p l)
  any-dedup_after n [] = refl
  any-dedup_after n (m ∷ rest) = elim (Bool-cases (eqb n m)) [
    | inl t ↦
        let again : (p n || any p rest) ≡ (p n || (p m || any p rest)) =
          rw (← eqb→eq n m t) (sym (or_again (p n) (any p rest))) in
        rw t (any-dedup_after n rest ∙ again)
    | inr f ↦ rw f (ap (λ b. p n || b) (any-dedup_after m rest))
  ]

  any-dedup : (l : List String) → any p (dedup l) ≡ any p l
  any-dedup [] = refl
  any-dedup (n ∷ rest) = any-dedup_after n rest

  any-normal : (l : List String) → any p (dedup (sort_names l)) ≡ any p l
  any-normal l = any-dedup (sort_names l) ∙ any-sort_names l

contains-any : (n : String) (l : List String) → contains n l ≡ any (λ m. eqb m n) l
contains-any n [] = refl
contains-any n (m ∷ rest) = ap (λ b. eqb m n || b) (contains-any n rest)

contains-normal : (n : String) (l : List String) → contains n (dedup (sort_names l)) ≡ contains n l
contains-normal n l =
    contains-any n (dedup (sort_names l)) ∙ any-normal (λ m. eqb m n) l ∙ sym (contains-any n l)

length-insert_name : (n : String) (l : List String) → length (insert_name n l) ≡ suc (length l)
length-insert_name n [] = refl
length-insert_name n (m ∷ rest) = ground (arith, length-insert_name n rest)

length-sort_names : (l : List String) → length (sort_names l) ≡ length l
length-sort_names [] = refl
length-sort_names (n ∷ rest) =
    length-insert_name n (sort_names rest) ∙ ap suc (length-sort_names rest)

length-dedup_after : (n : String) (l : List String) → length (dedup_after n l) ≤ length l
length-dedup_after n [] = omega arith
length-dedup_after n (m ∷ rest) =
    ground (arith, length-dedup_after n rest, length-dedup_after m rest)

dedup-bounded :
    (l k : List String)
    → length l ≡ length k
    → is_unbounded k ≡ false
    → is_unbounded (dedup l) ≡ false
dedup-bounded l [] same h = absurd (cc)
dedup-bounded [] (n ∷ rest) same h = absurd (omega arith)
dedup-bounded (m ∷ l) (n ∷ rest) same h = ground (arith, length-dedup_after m l)

-- What `try_from_shared` asks of a set, and what the set grants.
abbrev IsCanonical : List String → NamespaceSet → Type 0
IsCanonical names ns =
    (try_from_shared ns ≡ ok ns)
    × ((n : String) → allows ns (n ∷ []) ≡ (contains "*" names || contains n names))

star-IsCanonical : (names : List String) → contains "*" names ≡ true → IsCanonical names ("*" ∷ [])
unfolding try_from_shared is_malformed allows
star-IsCanonical names h = (refl, λ n. rw h refl)

first_is_star-contains : (ns : NamespaceSet) → contains "*" ns ≡ false → first_is_star ns ≡ false
first_is_star-contains [] h = refl
first_is_star-contains (n ∷ rest) h = ground arith

not_star :
    (n : String) (ns : NamespaceSet)
    → contains "*" ns ≡ false
    → (not (eqb n "*") && contains n ns) ≡ contains n ns
not_star n ns h = elim (Bool-cases (eqb n "*")) [
  | inl t ↦ rw (t, eqb→eq n "*" t, h) refl
  | inr f ↦ rw f refl
]

sorted-IsCanonical :
    (names : List String)
    → is_unbounded names ≡ false
    → any is_malformed names ≡ false
    → contains "*" names ≡ false
    → IsCanonical names (dedup (sort_names names))
unfolding try_from_shared allows
sorted-IsCanonical names bounded formed starless =
    let ns = dedup (sort_names names) in
    let bounded' = dedup-bounded (sort_names names) names (length-sort_names names) bounded in
    let formed' = any-normal is_malformed names ∙ formed in
    let starless' : contains "*" ns ≡ false = contains-normal "*" names ∙ starless in
    (
      rw
          (
            bounded',
            formed',
            has_descent-dedup (sort_names names) (sort_names-IsAscending names),
            starless',
          )
          refl,
      λ n.
          rw
            (
              first_is_star-contains ns starless',
              not_star n ns starless',
              contains-normal n names,
              starless,
            )
            (and_unit (contains n names)),
    )

normal-IsCanonical :
    (names : List String)
    → is_unbounded names ≡ false
    → any is_malformed names ≡ false
    → IsCanonical names (canonical (dedup (sort_names names)))
normal-IsCanonical names bounded formed =
    let ns = dedup (sort_names names) in
    let star = contains-normal "*" names in
    elim (Bool-cases (contains "*" names)) [
      | inl t ↦
          let alone : canonical ns ≡ "*" ∷ [] = rw (star, t) refl in
          subst (IsCanonical names) (sym alone) (star-IsCanonical names t)
      | inr f ↦
          let all : canonical ns ≡ ns = rw (star, f) refl in
          subst (IsCanonical names) (sym all) (sorted-IsCanonical names bounded formed f)
    ]

-- A set that `try_new` makes is one that `try_from_shared` accepts as it is: bounded, of well-formed
-- names that strictly ascend, with `*` only alone. A caller with that set is allowed a namespace
-- exactly when the names given to `try_new` list it or list `*`.
pub try_new-try_from_shared :
    (names : List String) (ns : NamespaceSet)
    → try_new names ≡ ok ns
    → (try_from_shared ns ≡ ok ns)
      × ((n : String) → allows ns (n ∷ []) ≡ (contains "*" names || contains n names))
unfolding try_new
try_new-try_from_shared names ns h = elim (Bool-cases (is_unbounded names)) [
  | inl large ↦ absurd (cc (large, h))
  | inr bounded ↦ elim (Bool-cases (any is_malformed names)) [
    | inl bad ↦ absurd (cc (bounded, bad, h))
    | inr formed ↦
        let made : ok (canonical (dedup (sort_names names))) ≡ ok ns = rw (bounded, formed) at h in
        let same : canonical (dedup (sort_names names)) ≡ ns = cc in
        subst (IsCanonical names) same (normal-IsCanonical names bounded formed)
  ]
]
