-- ===== src/Prelude/Strings.antt =====
-- The order of strings: by their characters, which is that of their bytes.
use Prim.Native.Nat.{compare as compare_nat, Ordering}
use Prim.Native.Char.{Char, code}
use Prim.Native.String.{String, compare, then}
use Prim.Native.String.compare as clauses
use text.Mathlib.TextEquality.{path_by_compare}
use mathlib.Core.Path.{◌≡◌, refl, sym, ap, ◌∙◌}
use mathlib.Core.Logic.{inl, inr}
use native.Mathlib.Omega.{arith}
use biei.Prelude.Orders.{flip, then_by, then_by-lt, flip-then_by, IsOrder, compare-swap}

then-then_by : (x y : Ordering) → then x y ≡ then_by x y
then-then_by Ordering.lt y = refl
then-then_by Ordering.eq y = refl
then-then_by Ordering.gt y = refl

compare-cons :
    (c d : Char) (s t : String)
    → compare (String.◌∷◌ c s) (String.◌∷◌ d t)
      ≡ then_by (compare_nat (code c) (code d)) (compare s t)
compare-cons c d s t =
    clauses.cons-cons c d s t ∙ then-then_by (compare_nat (code c) (code d)) (compare s t)

string_swap : (s t : String) → compare t s ≡ flip (compare s t)
string_swap String.[] String.[] = refl
string_swap String.[] (String.◌∷◌ d t) = clauses.cons-nil d t ∙ ap flip (sym (clauses.nil-cons d t))
string_swap (String.◌∷◌ c s) String.[] = clauses.nil-cons c s ∙ ap flip (sym (clauses.cons-nil c s))
string_swap (String.◌∷◌ c s) (String.◌∷◌ d t) =
    let first : compare_nat (code d) (code c) ≡ flip (compare_nat (code c) (code d)) =
      compare-swap (code c) (code d) in
    compare-cons d c t s
    ∙ rw (first, string_swap s t) (flip-then_by (compare_nat (code c) (code d)) (compare s t))
    ∙ ap flip (sym (compare-cons c d s t))

heads_lt :
    (c d : Char) (s t : String) (o : Ordering)
    → compare_nat (code c) (code d) ≡ Ordering.lt
    → then_by (compare_nat (code c) (code d)) o ≡ Ordering.lt
heads_lt c d s t o h = rw h refl

string_below :
    (s t u : String)
    → compare s t ≡ Ordering.lt
    → compare t u ≡ Ordering.lt
    → compare s u ≡ Ordering.lt
string_below String.[] String.[] u h k = k
string_below String.[] (String.◌∷◌ d t) String.[] h k = absurd (cc (clauses.cons-nil d t, k))
string_below String.[] (String.◌∷◌ d t) (String.◌∷◌ e u) h k = clauses.nil-cons e u
string_below (String.◌∷◌ c s) String.[] u h k = absurd (cc (clauses.cons-nil c s, h))
string_below (String.◌∷◌ c s) (String.◌∷◌ d t) String.[] h k = absurd (cc (clauses.cons-nil d t, k))
string_below (String.◌∷◌ c s) (String.◌∷◌ d t) (String.◌∷◌ e u) h k =
    let h' = sym (compare-cons c d s t) ∙ h in
    let k' = sym (compare-cons d e t u) ∙ k in
    compare-cons c e s u ∙ elim (then_by-lt (compare_nat (code c) (code d)) (compare s t) h') [
      | inl cd ↦ elim (then_by-lt (compare_nat (code d) (code e)) (compare t u) k') [
        | inl de ↦ heads_lt c e s u (compare s u) (ground arith)
        | inr (de, tu) ↦ heads_lt c e s u (compare s u) (ground arith)
      ]
      | inr (cd, st) ↦ elim (then_by-lt (compare_nat (code d) (code e)) (compare t u) k') [
        | inl de ↦ heads_lt c e s u (compare s u) (ground arith)
        | inr (de, tu) ↦
            let heads : compare_nat (code c) (code e) ≡ Ordering.eq = ground arith in
            rw heads (string_below s t u st tu)
      ]
    ]

pub string_compare-IsOrder : IsOrder compare
string_compare-IsOrder = record {
  swap = string_swap;
  alike = λ a b c h. ap (λ x. compare x c) (path_by_compare a b h);
  below = string_below;
}
