-- ===== src/Renders/Namespaces.antt =====
-- `NamespaceSet::try_new` and `try_from_shared` of crates/biei-core/src/types.rs.
use Prim.Native.Nat.{Ordering}
use Prim.Native.Char.{code}
use Prim.Native.String.{String, compare, len}
use biei.Prelude.{
  ℕ, Bool, true, false, not, ◌&&◌, ◌||◌, List, [], ◌∷◌, Result, ok, err, if◌then◌else◌, ltb, leb,
  eqb, string_Eq, contains, length, any,
}
use biei.Renders.Outputs.{NamespaceSet}

abbrev pub max_authorization_namespaces : ℕ
max_authorization_namespaces = 1024

abbrev pub max_authorization_namespace_bytes : ℕ
max_authorization_namespace_bytes = 256

pub data NamespaceError : Type 0 where
  unbounded malformed not_canonical : NamespaceError

-- `char::is_control`.
abbrev pub is_control : ℕ → Bool
is_control c = ltb c 32 || (leb 127 c && leb c 159)

abbrev pub has_control : String → Bool
has_control String.[] = false
has_control (String.◌∷◌ c rest) = is_control (code c) || has_control rest

unfoldable pub is_malformed : String → Bool
is_malformed name =
    eqb name "" || ltb max_authorization_namespace_bytes (len name) || has_control name

abbrev pub is_unbounded : List String → Bool
is_unbounded [] = true
is_unbounded (n ∷ rest) = ltb max_authorization_namespaces (length (n ∷ rest))

abbrev pub is_gt : Ordering → Bool
is_gt Ordering.gt = true
is_gt _ = false

abbrev pub is_lt : Ordering → Bool
is_lt Ordering.lt = true
is_lt _ = false

abbrev pub insert_name : String → List String → List String
insert_name n [] = n ∷ []
insert_name n (m ∷ rest) = if is_gt (compare n m) then m ∷ insert_name n rest else n ∷ m ∷ rest

-- `sort_unstable`.
abbrev pub sort_names : List String → List String
sort_names [] = []
sort_names (n ∷ rest) = insert_name n (sort_names rest)

abbrev pub dedup_after : String → List String → List String
dedup_after n [] = []
dedup_after n (m ∷ rest) = if eqb n m then dedup_after n rest else m ∷ dedup_after m rest

-- `dedup`.
abbrev pub dedup : List String → List String
dedup [] = []
dedup (n ∷ rest) = n ∷ dedup_after n rest

-- The search for `*`, in names that are sorted.
abbrev pub canonical : List String → NamespaceSet
canonical names = if contains "*" names then "*" ∷ [] else names

unfoldable pub try_new : List String → Result NamespaceError NamespaceSet
try_new names =
    if is_unbounded names
    then err unbounded
    else if any is_malformed names
    then err malformed
    else ok (canonical (dedup (sort_names names)))

-- `windows(2).any(…)`.
abbrev pub has_descent : List String → Bool
has_descent [] = false
has_descent (n ∷ []) = false
has_descent (n ∷ m ∷ rest) = not (is_lt (compare n m)) || has_descent (m ∷ rest)

abbrev pub is_star_alone : List String → Bool
is_star_alone (n ∷ []) = eqb n "*"
is_star_alone _ = false

unfoldable pub try_from_shared : List String → Result NamespaceError NamespaceSet
try_from_shared names =
    if is_unbounded names
    then err unbounded
    else if any is_malformed names
    then err malformed
    else if has_descent names || (contains "*" names && not (is_star_alone names))
    then err not_canonical
    else ok names
