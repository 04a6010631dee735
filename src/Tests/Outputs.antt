-- ===== src/Tests/Outputs.antt =====
-- A cache of rendered images with one leader and a caller with fewer grants.
use Prim.Native.String.{String}
use biei.Prelude.{
  List, ok, err, ◌||◌, contains, ℕ, ◌≡◌, refl, [], ◌∷◌, Option, none, some, inl, string_Eq, list_Eq,
}
use biei.Caches.{Moka, table}
use biei.Workers.Profile.{option_Eq}
use biei.Renders.Identity.{AddLayer, addlayer_identity, put_digits}
use biei.Renders.Identity.Injective.{addlayer_identity-injective}
use biei.Renders.Namespaces.{try_new, try_from_shared, is_malformed, not_canonical}
use biei.Renders.Canonical.{try_new-try_from_shared}
use biei.Renders.Outputs.{
  NamespaceSet, CachedOutput, Leader, hit, waits, allows, authorized_output, join_key,
  lookup_or_join_key, insert_from_outcome, entry_of,
}
use biei.Renders.Guarded.{
  World, after_join, Step, joins, completes, Reach, here, next, IsGranted,
  lookup_or_join_key-IsGranted, Step-required_namespaces,
}

abbrev layer : AddLayer
layer = record {
  json = 123 ∷ 125 ∷ [];
  hash = 7;
  source = some (record { tileset_id = 97 ∷ []; json = [] });
}

-- `2:{}1:a0:`.
identity : addlayer_identity layer ≡ 50 ∷ 58 ∷ 123 ∷ 125 ∷ 49 ∷ 58 ∷ 97 ∷ 48 ∷ 58 ∷ []
unfolding addlayer_identity put_digits
identity = refl

addlayer_identity-injective_example : (layer.json ≡ layer.json) × (layer.source ≡ layer.source)
addlayer_identity-injective_example = addlayer_identity-injective layer layer refl

abbrev moka : Moka String (CachedOutput ℕ)
moka = table

abbrev start : World moka
start = record {
  state = record { cache = []; in_flight = []; versions = []; leaders = [] };
  callers = [];
  rendered = [];
}

abbrev grants : Option NamespaceSet
grants = some ("city" ∷ [])

abbrev leader : Leader String
leader = record { key = "tile"; required_namespaces = grants }

abbrev joined : World moka
joined = after_join moka start "tile" grants (join_key moka start.state "tile" grants)

abbrev completed : World moka
completed = record joined {
  state = (insert_from_outcome moka joined.state leader (some 5)).0;
  rendered = ("tile", 5, grants) ∷ joined.rendered;
}

start_empty : (k : String) → moka.get start.state.cache k ≡ none
start_empty k = refl

joins_once : Reach moka start joined
joins_once = next here (joins "tile" grants)

completes_once : Reach moka joined completed
unfolding join_key authorized_output
completes_once = next here (completes leader "tile" grants 5 (inl refl) (inl refl))

hits :
    (lookup_or_join_key moka joined.state.cache completed.state "tile"
      (some ("city" ∷ "park" ∷ []))).1
    ≡ hit 5
unfolding lookup_or_join_key join_key authorized_output insert_from_outcome allows
hits = refl

-- A caller without the grant leads a flight of his own once the first one has ended.
refused :
    (lookup_or_join_key moka joined.state.cache completed.state "tile" (some ("park" ∷ []))).1
    ≡ waits 0
unfolding lookup_or_join_key join_key authorized_output insert_from_outcome allows
refused = refl

lookup_or_join_key-IsGranted_example :
    IsGranted moka completed "tile" (some ("city" ∷ "park" ∷ [])) 5
lookup_or_join_key-IsGranted_example =
    lookup_or_join_key-IsGranted moka start joined completed "tile" (some ("city" ∷ "park" ∷ [])) 5
      start_empty refl joins_once completes_once hits

-- A second completion under the same grants replaces the output.
abbrev replaced : World moka
replaced = record completed {
  state = (insert_from_outcome moka completed.state leader (some 6)).0;
  rendered = ("tile", 6, grants) ∷ completed.rendered;
}

replaces : Step moka completed replaced
unfolding join_key authorized_output insert_from_outcome
replaces = completes leader "tile" grants 6 (inl refl) (inl refl)

old_entry : moka.get completed.state.cache "tile" ≡ some (entry_of moka leader 5)
unfolding join_key authorized_output insert_from_outcome
old_entry = refl

new_entry : moka.get replaced.state.cache "tile" ≡ some (entry_of moka leader 6)
unfolding join_key authorized_output insert_from_outcome
new_entry = refl

Step-required_namespaces_example :
    (entry_of moka leader 6).required_namespaces ≡ (entry_of moka leader 5).required_namespaces
Step-required_namespaces_example =
    Step-required_namespaces moka completed replaced "tile" (entry_of moka leader 5)
      (entry_of moka leader 6) replaces old_entry new_entry

namespaces : try_new ("b" ∷ "a" ∷ "b" ∷ []) ≡ ok ("a" ∷ "b" ∷ [])
unfolding try_new is_malformed
namespaces = refl

everything : try_new ("b" ∷ "*" ∷ []) ≡ ok ("*" ∷ [])
unfolding try_new is_malformed
everything = refl

unsorted : try_from_shared ("b" ∷ "a" ∷ []) ≡ err not_canonical
unfolding try_from_shared is_malformed
unsorted = refl

abbrev listed : List String
listed = "b" ∷ "a" ∷ "b" ∷ []

abbrev made : NamespaceSet
made = "a" ∷ "b" ∷ []

try_new-try_from_shared_example :
    (try_from_shared made ≡ ok made)
    × ((n : String) → allows made (n ∷ []) ≡ (contains "*" listed || contains n listed))
try_new-try_from_shared_example = try_new-try_from_shared listed made namespaces
