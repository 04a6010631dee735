-- ===== src/Renders/Outputs.antt =====
-- `RenderOutputCache` of crates/biei-core/src/render_cache.rs, and `NamespaceSet::allows` of
-- types.rs. The sets are sorted, so that the binary search is membership. The sixteen shards of
-- the flights are one map, since a key has one shard. Keys and outputs are parameters.
use Prim.Native.String.{String}
use biei.Prelude.{
  ℕ, ◌+◌, ◌%◌, Bool, true, false, not, ◌&&◌, List, [], ◌∷◌, ◌++◌, Option, none, some, if◌then◌else◌,
  Eq, eqb, string_Eq, list_Eq, contains, lookup, insert, erase, length, item, set, u64_mod,
}
use biei.Caches.{Moka}
use biei.Workers.Profile.{option_Eq}

abbrev pub NamespaceSet : Type 0
NamespaceSet = List String

abbrev pub first_is_star : NamespaceSet → Bool
first_is_star [] = false
first_is_star (n ∷ rest) = eqb n "*"

abbrev pub allows_each : NamespaceSet → NamespaceSet → Bool
allows_each granted [] = true
allows_each granted (n ∷ rest) = (not (eqb n "*") && contains n granted) && allows_each granted rest

-- `NamespaceSet::allows`.
unfoldable pub allows : NamespaceSet → NamespaceSet → Bool
allows granted required = if first_is_star granted then true else allows_each granted required

-- `CachedRenderOutput`.
pub record CachedOutput (V : Type 0) : Type 0 where
  pub output : V
  pub required_namespaces : Option NamespaceSet

-- `is_authorized_for`, on the required and the readable namespaces.
abbrev pub is_authorized : Option NamespaceSet → Option NamespaceSet → Bool
is_authorized none none = true
is_authorized (some required) (some readable) = allows readable required
is_authorized none (some readable) = false
is_authorized (some required) none = false

-- `RenderFlightLeader`.
pub record Leader (K : Type 0) : Type 0 where
  pub key : K
  pub required_namespaces : Option NamespaceSet

-- `RenderCacheLookup`; a follower holds the number of its channel.
pub data Lookup (K V : Type 0) : Type 0 where
  disabled : Lookup K V
  hit : V → Lookup K V
  leads : Leader K → Lookup K V
  waits : ℕ → Lookup K V

module _ {K V : Type 0} ⦃e : Eq K⦄ (moka : Moka K (CachedOutput V)) where
  -- The cache, the map of the flights, the version in each channel, and the leaders.
  pub record RenderOutputCache : Type 0 where
    pub cache : moka.Store
    pub in_flight : List (K × ℕ)
    pub versions : List ℕ
    pub leaders : List (Leader K)

  -- A lookup in the cache, with its check of the grants.
  unfoldable pub authorized_output : moka.Store → K → Option NamespaceSet → Option V
  authorized_output cache key readable = elim (moka.get cache key) [
    | none ↦ none
    | some found ↦
        if is_authorized found.required_namespaces readable then some found.output else none
  ]

  -- `lookup_or_join_key` from the lock on.
  unfoldable pub join_key :
      RenderOutputCache → K → Option NamespaceSet → RenderOutputCache × Lookup K V
  join_key s key readable = elim (authorized_output s.cache key readable) [
    | some output ↦ (s, hit output)
    | none ↦ elim (lookup key s.in_flight) [
      | some channel ↦ (s, waits channel)
      | none ↦
          let leader : Leader K = record { key = key; required_namespaces = readable } in
          (
            record s {
              in_flight = insert key (length s.versions) s.in_flight;
              versions = s.versions ++ (0 ∷ []);
              leaders = leader ∷ s.leaders;
            },
            leads leader,
          )
    ]
  ]

  -- `lookup_or_join_key`; `before` is the cache at its first lookup, before it takes the lock.
  unfoldable pub lookup_or_join_key :
      moka.Store → RenderOutputCache → K → Option NamespaceSet → RenderOutputCache × Lookup K V
  lookup_or_join_key before s key readable = elim (authorized_output before key readable) [
    | some output ↦ (s, hit output)
    | none ↦ join_key s key readable
  ]

  -- The entry that a leader adds.
  abbrev pub entry_of : Leader K → V → CachedOutput V
  entry_of leader output = record {
    output = output;
    required_namespaces = leader.required_namespaces;
  }

  -- `insert_from_outcome`, for the output of a completed task; another outcome changes nothing.
  unfoldable pub insert_from_outcome :
      RenderOutputCache → Leader K → Option V → RenderOutputCache × Bool
  insert_from_outcome s leader none = (s, false)
  insert_from_outcome s leader (some output) =
      let inserted : RenderOutputCache × Bool =
        (record s { cache = moka.insert s.cache leader.key (entry_of leader output) }, true) in
      elim (moka.get s.cache leader.key) [
        | none ↦ inserted
        | some existing ↦
            if eqb existing.required_namespaces leader.required_namespaces
            then inserted
            else (s, false)
      ]

  -- `RenderFlightLeader::drop`; `others` are the leaders that stay.
  unfoldable pub drop_leader : RenderOutputCache → Leader K → List (Leader K) → RenderOutputCache
  drop_leader s leader others = record s {
    in_flight = erase leader.key s.in_flight;
    versions = elim (lookup leader.key s.in_flight) [
      | none ↦ s.versions
      | some channel ↦ set s.versions channel ((item 0 s.versions channel + 1) % u64_mod)
    ];
    leaders = others;
  }
