-- ===== src/Caches.antt =====
-- The cache of the package moka, which the renderer and the chunk store use. It may drop an entry
-- at any time, so what is relied on is only that an entry which it has was inserted.
use biei.Prelude.{
  ◌≡◌, ◌⊎◌, inl, inr, sym, Option, none, some, List, [], ◌∷◌, if◌then◌else◌, Eq, eqb, eqb→eq,
  Bool-cases,
}

pub record Moka (K V : Type 0) : Type 1 where
  pub Store : Type 0
  pub get : Store → K → Option V
  pub insert : Store → K → V → Store
  -- The cache after it has evicted or expired a key.
  pub evict : Store → K → Store
  pub get-insert :
      (s : Store) (k j : K) (v w : V)
      → get (insert s k v) j ≡ some w
      → ((j ≡ k) × (w ≡ v)) ⊎ (get s j ≡ some w)
  pub get-evict : (s : Store) (k j : K) (w : V) → get (evict s k) j ≡ some w → get s j ≡ some w

module _ {K V : Type 0} ⦃e : Eq K⦄ where
  abbrev table_get : List (K × Option V) → K → Option V
  table_get [] k = none
  table_get ((j, v) ∷ rest) k = if eqb j k then v else table_get rest k

  pub table_get-insert :
      (s : List (K × Option V)) (k j : K) (v w : V)
      → table_get ((k, some v) ∷ s) j ≡ some w
      → ((j ≡ k) × (w ≡ v)) ⊎ (table_get s j ≡ some w)
  table_get-insert s k j v w h = elim (Bool-cases (eqb k j)) [
    | inl t ↦ let same : some v ≡ some w = rw t at h in inl (sym (eqb→eq k j t), cc)
    | inr f ↦ inr (rw f at h)
  ]

  pub table_get-evict :
      (s : List (K × Option V)) (k j : K) (w : V)
      → table_get ((k, none) ∷ s) j ≡ some w
      → table_get s j ≡ some w
  table_get-evict s k j w h = elim (Bool-cases (eqb k j)) [
    | inl t ↦ let same : none ≡ some w = rw t at h in absurd (cc)
    | inr f ↦ rw f at h
  ]

  -- A cache that forgets only what it is told to.
  abbrev pub table : Moka K V
  table = record {
    Store = List (K × Option V);
    get = table_get;
    insert = λ s k v. (k, some v) ∷ s;
    evict = λ s k. (k, none) ∷ s;
    get-insert = table_get-insert;
    get-evict = table_get-evict;
  }
