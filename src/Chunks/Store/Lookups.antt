-- ===== src/Chunks/Store/Lookups.antt =====
-- The lookups and fetches of `read_bytes` in store.rs find every chunk of the range.
use biei.Prelude.{
  ℕ, zero, suc, ◌+◌, ◌≤◌, ◌<◌, ◌≡◌, ◌≢◌, eqb→ne, refl, sym, subst, ap, ◌∙◌, ◌⊎◌, inl, inr, arith,
  true, List, [], ◌∷◌, ◌++◌, Option, none, some, ok, eqb, eqb→eq, nat_Eq, lookup, contains,
  Bool-cases, Option-cases,
}
use biei.Chunks.Store.{Bytes, indices, look_up_chunks, Answers}
use biei.Chunks.Store.Copies.{chunk_of, HasChunks}

pub lookup-append :
    (i : ℕ) (xs ys : List (ℕ × Bytes))
    → lookup i (xs ++ ys) ≡ elim (lookup i xs) [ some c ↦ some c | none ↦ lookup i ys ]
lookup-append i [] ys = refl
lookup-append i ((j, c) ∷ xs) ys = elim (Bool-cases (eqb j i)) [
  | inl t ↦ rw t refl
  | inr f ↦ rw f (lookup-append i xs ys)
]

pub contains-indices : (j : ℕ) (n i : ℕ) → i ≤ j → j < i + n → contains j (indices i n) ≡ true
contains-indices j zero i low high = absurd (omega arith)
contains-indices j (suc n) i low high = elim (Bool-cases (eqb i j)) [
  | inl t ↦ rw t refl
  | inr f ↦
      let other : i ≢ j = eqb→ne i j f in
      rw f (contains-indices j n (i + 1) (omega arith) (omega arith))
]

-- What the cache and the coordinator answer are chunks of the archive, and a fetch that succeeds
-- has every chunk that was asked for.
pub record IsFaithful (a : Answers) (archive : Bytes) (chunk_size : ℕ) : Type 0 where
  pub cached : (i : ℕ) (c : Bytes) → a.cached i ≡ some c → c ≡ chunk_of archive chunk_size i
  pub asked :
      (missing : List ℕ) (fetched : List (ℕ × Bytes))
      → a.fetch missing ≡ ok fetched
      → (i : ℕ) → contains i missing ≡ true
      → (c : Bytes) × (lookup i fetched ≡ some c)
  pub fetched :
      (missing : List ℕ) (fetched : List (ℕ × Bytes))
      → a.fetch missing ≡ ok fetched
      → (i : ℕ) (c : Bytes) → lookup i fetched ≡ some c
      → c ≡ chunk_of archive chunk_size i

module _ (a : Answers) (archive : Bytes) (chunk_size : ℕ)
    (faithful : IsFaithful a archive chunk_size) where
  -- Every chunk that was looked up is resolved or missing.
  look_up_chunks-found :
      (i : ℕ) (list : List ℕ)
      → contains i list ≡ true
      → (contains i (look_up_chunks a.cached list).1 ≡ true)
        ⊎ (lookup i (look_up_chunks a.cached list).0 ≡ some (chunk_of archive chunk_size i))
  unfolding look_up_chunks
  look_up_chunks-found i [] h = absurd (cc)
  look_up_chunks-found i (j ∷ rest) h =
      let looked = look_up_chunks a.cached rest in
      let Goal = λ (x : List (ℕ × Bytes) × List ℕ).
        (contains i x.1 ≡ true) ⊎ (lookup i x.0 ≡ some (chunk_of archive chunk_size i)) in
      elim (Option-cases (a.cached j)) [
        | inl no_hit ↦
            let step : look_up_chunks a.cached (j ∷ rest) ≡ (looked.0, j ∷ looked.1) =
              rw (look_up_chunks, no_hit) refl in
            subst Goal (sym step) (elim (Bool-cases (eqb j i)) [
              | inl t ↦ inl (rw t refl)
              | inr f ↦ elim (look_up_chunks-found i rest (ground arith)) [
                | inl m ↦ inl (rw (f, m) refl)
                | inr r ↦ inr r
              ]
            ])
        | inr (c, hit) ↦
            let step : look_up_chunks a.cached (j ∷ rest) ≡ ((j, c) ∷ looked.0, looked.1) =
              rw (look_up_chunks, hit) refl in
            subst Goal (sym step) (elim (Bool-cases (eqb j i)) [
              | inl t ↦
                  let same : c ≡ chunk_of archive chunk_size i =
                    faithful.cached j c hit ∙ ap (chunk_of archive chunk_size) (eqb→eq j i t) in
                  inr (rw (t, same) refl)
              | inr f ↦ elim (look_up_chunks-found i rest (ground arith)) [
                | inl m ↦ inl m
                | inr r ↦ inr (rw f r)
              ]
            ])
      ]

  -- When nothing is missing, the resolved chunks are all of them.
  pub resolved-HasChunks :
      (first count : ℕ)
      → (look_up_chunks a.cached (indices first count)).1 ≡ []
      → HasChunks archive chunk_size (look_up_chunks a.cached (indices first count)).0 first count
  resolved-HasChunks first count all j low high =
      elim (look_up_chunks-found j (indices first count)
        (contains-indices j count first low high)) [
          | inl m ↦
              let e : contains j [] ≡ true = subst (λ l. contains j l ≡ true) all m in absurd (cc)
          | inr r ↦ r
        ]

  -- The fetched chunks complete the resolved ones.
  pub extended-HasChunks :
      (first count : ℕ) (fetched : List (ℕ × Bytes))
      → a.fetch (look_up_chunks a.cached (indices first count)).1 ≡ ok fetched
      → HasChunks archive chunk_size
          (fetched ++ (look_up_chunks a.cached (indices first count)).0)
          first
          count
  extended-HasChunks first count fetched got j low high =
      let looked = look_up_chunks a.cached (indices first count) in
      let Goal = λ (o : Option Bytes).
        elim o as (λ _. Option Bytes) [ some c ↦ some c | none ↦ lookup j looked.0 ]
        ≡ some (chunk_of archive chunk_size j) in
      lookup-append j fetched looked.0 ∙ elim (Option-cases (lookup j fetched)) [
        | inr (c, here) ↦
            subst Goal (sym here) (ap some (faithful.fetched looked.1 fetched got j c here))
        | inl absent ↦
            elim (look_up_chunks-found j (indices first count)
              (contains-indices j count first low high)) [
                | inl m ↦
                    let (c, here) = faithful.asked looked.1 fetched got j m in
                    absurd (cc (absent, here))
                | inr r ↦ subst Goal (sym absent) r
              ]
      ]
