-- ===== src/Chunks/Pending/Waiting.antt =====
-- Who waits for a chunk in coordinator.rs, after each operation on the fetch state.
use biei.Prelude.{
  ℕ, ◌+◌, ◌≡◌, refl, sym, ap, ◌∙◌, subst, inl, inr, arith, Bool, true, false, not, ◌||◌, List, [],
  ◌∷◌, ◌++◌, Option, none, some, if◌then◌else◌, eqb, eqb→eq, eqb_refl, nat_Eq, contains, lookup,
  insert, erase, filter, Bool-cases, All, lookup-insert_self, lookup-insert_ne, lookup-erase_self,
  lookup-erase_ne, contains-append,
}
use biei.Chunks.Pending.{
  TilesetFetchState, or_default, waiters_of, enqueue_chunk, enqueue_chunks, retain_open, is_empty,
  has_key,
}
use biei.Chunks.Pending.Members.{contains-filter}
use biei.Chunks.Pending.Serving.{is_empty-contains}
use biei.Chunks.Pending.Coordinator.{receipts}

-- The receiver waits for the chunk.
abbrev pub waits : ℕ → ℕ → List (ℕ × List ℕ) → Bool
waits r chunk waiters = contains r (waiters_of chunk waiters)

-- What a look-up of the chunk says.
waits_found :
    (r chunk : ℕ) (m : List (ℕ × List ℕ)) (found : Option (List ℕ))
    → lookup chunk m ≡ found
    → waits r chunk m ≡ contains r (or_default found)
waits_found r chunk m found h = ap (λ o. contains r (or_default o)) h

waits-insert :
    (r chunk c : ℕ) (ws : List ℕ) (m : List (ℕ × List ℕ))
    → waits r chunk (insert c ws m) ≡ (if eqb c chunk then contains r ws else waits r chunk m)
waits-insert r chunk c ws m = elim (Bool-cases (eqb c chunk)) [
  | inl t ↦
      let found : lookup chunk (insert c ws m) ≡ some ws =
        subst (λ i. lookup i (insert c ws m) ≡ some ws) (eqb→eq c chunk t)
          (lookup-insert_self c ws m) in
      waits_found r chunk (insert c ws m) (some ws) found
      ∙ sym (ap (λ b. if b then contains r ws else waits r chunk m) t)
  | inr f ↦
      waits_found r chunk (insert c ws m) (lookup chunk m) (lookup-insert_ne c chunk ws m f)
      ∙ sym (ap (λ b. if b then contains r ws else waits r chunk m) f)
]

pub waits-erase :
    (r chunk c : ℕ) (m : List (ℕ × List ℕ))
    → waits r chunk (erase c m) ≡ (if eqb c chunk then false else waits r chunk m)
waits-erase r chunk c m = elim (Bool-cases (eqb c chunk)) [
  | inl t ↦
      let found : lookup chunk (erase c m) ≡ none =
        subst (λ i. lookup i (erase c m) ≡ none) (eqb→eq c chunk t) (lookup-erase_self c m) in
      waits_found r chunk (erase c m) none found
      ∙ sym (ap (λ b. if b then false else waits r chunk m) t)
  | inr f ↦
      waits_found r chunk (erase c m) (lookup chunk m) (lookup-erase_ne c chunk m f)
      ∙ sym (ap (λ b. if b then false else waits r chunk m) f)
]

waits_here :
    (r chunk k : ℕ) (ws : List ℕ) (m : List (ℕ × List ℕ))
    → eqb k chunk ≡ true
    → waits r chunk ((k, ws) ∷ m) ≡ contains r ws
waits_here r chunk k ws m t = waits_found r chunk ((k, ws) ∷ m) (some ws) (rw t refl)

waits_there :
    (r chunk k : ℕ) (ws : List ℕ) (m : List (ℕ × List ℕ))
    → eqb k chunk ≡ false
    → waits r chunk ((k, ws) ∷ m) ≡ waits r chunk m
waits_there r chunk k ws m f = waits_found r chunk ((k, ws) ∷ m) (lookup chunk m) (rw f refl)

pub waits-has_key :
    (r chunk : ℕ) (m : List (ℕ × List ℕ)) → waits r chunk m ≡ true → has_key chunk m ≡ true
waits-has_key r chunk [] h = absurd (cc)
waits-has_key r chunk ((k, ws) ∷ rest) h = elim (Bool-cases (eqb k chunk)) [
  | inl t ↦ rw t refl
  | inr f ↦ rw f (waits-has_key r chunk rest (sym (waits_there r chunk k ws rest f) ∙ h))
]

-- Whoever waited still waits when a caller registers, and the caller waits too.
enqueue_chunk-waiters :
    (s : TilesetFetchState) (tx now c : ℕ)
    → (enqueue_chunk s tx now c).0.waiters
      ≡ insert c (waiters_of c s.waiters ++ (tx ∷ [])) s.waiters
unfolding enqueue_chunk
enqueue_chunk-waiters s tx now c = elim (Bool-cases (contains c s.inflight_chunks)) [
  | inl flying ↦ rw flying refl
  | inr grounded ↦ elim (Bool-cases (contains c s.pending_chunks)) [
    | inl queued ↦ rw (grounded, queued) refl
    | inr fresh ↦ rw (grounded, fresh) refl
  ]
]

module _ (s : TilesetFetchState) (tx now c : ℕ) where
  enqueue_chunk-waits :
      (r chunk : ℕ)
      → waits r chunk s.waiters ≡ true
      → waits r chunk (enqueue_chunk s tx now c).0.waiters ≡ true
  enqueue_chunk-waits r chunk h =
      let ws = waiters_of c s.waiters ++ (tx ∷ []) in
      rw (enqueue_chunk-waiters s tx now c, waits-insert r chunk c ws s.waiters)
        (elim (Bool-cases (eqb c chunk)) [
          | inl t ↦
              let same : c ≡ chunk = eqb→eq c chunk t in
              let old : contains r (waiters_of c s.waiters) ≡ true = rw same h in
              rw (t, contains-append r (waiters_of c s.waiters) (tx ∷ []), old) refl
          | inr f ↦ rw f h
        ])

  enqueue_chunk-waits_self : waits tx c (enqueue_chunk s tx now c).0.waiters ≡ true
  enqueue_chunk-waits_self =
      let ws = waiters_of c s.waiters ++ (tx ∷ []) in
      let all : contains tx ws ≡ (contains tx (waiters_of c s.waiters) || contains tx (tx ∷ [])) =
        contains-append tx (waiters_of c s.waiters) (tx ∷ []) in
      rw (enqueue_chunk-waiters s tx now c, waits-insert tx c c ws s.waiters, eqb_refl c)
        (ground (arith, all, eqb_refl tx))

pub enqueue_chunks-waits :
    (list : List ℕ) (s : TilesetFetchState) (tx now r chunk : ℕ)
    → waits r chunk s.waiters ≡ true
    → waits r chunk (enqueue_chunks s tx now list).0.waiters ≡ true
unfolding enqueue_chunks
enqueue_chunks-waits [] s tx now r chunk h = h
enqueue_chunks-waits (c ∷ rest) s tx now r chunk h =
    enqueue_chunks-waits rest (enqueue_chunk s tx now c).0 (tx + 1) now r chunk
      (enqueue_chunk-waits s tx now c r chunk h)

pub enqueue_chunks-receipts :
    (list : List ℕ) (s : TilesetFetchState) (tx now : ℕ)
    → All
        (λ p. waits p.0 p.1 (enqueue_chunks s tx now list).0.waiters ≡ true)
        (receipts (enqueue_chunks s tx now list).1)
unfolding enqueue_chunks
enqueue_chunks-receipts [] s tx now = tt
enqueue_chunks-receipts (c ∷ rest) s tx now = (
  enqueue_chunks-waits rest (enqueue_chunk s tx now c).0 (tx + 1) now tx c
      (enqueue_chunk-waits_self s tx now c),
  enqueue_chunks-receipts rest (enqueue_chunk s tx now c).0 (tx + 1) now,
)

-- Pruning keeps the receivers that are open.
pub retain_open-waits :
    (closed : ℕ → Bool) (r chunk : ℕ) (m : List (ℕ × List ℕ))
    → closed r ≡ false
    → waits r chunk m ≡ true
    → waits r chunk (retain_open closed m).0 ≡ true
retain_open-waits closed r chunk [] alive h = h
retain_open-waits closed r chunk ((k, ws) ∷ rest) alive h =
    let live = filter (λ w. not (closed w)) ws in
    let kept_rest = (retain_open closed rest).0 in
    elim (Bool-cases (eqb k chunk)) [
      | inl t ↦
          let had : contains r ws ≡ true = sym (waits_here r chunk k ws rest t) ∙ h in
          let kept : contains r live ≡ true =
            contains-filter (λ w. not (closed w)) r ws ∙ rw (alive, had) refl in
          elim (Bool-cases (is_empty live)) [
            | inl gone ↦
                let lost : contains r live ≡ false = is_empty-contains r live gone in absurd (cc)
            | inr some_left ↦ rw some_left (waits_here r chunk k live kept_rest t ∙ kept)
          ]
      | inr f ↦
          let later =
            retain_open-waits closed r chunk rest alive
              (sym (waits_there r chunk k ws rest f) ∙ h) in
          elim (Bool-cases (is_empty live)) [
            | inl gone ↦ rw gone later
            | inr some_left ↦ rw some_left (waits_there r chunk k live kept_rest f ∙ later)
          ]
    ]
