-- ===== src/Dispatch/TopHrw/Stable.antt =====
-- The ranking behind `top_hrw_candidates` of crates/biei-core/src/dispatcher.rs is a stable sort.
use Prim.Native.String.{String}
use biei.Prelude.{
  ℕ, zero, suc, ◌<◌, ◌≤◌, ◌≡◌, refl, sym, ap, subst, ◌∙◌, Bool, false, inl, inr, List, [], ◌∷◌,
  ◌++◌, map, ltb, ltb→lt, ◌==◌, ==_iff, filter, take, All, All-imp, arith, Bool-cases,
}
use mathlib.Core.List.{append_assoc, append-nil}
use biei.Dispatch.TopHrw.{top_loop, candidate_for, top_hrw_candidates}
use biei.Dispatch.TopHrw.Ranked.{
  IsDescending, of_weight, IsRanking, insert_desc, entries_of, ranking, top_loop-ranking,
}

All-insert_desc :
    (P : ℕ × String → Type 0) (entry : ℕ × String) (xs : List (ℕ × String))
    → P entry
    → All P xs
    → All P (insert_desc entry xs)
unfolding insert_desc
All-insert_desc P entry [] h k = (h, tt)
All-insert_desc P entry (x ∷ xs) h k = elim (Bool-cases (ltb x.0 entry.0)) [
  | inl t ↦ rw t (h, k)
  | inr f ↦ rw f (k.0, All-insert_desc P entry xs h k.1)
]

insert_desc-IsDescending :
    (entry : ℕ × String) (xs : List (ℕ × String))
    → IsDescending xs
    → IsDescending (insert_desc entry xs)
unfolding insert_desc
insert_desc-IsDescending entry [] h = (tt, tt)
insert_desc-IsDescending entry (x ∷ xs) h = elim (Bool-cases (ltb x.0 entry.0)) [
  | inl t ↦
      let less : x.0 < entry.0 = ltb→lt x.0 entry.0 t in
      rw t ((omega arith, All-imp _ (λ y. y.0 ≤ entry.0) xs (λ y le. omega arith) h.0), h)
  | inr f ↦
      let least : entry.0 ≤ x.0 = ground arith in
      rw f
        (All-insert_desc (λ y. y.0 ≤ x.0) entry xs least h.0, insert_desc-IsDescending entry xs h.1)
]

-- Below an entry of a greater weight there is none of that weight.
of_weight-below : (w : ℕ) (xs : List (ℕ × String)) → All (λ y. y.0 < w) xs → of_weight w xs ≡ []
of_weight-below w [] h = refl
of_weight-below w (x ∷ xs) h =
    let other : (x.0 == w) ≡ false = ground arith in rw other (of_weight-below w xs h.1)

-- A new entry comes after those of its weight.
of_weight-insert_desc :
    (w : ℕ) (entry : ℕ × String) (xs : List (ℕ × String))
    → IsDescending xs
    → of_weight w (insert_desc entry xs) ≡ of_weight w xs ++ of_weight w (entry ∷ [])
unfolding insert_desc
of_weight-insert_desc w entry [] h = refl
of_weight-insert_desc w entry (x ∷ xs) h = elim (Bool-cases (ltb x.0 entry.0)) [
  | inl t ↦
      let below : All (λ y. y.0 < entry.0) (x ∷ xs) =
        let less : x.0 < entry.0 = ltb→lt x.0 entry.0 t in
        (less, All-imp (λ y. y.0 ≤ x.0) (λ y. y.0 < entry.0) xs (λ y le. omega arith) h.0) in
      rw t (elim (Bool-cases (entry.0 == w)) [
        | inl same ↦
            let e : entry.0 ≡ w = (==_iff entry.0 w).0 same in
            rw (same, of_weight-below w (x ∷ xs) (subst (λ v. All (λ y. y.0 < v) (x ∷ xs)) e below))
              refl
        | inr other ↦ rw other (sym (append-nil _))
      ])
  | inr f ↦ rw f (elim (Bool-cases (x.0 == w)) [
    | inl same ↦
        rw same (ap (λ (l : List (ℕ × String)). x ∷ l) (of_weight-insert_desc w entry xs h.1))
    | inr other ↦ rw other (of_weight-insert_desc w entry xs h.1)
  ])
]

of_weight-cons :
    (w : ℕ) (entry : ℕ × String) (xs : List (ℕ × String))
    → of_weight w (entry ∷ []) ++ of_weight w xs ≡ of_weight w (entry ∷ xs)
of_weight-cons w entry xs = elim (Bool-cases (entry.0 == w)) [
  | inl same ↦ rw same refl
  | inr other ↦ rw other refl
]

take-nil : (limit : ℕ) → take {A = ℕ × String} limit [] ≡ []
take-nil zero = refl
take-nil (suc limit) = refl

ranking-IsDescending :
    (weight : String → ℕ) (full : List (ℕ × String)) (members : List String)
    → IsDescending full
    → IsDescending (ranking weight full members)
unfolding ranking
ranking-IsDescending weight full [] h = h
ranking-IsDescending weight full (id ∷ members) h =
    ranking-IsDescending weight (insert_desc (weight id, id) full) members
      (insert_desc-IsDescending (weight id, id) full h)

ranking-stable :
    (weight : String → ℕ) (full : List (ℕ × String)) (members : List String) (w : ℕ)
    → IsDescending full
    → of_weight w (ranking weight full members)
      ≡ of_weight w full ++ of_weight w (entries_of weight members)
unfolding ranking
ranking-stable weight full [] w h = sym (append-nil _)
ranking-stable weight full (id ∷ members) w h =
    let entry : ℕ × String = (weight id, id) in
    ranking-stable weight (insert_desc entry full) members w (insert_desc-IsDescending entry full h)
    ∙ ap (λ (l : List (ℕ × String)). l ++ of_weight w (entries_of weight members))
        (of_weight-insert_desc w entry full h)
    ∙ append_assoc (of_weight w full) (of_weight w (entry ∷ []))
        (of_weight w (entries_of weight members))
    ∙ ap (λ (l : List (ℕ × String)). of_weight w full ++ l)
        (of_weight-cons w entry (entries_of weight members))

-- `top_hrw_candidates` returns the first `limit` eligible members in a stable sort by descending
-- weight: members of equal weight keep their order.
pub top_hrw_candidates-IsRanking :
    (weight : String → ℕ) (members : List String) (limit : ℕ) (eligible : String → Bool)
    → (ranked : List (ℕ × String)) × IsRanking (entries_of weight (filter eligible members)) ranked
      × (top_hrw_candidates weight members limit eligible
          ≡ map (λ entry. candidate_for entry.1) (take limit ranked))
unfolding top_hrw_candidates
top_hrw_candidates-IsRanking weight members limit eligible =
    let chosen = filter eligible members in
    (
      ranking weight [] chosen,
      record {
        descending = ranking-IsDescending weight [] chosen tt;
        stable = λ w. ranking-stable weight [] chosen w tt;
      },
      ap (map (λ (entry : ℕ × String). candidate_for entry.1)) (
          ap (λ (t : List (ℕ × String)). top_loop weight limit t chosen) (sym (take-nil limit))
          ∙ top_loop-ranking weight limit [] chosen),
    )
