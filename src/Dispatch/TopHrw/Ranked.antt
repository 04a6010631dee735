-- ===== src/Dispatch/TopHrw/Ranked.antt =====
-- `top_hrw_candidates` of crates/biei-core/src/dispatcher.rs against a stable sort by weight.
use Prim.Native.String.{String}
use biei.Prelude.{
  ℕ, zero, suc, ◌≤◌, ◌≡◌, refl, sym, ap, ◌∙◌, true, false, inl, inr, List, [], ◌∷◌, map,
  if◌then◌else◌, ltb, ◌==◌, filter, take, length, length-take, All, arith, Bool-cases,
}
use biei.Dispatch.TopHrw.{insert_position, insert_at, offer, top_loop}

abbrev pub IsDescending : List (ℕ × String) → Type 0
IsDescending [] = Unit {0}
IsDescending (x ∷ xs) = All (λ y. y.0 ≤ x.0) xs × IsDescending xs

-- The entries of one weight, in their order.
abbrev pub of_weight : ℕ → List (ℕ × String) → List (ℕ × String)
of_weight w = filter (λ entry. entry.0 == w)

-- A stable sort of the entries by descending weight: there is one only.
pub record IsRanking (entries ranked : List (ℕ × String)) : Type 0 where
  pub descending : IsDescending ranked
  pub stable : (w : ℕ) → of_weight w ranked ≡ of_weight w entries

unfoldable pub insert_desc : ℕ × String → List (ℕ × String) → List (ℕ × String)
insert_desc entry [] = entry ∷ []
insert_desc entry (x ∷ xs) = if ltb x.0 entry.0 then entry ∷ (x ∷ xs) else x ∷ insert_desc entry xs

position_here :
    (entry x : ℕ × String) (xs : List (ℕ × String))
    → ltb x.0 entry.0 ≡ true
    → (insert_position entry.0 (x ∷ xs) ≡ 0) × (insert_desc entry (x ∷ xs) ≡ entry ∷ (x ∷ xs))
unfolding insert_position insert_desc
position_here entry x xs t = (rw t refl, rw t refl)

position_later :
    (entry x : ℕ × String) (xs : List (ℕ × String))
    → ltb x.0 entry.0 ≡ false
    → (insert_position entry.0 (x ∷ xs) ≡ suc (insert_position entry.0 xs))
      × (insert_desc entry (x ∷ xs) ≡ x ∷ insert_desc entry xs)
unfolding insert_position insert_desc
position_later entry x xs f = (rw f refl, rw f refl)

insert_at-position :
    (entry : ℕ × String) (top : List (ℕ × String))
    → insert_at (insert_position entry.0 top) entry top ≡ insert_desc entry top
unfolding insert_position insert_desc
insert_at-position entry [] = refl
insert_at-position entry (x ∷ xs) = elim (Bool-cases (ltb x.0 entry.0)) [
  | inl t ↦ let (p, d) = position_here entry x xs t in rw (p, d) refl
  | inr f ↦
      let (p, d) = position_later entry x xs f in
      rw (p, d) (ap (λ (t : List (ℕ × String)). x ∷ t) (insert_at-position entry xs))
]

-- An entry that has no place among the first `limit` changes none of them.
offer_past :
    (limit : ℕ) (entry : ℕ × String) (top : List (ℕ × String))
    → length top ≤ limit
    → limit ≤ insert_position entry.0 top
    → take limit (insert_desc entry top) ≡ top
unfolding insert_position insert_desc
offer_past zero entry [] short past = refl
offer_past (suc limit) entry [] short past = absurd (omega arith)
offer_past zero entry (x ∷ xs) short past = absurd (omega arith)
offer_past (suc limit) entry (x ∷ xs) short past = elim (Bool-cases (ltb x.0 entry.0)) [
  | inl t ↦ absurd (omega (arith, (position_here entry x xs t).0))
  | inr f ↦
      let (p, d) = position_later entry x xs f in
      rw d (
        ap (λ (t : List (ℕ × String)). x ∷ t)
          (offer_past limit entry xs (omega arith) (omega arith)))
]

offer-insert_desc :
    (limit : ℕ) (entry : ℕ × String) (top : List (ℕ × String))
    → length top ≤ limit
    → offer limit entry top ≡ take limit (insert_desc entry top)
unfolding offer
offer-insert_desc limit entry top short =
    elim (Bool-cases (ltb (insert_position entry.0 top) limit)) [
      | inl within ↦ rw within (ap (take limit) (insert_at-position entry top))
      | inr past ↦ rw past (sym (offer_past limit entry top short (ground arith)))
    ]

take-take : (m n : ℕ) (xs : List (ℕ × String)) → m ≤ n → take m (take n xs) ≡ take m xs
take-take zero n xs le = refl
take-take (suc m) zero xs le = absurd (omega arith)
take-take (suc m) (suc n) [] le = refl
take-take (suc m) (suc n) (x ∷ xs) le =
    ap (λ (t : List (ℕ × String)). x ∷ t) (take-take m n xs (omega arith))

-- Cutting before an insertion and after it, or only after it, is the same.
insert_desc-take :
    (limit : ℕ) (entry : ℕ × String) (full : List (ℕ × String))
    → take limit (insert_desc entry (take limit full)) ≡ take limit (insert_desc entry full)
insert_desc-take zero entry full = refl
insert_desc-take (suc limit) entry [] = refl
insert_desc-take (suc limit) entry (x ∷ xs) = elim (Bool-cases (ltb x.0 entry.0)) [
  | inl t ↦
      rw ((position_here entry x xs t).1, (position_here entry x (take limit xs) t).1)
        (ap (λ (l : List (ℕ × String)). entry ∷ l)
          (take-take limit (suc limit) (x ∷ xs) (omega arith)))
  | inr f ↦
      rw ((position_later entry x xs f).1, (position_later entry x (take limit xs) f).1)
        (ap (λ (l : List (ℕ × String)). x ∷ l) (insert_desc-take limit entry xs))
]

abbrev pub entries_of : (String → ℕ) → List String → List (ℕ × String)
entries_of weight members = map (λ id. (weight id, id)) members

unfoldable pub ranking : (String → ℕ) → List (ℕ × String) → List String → List (ℕ × String)
ranking weight full [] = full
ranking weight full (id ∷ members) = ranking weight (insert_desc (weight id, id) full) members

-- The loop keeps the front of the whole ranking.
pub top_loop-ranking :
    (weight : String → ℕ) (limit : ℕ) (full : List (ℕ × String)) (members : List String)
    → top_loop weight limit (take limit full) members ≡ take limit (ranking weight full members)
unfolding top_loop ranking
top_loop-ranking weight limit full [] = refl
top_loop-ranking weight limit full (id ∷ members) =
    let entry : ℕ × String = (weight id, id) in
    let short : length (take limit full) ≤ limit = omega (arith, length-take limit full) in
    let step =
      offer-insert_desc limit entry (take limit full) short ∙ insert_desc-take limit entry full in
    rw step (top_loop-ranking weight limit (insert_desc entry full) members)
