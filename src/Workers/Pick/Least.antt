-- ===== src/Workers/Pick/Least.antt =====
-- `best_available_worker` of crates/biei-core/src/worker_pool.rs picks a least score.
use Prim.Native.Nat.{Ordering}
use biei.Prelude.{
  ℕ, zero, suc, ◌+◌, ◌<◌, ◌≡◌, ◌≢◌, ◌↔◌, refl, sym, subst, ◌⊎◌, ap, ◌∙◌, List, [], ◌∷◌, none, some,
  true, false, inl, inr, ltb, get_elem?, All, All-imp, arith, ltb→lt, lt→ltb, Bool-cases, IsOrder,
  by_key-IsOrder, reverse-IsOrder, then_by-IsOrder, not-gt_trans,
}
use biei.Workers.Profile.{profile_Eq}
use biei.Workers.Pick.{
  tier_rank, PickScore, bool_rank, seen_rank, compare_score, PickContext, pick_score, with_room,
  is_greater, least_from, min_by_score, best_available_worker,
}

pub compare_score-IsOrder : IsOrder compare_score
unfolding compare_score
compare_score-IsOrder = then_by-IsOrder _ _ (by_key-IsOrder (λ s. tier_rank s.tier)) (
    then_by-IsOrder _ _ (by_key-IsOrder (λ s. bool_rank s.source_miss)) (
      then_by-IsOrder _ _ (by_key-IsOrder (λ s. s.queue_depth)) (
        then_by-IsOrder _ _ (by_key-IsOrder (λ s. bool_rank s.protected_singleton)) (
          then_by-IsOrder _ _ (by_key-IsOrder (λ s. bool_rank s.shape_mismatch)) (
            then_by-IsOrder _ _ (reverse-IsOrder (λ s. s.profile_count))
              (by_key-IsOrder (λ s. seen_rank s.last_seen)))))))

-- No worse a score.
abbrev pub AtMost : PickScore → PickScore → Type 0
AtMost a b = compare_score a b ≢ Ordering.gt

not-both : (o : Ordering) → is_greater o ≡ true → o ≢ Ordering.lt
not-both Ordering.lt h = absurd (cc)
not-both Ordering.eq h = absurd (cc)
not-both Ordering.gt h = λ e. cc

not-neither : (o : Ordering) → is_greater o ≡ false → o ≢ Ordering.gt
not-neither Ordering.lt h = λ e. cc
not-neither Ordering.eq h = λ e. cc
not-neither Ordering.gt h = absurd (cc)

AtMost-refl : (a : PickScore) → AtMost a a
AtMost-refl a h =
    let mirrored : compare_score a a ≡ Ordering.lt = compare_score-IsOrder.swap a a ∙ rw h refl in
    absurd (cc)

AtMost-trans : (a b c : PickScore) → AtMost a b → AtMost b c → AtMost a c
AtMost-trans a b c h k = not-gt_trans compare_score compare_score-IsOrder a b c h k

greater-AtMost : (a b : PickScore) → is_greater (compare_score a b) ≡ true → AtMost b a
greater-AtMost a b h e =
    let swapped = compare_score-IsOrder.swap b a in
    let less : compare_score a b ≡ Ordering.lt = swapped ∙ rw e refl in
    absurd (not-both (compare_score a b) h less)

not_greater-AtMost : (a b : PickScore) → is_greater (compare_score a b) ≡ false → AtMost a b
not_greater-AtMost a b h e = absurd (not-neither (compare_score a b) h e)

-- The folded minimum is one of the candidates, and at most each of them.
least_from-AtMost :
    (P : ℕ × PickScore → Type 0) (best : ℕ × PickScore) (rest : List (ℕ × PickScore))
    → All P (best ∷ rest)
    → P (least_from best rest) × All (λ c. AtMost (least_from best rest).1 c.1) (best ∷ rest)
unfolding least_from
least_from-AtMost P best [] h = (h.0, (AtMost-refl best.1, tt))
least_from-AtMost P best (c ∷ rest) h =
    let Goal = λ (r : ℕ × PickScore). P r × All (λ x. AtMost r.1 x.1) (best ∷ c ∷ rest) in
    elim (Bool-cases (is_greater (compare_score best.1 c.1))) [
      | inl worse ↦
          let (holds, least) = least_from-AtMost P c rest (h.1.0, h.1.1) in
          let under = AtMost-trans _ c.1 best.1 least.0 (greater-AtMost best.1 c.1 worse) in
          let step : least_from best (c ∷ rest) ≡ least_from c rest = rw worse refl in
          subst Goal (sym step) (holds, (under, (least.0, least.1)))
      | inr fine ↦
          let (holds, least) = least_from-AtMost P best rest (h.0, h.1.1) in
          let under = AtMost-trans _ best.1 c.1 least.0 (not_greater-AtMost best.1 c.1 fine) in
          let step : least_from best (c ∷ rest) ≡ least_from best rest = rw fine refl in
          subst Goal (sym step) (holds, (least.0, (under, least.1)))
    ]

min_by_score-AtMost :
    (P : ℕ × PickScore → Type 0) (candidates : List (ℕ × PickScore))
    → All P candidates
    → ((candidates ≡ []) × (min_by_score candidates ≡ none))
      ⊎ ((m : ℕ × PickScore) × (min_by_score candidates ≡ some m.0)
          × P m
          × All (λ c. AtMost m.1 c.1) candidates)
min_by_score-AtMost P [] h = inl (refl, refl)
min_by_score-AtMost P (c ∷ rest) h =
    let (holds, least) = least_from-AtMost P c rest h in inr (least_from c rest, refl, holds, least)

-- A worker with room, and its score.
abbrev pub HasRoom : PickContext → List ℕ → ℕ → ℕ → Type 0
HasRoom ctx queue_depths idx depth =
    (get_elem? queue_depths idx ≡ some depth) × (depth < ctx.queue_capacity)

-- The candidate of a worker with room, counted from `start`.
abbrev CandidateOf : PickContext → ℕ → List ℕ → ℕ × PickScore → Type 0
CandidateOf ctx start queue_depths c =
    (i : ℕ) × (depth : ℕ) × (c ≡ (start + i, pick_score ctx (start + i) depth))
    × HasRoom ctx queue_depths i depth

with_room-CandidateOf :
    (ctx : PickContext) (start : ℕ) (queue_depths : List ℕ)
    → All (CandidateOf ctx start queue_depths) (with_room ctx start queue_depths)
unfolding with_room
with_room-CandidateOf ctx start [] = tt
with_room-CandidateOf ctx start (d ∷ ds) =
    let later : All (CandidateOf ctx start (d ∷ ds)) (with_room ctx (suc start) ds) =
      All-imp (CandidateOf ctx (suc start) ds) (CandidateOf ctx start (d ∷ ds)) _
        (λ c (i, depth, e, room).
          let moved : start + suc i ≡ suc start + i = omega arith in
          (suc i, depth, rw moved e, room))
        (with_room-CandidateOf ctx (suc start) ds) in
    elim (Bool-cases (ltb d ctx.queue_capacity)) [
      | inl room ↦
          let here : start + 0 ≡ start = omega arith in
          rw room ((0, d, rw here refl, (refl, ltb→lt d ctx.queue_capacity room)), later)
      | inr full ↦ rw full later
    ]

-- Every worker with room is a candidate.
HasRoom-with_room :
    (ctx : PickContext) (start : ℕ) (queue_depths : List ℕ) (P : ℕ × PickScore → Type 0)
    → All P (with_room ctx start queue_depths)
    → (i depth : ℕ) → HasRoom ctx queue_depths i depth
    → P (start + i, pick_score ctx (start + i) depth)
unfolding with_room
HasRoom-with_room ctx start [] P h i depth room = absurd (cc)
HasRoom-with_room ctx start (d ∷ ds) P h zero depth room =
    let here : start + 0 ≡ start = omega arith in
    let same : d ≡ depth = cc in
    let open_ = lt→ltb depth ctx.queue_capacity room.1 in
    let split = rw (same, open_) at h in rw here split.0
HasRoom-with_room ctx start (d ∷ ds) P h (suc i) depth room =
    let moved : start + suc i ≡ suc start + i = omega arith in
    let later : All P (with_room ctx (suc start) ds) =
      elim (Bool-cases (ltb d ctx.queue_capacity)) [
        | inl fits ↦ let split = rw fits at h in split.1
        | inr full ↦ rw full at h
      ] in
    rw moved (HasRoom-with_room ctx (suc start) ds P later i depth room)

-- `best_available_worker` finds a worker exactly when one has room below the hard limit, and the
-- one that it finds has room and a score that is at most that of every worker with room.
pub best_available_worker-AtMost :
    (ctx : PickContext) (queue_depths : List ℕ)
    → ((best_available_worker ctx queue_depths ≡ none)
        ↔ ((i depth : ℕ) → HasRoom ctx queue_depths i depth → ⊥))
      × ((idx : ℕ)
          → best_available_worker ctx queue_depths ≡ some idx
          → (depth : ℕ) × HasRoom ctx queue_depths idx depth
            × ((j other : ℕ)
                → HasRoom ctx queue_depths j other
                → AtMost (pick_score ctx idx depth) (pick_score ctx j other)))
unfolding best_available_worker
best_available_worker-AtMost ctx queue_depths =
    let candidates = with_room ctx 0 queue_depths in
    elim (min_by_score-AtMost (CandidateOf ctx 0 queue_depths) candidates
      (with_room-CandidateOf ctx 0 queue_depths)) [
        | inl (empty, nothing) ↦ (
          (
            λ _ i depth room.
                HasRoom-with_room ctx 0 queue_depths (λ _. ⊥) (rw empty tt) i depth room,
            λ _. nothing,
          ),
          λ idx e. absurd (cc),
        )
        | inr (m, found, (i, depth, e, room), least) ↦ (
          (λ nothing. absurd (cc), λ full. absurd (full i depth room)),
          λ idx e'.
              let start : 0 + i ≡ i = omega arith in
              let first : m.0 ≡ i = ap (λ (t : ℕ × PickScore). t.0) e ∙ start in
              let here : i ≡ idx = cc in
              let score : m.1 ≡ pick_score ctx idx depth =
                ap (λ (t : ℕ × PickScore). t.1) e ∙ rw (start, here) refl in
              (
                depth,
                subst (λ k. HasRoom ctx queue_depths k depth) here room,
                λ j other room'.
                    let start' : 0 + j ≡ j = omega arith in
                    let bound =
                      HasRoom-with_room ctx 0 queue_depths (λ c. AtMost m.1 c.1) least j other
                        room' in
                    rw (← score) (rw start' at bound),
              ),
        )
      ]
