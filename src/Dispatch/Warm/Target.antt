-- ===== src/Dispatch/Warm/Target.antt =====
-- `select_warm_target` of crates/biei-core/src/dispatcher.rs finds a warm candidate.
use biei.Prelude.{
  ℕ, suc, ◌+◌, ◌-◌, ◌<◌, ◌≡◌, ◌≢◌, refl, false, not, ◌&&◌, ◌==◌, inl, inr, List, [], ◌∷◌, Option,
  none, some, if◌then◌else◌, ltb, leb, length, All, arith, Bool-cases,
}
use biei.Dispatch.View.{NodeStateView}
use biei.Dispatch.Warm.{
  WarmCandidate, Generator, IsGenerator, WarmTarget, target, total_weight, walk, gather, roomier,
  choose_weighted, choose_of_two,
}

-- A target whose node satisfies `P`.
abbrev pub TargetOf : (NodeStateView → Type 0) → WarmTarget → Type 0
TargetOf P t = (node : NodeStateView) × (t ≡ target node) × P node

abbrev pub AllNodes : (NodeStateView → Type 0) → List WarmCandidate → Type 0
AllNodes P = All (λ c. P c.node)

walk-TargetOf :
    (P : NodeStateView → Type 0) (ticket : ℕ) (candidates : List WarmCandidate)
    → ticket < total_weight candidates
    → AllNodes P candidates
    → TargetOf P (walk ticket candidates)
unfolding walk total_weight
walk-TargetOf P ticket [] h k = absurd (omega arith)
walk-TargetOf P ticket (c ∷ cs) h k = elim (Bool-cases (ltb ticket c.warm_count)) [
  | inl here ↦ rw here (c.node, refl, k.0)
  | inr later ↦ rw later (walk-TargetOf P (ticket - c.warm_count) cs (ground arith) k.1)
]

-- An option that holds a candidate whose node satisfies `P`.
abbrev Held : (NodeStateView → Type 0) → Option WarmCandidate → Type 0
Held P o = (c : WarmCandidate) × (o ≡ some c) × P c.node

gather-Held :
    (P : NodeStateView → Type 0) (idx a b : ℕ) (first second : Option WarmCandidate)
    (candidates : List WarmCandidate)
    → a ≢ b
    → a < idx + length candidates
    → b < idx + length candidates
    → (a < idx → Held P first)
    → (b < idx → Held P second)
    → AllNodes P candidates
    → Held P (gather idx a b first second candidates).0
      × Held P (gather idx a b first second candidates).1
unfolding gather
gather-Held P idx a b first second [] ne ha hb hf hs k = (hf (omega arith), hs (omega arith))
gather-Held P idx a b first second (c ∷ cs) ne ha hb hf hs k =
    gather-Held P (suc idx) a b _ _ cs ne (omega arith) (omega arith)
      (λ lt. elim (Bool-cases (idx == a)) [
        | inl t ↦ rw t (c, refl, k.0)
        | inr f ↦ rw f (hf (ground arith))
      ])
      (λ lt. elim (Bool-cases (idx == b)) [
        | inl t ↦ let other : (idx == a) ≡ false = grind arith in rw (t, other) (c, refl, k.0)
        | inr f ↦
            let keep : (not (idx == a) && idx == b) ≡ false = ground arith in
            rw keep (hs (ground arith))
      ])
      k.1

roomier-TargetOf :
    (P : NodeStateView → Type 0) (pair : Option WarmCandidate × Option WarmCandidate)
    → Held P pair.0
    → Held P pair.1
    → TargetOf P (roomier pair)
unfolding roomier
roomier-TargetOf P (first, second) (c, e, p) (d, e', q) =
    rw (e, e')
      (elim (Bool-cases (leb d.style_spare_bl c.style_spare_bl)) [
        | inl t ↦ rw t (c.node, refl, p)
        | inr f ↦ rw f (d.node, refl, q)
      ])

-- The second index is not the first and in range.
second_differs :
    (a drawn count : ℕ)
    → a < count
    → drawn < count - 1
    → (a ≢ (if leb a drawn then drawn + 1 else drawn))
      × ((if leb a drawn then drawn + 1 else drawn) < count)
second_differs a drawn count ha hd = elim (Bool-cases (leb a drawn)) [
  | inl t ↦ rw t (λ e. ground arith, omega arith)
  | inr f ↦ rw f (λ e. ground arith, omega arith)
]

pub choose_of_two-TargetOf :
    (P : NodeStateView → Type 0) (rng : Generator) (seed : ℕ) (c : WarmCandidate)
    (cs : List WarmCandidate)
    → IsGenerator rng
    → AllNodes P (c ∷ cs)
    → TargetOf P (choose_of_two rng seed (c ∷ cs))
unfolding choose_of_two
choose_of_two-TargetOf P rng seed c [] g k = (c.node, refl, k.0)
choose_of_two-TargetOf P rng seed c (d ∷ cs) g k =
    let count = length (c ∷ (d ∷ cs)) in
    let a = rng.first_draw seed count in
    let drawn = rng.second_draw seed (count - 1) in
    let b = if leb a drawn then drawn + 1 else drawn in
    let ha : a < count = g.first_below seed count (omega arith) in
    let hd : drawn < count - 1 = g.second_below seed (count - 1) (omega arith) in
    let (ne, hb) = second_differs a drawn count ha hd in
    let (f, s) =
      gather-Held P 0 a b none none (c ∷ (d ∷ cs)) ne (omega arith) (omega arith)
        (λ lt. absurd (omega arith)) (λ lt. absurd (omega arith)) k in
    roomier-TargetOf P (gather 0 a b none none (c ∷ (d ∷ cs))) f s

pub choose_weighted-TargetOf :
    (P : NodeStateView → Type 0) (rng : Generator) (seed : ℕ) (candidates : List WarmCandidate)
    → IsGenerator rng
    → 0 < total_weight candidates
    → AllNodes P candidates
    → TargetOf P (choose_weighted rng seed candidates)
unfolding choose_weighted
choose_weighted-TargetOf P rng seed candidates g pos k =
    let some_weight : (total_weight candidates == 0) ≡ false = ground arith in
    rw some_weight
      (walk-TargetOf P _ candidates (g.first_below seed (total_weight candidates) pos) k)
