-- ===== src/Dispatch/Swap/Drain.antt =====
-- What the third tier of crates/biei-core/src/dispatcher.rs may drain.
use Prim.Native.Nat.{Ordering}
use Prim.Native.String.{String}
use biei.Prelude.{
  ℕ, ◌+◌, ◌<◌, ◌≤◌, ◌≡◌, refl, subst, Bool, false, Option, none, true, inl, inr, List, [], ◌∷◌,
  some, leb, length, All, All-append, arith, Bool-cases,
}
use biei.Workers.Profile.{WorkerProfile, profile_Eq, option_Eq}
use biei.Workers.Pick.{is_greater}
use biei.Dispatch.View.{WorkerView, NodeStateView, ForwardCandidate, DispatchView, state_entries}
use biei.Dispatch.Swap.{
  CostConfig, estimate_drain_eta, Candidates, Counts, is_drainable, note_workers, note_nodes,
  compare_candidates, insert_by, sort_by, checked_instant, is_timely, put_timely, select_timely,
  tier3_candidates,
}

-- Every worker of every node that accepts renders satisfies `P`.
abbrev pub AllWorkers : (String × WorkerView → Type 0) → List (String × NodeStateView) → Type 0
AllWorkers P =
    All (λ entry. entry.1.accepts_new_renders ≡ true → All (λ w. P (entry.0, w)) entry.1.workers)

module _ (P : String × WorkerView → Type 0) (drain_max : ℕ) (profile : WorkerProfile) where
  -- A worker with `P` that may be drained.
  abbrev pub IsDrained : String × WorkerView → Type 0
  IsDrained c = P c × (is_drainable drain_max profile c.1 ≡ true)

  note_workers-IsDrained :
      (nid : String) (workers : List WorkerView) (counts : Counts) (candidates : Candidates)
      → All (λ w. P (nid, w)) workers
      → All IsDrained candidates
      → All IsDrained (note_workers drain_max profile nid workers counts candidates).1
  unfolding note_workers
  note_workers-IsDrained nid [] counts candidates h k = k
  note_workers-IsDrained nid (w ∷ ws) counts candidates h k =
      note_workers-IsDrained nid ws _ _ h.1 (elim (Bool-cases (is_drainable drain_max profile w)) [
        | inl t ↦ rw t (All-append IsDrained candidates ((nid, w) ∷ []) k ((h.0, t), tt))
        | inr f ↦ rw f k
      ])

  note_nodes-IsDrained :
      (entries : List (String × NodeStateView)) (counts : Counts) (candidates : Candidates)
      → AllWorkers P entries
      → All IsDrained candidates
      → All IsDrained (note_nodes drain_max profile entries counts candidates).1
  unfolding note_nodes
  note_nodes-IsDrained [] counts candidates h k = k
  note_nodes-IsDrained ((nid, node) ∷ entries) counts candidates h k =
      note_nodes-IsDrained entries _ _ h.1 (elim (Bool-cases node.accepts_new_renders) [
        | inl t ↦ rw t (note_workers-IsDrained nid node.workers counts candidates (h.0 t) k)
        | inr f ↦ rw f k
      ])

module _ {ℓ κ} {A : Type ℓ} (Q : A → Type κ) (cmp : A → A → Ordering) where
  insert_by-All : (a : A) (xs : List A) → Q a → All Q xs → All Q (insert_by cmp a xs)
  unfolding insert_by
  insert_by-All a [] h k = (h, tt)
  insert_by-All a (x ∷ xs) h k = elim (Bool-cases (is_greater (cmp a x))) [
    | inl t ↦ rw t (k.0, insert_by-All a xs h k.1)
    | inr f ↦ rw f (h, k)
  ]

  sort_by-All : (xs : List A) → All Q xs → All Q (sort_by cmp xs)
  unfolding sort_by
  sort_by-All [] k = tt
  sort_by-All (x ∷ xs) k = insert_by-All x (sort_by cmp xs) k.0 (sort_by-All xs k.1)

-- The candidate stands for a worker with `Q` that is in time.
abbrev pub SelectedFrom :
    (String × WorkerView → Type 0) → (WorkerView → Option Bool) → ForwardCandidate → Type 0
SelectedFrom Q in_time f =
    (w : WorkerView) × (f.drain_worker ≡ some w.id) × Q (f.node_id, w) × (in_time w ≡ some true)

-- A selection that does not panic.
abbrev ChosenFrom :
    (String × WorkerView → Type 0)
    → (WorkerView → Option Bool)
    → ℕ
    → ℕ
    → Option (List ForwardCandidate)
    → Type 0
ChosenFrom Q in_time limit selected none = Unit {0}
ChosenFrom Q in_time limit selected (some chosen) =
    All (SelectedFrom Q in_time) chosen × (selected + length chosen ≤ limit)

module _ (Q : String × WorkerView → Type 0) (in_time : WorkerView → Option Bool) (limit : ℕ) where
  put_timely-ChosenFrom :
      (nid : String) (w : WorkerView) (selected : ℕ) (timely : Option Bool) (full : Bool)
      (more others : Option (List ForwardCandidate))
      → in_time w ≡ timely
      → leb limit (selected + 1) ≡ full
      → selected < limit
      → Q (nid, w)
      → (full ≡ false → ChosenFrom Q in_time limit (selected + 1) more)
      → ChosenFrom Q in_time limit selected others
      → ChosenFrom Q in_time limit selected
          (put_timely timely full (record { node_id = nid; drain_worker = some w.id }) more others)
  put_timely-ChosenFrom nid w selected none full more others t f lt q m o = tt
  put_timely-ChosenFrom nid w selected (some false) full more others t f lt q m o = o
  put_timely-ChosenFrom nid w selected (some true) true more others t f lt q m o =
      (((w, refl, q, t), tt), omega arith)
  put_timely-ChosenFrom nid w selected (some true) false none others t f lt q m o = tt
  put_timely-ChosenFrom nid w selected (some true) false (some rest) others t f lt q m o =
      let (good, few) = m refl in (((w, refl, q, t), good), omega arith)

  select_timely-ChosenFrom :
      (selected : ℕ) (candidates : Candidates)
      → selected < limit
      → All Q candidates
      → ChosenFrom Q in_time limit selected (select_timely in_time limit selected candidates)
  unfolding select_timely
  select_timely-ChosenFrom selected [] lt h = (tt, omega arith)
  select_timely-ChosenFrom selected ((nid, w) ∷ candidates) lt h =
      put_timely-ChosenFrom nid w selected (in_time w) (leb limit (selected + 1)) _ _ refl refl lt
        h.0 (λ room. select_timely-ChosenFrom (selected + 1) candidates (ground arith) h.1)
        (select_timely-ChosenFrom selected candidates lt h.1)

-- When no sum of durations overflows, the third tier selects at most `limit` workers, for a limit
-- above 0. Each belongs to a node that accepts renders, has a queue below the drain limit, does not
-- have the profile of the task loaded, and is estimated to be done by the deadline, if there is
-- one.
pub tier3_candidates-SelectedFrom :
    (P : String × WorkerView → Type 0) (compare_ids : String → String → Ordering) (instant_max : ℕ)
    (costs : CostConfig) (drain_max : ℕ) (view : DispatchView) (profile : WorkerProfile)
    (arrived_at now limit : ℕ) (selected : List ForwardCandidate)
    → 0 < limit
    → AllWorkers P (state_entries view)
    → tier3_candidates compare_ids instant_max costs drain_max view profile arrived_at now limit
      ≡ some selected
    → All
        (SelectedFrom (IsDrained P drain_max profile) (λ w.
          is_timely instant_max now
            (checked_instant instant_max arrived_at costs.sla)
            (estimate_drain_eta costs w profile)))
        selected
      × (length selected ≤ limit)
unfolding tier3_candidates
tier3_candidates-SelectedFrom P compare_ids instant_max costs drain_max view profile arrived_at now
      limit selected pos h is =
    let noted = note_nodes drain_max profile (state_entries view) [] [] in
    let Q = IsDrained P drain_max profile in
    let drained = note_nodes-IsDrained P drain_max profile (state_entries view) [] [] h tt in
    let in_time = λ (w : WorkerView).
      is_timely instant_max now (checked_instant instant_max arrived_at costs.sla)
        (estimate_drain_eta costs w profile) in
    let chosen =
      select_timely-ChosenFrom Q in_time limit 0
        (sort_by (compare_candidates compare_ids profile noted.0) noted.1) pos
        (sort_by-All Q (compare_candidates compare_ids profile noted.0) noted.1 drained) in
    let (good, few) = subst (ChosenFrom Q in_time limit 0) is chosen in (good, omega arith)
