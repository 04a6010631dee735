-- ===== src/Workers/State/Sound.antt =====
-- What `PoolState` promises of itself, and that each of its operations keeps it.
use biei.Prelude.{
  ℕ, zero, suc, ◌+◌, ◌-◌, ◌<◌, ◌≡◌, refl, sym, ap, ◌∙◌, List, [], Option, none, some, inl, inr,
  if◌then◌else◌, eqb, eqb→eq, eqb_refl, item, set, length, lookup, insert, erase, ◌==◌, arith,
  occurrences, subst, occurrences-set, Bool-cases, Option-cases, lookup-insert_self,
  lookup-insert_ne, lookup-erase_self, lookup-erase_ne, nat_Eq,
}
use biei.Workers.Profile.{WorkerProfile, profile_Eq, option_Eq}
use biei.Workers.Affinity.{IsAffinity}
use biei.Workers.State.{PoolState, decrement_profile_count, increment_profile_count, take_counts}

-- A map without entries of 0.
abbrev pub counted : ℕ → Option ℕ
counted zero = none
counted (suc n) = some (suc n)

-- The count of every profile is the number of workers that have it loaded.
abbrev pub Counts : List (Option WorkerProfile) → List (WorkerProfile × ℕ) → Type 0
Counts loaded counts = (p : WorkerProfile) → lookup p counts ≡ counted (occurrences (some p) loaded)

pub record IsPoolState (n : ℕ) (s : PoolState) : Type 0 where
  pub loaded_size : length s.loaded ≡ n
  pub generations_size : length s.dispatch_generations ≡ n
  pub used_size : length s.last_used ≡ n
  pub ids_size : length s.addlayer_source_ids ≡ n
  pub lru_size : length s.addlayer_source_lru ≡ n
  pub counts : Counts s.loaded s.profile_counts
  pub affinity :
      (i : ℕ) → IsAffinity (item [] s.addlayer_source_ids i) (item [] s.addlayer_source_lru i)

counted_pos : (n : ℕ) → 0 < n → counted n ≡ some n
counted_pos zero h = absurd (omega arith)
counted_pos (suc n) h = refl

counted_next : (n : ℕ) → elim (counted n) [ none ↦ 1 | some count ↦ count + 1 ] ≡ n + 1
counted_next zero = omega arith
counted_next (suc n) = refl

decrement-Counts :
    (counts : List (WorkerProfile × ℕ)) (p q : WorkerProfile) (n : ℕ)
    → 0 < n
    → lookup p counts ≡ some n
    → lookup q (decrement_profile_count counts p)
      ≡ (if eqb p q then counted (n - 1) else lookup q counts)
unfolding decrement_profile_count
decrement-Counts counts p q n pos h = elim (Bool-cases (n - 1 == 0)) [
  | inl z ↦
      let gone : n - 1 ≡ 0 = ground arith in
      let step : decrement_profile_count counts p ≡ erase p counts =
        rw (decrement_profile_count, h, z) refl in
      rw step (elim (Bool-cases (eqb p q)) [
        | inl t ↦ rw (t, gone, ← eqb→eq p q t) (lookup-erase_self p counts)
        | inr f ↦ rw f (lookup-erase_ne p q counts f)
      ])
  | inr z ↦
      let left : counted (n - 1) ≡ some (n - 1) = counted_pos (n - 1) (ground arith) in
      let step : decrement_profile_count counts p ≡ insert p (n - 1) counts =
        rw (decrement_profile_count, h, z) refl in
      rw step (elim (Bool-cases (eqb p q)) [
        | inl t ↦ rw (t, left, ← eqb→eq p q t) (lookup-insert_self p (n - 1) counts)
        | inr f ↦ rw f (lookup-insert_ne p q (n - 1) counts f)
      ])
]

increment-Counts :
    (counts : List (WorkerProfile × ℕ)) (p q : WorkerProfile) (n : ℕ)
    → lookup p counts ≡ counted n
    → lookup q (increment_profile_count counts p)
      ≡ (if eqb p q then counted (n + 1) else lookup q counts)
unfolding increment_profile_count
increment-Counts counts p q n h =
    let grown : elim (lookup p counts) [ none ↦ 1 | some count ↦ count + 1 ] ≡ n + 1 =
      rw h (counted_next n) in
    let positive : counted (n + 1) ≡ some (n + 1) = counted_pos (n + 1) (omega arith) in
    rw (grown, positive)
      (elim (Bool-cases (eqb p q)) [
        | inl t ↦ rw (t, ← eqb→eq p q t) (lookup-insert_self p (n + 1) counts)
        | inr f ↦ rw f (lookup-insert_ne p q (n + 1) counts f)
      ])

-- How often a profile is loaded when a worker with `none` takes one, and when it gives one up.
occurrences-enter :
    (loaded : List (Option WorkerProfile)) (idx : ℕ) (p q : WorkerProfile)
    → idx < length loaded
    → item none loaded idx ≡ none
    → occurrences (some q) (set loaded idx (some p))
      ≡ occurrences (some q) loaded + (if eqb p q then 1 else 0)
occurrences-enter loaded idx p q inside empty =
    let moved = occurrences-set none (some q) loaded idx (some p) inside in
    sym (omega arith)
    ∙ subst
        (λ old.
          occurrences (some q) (set loaded idx (some p)) + (if eqb old (some q) then 1 else 0)
          ≡ occurrences (some q) loaded + (if eqb p q then 1 else 0))
        empty moved

occurrences-take :
    (loaded : List (Option WorkerProfile)) (idx : ℕ) (q : WorkerProfile)
    (old : Option WorkerProfile)
    → idx < length loaded
    → item none loaded idx ≡ old
    → occurrences (some q) (set loaded idx none) + (if eqb old (some q) then 1 else 0)
      ≡ occurrences (some q) loaded
occurrences-take loaded idx q old inside full =
    subst
      (λ old.
        occurrences (some q) (set loaded idx none) + (if eqb old (some q) then 1 else 0)
        ≡ occurrences (some q) loaded)
      full (occurrences-set none (some q) loaded idx none inside ∙ omega arith)

-- Taking the profile of a worker counts it out.
pub taken-Counts :
    (loaded : List (Option WorkerProfile)) (counts : List (WorkerProfile × ℕ)) (idx : ℕ)
    → idx < length loaded
    → Counts loaded counts
    → Counts (set loaded idx none) (take_counts counts (item none loaded idx))
unfolding take_counts
taken-Counts loaded counts idx inside h q = elim (Option-cases (item none loaded idx)) [
  | inl empty ↦
      let same : occurrences (some q) (set loaded idx none) ≡ occurrences (some q) loaded =
        omega (arith, occurrences-take loaded idx q none inside empty) in
      rw (empty, same) (h q)
  | inr (p, full) ↦
      let at_p : occurrences (some p) loaded ≡ occurrences (some p) (set loaded idx none) + 1 =
        sym (occurrences-take loaded idx p (some p) inside full) ∙ rw (eqb_refl p) refl in
      let entry : lookup p counts ≡ some (occurrences (some p) loaded) =
        h p ∙ counted_pos _ (omega arith) in
      let at_q = occurrences-take loaded idx q (some p) inside full in
      rw full (
        decrement-Counts counts p q _ (omega arith) entry ∙ elim (Bool-cases (eqb p q)) [
          | inl t ↦
              let left : occurrences (some p) loaded - 1
                  ≡ occurrences (some q) (set loaded idx none) =
                rw (← eqb→eq p q t) (omega arith) in
              rw (t, left) refl
          | inr f ↦
              let same : occurrences (some q) loaded ≡ occurrences (some q) (set loaded idx none) =
                sym at_q ∙ rw f (omega arith) in
              rw f (h q ∙ ap counted same)
        ])
]

pub entered-Counts :
    (loaded : List (Option WorkerProfile)) (counts : List (WorkerProfile × ℕ)) (idx : ℕ)
    (p : WorkerProfile)
    → idx < length loaded
    → item none loaded idx ≡ none
    → Counts loaded counts
    → Counts (set loaded idx (some p)) (increment_profile_count counts p)
entered-Counts loaded counts idx p inside empty h q =
    increment-Counts counts p q _ (h p)
    ∙ rw (occurrences-enter loaded idx p q inside empty) (elim (Bool-cases (eqb p q)) [
      | inl t ↦ rw (t, ← eqb→eq p q t) refl
      | inr f ↦
          let same : occurrences (some q) loaded + 0 ≡ occurrences (some q) loaded = omega arith in
          rw (f, same) (h q)
    ])
