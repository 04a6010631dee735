-- ===== src/Workers/State/Keeps.antt =====
-- Each operation of `PoolState` in crates/biei-core/src/worker_pool.rs keeps its invariant.
use Prim.Native.String.{String}
use biei.Prelude.{
  ℕ, zero, suc, ◌+◌, ◌<◌, ◌%◌, ◌^◌, ◌≡◌, ◌≢◌, refl, ◌∙◌, List, [], ◌∷◌, none, some, inl, inr, eqb,
  eqb→eq, eqb→ne, item, set, length, replicate, arith, occurrences, ◌==◌, length-set,
  length-replicate, item-set_self, item-set_ne, item-replicate, last_items, without, ◌++◌,
  string_Eq, Bool-cases, nat_Eq,
}
use biei.Workers.Profile.{WorkerProfile, profile_Eq, option_Eq}
use biei.Workers.Affinity.{
  IsAffinity, empty-IsAffinity, mark_source, mark_source-keeps, affinity_capacity,
}
use biei.Workers.State.{
  PoolState, new_state, clear_addlayer_sources, take_loaded, enter_profile, stamp, mark_loaded,
  mark_addlayer_source, clear_loaded, clear_loaded_if_latest,
}
use biei.Workers.State.Sound.{IsPoolState, taken-Counts, entered-Counts}

set-IsAffinity :
    (all_ids all_lru : List (List String)) (idx : ℕ) (ids lru : List String)
    → idx < length all_ids
    → idx < length all_lru
    → IsAffinity ids lru
    → ((i : ℕ) → IsAffinity (item [] all_ids i) (item [] all_lru i))
    → (i : ℕ) → IsAffinity (item [] (set all_ids idx ids) i) (item [] (set all_lru idx lru) i)
set-IsAffinity all_ids all_lru idx ids lru h k new old i = elim (Bool-cases (eqb idx i)) [
  | inl t ↦
      rw (← eqb→eq idx i t, item-set_self [] all_ids idx ids h, item-set_self [] all_lru idx lru k)
        new
  | inr f ↦
      let other = eqb→ne idx i f in
      rw (item-set_ne [] all_ids idx i ids other, item-set_ne [] all_lru idx i lru other) (old i)
]

no_occurrences : (n : ℕ) (q : WorkerProfile) → occurrences (some q) (replicate n none) ≡ 0
no_occurrences zero q = refl
no_occurrences (suc n) q = no_occurrences n q

pub new_state-IsPoolState : (n : ℕ) → IsPoolState n (new_state n)
new_state-IsPoolState n = record {
  loaded_size = length-replicate n none;
  generations_size = length-replicate n 0;
  used_size = length-replicate n none;
  ids_size = length-replicate n [];
  lru_size = length-replicate n [];
  counts = λ p. rw (no_occurrences n p) refl;
  affinity = λ i. rw (item-replicate {A = List String} [] n i) empty-IsAffinity;
}

stamp-IsPoolState :
    (n : ℕ) (s : PoolState) (idx now : ℕ) → IsPoolState n s → IsPoolState n (stamp s idx now)
stamp-IsPoolState n s idx now h = record {
  loaded_size = h.loaded_size;
  generations_size = length-set s.dispatch_generations idx _ ∙ h.generations_size;
  used_size = length-set s.last_used idx _ ∙ h.used_size;
  ids_size = h.ids_size;
  lru_size = h.lru_size;
  counts = h.counts;
  affinity = h.affinity;
}

take_loaded-IsPoolState :
    (n : ℕ) (s : PoolState) (idx : ℕ)
    → idx < n
    → IsPoolState n s
    → IsPoolState n (take_loaded s idx)
take_loaded-IsPoolState n s idx inside h = record {
  loaded_size = length-set s.loaded idx none ∙ h.loaded_size;
  generations_size = h.generations_size;
  used_size = h.used_size;
  ids_size = h.ids_size;
  lru_size = h.lru_size;
  counts = taken-Counts s.loaded s.profile_counts idx (omega (arith, h.loaded_size)) h.counts;
  affinity = h.affinity;
}

clear_addlayer_sources-IsPoolState :
    (n : ℕ) (s : PoolState) (idx : ℕ)
    → idx < n
    → IsPoolState n s
    → IsPoolState n (clear_addlayer_sources s idx)
clear_addlayer_sources-IsPoolState n s idx inside h = record {
  loaded_size = h.loaded_size;
  generations_size = h.generations_size;
  used_size = h.used_size;
  ids_size = length-set s.addlayer_source_ids idx [] ∙ h.ids_size;
  lru_size = length-set s.addlayer_source_lru idx [] ∙ h.lru_size;
  counts = h.counts;
  affinity =
      set-IsAffinity s.addlayer_source_ids s.addlayer_source_lru idx [] []
        (omega (arith, h.ids_size)) (omega (arith, h.lru_size)) empty-IsAffinity h.affinity;
}

enter_profile-IsPoolState :
    (n : ℕ) (s : PoolState) (idx : ℕ) (profile : WorkerProfile)
    → idx < n
    → item none s.loaded idx ≡ none
    → IsPoolState n s
    → IsPoolState n (enter_profile s idx profile)
enter_profile-IsPoolState n s idx profile inside empty h = record {
  loaded_size = length-set s.loaded idx (some profile) ∙ h.loaded_size;
  generations_size = h.generations_size;
  used_size = h.used_size;
  ids_size = h.ids_size;
  lru_size = h.lru_size;
  counts =
      entered-Counts s.loaded s.profile_counts idx profile (omega (arith, h.loaded_size)) empty
        h.counts;
  affinity = h.affinity;
}

-- After `clear_loaded` the pool state is in order, the worker has nothing loaded, and the profiles
-- of the others and every dispatch generation are as before.
pub clear_loaded-keeps :
    (n : ℕ) (s : PoolState) (idx : ℕ)
    → idx < n
    → IsPoolState n s
    → IsPoolState n (clear_loaded s idx)
      × (item none (clear_loaded s idx).loaded idx ≡ none)
      × ((j : ℕ) → idx ≢ j → item none (clear_loaded s idx).loaded j ≡ item none s.loaded j)
      × ((clear_loaded s idx).dispatch_generations ≡ s.dispatch_generations)
unfolding clear_loaded
clear_loaded-keeps n s idx inside h =
    let taken = take_loaded-IsPoolState n s idx inside h in
    let cooled : IsPoolState n
        (record (take_loaded s idx) { last_used = set s.last_used idx none }) =
      record {
        loaded_size = taken.loaded_size;
        generations_size = taken.generations_size;
        used_size = length-set s.last_used idx none ∙ h.used_size;
        ids_size = taken.ids_size;
        lru_size = taken.lru_size;
        counts = taken.counts;
        affinity = taken.affinity;
      } in
    (
      clear_addlayer_sources-IsPoolState n _ idx inside cooled,
      item-set_self none s.loaded idx none (omega (arith, h.loaded_size)),
      λ j other. item-set_ne none s.loaded idx j none other,
      refl,
    )

-- `mark_loaded` with a valid worker index keeps the pool state in order. The worker then has the
-- profile loaded, the other workers have what they had, and the generation that is returned is the
-- new one of the worker: the old one plus 1, modulo 2^64.
pub mark_loaded-keeps :
    (n : ℕ) (s : PoolState) (idx : ℕ) (profile : WorkerProfile) (now : ℕ)
    → idx < n
    → IsPoolState n s
    → IsPoolState n (mark_loaded s idx profile now).0
      × (item none (mark_loaded s idx profile now).0.loaded idx ≡ some profile)
      × ((j : ℕ)
          → idx ≢ j
          → item none (mark_loaded s idx profile now).0.loaded j ≡ item none s.loaded j)
      × ((mark_loaded s idx profile now).0.dispatch_generations
          ≡ set s.dispatch_generations idx (mark_loaded s idx profile now).1)
      × ((mark_loaded s idx profile now).1 ≡ (item 0 s.dispatch_generations idx + 1) % 2 ^ 64)
unfolding mark_loaded
mark_loaded-keeps n s idx profile now inside h =
    let stamped = stamp-IsPoolState n s idx now h in
    let next = (item 0 s.dispatch_generations idx + 1) % 2 ^ 64 in
    let generation : item 0 (set s.dispatch_generations idx next) idx ≡ next =
      item-set_self 0 s.dispatch_generations idx next (omega (arith, h.generations_size)) in
    elim (Bool-cases (eqb (item none s.loaded idx) (some profile))) [
      | inl warm ↦ rw (warm, generation) (stamped, eqb→eq _ _ warm, λ j other. refl, refl, refl)
      | inr cold ↦
          let taken = take_loaded-IsPoolState n (stamp s idx now) idx inside stamped in
          let cleared = clear_addlayer_sources-IsPoolState n _ idx inside taken in
          let size : length s.loaded ≡ n = h.loaded_size in
          let empty = item-set_self none s.loaded idx none (omega arith) in
          let entered = enter_profile-IsPoolState n _ idx profile inside empty cleared in
          rw (cold, generation)
            (
              entered,
              item-set_self none (set s.loaded idx none) idx (some profile)
                  (omega (arith, length-set s.loaded idx none)),
              λ j other.
                  item-set_ne none (set s.loaded idx none) idx j (some profile) other
                  ∙ item-set_ne none s.loaded idx j none other,
              refl,
              refl,
            )
    ]

-- `clear_loaded_if_latest` keeps the pool state in order.
pub clear_loaded_if_latest-keeps :
    (n : ℕ) (s : PoolState) (idx generation : ℕ)
    → idx < n
    → IsPoolState n s
    → IsPoolState n (clear_loaded_if_latest s idx generation)
unfolding clear_loaded_if_latest
clear_loaded_if_latest-keeps n s idx generation inside h =
    elim (Bool-cases (item 0 s.dispatch_generations idx == generation)) [
      | inl latest ↦ rw latest (clear_loaded-keeps n s idx inside h).0
      | inr old ↦ rw old h
    ]

-- `mark_addlayer_source` keeps the pool state in order, and moves the source to the end of the
-- queue of the worker, cut to the 64 sources that were used last.
pub mark_addlayer_source-keeps :
    (n : ℕ) (s : PoolState) (idx : ℕ) (source_id : String)
    → idx < n
    → IsPoolState n s
    → IsPoolState n (mark_addlayer_source s idx source_id)
      × (item [] (mark_addlayer_source s idx source_id).addlayer_source_lru idx
          ≡ last_items affinity_capacity
              (without source_id (item [] s.addlayer_source_lru idx) ++ (source_id ∷ [])))
unfolding mark_addlayer_source
mark_addlayer_source-keeps n s idx x inside h =
    let ids = item [] s.addlayer_source_ids idx in
    let lru = item [] s.addlayer_source_lru idx in
    let (sound, order) = mark_source-keeps ids lru x (h.affinity idx) in
    (
      record {
        loaded_size = h.loaded_size;
        generations_size = h.generations_size;
        used_size = h.used_size;
        ids_size = length-set s.addlayer_source_ids idx _ ∙ h.ids_size;
        lru_size = length-set s.addlayer_source_lru idx _ ∙ h.lru_size;
        counts = h.counts;
        affinity =
            set-IsAffinity s.addlayer_source_ids s.addlayer_source_lru idx (mark_source ids lru x).0
              (mark_source ids lru x).1 (omega (arith, h.ids_size)) (omega (arith, h.lru_size))
              sound h.affinity;
      },
      item-set_self [] s.addlayer_source_lru idx _ (omega (arith, h.lru_size)) ∙ order,
    )
