-- ===== src/Workers/Stages/Tracks.antt =====
-- What a worker of crates/biei-core/src/worker.rs believes its renderer holds is what the calls have
-- made of it.
use biei.Prelude.{
  ℕ, ◌≡◌, refl, Bool, true, false, ◌||◌, ◌⊎◌, if◌then◌else◌, inl, inr, List, [], ◌∷◌, Option, none,
  some, Result, ok, err, leb, length, eqb, eqb→eq, nat_Eq, contains, All, All-imp, All-append,
  Bool-cases,
}
use biei.Workers.Profile.{WorkerProfile, profile_Eq, option_Eq}
use biei.Workers.SourceCache.{touch, trim, remove_first}
use biei.Workers.Stages.{
  StageFailure, deadline_exceeded, permit_closed, renderer_error, CachePolicy, cacheable, one_shot,
  Call, setup_done, setup_broken, draw_broken, actor_renewed, source_ensured, drawn, loaded,
  reach_actor, Slot, settle, invalidates_warm_state, touch_cacheable,
}

-- The sources that were ensured since the last set-up, while its profile is held.
abbrev pub ensured : List Call → List ℕ
ensured [] = []
ensured (setup_done profile partition ∷ calls) = []
ensured (setup_broken loses ∷ calls) = if loses then [] else ensured calls
ensured (draw_broken loses ∷ calls) = if loses then [] else ensured calls
ensured (actor_renewed ∷ calls) = []
ensured (source_ensured hash ∷ calls) = hash ∷ ensured calls
ensured (drawn task ∷ calls) = ensured calls

abbrev pub HasSource : Option (ℕ × CachePolicy) → List Call → Type 0
HasSource none calls = Unit {0}
HasSource (some source) calls = contains source.0 (ensured calls) ≡ true

-- Each task was drawn with its own profile and partition set up, and its source ensured.
abbrev pub IsFaithful : List Call → Type 0
IsFaithful [] = Unit {0}
IsFaithful (setup_done profile partition ∷ calls) = IsFaithful calls
IsFaithful (setup_broken loses ∷ calls) = IsFaithful calls
IsFaithful (draw_broken loses ∷ calls) = IsFaithful calls
IsFaithful (actor_renewed ∷ calls) = IsFaithful calls
IsFaithful (source_ensured hash ∷ calls) = IsFaithful calls
IsFaithful (drawn task ∷ calls) =
    ((loaded calls ≡ some (task.profile, task.partition)) × HasSource task.source calls)
    × IsFaithful calls

abbrev pub AllEnsured : List Call → List ℕ → Type 0
AllEnsured calls = All (λ hash. contains hash (ensured calls) ≡ true)

-- The profile that the worker takes for set up is, and the sources in its cache are ensured.
abbrev pub IsBelieved : Slot → Type 0
IsBelieved slot =
    ((p : WorkerProfile × Option ℕ) → slot.current_profile ≡ some p → loaded slot.calls ≡ some p)
    × AllEnsured slot.calls slot.cache.entries

-- The renderer holds nothing, or what the worker believes; and every task was drawn as it should.
pub record IsTracked (slot : Slot) : Type 0 where
  pub held : (loaded slot.calls ≡ none) ⊎ IsBelieved slot
  pub faithful : IsFaithful slot.calls

-- A result of a stage: `P` for a success, and a slot in order once a failure is settled.
abbrev pub Post : {A : Type 0} → (A → Slot → Type 0) → Slot × Result StageFailure A → Type 0
Post P (slot, ok a) = P a slot
Post P (slot, err failure) = IsTracked (settle slot failure)

pub settle-IsTracked :
    (slot : Slot) (failure : StageFailure) → IsTracked slot → IsTracked (settle slot failure)
unfolding settle
settle-IsTracked slot (deadline_exceeded at) h = h
settle-IsTracked slot (permit_closed at) h = h
settle-IsTracked slot (renderer_error at e) h = elim (Bool-cases (invalidates_warm_state e)) [
  | inl t ↦ rw t (record { held = inr (λ p found. absurd (cc), tt); faithful = h.faithful })
  | inr f ↦ rw f h
]

remove_first-All :
    (P : ℕ → Type 0) (hash : ℕ) (xs : List ℕ) → All P xs → All P (remove_first hash xs)
unfolding remove_first
remove_first-All P hash [] h = tt
remove_first-All P hash (x ∷ xs) h = elim (Bool-cases (eqb x hash)) [
  | inl t ↦ rw t h.1
  | inr f ↦ rw f (h.0, remove_first-All P hash xs h.1)
]

trim-All : (P : ℕ → Type 0) (capacity : ℕ) (xs : List ℕ) → All P xs → All P (trim capacity xs)
unfolding trim
trim-All P capacity [] h = tt
trim-All P capacity (x ∷ xs) h = elim (Bool-cases (leb (length (x ∷ xs)) capacity)) [
  | inl t ↦ rw t h
  | inr f ↦ rw f (trim-All P capacity xs h.1)
]

-- Touching a source that is ensured if the renderer holds a profile, under either policy.
pub touch_cacheable-IsTracked :
    (policy : CachePolicy) (hash : ℕ) (slot : Slot)
    → (loaded slot.calls ≡ none) ⊎ (contains hash (ensured slot.calls) ≡ true)
    → IsTracked slot
    → IsTracked (touch_cacheable policy hash slot)
unfolding touch
touch_cacheable-IsTracked one_shot hash slot known h = h
touch_cacheable-IsTracked cacheable hash slot known h = record {
  held = elim known [
    | inl nothing ↦ inl nothing
    | inr is ↦ elim h.held [
      | inl nothing ↦ inl nothing
      | inr (current, sources) ↦ inr (
        current,
        trim-All _ slot.cache.capacity _ (
            All-append _ (remove_first hash slot.cache.entries) (hash ∷ [])
              (remove_first-All _ hash slot.cache.entries sources) (is, tt)),
      )
    ]
  ];
  faithful = h.faithful;
}

or_right : (a b : Bool) → b ≡ true → (a || b) ≡ true
or_right true b h = refl
or_right false b h = h

-- One more ensured source.
pub ensured-IsTracked :
    (hash : ℕ) (slot : Slot)
    → IsTracked slot
    → IsTracked (record slot { calls = source_ensured hash ∷ slot.calls })
ensured-IsTracked hash slot h = record {
  held = elim h.held [
    | inl nothing ↦ inl nothing
    | inr (current, sources) ↦ inr (
      current,
      All-imp _ (λ x. contains x (hash ∷ ensured slot.calls) ≡ true) slot.cache.entries
          (λ x known. or_right (eqb hash x) (contains x (ensured slot.calls)) known) sources,
    )
  ];
  faithful = h.faithful;
}

-- A new actor holds nothing.
pub reach_actor-IsTracked :
    (renews : Bool) (slot : Slot) → IsTracked slot → IsTracked (reach_actor renews slot)
reach_actor-IsTracked true slot h = record { held = inl refl; faithful = h.faithful }
reach_actor-IsTracked false slot h = h

-- A failed call loses the profile, or nothing.
pub setup_broken-IsTracked :
    (loses : Bool) (slot : Slot)
    → IsTracked slot
    → IsTracked (record slot { calls = setup_broken loses ∷ slot.calls })
setup_broken-IsTracked true slot h = record { held = inl refl; faithful = h.faithful }
setup_broken-IsTracked false slot h = record { held = h.held; faithful = h.faithful }

pub draw_broken-IsTracked :
    (loses : Bool) (slot : Slot)
    → IsTracked slot
    → IsTracked (record slot { calls = draw_broken loses ∷ slot.calls })
draw_broken-IsTracked true slot h = record { held = inl refl; faithful = h.faithful }
draw_broken-IsTracked false slot h = record { held = h.held; faithful = h.faithful }

-- A cached source is ensured.
pub cached-ensured :
    (hash : ℕ) (calls : List Call) (entries : List ℕ)
    → AllEnsured calls entries
    → contains hash entries ≡ true
    → contains hash (ensured calls) ≡ true
cached-ensured hash calls [] h found = absurd (cc)
cached-ensured hash calls (x ∷ entries) h found = elim (Bool-cases (eqb x hash)) [
  | inl t ↦ rw (← eqb→eq x hash t) h.0
  | inr f ↦ cached-ensured hash calls entries h.1 (rw f at found)
]
