-- ===== src/Workers/Affinity.antt =====
-- The addlayer sources that a worker has seen, of `PoolState` in
-- crates/biei-core/src/worker_pool.rs: a `HashSet` for the tests and a `VecDeque` with the least
-- recently used source in front.
use Prim.Native.String.{String}
use biei.Prelude.{
  string_Eq, ℕ, suc, zero, ◌+◌, ◌-◌, ◌<◌, ◌≤◌, ◌≡◌, refl, ◌∙◌, sym, true, false, inl, inr, List, [],
  ◌∷◌, ◌++◌, leb, last_items, drop-append, if◌then◌else◌, length, drop, length-append, arith, eqb,
  eqb→eq, eqb_refl, eqb_sym, contains, without, IsDistinct, Bool-cases, contains-append,
  contains-without_self, contains-without_ne, without-IsDistinct, without_absent,
  length-without_member, IsDistinct-snoc,
}

abbrev pub affinity_capacity : ℕ
affinity_capacity = 64

-- `while ids.len() >= CAPACITY && let Some(evicted) = lru.pop_front()`.
unfoldable pub evict : List String → List String → List String × List String
evict ids [] = (ids, [])
evict ids (evicted ∷ lru) =
    let rest = evict (without evicted ids) lru in
    if leb affinity_capacity (length ids) then rest else (ids, evicted ∷ lru)

-- `HashSet::insert`.
abbrev pub set_insert : String → List String → List String
set_insert source ids = if contains source ids then ids else source ∷ ids

-- `PoolState::mark_addlayer_source`, on the set and the queue of one worker.
unfoldable pub mark_source : List String → List String → String → List String × List String
mark_source ids lru source_id =
    if contains source_id ids
    then (ids, without source_id lru ++ (source_id ∷ []))
    else (let kept = evict ids lru in (set_insert source_id kept.0, kept.1 ++ (source_id ∷ [])))

-- The set and the queue hold the same sources, each once, and not too many.
pub record IsAffinity (ids lru : List String) : Type 0 where
  pub ids_once : IsDistinct ids
  pub lru_once : IsDistinct lru
  pub agree : (x : String) → contains x ids ≡ contains x lru
  pub as_long : length ids ≡ length lru
  pub bounded : length ids ≤ affinity_capacity

pub empty-IsAffinity : IsAffinity [] []
empty-IsAffinity = record {
  ids_once = tt;
  lru_once = tt;
  agree = λ x. refl;
  as_long = refl;
  bounded = omega arith;
}

tail-IsAffinity :
    (ids lru : List String) (x : String) → IsAffinity ids (x ∷ lru) → IsAffinity (without x ids) lru
tail-IsAffinity ids lru x h =
    let head = eqb_refl x in
    let member : contains x ids ≡ true = rw (h.agree x, head) refl in
    let shorter = length-without_member x ids h.ids_once member in
    record {
      ids_once = without-IsDistinct x ids h.ids_once;
      lru_once = h.lru_once.1;
      agree = λ y. elim (Bool-cases (eqb y x)) [
        | inl t ↦ rw (eqb→eq y x t, contains-without_self x ids, h.lru_once.0) refl
        | inr f ↦
            let other : eqb x y ≡ false = rw (eqb_sym x y) f in
            rw (contains-without_ne x y ids f, h.agree y, other) refl
      ];
      as_long = omega (arith, h.as_long);
      bounded = omega (arith, h.bounded);
    }

-- Eviction drops the front of the queue until one more source fits.
evict-drop :
    (ids lru : List String)
    → IsAffinity ids lru
    → IsAffinity (evict ids lru).0 (evict ids lru).1
      × ((evict ids lru).1 ≡ drop (length lru + 1 - affinity_capacity) lru)
      × (length (evict ids lru).1 < affinity_capacity)
unfolding evict
evict-drop ids [] h = (h, refl, omega arith)
evict-drop ids (x ∷ lru) h = elim (Bool-cases (leb affinity_capacity (length ids))) [
  | inl full ↦
      let size : length lru ≡ 63 = ground (arith, h.as_long, h.bounded) in
      let (sound, cut, short) = evict-drop (without x ids) lru (tail-IsAffinity ids lru x h) in
      rw full (sound, cut ∙ rw size refl, short)
  | inr room ↦
      let none_over : suc (length lru) + 1 - affinity_capacity ≡ 0 = ground (arith, h.as_long) in
      rw room (h, rw none_over refl, ground (arith, h.as_long))
]

snoc-IsAffinity :
    (ids lru : List String) (x : String)
    → IsAffinity ids lru
    → contains x ids ≡ false
    → length lru < affinity_capacity
    → IsAffinity (x ∷ ids) (lru ++ (x ∷ []))
snoc-IsAffinity ids lru x h absent short =
    let fresh : contains x lru ≡ false = sym (h.agree x) ∙ absent in
    record {
      ids_once = (absent, h.ids_once);
      lru_once = IsDistinct-snoc lru x h.lru_once fresh;
      agree = λ y.
          rw (contains-append y lru (x ∷ []), h.agree y)
            (elim (Bool-cases (eqb x y)) [
              | inl t ↦ rw (← eqb→eq x y t, fresh, eqb_refl x) refl
              | inr f ↦ rw f (ground arith)
            ]);
      as_long = omega (arith, length-append lru (x ∷ []), h.as_long);
      bounded = omega (arith, h.as_long);
    }

rotate-IsAffinity :
    (ids lru : List String) (x : String)
    → IsAffinity ids lru
    → contains x ids ≡ true
    → IsAffinity ids (without x lru ++ (x ∷ [])) × (length (without x lru ++ (x ∷ [])) ≡ length lru)
rotate-IsAffinity ids lru x h old =
    let member : contains x lru ≡ true = sym (h.agree x) ∙ old in
    let moved : length (without x lru ++ (x ∷ [])) ≡ length lru = omega (
      arith,
      length-append (without x lru) (x ∷ []),
      length-without_member x lru h.lru_once member,
    ) in
    (
      record {
        ids_once = h.ids_once;
        lru_once =
            IsDistinct-snoc (without x lru) x (without-IsDistinct x lru h.lru_once)
              (contains-without_self x lru);
        agree = λ y. rw (contains-append y (without x lru) (x ∷ [])) (elim (Bool-cases (eqb y x)) [
          | inl t ↦ rw (eqb→eq y x t, contains-without_self x lru, eqb_refl x) old
          | inr f ↦
              let other : eqb x y ≡ false = rw (eqb_sym x y) f in
              rw (contains-without_ne x y lru f, h.agree y, other) (ground arith)
        ]);
        as_long = h.as_long ∙ sym moved;
        bounded = h.bounded;
      },
      moved,
    )

contains-drop :
    (n : ℕ) (x : String) (xs : List String) → contains x xs ≡ false → contains x (drop n xs) ≡ false
contains-drop zero x xs h = h
contains-drop (suc n) x [] h = refl
contains-drop (suc n) x (y ∷ xs) h = contains-drop n x xs (ground arith)

-- `mark_addlayer_source` keeps the set and the queue of a worker in agreement, and the queue is
-- then the old one with the source moved to its end, cut to the 64 sources that were used last.
pub mark_source-keeps :
    (ids lru : List String) (x : String)
    → IsAffinity ids lru
    → IsAffinity (mark_source ids lru x).0 (mark_source ids lru x).1
      × ((mark_source ids lru x).1 ≡ last_items affinity_capacity (without x lru ++ (x ∷ [])))
unfolding mark_source
mark_source-keeps ids lru x h = elim (Bool-cases (contains x ids)) [
  | inl old ↦
      let (sound, moved) = rotate-IsAffinity ids lru x h old in
      let short : length (without x lru ++ (x ∷ [])) - affinity_capacity ≡ 0 =
        omega (arith, h.as_long, h.bounded) in
      rw old (sound, rw short refl)
  | inr new ↦
      let (sound, cut, short) = evict-drop ids lru h in
      let fresh : contains x lru ≡ false = sym (h.agree x) ∙ new in
      let gone : contains x (evict ids lru).0 ≡ false =
        sound.agree x ∙ rw cut (contains-drop _ x lru fresh) in
      let size = length-append lru (x ∷ []) in
      rw (new, gone)
        (
          snoc-IsAffinity (evict ids lru).0 (evict ids lru).1 x sound gone short,
          rw (without_absent x lru fresh, cut, size)
              (sym (
                drop-append (length lru + 1 - 64) lru (x ∷ [])
                  (omega (arith, h.as_long, h.bounded)))),
        )
]
