-- ===== src/Workers/SourceCache/Recent.antt =====
-- `SourceCache` of crates/biei-core/src/worker.rs keeps the sources that were used last.
use biei.Prelude.{
  ℕ, zero, suc, ◌+◌, ◌-◌, ◌<◌, ◌≤◌, ◌≡◌, refl, sym, ap, true, List, [], ◌∷◌, ◌++◌, inl, inr, leb,
  length, length-append, length-drop, drop, last_items, eqb, eqb→eq, contains, without, IsDistinct,
  nat_Eq, arith, Bool-cases, without_absent, without-IsDistinct, contains-without_self,
  IsDistinct-snoc, length-without-le, contains-append, eqb_refl,
}
use biei.Workers.SourceCache.{SourceCache, new_cache, cached, remove_first, trim, touch}

-- A cache with room for one source at least, that holds no source twice and no more than it may.
pub record IsCache (cache : SourceCache) : Type 0 where
  pub room : 0 < cache.capacity
  pub once : IsDistinct cache.entries
  pub bounded : length cache.entries ≤ cache.capacity

remove_first-without : (h : ℕ) (xs : List ℕ) → IsDistinct xs → remove_first h xs ≡ without h xs
unfolding remove_first
remove_first-without h [] d = refl
remove_first-without h (x ∷ xs) d = elim (Bool-cases (eqb x h)) [
  | inl t ↦ rw t (sym (without_absent h xs (rw (← eqb→eq x h t) d.0)))
  | inr f ↦ rw f (ap (λ (t : List ℕ). x ∷ t) (remove_first-without h xs d.1))
]

drop_all : (xs : List ℕ) → drop (length xs) xs ≡ []
drop_all [] = refl
drop_all (x ∷ xs) = drop_all xs

trim-last_items : (capacity : ℕ) (xs : List ℕ) → trim capacity xs ≡ last_items capacity xs
unfolding trim
trim-last_items capacity [] = let nothing : 0 - capacity ≡ 0 = omega arith in rw nothing refl
trim-last_items capacity (x ∷ xs) = elim (Bool-cases (leb (length (x ∷ xs)) capacity)) [
  | inl fits ↦
      let none_over : suc (length xs) - capacity ≡ 0 = ground arith in rw (fits, none_over) refl
  | inr over ↦
      let one_more : suc (length xs) - capacity ≡ suc (length xs - capacity) = ground arith in
      rw (over, one_more) (trim-last_items capacity xs)
]

drop-IsDistinct : (n : ℕ) (xs : List ℕ) → IsDistinct xs → IsDistinct (drop n xs)
drop-IsDistinct zero xs d = d
drop-IsDistinct (suc n) [] d = d
drop-IsDistinct (suc n) (x ∷ xs) d = drop-IsDistinct n xs d.1

-- The last item is kept, when one is.
contains-last :
    (n h : ℕ) (xs : List ℕ) → n ≤ length xs → contains h (drop n (xs ++ (h ∷ []))) ≡ true
contains-last zero h xs le = rw (contains-append h xs (h ∷ []), eqb_refl h) (ground arith)
contains-last (suc n) h [] le = absurd (omega arith)
contains-last (suc n) h (x ∷ xs) le = contains-last n h xs (omega arith)

pub new_cache-IsCache : (capacity : ℕ) → IsCache (new_cache capacity)
new_cache-IsCache capacity = record { room = omega arith; once = tt; bounded = omega arith }

-- `touch` keeps a cache in order. The sources are then the old ones with the touched one moved, or
-- added, to the end, cut to as many of the last as the capacity allows, and the touched one is
-- cached.
pub touch-IsCache :
    (cache : SourceCache) (h : ℕ)
    → IsCache cache
    → IsCache (touch cache h)
      × ((touch cache h).entries ≡ last_items cache.capacity (without h cache.entries ++ (h ∷ [])))
      × (cached (touch cache h) h ≡ true)
unfolding touch
touch-IsCache cache h k =
    let moved = without h cache.entries ++ (h ∷ []) in
    let order : (touch cache h).entries ≡ last_items cache.capacity moved =
      rw (remove_first-without h cache.entries k.once) (trim-last_items cache.capacity moved) in
    let distinct : IsDistinct moved =
      IsDistinct-snoc (without h cache.entries) h (without-IsDistinct h cache.entries k.once)
        (contains-without_self h cache.entries) in
    let size : length moved ≡ length (without h cache.entries) + 1 =
      length-append (without h cache.entries) (h ∷ []) in
    (
      record {
        room = k.room;
        once = rw order (drop-IsDistinct (length moved - cache.capacity) moved distinct);
        bounded = rw order (omega (arith, length-drop (length moved - cache.capacity) moved));
      },
      order,
      rw order (
          contains-last (length moved - cache.capacity) h (without h cache.entries)
            (omega (arith, k.room, k.bounded, length-without-le h cache.entries))),
    )
