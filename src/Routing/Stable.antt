-- ===== src/Routing/Stable.antt =====
-- The candidates of routing.rs do not depend on the order in which the members are listed.
use Prim.Native.Nat.{compare, Ordering}
use Prim.Native.String.{String, compare as compare_string}
use text.Mathlib.TextEquality.{path_by_compare}
use biei.Prelude.{
  ◌/◌, ℕ, ◌≡◌, refl, sym, ap, ◌∙◌, ◌⊎◌, inl, inr, arith, List, [], ◌∷◌, map, All, take, flip,
  IsOrder, reverse-IsOrder, then_by-IsOrder, then_by-eq,
}
use biei.Prelude.Strings.{string_compare-IsOrder}
use biei.Routing.{Peer, ScoredPeer, HrwRouter, push, cmp, candidate, route_tile}
use biei.Routing.Sorted.{sort_loop, ranking, route_group-take}

-- Two lists of the same items in another order.
pub data Reordered {A : Type 0} : List A → List A → Type 0 where
  same : (xs : List A) → Reordered xs xs
  keep : (x : A) {xs ys : List A} → Reordered xs ys → Reordered (x ∷ xs) (x ∷ ys)
  exchange : (x y : A) (xs : List A) → Reordered (x ∷ y ∷ xs) (y ∷ x ∷ xs)
  chain : {xs ys zs : List A} → Reordered xs ys → Reordered ys zs → Reordered xs zs

Ordering-cases : (o : Ordering) → (o ≡ Ordering.lt) ⊎ (o ≡ Ordering.eq) ⊎ (o ≡ Ordering.gt)
Ordering-cases Ordering.lt = inl refl
Ordering-cases Ordering.eq = inr (inl refl)
Ordering-cases Ordering.gt = inr (inr refl)

All-Reordered :
    {A : Type 0} (P : A → Type 0) {xs ys : List A} → Reordered xs ys → All P xs → All P ys
All-Reordered P (same xs) h = h
All-Reordered P (keep x r) h = (h.0, All-Reordered P r h.1)
All-Reordered P (exchange x y xs) h = (h.1.0, (h.0, h.1.1))
All-Reordered P (chain r1 r2) h = All-Reordered P r2 (All-Reordered P r1 h)

map-Reordered :
    {A B : Type 0} (f : A → B) {xs ys : List A} → Reordered xs ys → Reordered (map f xs) (map f ys)
map-Reordered f (same xs) = same (map f xs)
map-Reordered f (keep x r) = keep (f x) (map-Reordered f r)
map-Reordered f (exchange x y xs) = exchange (f x) (f y) (map f xs)
map-Reordered f (chain r1 r2) = chain (map-Reordered f r1) (map-Reordered f r2)

module _ (cmp : ScoredPeer → ScoredPeer → Ordering) (order : IsOrder cmp) where
  gt-lt : (a b : ScoredPeer) → cmp a b ≡ Ordering.gt → cmp b a ≡ Ordering.lt
  gt-lt a b h = order.swap a b ∙ ap flip h

  lt-gt : (a b : ScoredPeer) → cmp a b ≡ Ordering.lt → cmp b a ≡ Ordering.gt
  lt-gt a b h = order.swap a b ∙ ap flip h

  push_lt :
      (x z : ScoredPeer) (zs : List ScoredPeer)
      → cmp x z ≡ Ordering.lt
      → push cmp x (z ∷ zs) ≡ x ∷ z ∷ zs
  push_lt x z zs h = rw (push, h) refl

  push_eq :
      (x z : ScoredPeer) (zs : List ScoredPeer)
      → cmp x z ≡ Ordering.eq
      → push cmp x (z ∷ zs) ≡ x ∷ z ∷ zs
  push_eq x z zs h = rw (push, h) refl

  push_gt :
      (x z : ScoredPeer) (zs : List ScoredPeer)
      → cmp x z ≡ Ordering.gt
      → push cmp x (z ∷ zs) ≡ z ∷ push cmp x zs
  push_gt x z zs h = rw (push, h) refl

  -- Both come before `z`.
  both_before :
      (x y z : ScoredPeer) (zs : List ScoredPeer)
      → cmp x y ≡ Ordering.lt
      → cmp x z ≡ Ordering.lt
      → push cmp y (z ∷ zs) ≡ y ∷ z ∷ zs
      → push cmp x (push cmp y (z ∷ zs)) ≡ push cmp y (push cmp x (z ∷ zs))
  both_before x y z zs h xz second =
      ap (push cmp x) second
      ∙ push_lt x y (z ∷ zs) h
      ∙ ap (λ l. x ∷ l) (sym second)
      ∙ sym (push_gt y x (z ∷ zs) (lt-gt x y h))
      ∙ ap (push cmp y) (sym (push_lt x z zs xz))

  -- Only `x` comes before `z`.
  one_before :
      (x y z : ScoredPeer) (zs : List ScoredPeer)
      → cmp x y ≡ Ordering.lt
      → cmp y z ≡ Ordering.gt
      → push cmp x (z ∷ zs) ≡ x ∷ z ∷ zs
      → push cmp x (z ∷ push cmp y zs) ≡ x ∷ z ∷ push cmp y zs
      → push cmp x (push cmp y (z ∷ zs)) ≡ push cmp y (push cmp x (z ∷ zs))
  one_before x y z zs h yz first first' =
      ap (push cmp x) (push_gt y z zs yz)
      ∙ first'
      ∙ ap (λ l. x ∷ l) (sym (push_gt y z zs yz))
      ∙ sym (push_gt y x (z ∷ zs) (lt-gt x y h))
      ∙ ap (push cmp y) (sym first)

  -- The smaller of two is put in the same place before or after the other.
  push_smaller :
      (x y : ScoredPeer) (l : List ScoredPeer)
      → cmp x y ≡ Ordering.lt
      → push cmp x (push cmp y l) ≡ push cmp y (push cmp x l)
  push_smaller x y [] h = push_lt x y [] h ∙ sym (push_gt y x [] (lt-gt x y h))
  push_smaller x y (z ∷ zs) h = elim (Ordering-cases (cmp y z)) [
    | inl yz ↦ both_before x y z zs h (order.below x y z h yz) (push_lt y z zs yz)
    | inr (inl yz) ↦
        let zx : cmp z x ≡ Ordering.gt = sym (order.alike y z x yz) ∙ lt-gt x y h in
        both_before x y z zs h (gt-lt z x zx) (push_eq y z zs yz)
    | inr (inr yz) ↦ elim (Ordering-cases (cmp x z)) [
      | inl xz ↦ one_before x y z zs h yz (push_lt x z zs xz) (push_lt x z (push cmp y zs) xz)
      | inr (inl xz) ↦ one_before x y z zs h yz (push_eq x z zs xz) (push_eq x z (push cmp y zs) xz)
      | inr (inr xz) ↦
          ap (push cmp x) (push_gt y z zs yz)
          ∙ push_gt x z (push cmp y zs) xz
          ∙ ap (λ l. z ∷ l) (push_smaller x y zs h)
          ∙ sym (push_gt y z (push cmp x zs) yz)
          ∙ ap (push cmp y) (sym (push_gt x z zs xz))
    ]
  ]

  pub push-push :
      (x y : ScoredPeer) (l : List ScoredPeer)
      → (cmp x y ≡ Ordering.eq → x ≡ y)
      → push cmp x (push cmp y l) ≡ push cmp y (push cmp x l)
  push-push x y l h = elim (Ordering-cases (cmp x y)) [
    | inl lt ↦ push_smaller x y l lt
    | inr (inl eq) ↦ rw (h eq) refl
    | inr (inr gt) ↦ sym (push_smaller y x l (gt-lt x y gt))
  ]

  -- Sorting forgets the order.
  pub sort_loop-Reordered :
      (Known : ScoredPeer → Type 0)
      → ((x y : ScoredPeer) → Known x → Known y → cmp x y ≡ Ordering.eq → x ≡ y)
      → {xs ys : List ScoredPeer} → Reordered xs ys
      → All Known xs
      → (sorted : List ScoredPeer) → sort_loop cmp xs sorted ≡ sort_loop cmp ys sorted
  sort_loop-Reordered Known one (same xs) all sorted = refl
  sort_loop-Reordered Known one (keep x r) all sorted =
      sort_loop-Reordered Known one r all.1 (push cmp x sorted)
  sort_loop-Reordered Known one (exchange x y xs) all sorted =
      ap (sort_loop cmp xs) (push-push y x sorted (one y x all.1.0 all.0))
  sort_loop-Reordered Known one (chain r1 r2) all sorted =
      sort_loop-Reordered Known one r1 all sorted
      ∙ sort_loop-Reordered Known one r2 (All-Reordered Known r1 all) sorted

on_id-IsOrder : IsOrder (λ (a b : ScoredPeer). compare_string a.peer.id b.peer.id)
on_id-IsOrder = record {
  swap = λ a b. string_compare-IsOrder.swap a.peer.id b.peer.id;
  alike = λ a b c h. string_compare-IsOrder.alike a.peer.id b.peer.id c.peer.id h;
  below = λ a b c h k. string_compare-IsOrder.below a.peer.id b.peer.id c.peer.id h k;
}

cmp-IsOrder : IsOrder cmp
cmp-IsOrder =
    then_by-IsOrder (λ a b. compare b.score a.score) (λ a b. compare_string a.peer.id b.peer.id)
      (reverse-IsOrder (λ a. a.score)) on_id-IsOrder

-- Candidates that compare as equal are the same.
cmp-eq :
    (addr_of : String → ℕ) (x y : ScoredPeer)
    → x.peer.addr ≡ addr_of x.peer.id
    → y.peer.addr ≡ addr_of y.peer.id
    → cmp x y ≡ Ordering.eq
    → x ≡ y
cmp-eq addr_of x y hx hy h =
    let (scores, ids) =
      then_by-eq (compare y.score x.score) (compare_string x.peer.id y.peer.id) h in
    let score : x.score ≡ y.score = ground arith in
    let id : x.peer.id ≡ y.peer.id = path_by_compare x.peer.id y.peer.id ids in
    let addr : x.peer.addr ≡ y.peer.addr = hx ∙ ap addr_of id ∙ sym hy in
    ground (arith, score, id, addr)

All-candidate :
    (hrw_weight : String → ℕ → String → ℕ) (addr_of : String → ℕ) (key : String) (group_id : ℕ)
    (peers : List Peer)
    → All (λ p. p.addr ≡ addr_of p.id) peers
    → All (λ x. x.peer.addr ≡ addr_of x.peer.id) (map (candidate hrw_weight key group_id) peers)
All-candidate hrw_weight addr_of key group_id [] h = tt
All-candidate hrw_weight addr_of key group_id (p ∷ peers) h =
    (h.0, All-candidate hrw_weight addr_of key group_id peers h.1)

-- With one address for each id: `route_tile` gives the first `candidate_count` of the members,
-- sorted by falling score for the group of the tile and then by id, and the order in which the
-- view lists the members makes no difference.
pub route_tile-Reordered :
    (hrw_weight : String → ℕ → String → ℕ) (addr_of : String → ℕ) (router : HrwRouter)
    (tileset_id : String) (tile_id : ℕ) (peers listed : List Peer)
    → All (λ p. p.addr ≡ addr_of p.id) peers
    → Reordered peers listed
    → (route_tile hrw_weight router peers tileset_id tile_id
        ≡ take router.candidate_count
            (ranking hrw_weight tileset_id (tile_id / router.tile_group_size) peers []))
      × (route_tile hrw_weight router listed tileset_id tile_id
          ≡ route_tile hrw_weight router peers tileset_id tile_id)
unfolding route_tile
route_tile-Reordered hrw_weight addr_of router tileset_id tile_id peers listed known r =
    let group_id = tile_id / router.tile_group_size in
    let sorted =
      sort_loop-Reordered cmp cmp-IsOrder (λ x. x.peer.addr ≡ addr_of x.peer.id) (cmp-eq addr_of)
        (map-Reordered (candidate hrw_weight tileset_id group_id) r)
        (All-candidate hrw_weight addr_of tileset_id group_id peers known) [] in
    (
      route_group-take hrw_weight router peers tileset_id group_id,
      route_group-take hrw_weight router listed tileset_id group_id
          ∙ ap (take router.candidate_count) (sym sorted)
          ∙ sym (route_group-take hrw_weight router peers tileset_id group_id),
    )
