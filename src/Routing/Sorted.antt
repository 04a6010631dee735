-- ===== src/Routing/Sorted.antt =====
-- The loop of `route_group` in routing.rs keeps the first candidates of the sorted members.
use Prim.Native.Nat.{Ordering}
use Prim.Native.String.{String}
use biei.Prelude.{
  ℕ, zero, suc, ◌≤◌, ◌≡◌, refl, sym, ap, ◌∙◌, inl, inr, arith, List, [], ◌∷◌, ltb, ltb→le, length,
  take, take-take, take_all, length-take, map, Bool-cases,
}
use biei.Routing.{
  Peer, ScoredPeer, HrwRouter, push, pop, cmp, candidate, offer, route_loop, route_group,
}

nil_take : (k : ℕ) → take {A = ScoredPeer} k [] ≡ []
nil_take zero = refl
nil_take (suc k) = refl

-- The candidates of all peers, sorted by insertion.
abbrev pub sort_loop :
    (ScoredPeer → ScoredPeer → Ordering) → List ScoredPeer → List ScoredPeer → List ScoredPeer
sort_loop cmp [] sorted = sorted
sort_loop cmp (x ∷ xs) sorted = sort_loop cmp xs (push cmp x sorted)

module _ (cmp : ScoredPeer → ScoredPeer → Ordering) where
  length-push : (x : ScoredPeer) (l : List ScoredPeer) → length (push cmp x l) ≡ suc (length l)
  length-push x [] = refl
  length-push x (y ∷ ys) = ground (arith, length-push x ys)

  take-take_suc :
      (k : ℕ) (y : ScoredPeer) (ys : List ScoredPeer) → take k (y ∷ take k ys) ≡ take k (y ∷ ys)
  take-take_suc zero y ys = refl
  take-take_suc (suc k) y ys = ap (λ l. y ∷ l) (take-take k (suc k) ys (omega arith))

  -- What is cut off does not matter for what comes first.
  take-push :
      (k : ℕ) (x : ScoredPeer) (l : List ScoredPeer)
      → take k (push cmp x (take k l)) ≡ take k (push cmp x l)
  take-push zero x l = refl
  take-push (suc k) x [] = refl
  take-push (suc k) x (y ∷ ys) =
      elim (cmp x y)
        as (λ o.
          take (suc k) (elim o as (λ _. List ScoredPeer) [
            | Ordering.gt ↦ y ∷ push cmp x (take k ys)
            | _ ↦ x ∷ y ∷ take k ys
          ])
          ≡ take (suc k) (elim o as (λ _. List ScoredPeer) [
            | Ordering.gt ↦ y ∷ push cmp x ys
            | _ ↦ x ∷ y ∷ ys
          ])) [
            | Ordering.gt ↦ ap (λ l. y ∷ l) (take-push k x ys)
            | Ordering.lt ↦ ap (λ l. x ∷ l) (take-take_suc k y ys)
            | Ordering.eq ↦ ap (λ l. x ∷ l) (take-take_suc k y ys)
          ]

pop-take : (k : ℕ) (l : List ScoredPeer) → length l ≡ suc k → pop l ≡ take k l
pop-take k [] h = absurd (omega arith)
pop-take zero (x ∷ []) h = refl
pop-take (suc k) (x ∷ []) h = absurd (omega arith)
pop-take zero (x ∷ y ∷ ys) h = absurd (omega arith)
pop-take (suc k) (x ∷ y ∷ ys) h = ap (λ l. x ∷ l) (pop-take k (y ∷ ys) (omega arith))

module _ (hrw_weight : String → ℕ → String → ℕ) where
  offer-take :
      (k : ℕ) (x : ScoredPeer) (heap : List ScoredPeer)
      → length heap ≤ k
      → offer hrw_weight k x heap ≡ take k (push cmp x heap)
  unfolding offer
  offer-take k x heap h =
      let pushed = push cmp x heap in
      let len : length pushed ≡ suc (length heap) = length-push cmp x heap in
      elim (Bool-cases (ltb k (length pushed))) [
        | inl over ↦
            let full : length pushed ≡ suc k = ground (arith, len) in
            rw over (pop-take k pushed full)
        | inr fits ↦ rw fits (sym (take_all k pushed (ltb→le k (length pushed) fits)))
      ]

  -- `sort_loop` of the candidates of the peers.
  abbrev pub ranking : String → ℕ → List Peer → List ScoredPeer → List ScoredPeer
  ranking key group_id peers sorted =
      sort_loop cmp (map (candidate hrw_weight key group_id) peers) sorted

  route_loop-take :
      (router : HrwRouter) (key : String) (group_id : ℕ) (peers : List Peer)
      (sorted : List ScoredPeer)
      → route_loop hrw_weight router key group_id peers (take router.candidate_count sorted)
        ≡ take router.candidate_count (ranking key group_id peers sorted)
  unfolding route_loop
  route_loop-take router key group_id [] sorted = refl
  route_loop-take router key group_id (peer ∷ peers) sorted =
      let k = router.candidate_count in
      let x = candidate hrw_weight key group_id peer in
      let small : length (take k sorted) ≤ k = omega (arith, length-take k sorted) in
      let kept : offer hrw_weight k x (take k sorted) ≡ take k (push cmp x sorted) =
        offer-take k x (take k sorted) small ∙ take-push cmp k x sorted in
      ap (λ heap. route_loop hrw_weight router key group_id peers heap) kept
      ∙ route_loop-take router key group_id peers (push cmp x sorted)

  -- The router takes the first of the sorted candidates.
  pub route_group-take :
      (router : HrwRouter) (peers : List Peer) (key : String) (group_id : ℕ)
      → route_group hrw_weight router peers key group_id
        ≡ take router.candidate_count (ranking key group_id peers [])
  unfolding route_group
  route_group-take router peers key group_id =
      ap (λ heap. route_loop hrw_weight router key group_id peers heap)
        (sym (nil_take router.candidate_count))
      ∙ route_loop-take router key group_id peers []
