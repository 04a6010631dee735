-- ===== src/Routing.antt =====
-- `HrwRouter` of crates/ishikari-core/src/storage/routing.rs. The hash of twox_hash is a
-- parameter. A `BinaryHeap` is the ascending list of its items: `pop` takes the
-- greatest one, the last.
pub mod Sorted
pub mod Stable
use Prim.Native.Nat.{compare, Ordering}
use Prim.Native.String.{String, compare as compare_string}
use biei.Prelude.{ℕ, zero, suc, ◌/◌, max, List, [], ◌∷◌, Bool, if◌then◌else◌, ltb, then_by, length}

pub record Peer : Type 0 where
  pub id : String
  pub addr : ℕ

pub record ScoredPeer : Type 0 where
  pub score : ℕ
  pub peer : Peer

pub record HrwRouter : Type 0 where
  pub candidate_count : ℕ
  pub tile_group_size : ℕ

-- `HrwRouter::new`.
unfoldable pub new_router : ℕ → ℕ → HrwRouter
new_router candidate_count tile_group_size = record {
  candidate_count = max candidate_count 1;
  tile_group_size = max tile_group_size 1;
}

-- `Ord for ScoredPeer`: the higher score first, then the smaller id.
abbrev pub cmp : ScoredPeer → ScoredPeer → Ordering
cmp a b = then_by (compare b.score a.score) (compare_string a.peer.id b.peer.id)

-- `BinaryHeap::push`.
abbrev pub push :
    (ScoredPeer → ScoredPeer → Ordering) → ScoredPeer → List ScoredPeer → List ScoredPeer
push cmp x [] = x ∷ []
push cmp x (y ∷ ys) = elim (cmp x y) [ Ordering.gt ↦ y ∷ push cmp x ys | _ ↦ x ∷ y ∷ ys ]

-- `BinaryHeap::pop`, without what it returns.
abbrev pub pop : List ScoredPeer → List ScoredPeer
pop [] = []
pop (x ∷ []) = []
pop (x ∷ y ∷ ys) = x ∷ pop (y ∷ ys)

module _ (hrw_weight : String → ℕ → String → ℕ) where
  abbrev pub candidate : String → ℕ → Peer → ScoredPeer
  candidate key group_id peer = record { score = hrw_weight key group_id peer.id; peer = peer }

  -- One turn of the loop of `route_group`.
  unfoldable pub offer : ℕ → ScoredPeer → List ScoredPeer → List ScoredPeer
  offer candidate_count x heap =
      let pushed = push cmp x heap in
      if ltb candidate_count (length pushed) then pop pushed else pushed

  unfoldable pub route_loop : HrwRouter → String → ℕ → List Peer → List ScoredPeer → List ScoredPeer
  route_loop router key group_id [] heap = heap
  route_loop router key group_id (peer ∷ peers) heap =
      route_loop router key group_id peers
        (offer router.candidate_count (candidate key group_id peer) heap)

  -- `route_group`.
  unfoldable pub route_group : HrwRouter → List Peer → String → ℕ → List ScoredPeer
  route_group router peers key group_id = route_loop router key group_id peers []

  -- `route_tile`.
  unfoldable pub route_tile : HrwRouter → List Peer → String → ℕ → List ScoredPeer
  route_tile router peers tileset_id tile_id =
      route_group router peers tileset_id (tile_id / router.tile_group_size)

  -- `route_key`.
  unfoldable pub route_key : HrwRouter → List Peer → String → List ScoredPeer
  route_key router peers key = route_group router peers key 0

  -- `route_tileset`.
  unfoldable pub route_tileset : HrwRouter → List Peer → String → List ScoredPeer
  route_tileset router peers tileset_id = route_tile router peers tileset_id 0
