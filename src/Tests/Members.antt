-- ===== src/Tests/Members.antt =====
-- Three peers, of which the router takes two.
use Prim.Native.String.{String}
use biei.Prelude.{ℕ, ◌/◌, ◌≡◌, refl, [], ◌∷◌, take, string_Eq, eqb, if◌then◌else◌, All}
use biei.Routing.{Peer, HrwRouter, offer, route_loop, route_group, route_tile}
use biei.Routing.Sorted.{ranking}
use biei.Routing.Stable.{keep, exchange, route_tile-Reordered}

abbrev weight : String → ℕ → String → ℕ
weight key group_id id = if eqb id "b" then 7 else 9

abbrev addr_of : String → ℕ
addr_of id = if eqb id "a" then 1 else if eqb id "b" then 2 else 3

abbrev a : Peer
a = record { id = "a"; addr = 1 }

abbrev b : Peer
b = record { id = "b"; addr = 2 }

abbrev c : Peer
c = record { id = "c"; addr = 3 }

abbrev router : HrwRouter
router = record { candidate_count = 2; tile_group_size = 512 }

routes :
    route_tile weight router (b ∷ c ∷ a ∷ []) "omt" 1023
    ≡ record { score = 9; peer = a } ∷ record { score = 9; peer = c } ∷ []
unfolding route_tile route_group route_loop offer
routes = refl

known : All (λ p. p.addr ≡ addr_of p.id) (b ∷ c ∷ a ∷ [])
known = (refl, (refl, (refl, tt)))

route_tile-Reordered_example :
    (route_tile weight router (b ∷ c ∷ a ∷ []) "omt" 1023
      ≡ take 2 (ranking weight "omt" (1023 / 512) (b ∷ c ∷ a ∷ []) []))
    × (route_tile weight router (b ∷ a ∷ c ∷ []) "omt" 1023
        ≡ route_tile weight router (b ∷ c ∷ a ∷ []) "omt" 1023)
route_tile-Reordered_example =
    route_tile-Reordered weight addr_of router "omt" 1023 (b ∷ c ∷ a ∷ []) (b ∷ a ∷ c ∷ []) known
      (keep b (exchange c a []))
