-- ===== src/Tests/Fetches.antt =====
-- A fetch with one leader and its follower.
use Prim.Native.String.{String}
use biei.Prelude.{ℕ, ◌≡◌, ◌≢◌, refl, [], ◌∷◌, ◌++◌, none, some, string_Eq, lookup}
use biei.Flights.{
  Leader, SingleFlight, new_flights, begin, wait, leads, follows, here, next, begins,
}
use biei.Flights.Led.{IsLed}
use biei.Flights.Wakes.{Reach-IsLed, drop_with, drop_leader-wait}

abbrev led : SingleFlight String ℕ
led = (begin new_flights "archive").0

abbrev leader : Leader String ℕ
leader = record { key = "archive"; outcome = none }

second_follows : (begin led "archive").1 ≡ follows 0
unfolding begin
second_follows = refl

led-IsLed : IsLed led
led-IsLed = Reach-IsLed led (next here (begins "archive"))

Reach-IsLed_example : IsLed led
Reach-IsLed_example = Reach-IsLed led (next here (begins "archive"))

leader_listed : led.leaders ≡ [] ++ (leader ∷ [])
unfolding begin
leader_listed = refl

drop_leader-wait_example :
    (channel : ℕ) × (lookup "archive" led.entries ≡ some channel)
    × (wait led channel ≡ none)
    × (wait (drop_with led leader (some 404) ([] ++ [])) channel ≡ some (some 404))
    × ((c : ℕ) → channel ≢ c → wait (drop_with led leader (some 404) ([] ++ [])) c ≡ wait led c)
    × ((begin (drop_with led leader (some 404) ([] ++ [])) "archive").1 ≡ leads)
drop_leader-wait_example = drop_leader-wait led [] [] leader (some 404) led-IsLed leader_listed
