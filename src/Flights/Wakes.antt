-- ===== src/Flights/Wakes.antt =====
-- What callers of crates/mmpf-common/src/singleflight.rs can rely on.
use biei.Prelude.{
  ℕ, ◌≡◌, ◌≢◌, refl, ap, ◌∙◌, List, ◌∷◌, ◌++◌, Option, none, some, true, false, item, item-set_self,
  item-set_ne, Eq, lookup, lookup-erase_self,
}
use biei.Flights.{
  Channel, Leader, SingleFlight, new_flights, open_channel, close_with, begin, drop_leader, wait,
  leads, Step, begins, completes, cancels, Reach, here, next,
}
use biei.Flights.Led.{IsLed, new_flights-IsLed, begin-IsLed}
use biei.Flights.Released.{drop-channels, drop-entries, drop-IsLed, leader-entry}

-- What a follower reads from a channel.
abbrev reading : {E : Type 0} → Channel E → Option (Option E)
reading c = elim c.value [
  | some value ↦ some (some value)
  | none ↦ elim c.closed [ true ↦ some none | false ↦ none ]
]

close_with-reading : {E : Type 0} (o : Option E) → reading (close_with o open_channel) ≡ some o
close_with-reading none = refl
close_with-reading (some v) = refl

module _ {K E : Type 0} ⦃e : Eq K⦄ where
  Step-IsLed : (w w' : SingleFlight K E) → IsLed w → Step w w' → IsLed w'
  Step-IsLed w w' h (begins key) = begin-IsLed w key h
  Step-IsLed w w' h (completes before after leader value listed) =
      drop-IsLed w before after leader (some value) h listed
  Step-IsLed w w' h (cancels before after leader listed) =
      drop-IsLed w before after leader leader.outcome h listed

  -- In whatever order callers begin, complete and are cancelled: a key has at most one leader, and
  -- one exactly when it has an entry; and every channel whose sender is not gone belongs to a key
  -- with a leader that is alive, so that no follower waits for nobody.
  pub Reach-IsLed : (w : SingleFlight K E) → Reach new_flights w → IsLed w
  Reach-IsLed w here = new_flights-IsLed
  Reach-IsLed w (next {v = v} before step) = Step-IsLed v w (Reach-IsLed v before) step

  -- The drop of a leader whose outcome is as given.
  abbrev pub drop_with :
      SingleFlight K E → Leader K E → Option E → List (Leader K E) → SingleFlight K E
  drop_with w leader outcome others = drop_leader w (record leader { outcome = outcome }) others

  -- The drop of a leader ends the wait of every follower of its key, which was pending until then,
  -- with exactly the outcome that the leader has: an error or value, or none after a cancellation.
  -- The waits on other channels go on as before, and the next caller with the key leads.
  pub drop_leader-wait :
      (w : SingleFlight K E) (before after : List (Leader K E)) (leader : Leader K E)
      (outcome : Option E)
      → IsLed w
      → w.leaders ≡ before ++ (leader ∷ after)
      → (channel : ℕ) × (lookup leader.key w.entries ≡ some channel)
        × (wait w channel ≡ none)
        × (wait (drop_with w leader outcome (before ++ after)) channel ≡ some outcome)
        × ((c : ℕ) → channel ≢ c → wait (drop_with w leader outcome (before ++ after)) c ≡ wait w c)
        × ((begin (drop_with w leader outcome (before ++ after)) leader.key).1 ≡ leads)
  unfolding begin
  drop_leader-wait w before after leader outcome h listed =
      let (channel, found) = leader-entry w before after leader outcome h listed in
      let (inside, o) = h.waiting leader.key channel found in
      let channels = drop-channels w before after leader outcome h listed channel found in
      let shut : item open_channel (drop_with w leader outcome (before ++ after)).channels channel
          ≡ close_with outcome open_channel =
        rw channels
          (item-set_self open_channel w.channels channel _ inside ∙ ap (close_with outcome) o) in
      let free : lookup leader.key (drop_with w leader outcome (before ++ after)).entries ≡ none =
        rw (drop-entries w before after leader outcome h listed)
          (lookup-erase_self leader.key w.entries) in
      (
        channel,
        found,
        ap reading o,
        ap reading shut ∙ close_with-reading outcome,
        λ c other. ap reading (rw channels (item-set_ne open_channel w.channels channel c _ other)),
        rw (begin, free) refl,
      )
