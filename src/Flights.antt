-- ===== src/Flights.antt =====
-- `SingleFlight` of crates/mmpf-common/src/singleflight.rs: one leader per key does the work, and
-- followers wait on its channel. A `watch` channel is its value and whether its sender is gone; a
-- follower holds the index of its channel.
pub mod Led
pub mod Released
pub mod Wakes
use biei.Prelude.{
  ℕ, zero, suc, ◌≡◌, List, [], ◌∷◌, ◌++◌, Option, none, some, Bool, true, false, item, set, length,
  Eq, lookup, insert, erase,
}

pub record Channel (E : Type 0) : Type 0 where
  pub value : Option E
  pub closed : Bool

-- `LeaderGuard`, with the outcome that its drop publishes.
pub record Leader (K E : Type 0) : Type 0 where
  pub key : K
  pub outcome : Option E

-- `Flight`: the caller leads, or follows on a channel.
pub data Flight : Type 0 where
  leads : Flight
  follows : ℕ → Flight

-- The map of the entries, every channel that was made, and the leaders that are alive.
pub record SingleFlight (K E : Type 0) : Type 0 where
  pub entries : List (K × ℕ)
  pub channels : List (Channel E)
  pub leaders : List (Leader K E)

abbrev pub new_flights : {K E : Type 0} → SingleFlight K E
new_flights = record { entries = []; channels = []; leaders = [] }

abbrev pub open_channel : {E : Type 0} → Channel E
open_channel = record { value = none; closed = false }

-- The sender is dropped, after it has sent an outcome, if there is one.
abbrev pub close_with : {E : Type 0} → Option E → Channel E → Channel E
close_with none channel = record channel { closed = true }
close_with (some outcome) channel = record { value = some outcome; closed = true }

module _ {K E : Type 0} ⦃e : Eq K⦄ where
  -- `SingleFlight::begin`.
  unfoldable pub begin : SingleFlight K E → K → SingleFlight K E × Flight
  begin w key = elim (lookup key w.entries) [
    | some channel ↦ (w, follows channel)
    | none ↦ (
      record {
        entries = insert key (length w.channels) w.entries;
        channels = w.channels ++ (open_channel ∷ []);
        leaders = record { key = key; outcome = none } ∷ w.leaders;
      },
      leads,
    )
  ]

  -- `LeaderGuard::drop`; `others` are the leaders that stay.
  unfoldable pub drop_leader : SingleFlight K E → Leader K E → List (Leader K E) → SingleFlight K E
  drop_leader w leader others = record {
    entries = erase leader.key w.entries;
    channels = elim (lookup leader.key w.entries) [
      | none ↦ w.channels
      | some channel ↦
          set w.channels channel (close_with leader.outcome (item open_channel w.channels channel))
    ];
    leaders = others;
  }

  -- `LeaderGuard::complete_with`, which consumes the leader and so drops it.
  abbrev pub complete_with :
      SingleFlight K E → Leader K E → E → List (Leader K E) → SingleFlight K E
  complete_with w leader value others =
      drop_leader w (record leader { outcome = some value }) others

  -- `Follower::wait`: `none` as long as the channel has neither a value nor lost its sender.
  abbrev pub wait : SingleFlight K E → ℕ → Option (Option E)
  wait w channel =
      let c = item open_channel w.channels channel in
      elim c.value [
        | some value ↦ some (some value)
        | none ↦ elim c.closed [ true ↦ some none | false ↦ none ]
      ]

  -- What callers do, in any order.
  pub data Step (w : SingleFlight K E) : SingleFlight K E → Type 0 where
    begins : (key : K) → Step w (begin w key).0
    completes :
        (before after : List (Leader K E)) (leader : Leader K E) (value : E)
        → w.leaders ≡ before ++ (leader ∷ after)
        → Step w (complete_with w leader value (before ++ after))
    cancels :
        (before after : List (Leader K E)) (leader : Leader K E)
        → w.leaders ≡ before ++ (leader ∷ after)
        → Step w (drop_leader w leader (before ++ after))

  pub data Reach (w : SingleFlight K E) : SingleFlight K E → Type 0 where
    here : Reach w w
    next : {v u : SingleFlight K E} → Reach w v → Step v u → Reach w u
