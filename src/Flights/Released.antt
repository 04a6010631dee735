-- ===== src/Flights/Released.antt =====
-- A leader that is dropped, in crates/mmpf-common/src/singleflight.rs, wakes its followers and
-- releases its key; and every interleaving keeps a leader behind every open channel.
use biei.Prelude.{
  ℕ, ◌≡◌, ◌≢◌, refl, sym, ap, subst, ◌∙◌, List, ◌∷◌, ◌++◌, Option, none, some, true, false, inl,
  inr, item, set, length, length-set, item-set_self, item-set_ne, Eq, eqb, eqb→eq, eqb→ne, ne→eqb,
  eqb_refl, lookup, erase, lookup-erase_self, lookup-erase_ne, contains, IsDistinct,
  IsDistinct-middle, contains-middle, Bool-cases, Option-cases, arith, nat_Eq,
}
use biei.Flights.{Channel, Leader, SingleFlight, open_channel, close_with, drop_leader}
use biei.Flights.Led.{IsLed, keys_of, keys_of-append}

some-injective : {a b : ℕ} → some a ≡ some b → a ≡ b
some-injective h = cc

close_with-closed : {E : Type 0} (o : Option E) (c : Channel E) → (close_with o c).closed ≡ true
close_with-closed none c = refl
close_with-closed (some v) c = refl

module _ {K : Type 0} ⦃e : Eq K⦄ where
  -- The entry of a key that stays when another key is erased.
  erase-cases :
      (key k : K) (channel : ℕ) (entries : List (K × ℕ))
      → lookup k (erase key entries) ≡ some channel
      → (eqb key k ≡ false) × (lookup k entries ≡ some channel)
  erase-cases key k channel entries h = elim (Bool-cases (eqb key k)) [
    | inl t ↦
        let gone : lookup k (erase key entries) ≡ none =
          subst (λ z. lookup z (erase key entries) ≡ none) (eqb→eq key k t)
            (lookup-erase_self key entries) in
        absurd (cc)
    | inr f ↦ (f, sym (lookup-erase_ne key k entries f) ∙ h)
  ]

module _ {K E : Type 0} ⦃e : Eq K⦄ where
  module _ (w : SingleFlight K E) (before after : List (Leader K E)) (leader : Leader K E)
      (outcome : Option E) (h : IsLed w) (e' : w.leaders ≡ before ++ (leader ∷ after)) where
    abbrev pub dropped : SingleFlight K E
    dropped = drop_leader w (record leader { outcome = outcome }) (before ++ after)

    keys : keys_of w.leaders ≡ keys_of before ++ (leader.key ∷ keys_of after)
    keys = rw e' (keys_of-append before (leader ∷ after))

    left : keys_of (before ++ after) ≡ keys_of before ++ keys_of after
    left = keys_of-append before after

    -- The leader has an entry.
    pub leader-entry : (channel : ℕ) × (lookup leader.key w.entries ≡ some channel)
    leader-entry =
        let listed : contains leader.key (keys_of w.leaders) ≡ true = rw keys (
          contains-middle leader.key leader.key (keys_of before) (keys_of after)
          ∙ rw (eqb_refl leader.key) refl) in
        elim (Option-cases (lookup leader.key w.entries)) [
          | inl absent ↦
              let unlisted : contains leader.key (keys_of w.leaders) ≡ false =
                h.led leader.key ∙ rw absent refl in
              absurd (cc)
          | inr found ↦ found
        ]

    -- The drop closes the channel of the leader.
    pub drop-channels :
        (channel : ℕ)
        → lookup leader.key w.entries ≡ some channel
        → dropped.channels
          ≡ set w.channels channel (close_with outcome (item open_channel w.channels channel))
    unfolding drop_leader
    drop-channels channel found = rw (drop_leader, found) refl

    pub drop-entries : dropped.entries ≡ erase leader.key w.entries
    unfolding drop_leader
    drop-entries = refl

    drop-leaders : dropped.leaders ≡ before ++ after
    unfolding drop_leader
    drop-leaders = refl

    pub drop-IsLed : IsLed dropped
    drop-IsLed =
        let (channel, found) = leader-entry in
        let (inside, open_) = h.waiting leader.key channel found in
        let (once, absent) =
          IsDistinct-middle leader.key (keys_of before) (keys_of after)
            (subst IsDistinct keys h.once) in
        let channels = drop-channels channel found in
        let kept : (c : ℕ)
            → channel ≢ c
            → item open_channel dropped.channels c ≡ item open_channel w.channels c =
          λ c other. rw channels (item-set_ne open_channel w.channels channel c _ other) in
        let size : length dropped.channels ≡ length w.channels =
          rw channels (length-set w.channels channel _) in
        let kept_entry : (k : K) (c : ℕ)
            → lookup k dropped.entries ≡ some c
            → (eqb leader.key k ≡ false) × (lookup k w.entries ≡ some c) × (channel ≢ c) =
          λ k c at_k.
            let (ne, old) = erase-cases leader.key k c w.entries (rw drop-entries at at_k) in
            (
              ne,
              old,
              λ same.
                  eqb→ne leader.key k ne
                    (h.apart leader.key k c (found ∙ ap (λ (t : ℕ). some t) same) old),
            ) in
        record {
          once = rw (drop-leaders, left) once;
          led = λ k. elim (Bool-cases (eqb leader.key k)) [
            | inl t ↦
                rw
                  (
                    drop-leaders,
                    left,
                    drop-entries,
                    ← eqb→eq leader.key k t,
                    absent,
                    lookup-erase_self leader.key w.entries,
                  )
                  refl
            | inr f ↦
                let same : contains k (keys_of w.leaders)
                    ≡ contains k (keys_of before ++ keys_of after) =
                  rw keys
                    (contains-middle k leader.key (keys_of before) (keys_of after) ∙ rw f refl) in
                rw (drop-leaders, left, drop-entries, lookup-erase_ne leader.key k w.entries f)
                  (sym same ∙ h.led k)
          ];
          waiting = λ k c at_k.
              let (_, old, other) = kept_entry k c at_k in
              let (in_range, o) = h.waiting k c old in (omega (arith, size), kept c other ∙ o);
          apart =
              λ k k' c at_k at_k'. h.apart k k' c (kept_entry k c at_k).1 (kept_entry k' c at_k').1;
          answered = λ c in_range o. elim (Bool-cases (eqb channel c)) [
            | inl t ↦
                let shut : (item open_channel dropped.channels c).closed ≡ true =
                  rw
                    (
                      channels,
                      ← eqb→eq channel c t,
                      item-set_self open_channel w.channels channel
                          (close_with outcome (item open_channel w.channels channel)) inside,
                    )
                    (close_with-closed outcome _) in
                absurd (cc)
            | inr f ↦
                let other = eqb→ne channel c f in
                let (k, old) = h.answered c (omega (arith, size)) (rw (kept c other) at o) in
                let ne : eqb leader.key k ≡ false = ne→eqb leader.key k (λ same.
                  let both : some channel ≡ some c = sym found ∙ rw same old in
                  absurd (other (some-injective both))) in
                (k, rw (drop-entries, lookup-erase_ne leader.key k w.entries ne) old)
          ];
        }
