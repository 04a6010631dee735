-- ===== src/Flights/Led.antt =====
-- One leader per key, and a leader behind every open channel, in crates/mmpf-common/src/singleflight.rs.
use biei.Prelude.{
  ◌⊎◌, ◌+◌, subst, length-append, item-append_left, item-append_end, lookup-insert_self,
  lookup-insert_ne, Bool-cases, Option-cases, eqb→eq, ltb, ltb→lt, ℕ, ◌<◌, ◌≡◌, refl, sym, ap, ◌∙◌,
  List, [], ◌∷◌, ◌++◌, Option, none, some, Bool, true, false, inl, inr, item, length, Eq, eqb,
  lookup, insert, contains, IsDistinct, arith,
}
use biei.Flights.{Leader, SingleFlight, new_flights, open_channel, begin}

abbrev pub is_some {ℓ} : {A : Type ℓ} → Option A → Bool
is_some none = false
is_some (some a) = true

abbrev pub keys_of : {K E : Type 0} → List (Leader K E) → List K
keys_of [] = []
keys_of (l ∷ ls) = l.key ∷ keys_of ls

pub keys_of-append :
    {K E : Type 0} (xs ys : List (Leader K E)) → keys_of (xs ++ ys) ≡ keys_of xs ++ keys_of ys
keys_of-append [] ys = refl
keys_of-append {K = K} (x ∷ xs) ys = ap (λ (t : List K). x.key ∷ t) (keys_of-append xs ys)

module _ {K : Type 0} ⦃e : Eq K⦄ where
  -- The lookup of a key in a map with a new key.
  insert-cases :
      (key k : K) (n channel : ℕ) (entries : List (K × ℕ))
      → lookup k (insert key n entries) ≡ some channel
      → ((key ≡ k) × (n ≡ channel)) ⊎ ((eqb key k ≡ false) × (lookup k entries ≡ some channel))
  insert-cases key k n channel entries h = elim (Bool-cases (eqb key k)) [
    | inl t ↦
        let same : key ≡ k = eqb→eq key k t in
        let found : lookup k (insert key n entries) ≡ some n =
          subst (λ z. lookup z (insert key n entries) ≡ some n) same
            (lookup-insert_self key n entries) in
        inl (same, cc)
    | inr f ↦ inr (f, sym (lookup-insert_ne key k n entries f) ∙ h)
  ]

  insert-old :
      (key k : K) (n channel : ℕ) (entries : List (K × ℕ))
      → lookup key entries ≡ none
      → lookup k entries ≡ some channel
      → lookup k (insert key n entries) ≡ some channel
  insert-old key k n channel entries absent found = elim (Bool-cases (eqb key k)) [
    | inl t ↦
        let both : lookup k entries ≡ none =
          subst (λ z. lookup z entries ≡ none) (eqb→eq key k t) absent in
        absurd (cc)
    | inr f ↦ lookup-insert_ne key k n entries f ∙ found
  ]

module _ {K E : Type 0} ⦃e : Eq K⦄ where
  -- A key has one leader at most, and one exactly when it has an entry. The channel of an entry is
  -- open, belongs to no other key, and every open channel is that of an entry.
  pub record IsLed (w : SingleFlight K E) : Type 0 where
    pub once : IsDistinct (keys_of w.leaders)
    pub led : (k : K) → contains k (keys_of w.leaders) ≡ is_some (lookup k w.entries)
    pub waiting :
        (k : K) (channel : ℕ)
        → lookup k w.entries ≡ some channel
        → (channel < length w.channels) × (item open_channel w.channels channel ≡ open_channel)
    pub apart :
        (k k' : K) (channel : ℕ)
        → lookup k w.entries ≡ some channel
        → lookup k' w.entries ≡ some channel
        → k ≡ k'
    pub answered :
        (channel : ℕ)
        → channel < length w.channels
        → (item open_channel w.channels channel).closed ≡ false
        → (k : K) × (lookup k w.entries ≡ some channel)

  pub new_flights-IsLed : IsLed new_flights
  new_flights-IsLed = record {
    once = tt;
    led = λ k. refl;
    waiting = λ k channel h. absurd (cc);
    apart = λ k k' channel h h'. absurd (cc);
    answered = λ channel h o. absurd (omega arith);
  }

  module _ (w : SingleFlight K E) (key : K) (h : IsLed w)
      (absent : lookup key w.entries ≡ none) where
    abbrev started : SingleFlight K E
    started = record {
      entries = insert key (length w.channels) w.entries;
      channels = w.channels ++ (open_channel ∷ []);
      leaders = record { key = key; outcome = none } ∷ w.leaders;
    }

    longer : length started.channels ≡ length w.channels + 1
    longer = length-append w.channels (open_channel ∷ [])

    started-IsLed : IsLed started
    started-IsLed = record {
      once = (h.led key ∙ rw absent refl, h.once);
      led = λ k. elim (Bool-cases (eqb key k)) [
        | inl t ↦
            rw (t, ← eqb→eq key k t, lookup-insert_self key (length w.channels) w.entries) refl
        | inr f ↦ rw (f, lookup-insert_ne key k (length w.channels) w.entries f) (h.led k)
      ];
      waiting = λ k channel found. elim (insert-cases key k _ channel w.entries found) [
        | inl (_, n) ↦
            rw (← n) (omega (arith, longer), item-append_end open_channel w.channels open_channel)
        | inr (_, old) ↦
            let (inside, o) = h.waiting k channel old in
            (omega (arith, longer), item-append_left open_channel w.channels _ channel inside ∙ o)
      ];
      apart = λ k k' channel found found'. elim (insert-cases key k _ channel w.entries found) [
        | inl (a, n) ↦ elim (insert-cases key k' _ channel w.entries found') [
          | inl (b, _) ↦ sym a ∙ b
          | inr (_, old) ↦ absurd (omega (arith, n, (h.waiting k' channel old).0))
        ]
        | inr (_, old) ↦ elim (insert-cases key k' _ channel w.entries found') [
          | inl (_, n) ↦ absurd (omega (arith, n, (h.waiting k channel old).0))
          | inr (_, old') ↦ h.apart k k' channel old old'
        ]
      ];
      answered = λ channel inside o. elim (Bool-cases (ltb channel (length w.channels))) [
        | inl t ↦
            let before = ltb→lt channel (length w.channels) t in
            let (k, found) = h.answered channel before (
              rw (item-append_left open_channel w.channels (open_channel ∷ []) channel before) at
                o) in
            (k, insert-old key k (length w.channels) channel w.entries absent found)
        | inr f ↦
            let last : length w.channels ≡ channel = ground (arith, longer) in
            (key, rw (← last) (lookup-insert_self key (length w.channels) w.entries))
      ];
    }

  pub begin-IsLed : (w : SingleFlight K E) (key : K) → IsLed w → IsLed (begin w key).0
  unfolding begin
  begin-IsLed w key h = elim (Option-cases (lookup key w.entries)) [
    | inl absent ↦ rw (begin, absent) (started-IsLed w key h absent)
    | inr (channel, found) ↦ rw (begin, found) h
  ]
