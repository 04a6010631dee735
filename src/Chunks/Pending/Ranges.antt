-- ===== src/Chunks/Pending/Ranges.antt =====
-- The ranges that coordinator.rs fetches for a set of pending chunks.
use biei.Prelude.{
  ℕ, ◌+◌, ◌-◌, ◌≤◌, ◌<◌, max, ◌≡◌, refl, sym, subst, inl, inr, arith, true, false, ◌&&◌, List, [],
  ◌∷◌, ltb, leb, ◌==◌, nat_Eq, contains, All, All-imp, Bool-cases, ==_refl,
}
use biei.Chunks.Pending.{group_chunks, contiguous_chunk_ranges, max_chunk_gap}
use biei.Chunks.Pending.Members.{in_range, covered}

-- A `BTreeSet` from `low` on: strictly ascending.
abbrev pub IsAscending : ℕ → List ℕ → Type 0
IsAscending low [] = Unit {0}
IsAscending low (c ∷ rest) = (low ≤ c) × IsAscending (c + 1) rest

-- The ranges are not empty, and none starts before the one before it ends.
abbrev pub IsApart : ℕ → List (ℕ × ℕ) → Type 0
IsApart low [] = Unit {0}
IsApart low (g ∷ rest) = (low ≤ g.0) × (g.0 < g.1) × IsApart g.1 rest

IsApart-le :
    (low high : ℕ) (ranges : List (ℕ × ℕ)) → IsApart high ranges → low ≤ high → IsApart low ranges
IsApart-le low high [] h le = tt
IsApart-le low high (g ∷ rest) h le = (omega (arith, h.0), h.1, h.2)

module _ (chunks : List ℕ) (max_fetch : ℕ) where
  -- A range starts and ends with a wanted chunk and has at most `max_fetch` of them.
  abbrev pub IsFitting : ℕ × ℕ → Type 0
  IsFitting g =
      (g.1 ≤ g.0 + max_fetch) × (contains g.0 chunks ≡ true) × (contains (g.1 - 1) chunks ≡ true)

  pub record IsPlan (low : ℕ) (list : List ℕ) (ranges : List (ℕ × ℕ)) : Type 0 where
    pub covers : (c : ℕ) → contains c list ≡ true → covered c ranges ≡ true
    pub apart : IsApart low ranges
    pub fitting : All IsFitting ranges
    -- Of two neighbouring chunks in a range, one at least is wanted.
    pub tight :
        (c : ℕ)
        → covered c ranges ≡ true
        → contains c chunks ≡ false
        → contains (c + 1) chunks ≡ true

  abbrev AllWanted : List ℕ → Type 0
  AllWanted = All (λ c. contains c chunks ≡ true)

  -- The gap that is bridged to a wanted chunk has one chunk at most.
  fill_gap :
      (start end c x : ℕ)
      → end ≤ c
      → c ≤ end + 1
      → contains c chunks ≡ true
      → (in_range x (start, end) ≡ true → contains (x + 1) chunks ≡ true)
      → in_range x (start, c + 1) ≡ true
      → contains x chunks ≡ false
      → contains (x + 1) chunks ≡ true
  fill_gap start end c x low near here inner h absent = elim (Bool-cases (ltb x end)) [
    | inl inside ↦ inner (ground arith)
    | inr past ↦ elim (Bool-cases (x == c)) [
      | inl t ↦
          let same : x ≡ c = ground arith in
          let there : contains x chunks ≡ true = rw same here in absurd (cc (there, absent))
      | inr f ↦ let next : x + 1 ≡ c = ground arith in rw next here
    ]
  ]

  group_chunks-IsPlan :
      (rest : List ℕ) (start end : ℕ)
      → start < end
      → IsFitting (start, end)
      → IsAscending end rest
      → AllWanted rest
      → ((c : ℕ)
          → in_range c (start, end) ≡ true
          → contains c chunks ≡ false
          → contains (c + 1) chunks ≡ true)
      → 0 < max_fetch
      → IsPlan start rest (group_chunks max_fetch 1 start end rest)
        × ((c : ℕ)
            → in_range c (start, end) ≡ true
            → covered c (group_chunks max_fetch 1 start end rest) ≡ true)
  unfolding group_chunks
  group_chunks-IsPlan [] start end order fits asc wanted fill room = (
    record {
      covers = λ c h. absurd (cc);
      apart = (omega arith, order, tt);
      fitting = (fits, tt);
      tight = λ c h. fill c (ground arith);
    },
    λ c h. ground arith,
  )
  group_chunks-IsPlan (c ∷ rest) start end order fits asc wanted fill room =
      let Goal = λ (ranges : List (ℕ × ℕ)).
        IsPlan start (c ∷ rest) ranges
        × ((x : ℕ) → in_range x (start, end) ≡ true → covered x ranges ≡ true) in
      elim (Bool-cases (leb c (end + 1) && leb (c + 1 - start) max_fetch)) [
        | inl joins ↦
            let near : c ≤ end + 1 = ground arith in
            let few : c + 1 - start ≤ max_fetch = ground arith in
            let last : c + 1 - 1 ≡ c = omega arith in
            let end_wanted : contains (c + 1 - 1) chunks ≡ true = rw last wanted.0 in
            let (plan, all) =
              group_chunks-IsPlan rest start (c + 1) (omega arith) (omega arith, fits.1, end_wanted)
                asc.1 wanted.1
                (λ x h absent.
                  fill_gap start end c x asc.0 near wanted.0 (λ t. fill x t absent) h absent)
                room in
            let step : group_chunks max_fetch 1 start end (c ∷ rest)
                ≡ group_chunks max_fetch 1 start (c + 1) rest =
              rw (group_chunks, joins) refl in
            subst Goal (sym step) (
              record {
                covers = λ x h. elim (Bool-cases (c == x)) [
                  | inl t ↦ all x (ground arith)
                  | inr f ↦ plan.covers x (ground arith)
                ];
                apart = plan.apart;
                fitting = plan.fitting;
                tight = plan.tight;
              },
              λ x h. all x (ground arith),
            )
        | inr stops ↦
            let last : c + 1 - 1 ≡ c = omega arith in
            let end_wanted : contains (c + 1 - 1) chunks ≡ true = rw last wanted.0 in
            let (plan, all) =
              group_chunks-IsPlan rest c (c + 1) (omega arith) (omega arith, wanted.0, end_wanted)
                asc.1 wanted.1
                (λ x h absent.
                  let same : x ≡ c = ground arith in
                  let here : contains x chunks ≡ true = rw same wanted.0 in
                  absurd (cc (here, absent)))
                room in
            let step : group_chunks max_fetch 1 start end (c ∷ rest)
                ≡ (start, end) ∷ group_chunks max_fetch 1 c (c + 1) rest =
              rw (group_chunks, stops) refl in
            subst Goal (sym step) (
              record {
                covers = λ x h. elim (Bool-cases (c == x)) [
                  | inl t ↦ ground (arith, all x)
                  | inr f ↦ ground (arith, plan.covers x)
                ];
                apart = (omega arith, order, IsApart-le end c _ plan.apart asc.0);
                fitting = (fits, plan.fitting);
                tight = λ x h. elim (Bool-cases (in_range x (start, end))) [
                  | inl t ↦ fill x t
                  | inr f ↦ plan.tight x (ground arith)
                ];
              },
              λ x h. ground arith,
            )
      ]

All-contains : (list : List ℕ) → All (λ c. contains c list ≡ true) list
All-contains [] = tt
All-contains (c ∷ rest) = (
  rw (==_refl c) refl,
  All-imp (λ x. contains x rest ≡ true) (λ x. contains x (c ∷ rest) ≡ true) rest
      (λ x h. ground arith) (All-contains rest),
)

-- The ranges for a set of chunks, with gaps of one chunk at most: every chunk of the set lies in
-- a range; the ranges are not empty, ascend and do not overlap; each starts and ends with a chunk
-- of the set and has at most `max_fetch_chunks` chunks, or 1 where that is 0; and after a chunk
-- in a range that is not of the set comes one that is.
pub contiguous_chunk_ranges-IsPlan :
    (chunks : List ℕ) (max_fetch_chunks : ℕ)
    → IsAscending 0 chunks
    → IsPlan chunks
        (max max_fetch_chunks 1)
        0
        chunks
        (contiguous_chunk_ranges chunks max_fetch_chunks max_chunk_gap)
unfolding contiguous_chunk_ranges
contiguous_chunk_ranges-IsPlan [] max_fetch_chunks asc = record {
  covers = λ c h. absurd (cc);
  apart = tt;
  fitting = tt;
  tight = λ c h absent. absurd (cc);
}
contiguous_chunk_ranges-IsPlan (start ∷ rest) max_fetch_chunks asc =
    let m = max max_fetch_chunks 1 in
    let wanted = All-contains (start ∷ rest) in
    let last : start + 1 - 1 ≡ start = omega arith in
    let end_wanted : contains (start + 1 - 1) (start ∷ rest) ≡ true =
      subst (λ x. contains x (start ∷ rest) ≡ true) (sym last) wanted.0 in
    let (plan, all) =
      group_chunks-IsPlan (start ∷ rest) m rest start (start + 1) (omega arith)
        (omega arith, wanted.0, end_wanted) asc.1 wanted.1
        (λ x h absent.
          let same : x ≡ start = ground arith in
          let here : contains x (start ∷ rest) ≡ true =
            subst (λ y. contains y (start ∷ rest) ≡ true) (sym same) wanted.0 in
          absurd (cc (here, absent)))
        (omega arith) in
    record {
      covers = λ c h. elim (Bool-cases (start == c)) [
        | inl t ↦ all c (ground arith)
        | inr f ↦ plan.covers c (ground arith)
      ];
      apart = IsApart-le 0 start _ plan.apart (omega arith);
      fitting = plan.fitting;
      tight = plan.tight;
    }
