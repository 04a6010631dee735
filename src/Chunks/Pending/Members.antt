-- ===== src/Chunks/Pending/Members.antt =====
-- Which chunks the sets and the waiter map of coordinator.rs hold after each operation.
use biei.Prelude.{
  ℕ, zero, suc, ◌+◌, ◌-◌, ◌≡◌, refl, inl, inr, arith, Bool, true, false, not, ◌&&◌, ◌||◌, List, [],
  ◌∷◌, ◌++◌, ltb, leb, ◌==◌, nat_Eq, contains, without, insert, erase, filter, Bool-cases, ==_iff,
}
use biei.Chunks.Store.{indices}
use biei.Chunks.Pending.{
  set_insert, set_extend, remove_all, has_key, retain_open, is_empty, chunks_in, move_groups,
  TilesetFetchState,
}

-- `c` lies in the range.
abbrev pub in_range : ℕ → ℕ × ℕ → Bool
in_range c (start, end) = leb start c && ltb c end

abbrev pub covered : ℕ → List (ℕ × ℕ) → Bool
covered c [] = false
covered c (g ∷ rest) = in_range c g || covered c rest

pub covered-append :
    (c : ℕ) (xs ys : List (ℕ × ℕ)) → covered c (xs ++ ys) ≡ (covered c xs || covered c ys)
covered-append c [] ys = refl
covered-append c (g ∷ xs) ys = ground (arith, covered-append c xs ys)

pub contains-set_insert :
    (c x : ℕ) (xs : List ℕ) → contains c (set_insert x xs) ≡ (x == c || contains c xs)
contains-set_insert c x [] = refl
contains-set_insert c x (y ∷ ys) = ground (arith, contains-set_insert c x ys)

pub contains-without :
    (c x : ℕ) (xs : List ℕ) → contains c (without x xs) ≡ (not (x == c) && contains c xs)
contains-without c x [] = ground arith
contains-without c x (y ∷ ys) = ground (arith, contains-without c x ys)

pub contains-filter :
    (p : ℕ → Bool) (c : ℕ) (xs : List ℕ) → contains c (filter p xs) ≡ (p c && contains c xs)
contains-filter p c [] = ground arith
contains-filter p c (y ∷ ys) = elim (Bool-cases (y == c)) [
  | inl t ↦ let same : y ≡ c = (==_iff y c).0 t in rw same (ground (arith, contains-filter p c ys))
  | inr f ↦ ground (arith, contains-filter p c ys)
]

pub contains-set_extend :
    (c : ℕ) (ys xs : List ℕ) → contains c (set_extend xs ys) ≡ (contains c ys || contains c xs)
contains-set_extend c [] xs = refl
contains-set_extend c (y ∷ ys) xs =
    ground (arith, contains-set_extend c ys (set_insert y xs), contains-set_insert c y xs)

pub contains-remove_all :
    (c : ℕ) (ys xs : List ℕ)
    → contains c (remove_all xs ys) ≡ (not (contains c ys) && contains c xs)
contains-remove_all c [] xs = refl
contains-remove_all c (y ∷ ys) xs =
    ground (arith, contains-remove_all c ys (without y xs), contains-without c y xs)

contains-indices : (c n i : ℕ) → contains c (indices i n) ≡ (leb i c && ltb c (i + n))
contains-indices c zero i = ground arith
contains-indices c (suc n) i = ground (arith, contains-indices c n (i + 1))

pub contains-chunks_in : (c : ℕ) (g : ℕ × ℕ) → contains c (chunks_in g) ≡ in_range c g
contains-chunks_in c (start, end) = ground (arith, contains-indices c (end - start) start)

module _ {ℓ} {V : Type ℓ} where
  pub has_key-insert :
      (c k : ℕ) (v : V) (m : List (ℕ × V)) → has_key c (insert k v m) ≡ (k == c || has_key c m)
  has_key-insert c k v [] = refl
  has_key-insert c k v ((j, w) ∷ m) = ground (arith, has_key-insert c k v m)

  pub has_key-erase :
      (c k : ℕ) (m : List (ℕ × V)) → has_key c (erase k m) ≡ (not (k == c) && has_key c m)
  has_key-erase c k [] = ground arith
  has_key-erase c k ((j, w) ∷ m) = ground (arith, has_key-erase c k m)

-- Pruning adds no chunk to the waiter map.
pub has_key-retain_open :
    (closed : ℕ → Bool) (c : ℕ) (m : List (ℕ × List ℕ))
    → has_key c (retain_open closed m).0 ≡ true
    → has_key c m ≡ true
has_key-retain_open closed c ((k, ws) ∷ m) h =
    elim (Bool-cases (is_empty (filter (λ w. not (closed w)) ws))) [
      | inl none_left ↦
          let rest : has_key c (retain_open closed m).0 ≡ true = rw none_left at h in
          ground (arith, has_key-retain_open closed c m rest)
      | inr live ↦
          let kept : (k == c || has_key c (retain_open closed m).0) ≡ true = rw live at h in
          elim (Bool-cases (k == c)) [
            | inl t ↦ rw t refl
            | inr f ↦
                let rest : has_key c (retain_open closed m).0 ≡ true = ground arith in
                ground (arith, has_key-retain_open closed c m rest)
          ]
    ]
has_key-retain_open closed c [] h = h

-- Moving groups takes their chunks from the pending set to the inflight set, and leaves the rest.
pub record IsMoved (gs : List (ℕ × ℕ)) (s t : TilesetFetchState) : Type 0 where
  pub flight :
      (c : ℕ) → contains c t.inflight_chunks ≡ (covered c gs || contains c s.inflight_chunks)
  pub pending :
      (c : ℕ) → contains c t.pending_chunks ≡ (not (covered c gs) && contains c s.pending_chunks)
  pub waiters : t.waiters ≡ s.waiters
  pub running : t.scheduler_running ≡ s.scheduler_running
  pub counted : t.inflight_fetch_count ≡ s.inflight_fetch_count

pub move_groups-IsMoved :
    (gs : List (ℕ × ℕ)) (s : TilesetFetchState) → IsMoved gs s (move_groups gs s)
move_groups-IsMoved [] s = record {
  flight = λ c. refl;
  pending = λ c. refl;
  waiters = refl;
  running = refl;
  counted = refl;
}
move_groups-IsMoved (g ∷ rest) s =
    let s' : TilesetFetchState = record s {
      inflight_chunks = set_extend s.inflight_chunks (chunks_in g);
      pending_chunks = remove_all s.pending_chunks (chunks_in g);
    } in
    let moved = move_groups-IsMoved rest s' in
    record {
      flight = λ c. ground (
        arith,
        moved.flight c,
        contains-set_extend c (chunks_in g) s.inflight_chunks,
        contains-chunks_in c g,
      );
      pending = λ c. ground (
        arith,
        moved.pending c,
        contains-remove_all c (chunks_in g) s.pending_chunks,
        contains-chunks_in c g,
      );
      waiters = moved.waiters;
      running = moved.running;
      counted = moved.counted;
    }
