-- ===== src/Chunks/Pending/Sends.antt =====
-- What a completed group of coordinator.rs sends to the receivers that wait for its chunks.
use biei.Prelude.{
  ℕ, ◌+◌, ◌≡◌, refl, ◌∙◌, inl, inr, arith, Bool, true, false, not, ◌&&◌, ◌||◌, List, [], ◌∷◌, ◌++◌,
  Result, if◌then◌else◌, eqb, eqb→eq, nat_Eq, contains, erase, without, Bool-cases,
}
use biei.Chunks.Error.{ChunkFetchError}
use biei.Chunks.Store.{Bytes}
use biei.Chunks.Pending.{
  TilesetFetchState, waiters_of, Delivery, send_all, release_chunks, chunk_result,
}
use biei.Chunks.Pending.Coordinator.{receivers}
use biei.Chunks.Pending.Waiting.{waits, waits-erase}

contains-receivers :
    (r : ℕ) (xs ys : List (ℕ × Result ChunkFetchError Bytes))
    → contains r (receivers (xs ++ ys)) ≡ (contains r (receivers xs) || contains r (receivers ys))
contains-receivers r [] ys = refl
contains-receivers r ((w, result) ∷ xs) ys = ground (arith, contains-receivers r xs ys)

-- A receiver was sent a result, or is closed.
abbrev pub is_answered : (ℕ → Bool) → ℕ → Delivery → Bool
is_answered closed r d = contains r (receivers d.delivered) || closed r

abbrev send_one : (ℕ → Bool) → Result ChunkFetchError Bytes → ℕ → Delivery → Delivery
send_one closed result w d =
    if closed w
    then record d { cancelled = d.cancelled + 1 }
    else record d { delivered = d.delivered ++ ((w, result) ∷ []) }

module _ (closed : ℕ → Bool) (r : ℕ) (result : Result ChunkFetchError Bytes) where
  send_one-is_answered :
      (w : ℕ) (d : Delivery)
      → is_answered closed r (send_one closed result w d)
        ≡ (is_answered closed r d || (eqb w r && not (closed r)))
  send_one-is_answered w d = elim (Bool-cases (closed w)) [
    | inl shut ↦ elim (Bool-cases (eqb w r)) [
      | inl t ↦
          let same : w ≡ r = eqb→eq w r t in
          let shut_r : closed r ≡ true = rw same at shut in rw (shut, t, shut_r) (ground arith)
      | inr f ↦ rw (shut, f) (ground arith)
    ]
    | inr live ↦ elim (Bool-cases (eqb w r)) [
      | inl t ↦
          let same : w ≡ r = eqb→eq w r t in
          let live_r : closed r ≡ false = rw same at live in
          rw (live, contains-receivers r d.delivered ((w, result) ∷ []), t, live_r) (ground arith)
      | inr f ↦ rw (live, contains-receivers r d.delivered ((w, result) ∷ []), f) (ground arith)
    ]
  ]

  -- Every waiter of the list is answered, and so is whoever was.
  send_all-is_answered :
      (ws : List ℕ) (d : Delivery)
      → (contains r ws || is_answered closed r d) ≡ true
      → is_answered closed r (send_all closed result ws d) ≡ true
  send_all-is_answered [] d h = h
  send_all-is_answered (w ∷ rest) d h =
      send_all-is_answered rest (send_one closed result w d)
        (ground (arith, h, send_one-is_answered w d))

-- A completed group forgets no waiter: whoever waited for one of its chunks was answered.
pub release_chunks-waits :
    (closed : ℕ → Bool) (result : Result ChunkFetchError (List (ℕ × Bytes))) (r chunk : ℕ)
    (cs : List ℕ) (s : TilesetFetchState) (d : Delivery)
    → (waits r chunk s.waiters || is_answered closed r d) ≡ true
    → (waits r chunk (release_chunks closed result cs s d).0.waiters
        || is_answered closed r (release_chunks closed result cs s d).1)
      ≡ true
unfolding release_chunks
release_chunks-waits closed result r chunk [] s d h = h
release_chunks-waits closed result r chunk (c ∷ rest) s d h =
    let s' : TilesetFetchState = record s {
      inflight_chunks = without c s.inflight_chunks;
      waiters = erase c s.waiters;
    } in
    let sent = send_all closed (chunk_result result c) (waiters_of c s.waiters) d in
    let answers =
      send_all-is_answered closed r (chunk_result result c) (waiters_of c s.waiters) d in
    release_chunks-waits closed result r chunk rest s' sent (elim (Bool-cases (eqb c chunk)) [
      | inl t ↦
          let same : c ≡ chunk = eqb→eq c chunk t in
          let had : (waits r c s.waiters || is_answered closed r d) ≡ true = rw same h in
          ground (arith, answers had)
      | inr f ↦ elim (Bool-cases (is_answered closed r d)) [
        | inl done ↦ let still = answers (ground (arith, done)) in ground (arith, still)
        | inr silent ↦
            let waiting : waits r chunk s.waiters ≡ true = ground (arith, h, silent) in
            let still : waits r chunk (erase c s.waiters) ≡ true =
              waits-erase r chunk c s.waiters ∙ rw f waiting in
            ground (arith, still)
      ]
    ])
