-- ===== src/Workers/Accounts/Balance.antt =====
-- The books of the pool in crates/biei-core/src/worker_pool.rs balance, however its tasks
-- interleave.
use Prim.Native.String.{String}
use biei.Prelude.{
  ℕ, zero, suc, ◌+◌, ◌<◌, ◌≤◌, ◌^◌, ◌≡◌, ◌≢◌, refl, sym, ap, ◌∙◌, List, [], ◌∷◌, ◌++◌, Option, none,
  some, inl, inr, if◌then◌else◌, eqb, eqb→eq, eqb→ne, ne→eqb, eqb_refl, item, get_elem?, set,
  length, length-set, length-replicate, arith, occurrences, occurrences-append, item-set_self,
  item-set_ne, item-replicate, item-get_elem?, get_elem?_lt, Bool-cases, ltb, ltb→lt, nat_Eq,
}
use biei.Workers.Profile.{WorkerProfile}
use biei.Workers.State.{PoolState}
use biei.Workers.State.Sound.{IsPoolState}
use biei.Workers.State.Keeps.{new_state-IsPoolState, mark_loaded-keeps, mark_addlayer_source-keeps}
use biei.Workers.Accounts.{Completion, Pool, spawn, reserve, mark, dispatch}

abbrev pub workers_of : List Completion → List ℕ
workers_of [] = []
workers_of (c ∷ cs) = c.worker_idx ∷ workers_of cs

-- How many tasks hold a queue slot of a worker.
abbrev pub held : Pool → ℕ → ℕ
held w i = occurrences i w.reserved + occurrences i (workers_of w.inflight)

pub record IsPool (n : ℕ) (w : Pool) : Type 0 where
  pub sound : IsPoolState n w.state
  pub size : length w.queue_depths ≡ n
  pub balance : (i : ℕ) → item 0 w.queue_depths i ≡ held w i
  pub bounded : (i : ℕ) → item 0 w.queue_depths i ≤ w.queue_capacity
  pub usize : w.queue_capacity < 2 ^ 64

item_past : (xs : List ℕ) (i : ℕ) → length xs ≤ i → item 0 xs i ≡ 0
item_past [] i h = refl
item_past (x ∷ xs) zero h = absurd (omega arith)
item_past (x ∷ xs) (suc i) h = item_past xs i (omega arith)

-- A worker with a task is one of the pool.
pub held-valid : (n : ℕ) (w : Pool) (i : ℕ) → IsPool n w → 0 < held w i → i < n
held-valid n w i h busy = elim (Bool-cases (ltb i n)) [
  | inl inside ↦ ltb→lt i n inside
  | inr outside ↦
      absurd (omega (arith, item_past w.queue_depths i (ground (arith, h.size)), h.balance i))
]

pub spawn-IsPool :
    (n bl_capacity queue_capacity : ℕ)
    → bl_capacity < 2 ^ 64
    → queue_capacity < 2 ^ 64
    → IsPool n (spawn n bl_capacity queue_capacity)
spawn-IsPool n bl_capacity queue_capacity h k = record {
  sound = new_state-IsPoolState n;
  size = length-replicate n 0;
  balance = λ i. item-replicate {A = ℕ} 0 n i ∙ sym (omega arith);
  bounded = λ i. rw (item-replicate {A = ℕ} 0 n i) (omega arith);
  usize = omega arith;
}

occurrences-middle :
    (a x : ℕ) (before after : List ℕ)
    → occurrences a (before ++ (x ∷ after))
      ≡ occurrences a (before ++ after) + (if eqb x a then 1 else 0)
occurrences-middle a x before after =
    ground (arith, occurrences-append a before (x ∷ after), occurrences-append a before after)

-- Writing one depth.
pub set-depths :
    (depths : List ℕ) (idx depth : ℕ) (P : ℕ → ℕ → Type 0)
    → idx < length depths
    → P idx depth
    → ((i : ℕ) → idx ≢ i → P i (item 0 depths i))
    → (i : ℕ) → P i (item 0 (set depths idx depth) i)
set-depths depths idx depth P inside new old i = elim (Bool-cases (eqb idx i)) [
  | inl t ↦ rw (← eqb→eq idx i t, item-set_self 0 depths idx depth inside) new
  | inr f ↦ rw (item-set_ne 0 depths idx i depth (eqb→ne idx i f)) (old i (eqb→ne idx i f))
]

workers_of-append :
    (xs ys : List Completion) → workers_of (xs ++ ys) ≡ workers_of xs ++ workers_of ys
workers_of-append [] ys = refl
workers_of-append (x ∷ xs) ys = ap (λ t. x.worker_idx ∷ t) (workers_of-append xs ys)

pub occurrences-inflight :
    (i : ℕ) (c : Completion) (before after : List Completion)
    → occurrences i (workers_of (before ++ (c ∷ after)))
      ≡ occurrences i (workers_of (before ++ after)) + (if eqb c.worker_idx i then 1 else 0)
occurrences-inflight i c before after =
    rw (workers_of-append before (c ∷ after), workers_of-append before after)
      (occurrences-middle i c.worker_idx (workers_of before) (workers_of after))

pub mark-keeps :
    (n : ℕ) (s : PoolState) (idx : ℕ) (profile : WorkerProfile) (source : Option String) (now : ℕ)
    → idx < n
    → IsPoolState n s
    → IsPoolState n (mark s idx profile source now).0
unfolding mark
mark-keeps n s idx profile none now inside h = (mark_loaded-keeps n s idx profile now inside h).0
mark-keeps n s idx profile (some id) now inside h =
    (mark_addlayer_source-keeps n _ idx id inside
      (mark_loaded-keeps n s idx profile now inside h).0).0

pub reserves-keeps :
    (n : ℕ) (w : Pool) (idx depth : ℕ)
    → depth < w.queue_capacity
    → get_elem? w.queue_depths idx ≡ some depth
    → IsPool n w
    → IsPool n (reserve w idx depth)
reserves-keeps n w idx depth room found h =
    let inside = get_elem?_lt w.queue_depths idx depth found in
    let read : item 0 w.queue_depths idx ≡ depth =
      item-get_elem? 0 w.queue_depths idx depth found in
    record {
      sound = h.sound;
      size = length-set w.queue_depths idx (depth + 1) ∙ h.size;
      balance =
          set-depths w.queue_depths idx (depth + 1) (λ i d. d ≡ held (reserve w idx depth) i) inside
            (rw (eqb_refl idx) (omega (arith, h.balance idx)))
            (λ i other. rw (ne→eqb idx i other) (h.balance i));
      bounded =
          set-depths w.queue_depths idx (depth + 1) (λ i d. d ≤ w.queue_capacity) inside
            (omega arith) (λ i other. h.bounded i);
      usize = h.usize;
    }

pub dispatches-keeps :
    (n : ℕ) (w : Pool) (before after : List ℕ) (idx : ℕ) (profile : WorkerProfile)
    (source : Option String) (now : ℕ)
    → w.reserved ≡ before ++ (idx ∷ after)
    → IsPool n w
    → IsPool n (dispatch w idx (before ++ after) profile source now)
dispatches-keeps n w before after idx profile source now e h =
    let moved : (i : ℕ)
        → occurrences i w.reserved
          ≡ occurrences i (before ++ after) + (if eqb idx i then 1 else 0) =
      λ i. rw e (occurrences-middle i idx before after) in
    let one : occurrences idx w.reserved ≡ occurrences idx (before ++ after) + 1 =
      moved idx ∙ rw (eqb_refl idx) refl in
    let inside = held-valid n w idx h (omega arith) in
    record {
      sound = mark-keeps n w.state idx profile source now inside h.sound;
      size = h.size;
      balance = λ i. h.balance i ∙ ground (arith, moved i);
      bounded = h.bounded;
      usize = h.usize;
    }
