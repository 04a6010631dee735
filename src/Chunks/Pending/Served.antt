-- ===== src/Chunks/Pending/Served.antt =====
-- Whatever callers, the scheduler and the groups of coordinator.rs do, no waiter is forgotten.
use biei.Prelude.{
  ℕ, ◌+◌, ◌≡◌, refl, ap, ◌∙◌, subst, inl, inr, arith, Bool, true, false, ◌||◌, List, ◌∷◌, ◌++◌,
  Option, none, some, Result, leb, nat_Eq, contains, contains-append, length, All, All-imp,
  All-append, Bool-cases,
}
use biei.Chunks.Error.{ChunkFetchError}
use biei.Chunks.Store.{Bytes}
use biei.Chunks.Pending.{
  TilesetFetchState, DispatchDecision, idle, throttled, dispatch, request_chunks, scheduler_pass,
  complete_dispatched_group, max_concurrent_fetches_per_tileset,
}
use biei.Chunks.Pending.Coordinator.{
  Coordinator, new_coordinator, after_pass, started, receipts, receivers, stored, is_closed, Step,
  requests, leaves, passes, wakes, completes, Reach, here, next,
}
use biei.Chunks.Pending.Serving.{IsServed}
use biei.Chunks.Pending.Requests.{request_chunks-IsServing}
use biei.Chunks.Pending.Passes.{scheduler_pass-IsAttended}
use biei.Chunks.Pending.Completions.{complete_dispatched_group-IsServed}
use biei.Chunks.Pending.Waiting.{waits}
use biei.Chunks.Pending.Kept.{
  waits_in, request_chunks-waits, request_chunks-receipts, scheduler_pass-waits,
  complete_dispatched_group-waits,
}
use biei.Chunks.Pending.Awake.{
  IsAwake, has_work, is_awaited, request_chunks-has_work, started_alive, scheduler_pass-IsAwake,
  complete_dispatched_group-has_work,
}

-- A receiver with its chunk: it waits in the entry, was sent a result, or was dropped.
abbrev is_kept : Coordinator → ℕ × ℕ → Bool
is_kept c p = waits_in p.0 p.1 c.entry || (contains p.0 c.answered || contains p.0 c.left)

-- The entry serves whoever waits in it, every receiver is kept, and the scheduler is woken up.
pub record IsSound (c : Coordinator) : Type 0 where
  served : IsServed c.entry c.groups c.scheduler
  kept : All (λ p. is_kept c p ≡ true) c.asked
  awake : IsAwake c

stored-has_work :
    (entry : Option TilesetFetchState) (permit : Bool)
    → has_work entry ≡ true
    → stored entry permit ≡ permit
stored-has_work none permit h = absurd (cc)
stored-has_work (some s) permit h = refl

requests-IsSound :
    (c : Coordinator) (now : ℕ) (required : List ℕ) (len : ℕ)
    → IsSound c
    → IsSound (record c {
      entry = some (request_chunks c.entry c.channels now required len).0;
      scheduler = started (request_chunks c.entry c.channels now required len).2 c.scheduler;
      permit = stored c.entry c.permit;
      channels = c.channels + length required;
      asked = receipts (request_chunks c.entry c.channels now required len).1 ++ c.asked;
    })
requests-IsSound c now required len h =
    let s = (request_chunks c.entry c.channels now required len).0 in
    let joined = receipts (request_chunks c.entry c.channels now required len).1 in
    let start = (request_chunks c.entry c.channels now required len).2 in
    let known : ℕ → Bool = λ r. contains r c.answered || contains r c.left in
    let New = λ (p : ℕ × ℕ). (waits p.0 p.1 s.waiters || known p.0) ≡ true in
    record {
      served =
          request_chunks-IsServing c.entry c.groups c.scheduler c.channels now required len
            h.served;
      kept =
          All-append New joined c.asked
            (All-imp (λ (p : ℕ × ℕ). waits p.0 p.1 s.waiters ≡ true) New joined (λ p w. rw w refl)
              (request_chunks-receipts c.entry c.channels now required len))
            (All-imp (λ (p : ℕ × ℕ). is_kept c p ≡ true) New c.asked
              (λ p k. elim (Bool-cases (waits_in p.0 p.1 c.entry)) [
                | inl w ↦
                    let still : waits p.0 p.1 s.waiters ≡ true =
                      request_chunks-waits c.entry c.channels now required len p.0 p.1 w in
                    rw still refl
                | inr f ↦ let done : known p.0 ≡ true = rw f at k in ground (arith, done)
              ])
              h.kept);
      awake = λ parked.
          let (work, alive, awaited) = h.awake parked in
          (
            request_chunks-has_work c.entry c.channels now required len work,
            ap (started start) alive ∙ started_alive start,
            ap (λ b. b || leb max_concurrent_fetches_per_tileset (length c.groups))
                  (stored-has_work c.entry c.permit work)
                ∙ awaited,
          );
    }

after_pass-kept :
    (c : Coordinator) (x : Option TilesetFetchState × DispatchDecision)
    → All
        (λ p. (waits_in p.0 p.1 x.0 || (contains p.0 c.answered || contains p.0 c.left)) ≡ true)
        c.asked
    → All (λ p. is_kept (after_pass c x) p ≡ true) (after_pass c x).asked
after_pass-kept c (entry, idle) h = h
after_pass-kept c (entry, throttled) h = h
after_pass-kept c (entry, dispatch groups len delay pending) h = h

passes-IsSound :
    (c : Coordinator) (max_fetch now : ℕ)
    → c.scheduler ≡ true
    → c.parked ≡ false
    → IsSound c
    → IsSound (after_pass c (scheduler_pass (is_closed c) max_fetch now c.entry))
passes-IsSound c max_fetch now alive free h =
    let passed = scheduler_pass (is_closed c) max_fetch now c.entry in
    let known : ℕ → Bool = λ r. contains r c.answered || contains r c.left in
    record {
      served = scheduler_pass-IsAttended c (is_closed c) max_fetch now c.entry alive h.served;
      kept = after_pass-kept c passed (
          All-imp (λ (p : ℕ × ℕ). is_kept c p ≡ true)
            (λ (p : ℕ × ℕ). (waits_in p.0 p.1 passed.0 || known p.0) ≡ true) c.asked
            (λ p k. elim (Bool-cases (known p.0)) [
              | inl done ↦ ground (arith, done)
              | inr silent ↦
                  let waited : waits_in p.0 p.1 c.entry ≡ true = ground (arith, k, silent) in
                  let there : contains p.0 c.left ≡ false = ground (arith, silent) in
                  let still : waits_in p.0 p.1 passed.0 ≡ true =
                    scheduler_pass-waits (is_closed c) max_fetch now c.entry c.groups c.scheduler
                      p.0 p.1 h.served there waited in
                  rw still refl
            ])
            h.kept);
      awake = scheduler_pass-IsAwake c (is_closed c) max_fetch now c.entry alive free h.served;
    }

completes-IsSound :
    (c : Coordinator) (before after : List (ℕ × ℕ)) (range : ℕ × ℕ)
    (result : Result ChunkFetchError (List (ℕ × Bytes)))
    → c.groups ≡ before ++ (range ∷ after)
    → IsSound c
    → IsSound (record c {
      entry = (complete_dispatched_group (is_closed c) range result c.entry).0;
      groups = before ++ after;
      permit = c.permit || (complete_dispatched_group (is_closed c) range result c.entry).2;
      answered =
          receivers (complete_dispatched_group (is_closed c) range result c.entry).1.delivered
          ++ c.answered;
    })
completes-IsSound c before after range result listed h =
    let done = complete_dispatched_group (is_closed c) range result c.entry in
    let sent = receivers done.1.delivered in
    let served : IsServed c.entry (before ++ (range ∷ after)) c.scheduler =
      subst (λ gs. IsServed c.entry gs c.scheduler) listed h.served in
    record {
      served =
          complete_dispatched_group-IsServed (is_closed c) range result c.entry before after
            c.scheduler served;
      kept =
          All-imp (λ (p : ℕ × ℕ). is_kept c p ≡ true)
            (λ (p : ℕ × ℕ).
              (waits_in p.0 p.1 done.0
                || (contains p.0 (sent ++ c.answered) || contains p.0 c.left))
              ≡ true)
            c.asked
            (λ p k.
              let all : contains p.0 (sent ++ c.answered)
                  ≡ (contains p.0 sent || contains p.0 c.answered) =
                contains-append p.0 sent c.answered in
              elim (Bool-cases (waits_in p.0 p.1 c.entry)) [
                | inl waited ↦
                    let either : (waits_in p.0 p.1 done.0
                          || (contains p.0 sent || contains p.0 c.left))
                        ≡ true =
                      complete_dispatched_group-waits (is_closed c) range result c.entry before
                        after c.scheduler p.0 p.1 served waited in
                    ground (arith, either, all)
                | inr f ↦
                    let known : (contains p.0 c.answered || contains p.0 c.left) ≡ true =
                      rw f at k in
                    ground (arith, known, all)
              ])
            h.kept;
      awake = λ parked.
          let (work, alive, awaited) = h.awake parked in
          let (kept, notified) =
            complete_dispatched_group-has_work (is_closed c) range result c.entry c.groups
              c.scheduler h.served alive work in
          let same : (c.permit || done.2) ≡ is_awaited c = ap (λ b. c.permit || b) notified in
          let stays : (c.permit || done.2) ≡ true = same ∙ awaited in (kept, alive, rw stays refl);
    }

leaves-IsSound : (c : Coordinator) (w : ℕ) → IsSound c → IsSound (record c { left = w ∷ c.left })
leaves-IsSound c w h = record {
  served = h.served;
  kept =
      All-imp (λ (p : ℕ × ℕ). is_kept c p ≡ true)
        (λ (p : ℕ × ℕ).
          (waits_in p.0 p.1 c.entry || (contains p.0 c.answered || contains p.0 (w ∷ c.left)))
          ≡ true)
        c.asked (λ p k. ground (arith, k)) h.kept;
  awake = h.awake;
}

wakes-IsSound :
    (c : Coordinator) → IsSound c → IsSound (record c { parked = false; permit = false })
wakes-IsSound c h = record { served = h.served; kept = h.kept; awake = λ parked. absurd (cc) }

Step-IsSound : {c d : Coordinator} → Step c d → IsSound c → IsSound d
Step-IsSound {c} (requests now required len) h = requests-IsSound c now required len h
Step-IsSound {c} (leaves w made) h = leaves-IsSound c w h
Step-IsSound {c} (passes max_fetch now alive free) h = passes-IsSound c max_fetch now alive free h
Step-IsSound {c} (wakes parked permit) h = wakes-IsSound c h
Step-IsSound {c} (completes before after range result listed) h =
    completes-IsSound c before after range result listed h

-- In whatever order callers ask for chunks and leave, the scheduler runs, waits for capacity and is
-- notified, and groups complete, from a map with no entry on. Every receiver that a caller was
-- handed waits for its chunk, was sent a result, or was dropped. Whoever waits, waits for a chunk of
-- a group that is being fetched, or for a pending one, and pending chunks have a scheduler that is
-- alive; at most 32 groups are being fetched, and the count of the state is their number. While the
-- scheduler waits for capacity, there are pending chunks, and a notification is stored or all 32
-- groups are being fetched. An entry is removed only when no group is being fetched and the
-- scheduler has ended.
pub Reach-IsSound : {c : Coordinator} → Reach new_coordinator c → IsSound c
Reach-IsSound here = record { served = (refl, refl); kept = tt; awake = λ parked. absurd (cc) }
Reach-IsSound (next r step) = Step-IsSound step (Reach-IsSound r)
