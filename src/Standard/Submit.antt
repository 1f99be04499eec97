-- ===== src/Standard/Submit.antt =====
-- What `submitConsumeTask` of ConsumeStandardMessageService.cpp makes of the cache.
use rocketmq_client_cpp.Prelude.{
  ℕ, zero, suc, ◌≤◌, ◌<◌, ◌≡◌, refl, ap, sym, ◌∙◌, true, false, Option, some, List, [], ◌∷◌, ◌++◌,
  arith, length, length-append, is_empty, map, Bool-cases, inl, inr, All,
}
use rocketmq_client_cpp.Types.{Message}
use rocketmq_client_cpp.Queue.{ProcessQueue, take_loop, take_messages}
use rocketmq_client_cpp.Queue.Taking.{take_loop-append, length-take_loop-le, take_loop_pos}
use rocketmq_client_cpp.Standard.{
  StandardConsumer, Effect, submit, submit_loop, submit_consume_task, submitted,
}

abbrev pub concat : List (List Message) → List Message
concat [] = []
concat (ms ∷ batches) = ms ++ concat batches

abbrev pub IsBatch : ℕ → List Message → Type 0
IsBatch n ms = (0 < length ms) × (length ms ≤ n)

-- The cache is cut into batches, each submitted once and in order, and ends empty.
abbrev pub Drains : StandardConsumer → ProcessQueue → Option (ProcessQueue × List Effect) → Type 0
Drains c q r =
    (batches : List (List Message)) × ((concat batches ≡ q.cached_messages)
      × (All (IsBatch c.consume_batch_size) batches)
      × (r ≡ some (record q { cached_messages = [] }, map (submit c) batches)))

is_empty-pos : (ms : List Message) → 0 < length ms → is_empty ms ≡ false
is_empty-pos [] h = elim h [ ]
is_empty-pos (m ∷ ms) h = refl

is_empty-nil : (ms : List Message) → is_empty ms ≡ true → ms ≡ []
is_empty-nil [] h = refl
is_empty-nil (m ∷ ms) h = absurd cc

abbrev holding : List Message → ProcessQueue → ProcessQueue
holding ms q = record q { cached_messages = ms }

submit_loop-last :
    (fuel : ℕ) (c : StandardConsumer) (q : ProcessQueue) (m : Message) (ms : List Message)
    → 0 < c.consume_batch_size
    → is_empty (take_loop c.consume_batch_size (m ∷ ms)).1 ≡ true
    → Drains c (holding (m ∷ ms) q) (submit_loop (suc fuel) c (holding (m ∷ ms) q))
unfolding submit_loop take_messages
submit_loop-last fuel c q m ms pos e =
    let n = c.consume_batch_size in
    let (taken, rest) = take_loop n (m ∷ ms) in
    let some_taken = take_loop_pos n m ms pos in
    let nil = is_empty-nil rest e in
    (
      taken ∷ [],
      (
        ap (λ l. taken ++ l) (sym nil) ∙ take_loop-append n (m ∷ ms),
        ((some_taken, length-take_loop-le n (m ∷ ms)), tt),
        rw (is_empty-pos taken some_taken, e)
            (ap (λ l. some (holding l q, submit c taken ∷ [])) nil),
      ),
    )

submit_loop-more :
    (fuel : ℕ) (c : StandardConsumer) (q : ProcessQueue) (m : Message) (ms : List Message)
    → 0 < c.consume_batch_size
    → is_empty (take_loop c.consume_batch_size (m ∷ ms)).1 ≡ false
    → Drains c
        (holding (take_loop c.consume_batch_size (m ∷ ms)).1 q)
        (submit_loop fuel c (holding (take_loop c.consume_batch_size (m ∷ ms)).1 q))
    → Drains c (holding (m ∷ ms) q) (submit_loop (suc fuel) c (holding (m ∷ ms) q))
unfolding submit_loop take_messages
submit_loop-more fuel c q m ms pos e (batches, (joined, each, run)) =
    let n = c.consume_batch_size in
    let taken = (take_loop n (m ∷ ms)).0 in
    let some_taken = take_loop_pos n m ms pos in
    (
      taken ∷ batches,
      (
        ap (λ l. taken ++ l) joined ∙ take_loop-append n (m ∷ ms),
        ((some_taken, length-take_loop-le n (m ∷ ms)), each),
        rw (is_empty-pos taken some_taken, e, run) refl,
      ),
    )

submit_loop-Drains :
    (fuel : ℕ) (c : StandardConsumer) (q : ProcessQueue) (ms : List Message)
    → 0 < c.consume_batch_size
    → length ms < fuel
    → Drains c (holding ms q) (submit_loop fuel c (holding ms q))
submit_loop-Drains zero c q ms pos enough = elim enough [ ]
submit_loop-Drains (suc fuel) c q [] pos enough =
    ([], (refl, tt, unfold submit_loop take_messages take_loop in refl))
submit_loop-Drains (suc fuel) c q (m ∷ ms) pos enough =
    let n = c.consume_batch_size in
    let rest = (take_loop n (m ∷ ms)).1 in
    let less : length rest < fuel = omega (
      arith,
      take_loop_pos n m ms pos,
      ap length (take_loop-append n (m ∷ ms)),
      length-append (take_loop n (m ∷ ms)).0 rest,
    ) in
    elim (Bool-cases (is_empty rest)) [
      | inl e ↦ submit_loop-last fuel c q m ms pos e
      | inr e ↦ submit_loop-more fuel c q m ms pos e (submit_loop-Drains fuel c q rest pos less)
    ]

submit_consume_task-run :
    (c : StandardConsumer) (q q' : ProcessQueue) (effects : List Effect)
    → submit_loop (suc (length q.cached_messages)) c q ≡ some (q', effects)
    → submit_consume_task (some q) (some c) ≡ some (some q', effects)
unfolding submit_consume_task submitted
submit_consume_task-run c q q' effects e = ap submitted e

-- With a batch size of at least one, submitConsumeTask ends and empties the cache: it cuts it into
-- batches of one message up to the batch size, and submits each of them once, in the order of the
-- cache.
pub submit_consume_task-drains :
    (c : StandardConsumer) (q : ProcessQueue)
    → 0 < c.consume_batch_size
    → (batches : List (List Message)) × ((concat batches ≡ q.cached_messages)
        × (All (IsBatch c.consume_batch_size) batches)
        × (submit_consume_task (some q) (some c)
            ≡ some (some (record q { cached_messages = [] }), map (submit c) batches)))
submit_consume_task-drains c q pos =
    let (batches, (joined, each, run)) =
      submit_loop-Drains (suc (length q.cached_messages)) c q q.cached_messages pos (omega arith) in
    (batches, (joined, each, submit_consume_task-run c q _ _ run))
