-- ===== src/Standard/Quota.antt =====
-- The quota of a broadcasting consumer under ConsumeStandardMessageService.cpp.
use rocketmq_client_cpp.Prelude.{
  zero, suc, ℕ, ◌≡◌, refl, true, Option, none, some, List, [], ◌∷◌, arith, suc, Bool-cases, length,
  ap, ◌∙◌, is_empty, inl, subst, inr,
}
use rocketmq_client_cpp.Types.{broadcasting, Message}
use rocketmq_client_cpp.Queue.{Consumer, ProcessQueue, take_messages, should_throttle, throttles}
use rocketmq_client_cpp.Standard.{
  StandardConsumer, Service, Effect, result_of, submit, submitted, submit_consume_task, submit_loop,
  consume_task, finish,
}

-- What the service does to a queue: a dispatch, and a task on messages it submitted.
pub data Serve (s : Service) (c : StandardConsumer) (q : ProcessQueue) : ProcessQueue → Type 0 where
  dispatches :
      {q' : ProcessQueue} {effects : List Effect}
      → submit_consume_task (some q) (some c) ≡ some (some q', effects)
      → Serve s c q q'
  consumes :
      (ms : List Message) {q' : ProcessQueue} {effects : List Effect}
      → consume_task s (some q) (some c) ms ≡ (some q', effects)
      → Serve s c q q'

pub data Served (s : Service) (c : StandardConsumer) (q : ProcessQueue)
    : ProcessQueue → Type 0 where
  start : Served s c q q
  later : {r t : ProcessQueue} → Served s c q r → Serve s c r t → Served s c q t

-- The two counters of a queue.
abbrev account : ProcessQueue → ℕ × ℕ
account q = (q.cached_message_quantity, q.cached_message_memory)

abbrev Kept : ProcessQueue → Option (ProcessQueue × List Effect) → Type 0
Kept q none = Unit
Kept q (some (q', effects)) = account q' ≡ account q

Kept-more :
    (q : ProcessQueue) (e : Effect) (r : Option (ProcessQueue × List Effect))
    → Kept q r
    → Kept q (elim r [ none ↦ none | some (q', effects) ↦ some (q', e ∷ effects) ])
Kept-more q e none h = h
Kept-more q e (some (q', effects)) h = h

submit_loop-keeps :
    (fuel : ℕ) (c : StandardConsumer) (q : ProcessQueue) → Kept q (submit_loop fuel c q)
unfolding submit_loop take_messages
submit_loop-keeps zero c q = tt
submit_loop-keeps (suc fuel) c q =
    let (q', messages, has_more) = take_messages c.consume_batch_size q in
    elim (Bool-cases (is_empty messages)) [
      | inl e ↦ rw e refl
      | inr e ↦ elim (Bool-cases has_more) [
        | inl m ↦
            rw (e, m)
              (Kept-more q (submit c messages) (submit_loop fuel c q')
                (submit_loop-keeps fuel c q'))
        | inr m ↦ rw (e, m) refl
      ]
    ]

submitted-keeps :
    (q q' : ProcessQueue) (effects : List Effect) (r : Option (ProcessQueue × List Effect))
    → submitted r ≡ some (some q', effects)
    → Kept q r
    → account q' ≡ account q
unfolding submitted
submitted-keeps q q' effects none e h = absurd cc
submitted-keeps q q' effects (some (r, es)) e h = cc

consume_task-keeps :
    (s : Service) (c : StandardConsumer) (ms : List Message) (q q' : ProcessQueue)
    (effects : List Effect)
    → c.message_model ≡ broadcasting
    → consume_task s (some q) (some c) ms ≡ (some q', effects)
    → q ≡ q'
unfolding consume_task finish
consume_task-keeps s c [] q q' effects model e = cc
consume_task-keeps s c (m ∷ ms) q q' effects model e =
    let run = finish c.message_model (result_of (s.consume_message (m ∷ ms))) c (m ∷ ms) q in
    let same : run.0 ≡ q =
      ap (λ k. (finish k (result_of (s.consume_message (m ∷ ms))) c (m ∷ ms) q).0) model in
    cc

throttle-account :
    (c : Consumer) (q q' : ProcessQueue)
    → account q' ≡ account q
    → should_throttle (some c) q' ≡ should_throttle (some c) q
unfolding should_throttle throttles
throttle-account c q q' e = ground arith

-- A queue of a broadcasting consumer that is throttled stays throttled whatever dispatches and tasks
-- the standard service runs on it, with any listener.
broadcasting-stays_throttled :
    (s : Service) (c : StandardConsumer) (q r : ProcessQueue)
    → c.message_model ≡ broadcasting
    → should_throttle (some c.quota) q ≡ true
    → Served s c q r
    → should_throttle (some c.quota) r ≡ true
broadcasting-stays_throttled s c q r model h start = h
broadcasting-stays_throttled s c q r model h (later {r = t} before (dispatches {effects = es} e)) =
    throttle-account c.quota t r (
      submitted-keeps t r es (submit_loop (suc (length t.cached_messages)) c t)
        (unfold submit_consume_task in e) (submit_loop-keeps (suc (length t.cached_messages)) c t))
    ∙ broadcasting-stays_throttled s c q t model h before
broadcasting-stays_throttled s c q r model h (later {r = t} before (consumes ms {effects = es} e)) =
    subst (λ k. should_throttle (some c.quota) k ≡ true) (consume_task-keeps s c ms t r es model e)
      (broadcasting-stays_throttled s c q t model h before)
