-- ===== src/Standard/Counts.antt =====
-- What caching, dispatching and running a task (ProcessQueueImpl.cpp, ConsumeStandardMessageService.cpp) do to the
-- number of messages in each place.
use rocketmq_client_cpp.Prelude.{
  ℕ, ◌+◌, ◌≡◌, refl, ap, sym, ◌∙◌, Bool, some, List, [], ◌∷◌, ◌++◌, map, length, length-append,
  arith, Bool-cases, inl, inr, append_assoc,
}
use rocketmq_client_cpp.Prelude.Word.{u32, u64}
use rocketmq_client_cpp.Prelude.Text.{Text}
use rocketmq_client_cpp.Types.{MessageModel, clustering, Message, ConsumeMessageResult, accept}
use rocketmq_client_cpp.Queue.{
  Consumer, ProcessQueue, cache_message, cache_loop, release_quota, body_size,
}
use rocketmq_client_cpp.Queue.Quota.{release-clustering}
use rocketmq_client_cpp.Queue.World.{bytes_of}
use rocketmq_client_cpp.Queue.Account.{bytes_of-append}
use rocketmq_client_cpp.Standard.{
  StandardConsumer, Service, Effect, submit, answer, permits, result_of, release_loop, consume_task,
  finish,
}
use rocketmq_client_cpp.Standard.Submit.{concat}
use rocketmq_client_cpp.Standard.Machine.{tally, tasks_of, answered_of}

pub tally-append :
    (p : Message → Bool) (xs ys : List Message) → tally p (xs ++ ys) ≡ tally p xs + tally p ys
tally-append p [] ys = omega arith
tally-append p (m ∷ xs) ys = ground (arith, tally-append p xs ys)

pub concat-append : (xs ys : List (List Message)) → concat (xs ++ ys) ≡ concat xs ++ concat ys
concat-append [] ys = refl
concat-append (x ∷ xs) ys = rw (concat-append xs ys) (sym (append_assoc x (concat xs) (concat ys)))

-- One message that is cached.
pub cache_loop-tally :
    (model : MessageModel) (p : Message → Bool) (ms : List Message) (q : ProcessQueue)
    → tally p q.cached_messages + tally p ms
      ≡ tally p (cache_loop model ms q).0.cached_messages + tally p (cache_loop model ms q).1
unfolding cache_loop cache_message
cache_loop-tally model p [] q = omega arith
cache_loop-tally model p (m ∷ ms) q = elim (Bool-cases (accept q.filter_expression m)) [
  | inl fits ↦ rw fits (
      ground (
        arith,
        cache_loop-tally model p ms (cache_message model m q),
        tally-append p q.cached_messages (m ∷ []),
      ))
  | inr dropped ↦ rw dropped (ground (arith, cache_loop-tally model p ms q))
]

-- The counters through the loop of `cacheMessages`, with `n` messages and `b` bytes elsewhere.
pub cache_loop-quantity :
    (model : MessageModel) (n : ℕ) (ms : List Message) (q : ProcessQueue)
    → q.cached_message_quantity ≡ u32 (length q.cached_messages + n)
    → (cache_loop model ms q).0.cached_message_quantity
      ≡ u32 (length (cache_loop model ms q).0.cached_messages + n)
unfolding cache_loop cache_message
cache_loop-quantity model n [] q h = h
cache_loop-quantity model n (m ∷ ms) q h = elim (Bool-cases (accept q.filter_expression m)) [
  | inl fits ↦ rw fits (
      cache_loop-quantity model n ms (cache_message model m q)
        (omega (arith, h, length-append q.cached_messages (m ∷ []))))
  | inr dropped ↦ rw dropped (cache_loop-quantity model n ms q h)
]

pub cache_loop-memory :
    (model : MessageModel) (b : ℕ) (ms : List Message) (q : ProcessQueue)
    → q.cached_message_memory ≡ u64 (bytes_of q.cached_messages + b)
    → (cache_loop model ms q).0.cached_message_memory
      ≡ u64 (bytes_of (cache_loop model ms q).0.cached_messages + b)
unfolding cache_loop cache_message
cache_loop-memory model b [] q h = h
cache_loop-memory model b (m ∷ ms) q h = elim (Bool-cases (accept q.filter_expression m)) [
  | inl fits ↦ rw fits (
      cache_loop-memory model b ms (cache_message model m q)
        (omega (arith, h, bytes_of-append q.cached_messages (m ∷ []))))
  | inr dropped ↦ rw dropped (cache_loop-memory model b ms q h)
]

-- The queue that a task leaves.
abbrev pub release_all : List Message → ProcessQueue → ProcessQueue
release_all [] q = q
release_all (m ∷ ms) q = release_all ms (release_quota (body_size m) q)

release_loop-all :
    (r : ConsumeMessageResult) (c : Consumer) (ms : List Message) (q : ProcessQueue)
    → c.message_model ≡ clustering
    → release_loop r c ms q ≡ (release_all ms q, map (answer r) ms)
unfolding release_loop
release_loop-all r c [] q model = refl
release_loop-all r c (m ∷ ms) q model =
    rw (release-clustering c (body_size m) m.queue_offset q model)
      (rw (release_loop-all r c ms (release_quota (body_size m) q) model) refl)

pub release_all-cached :
    (ms : List Message) (q : ProcessQueue) → (release_all ms q).cached_messages ≡ q.cached_messages
release_all-cached [] q = refl
release_all-cached (m ∷ ms) q = release_all-cached ms (release_quota (body_size m) q)

pub release_all-quantity :
    (n : ℕ) (ms : List Message) (q : ProcessQueue)
    → q.cached_message_quantity ≡ u32 (length ms + n)
    → (release_all ms q).cached_message_quantity ≡ u32 n
release_all-quantity n [] q h = omega (arith, h)
release_all-quantity n (m ∷ ms) q h =
    release_all-quantity n ms (release_quota (body_size m) q) (omega (arith, h))

pub release_all-memory :
    (b : ℕ) (ms : List Message) (q : ProcessQueue)
    → q.cached_message_memory ≡ u64 (bytes_of ms + b)
    → (release_all ms q).cached_message_memory ≡ u64 b
release_all-memory b [] q h = omega (arith, h)
release_all-memory b (m ∷ ms) q h =
    release_all-memory b ms (release_quota (body_size m) q) (omega (arith, h))

answered_of-permits :
    (s : Service) (topic : Text) (ms : List Message) (es : List Effect)
    → answered_of (permits s topic ms ++ es) ≡ answered_of es
unfolding permits
answered_of-permits s topic [] es = refl
answered_of-permits s topic (m ∷ ms) es = elim (Bool-cases (s.has_rate_limiter topic)) [
  | inl limited ↦ rw limited (answered_of-permits s topic ms es)
  | inr free ↦ rw free refl
]

answered_of-map :
    (r : ConsumeMessageResult) (ms : List Message) → answered_of (map (answer r) ms) ≡ ms
answered_of-map r [] = refl
answered_of-map ConsumeMessageResult.success (m ∷ ms) =
    ap (λ l. m ∷ l) (answered_of-map ConsumeMessageResult.success ms)
answered_of-map ConsumeMessageResult.failure (m ∷ ms) =
    ap (λ l. m ∷ l) (answered_of-map ConsumeMessageResult.failure ms)

-- A task answers its messages, and leaves the cache as it is.
pub consume_task-all :
    (s : Service) (c : StandardConsumer) (ms : List Message) (q : ProcessQueue)
    → c.message_model ≡ clustering
    → ((consume_task s (some q) (some c) ms).0 ≡ some (release_all ms q))
      × (answered_of (consume_task s (some q) (some c) ms).1 ≡ ms)
unfolding consume_task
consume_task-all s c [] q model = (refl, refl)
consume_task-all s c (m ∷ ms) q model =
    let r = result_of (s.consume_message (m ∷ ms)) in
    let run : finish c.message_model r c (m ∷ ms) q
        ≡ (release_all (m ∷ ms) q, map (answer r) (m ∷ ms)) =
      unfold finish in
      (ap (λ k. finish k r c (m ∷ ms) q) model ∙ release_loop-all r c.quota (m ∷ ms) q model) in
    (
      ap (λ out. some out.0) run,
      ap (λ out. answered_of (permits s m.topic (m ∷ ms) ++ out.1)) run
          ∙ (answered_of-permits s m.topic (m ∷ ms) (map (answer r) (m ∷ ms))
              ∙ answered_of-map r (m ∷ ms)),
    )

pub tasks_of-submit :
    (c : StandardConsumer) (batches : List (List Message))
    → tasks_of (map (submit c) batches) ≡ batches
tasks_of-submit c [] = refl
tasks_of-submit c (ms ∷ batches) = ground (arith, tasks_of-submit c batches)
