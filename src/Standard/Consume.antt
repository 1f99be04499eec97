-- ===== src/Standard/Consume.antt =====
-- What a task of ConsumeStandardMessageService.cpp does with the quota and with each of its messages.
use rocketmq_client_cpp.Prelude.{
  ℕ, ◌-◌, ◌≡◌, ◌≤◌, ◌<◌, ap, some, List, [], ◌∷◌, ◌++◌, map, arith, length, ◌∙◌,
}
use rocketmq_client_cpp.Types.{clustering, Message, ConsumeMessageResult}
use rocketmq_client_cpp.Queue.{Consumer, ProcessQueue, body_size, release_quota}
use rocketmq_client_cpp.Queue.Quota.{release-clustering}
use rocketmq_client_cpp.Queue.World.{bytes_of}
use rocketmq_client_cpp.Standard.{
  StandardConsumer, Service, answer, permits, result_of, release_loop, consume_task, finish,
}

-- A queue with so many messages and bytes less on its account.
abbrev pub less_quota : ℕ → ℕ → ProcessQueue → ProcessQueue
less_quota n bytes q = record q {
  cached_message_quantity = q.cached_message_quantity - n;
  cached_message_memory = q.cached_message_memory - bytes;
}

-- The account covers the messages, in machine words.
abbrev pub Covers : ProcessQueue → List Message → Type 0
Covers q ms =
    (length ms ≤ q.cached_message_quantity)
    × (bytes_of ms ≤ q.cached_message_memory)
    × (q.cached_message_quantity < 4_294_967_296)
    × (q.cached_message_memory < 18_446_744_073_709_551_616)

release_quota-less :
    (m : Message) (ms : List Message) (q : ProcessQueue)
    → Covers q (m ∷ ms)
    → release_quota (body_size m) q ≡ less_quota 1 (body_size m) q
release_quota-less m ms q h = ground arith

release_loop-account :
    (r : ConsumeMessageResult) (c : Consumer) (ms : List Message) (q : ProcessQueue)
    → c.message_model ≡ clustering
    → Covers q ms
    → release_loop r c ms q ≡ (less_quota (length ms) (bytes_of ms) q, map (answer r) ms)
unfolding release_loop
release_loop-account r c [] q model h = ground arith
release_loop-account r c (m ∷ ms) q model h =
    rw (release-clustering c (body_size m) m.queue_offset q model, release_quota-less m ms q h)
      (rw (release_loop-account r c ms (less_quota 1 (body_size m) q) model (ground arith))
        (ground arith))

finish-account :
    (r : ConsumeMessageResult) (c : StandardConsumer) (ms : List Message) (q : ProcessQueue)
    → c.message_model ≡ clustering
    → Covers q ms
    → finish c.message_model r c ms q ≡ (less_quota (length ms) (bytes_of ms) q, map (answer r) ms)
unfolding finish
finish-account r c ms q model h =
    ap (λ k. finish k r c ms q) model ∙ release_loop-account r c.quota ms q model h

-- In the clustering model, a task whose messages the account covers gives back exactly their number
-- and bytes, leaves the rest of the queue as it is, and asks for one answer for each message in their
-- order: ack when the listener succeeds, nack when it fails or throws.
consume_task-account :
    (s : Service) (c : StandardConsumer) (m : Message) (ms : List Message) (q : ProcessQueue)
    → c.message_model ≡ clustering
    → Covers q (m ∷ ms)
    → consume_task s (some q) (some c) (m ∷ ms) ≡ (
      some (less_quota (length (m ∷ ms)) (bytes_of (m ∷ ms)) q),
      permits s m.topic (m ∷ ms) ++ map (answer (result_of (s.consume_message (m ∷ ms)))) (m ∷ ms),
    )
unfolding consume_task
consume_task-account s c m ms q model h =
    ap (λ out. (some out.0, permits s m.topic (m ∷ ms) ++ out.1))
      (finish-account (result_of (s.consume_message (m ∷ ms))) c (m ∷ ms) q model h)
