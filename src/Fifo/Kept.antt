-- ===== src/Fifo/Kept.antt =====
-- What the handlers of ConsumeFifoMessageService.cpp keep: the cache of the queue, and the message that they are about.
use rocketmq_client_cpp.Prelude.{
  ◌+◌, ◌≡◌, refl, Bool, true, false, Option, none, some, List, [], ◌∷◌, ◌++◌, All, ltb,
  if◌then◌else◌, Bool-cases, inl, inr,
}
use rocketmq_client_cpp.Types.{
  Message, MessageModel, broadcasting, clustering, ConsumeMessageResult,
}
use rocketmq_client_cpp.Queue.{ProcessQueue, committed_offset, body_size, unbind_fifo_consume_task}
use rocketmq_client_cpp.Queue.Refine.{release-kept}
use rocketmq_client_cpp.Fifo.{
  FifoConsumer, Service, Effect, Outcome, consume_task, finish, released, permit, retry_or_forward,
  result_of, on_ack, on_forward_to_dead_letter_queue, schedule_forward_dead_letter_queue_task,
  schedule_ack_task, schedule_consume_task,
}
use rocketmq_client_cpp.Fifo.Machine.{
  Activity, running, awaiting_ack, acking_later, awaiting_forward, forwarding_later,
  consuming_later, activities_of, perform,
}
use rocketmq_client_cpp.Fifo.Exclusion.{published, permit_activities}

-- A message up to the count of its deliveries.
abbrev pub key : Message → Message
key m = record m { delivery_attempt = 0 }

abbrev pub message_of : Activity → Message
message_of (running m) = m
message_of (awaiting_ack m) = m
message_of (acking_later m) = m
message_of (awaiting_forward m) = m
message_of (forwarding_later m) = m
message_of (consuming_later m) = m

abbrev pub About : Message → Activity → Type 0
About m a = key (message_of a) ≡ key m

-- The cache, the filter and the message are kept.
abbrev pub Keeps : ProcessQueue → Message → Outcome → Type 0
Keeps q m (none, es) = ⊥
Keeps q m (some q', es) =
    (q'.cached_messages ≡ q.cached_messages)
    × ((q'.filter_expression ≡ q.filter_expression) × All (About m) (activities_of es))

module _ (m : Message) (q : ProcessQueue) where
  released-Keeps :
      (o : Option ProcessQueue) (f : ProcessQueue → List Effect)
      → ((q' : ProcessQueue)
          → o ≡ some q'
          → (q'.cached_messages ≡ q.cached_messages) × (q'.filter_expression ≡ q.filter_expression))
      → ((q' : ProcessQueue) → All (About m) (activities_of (f q')))
      → Keeps q m (released o q f)
  unfolding released
  released-Keeps none f h k = (refl, (refl, tt))
  released-Keeps (some q') f h k = ((h q' refl).0, ((h q' refl).1, k q'))

  finish-Keeps :
      (k : MessageModel) (r : ConsumeMessageResult) (c : FifoConsumer)
      → Keeps q m (finish k r c m q)
  unfolding finish
  finish-Keeps clustering ConsumeMessageResult.success c =
      released-Keeps _ _ (λ q' e. release-kept c.quota (body_size m) m.queue_offset q q' e)
        (λ q'. (refl, tt))
  finish-Keeps clustering ConsumeMessageResult.failure c = (
    refl,
    (
      refl,
      unfold retry_or_forward in retried (ltb (m.delivery_attempt + 1) c.max_delivery_attempts),
    ),
  )
    where
      retried :
          (again : Bool)
          → All (About m) (
              activities_of (
                if again
                then Effect.schedule_consume
                    (record m { delivery_attempt = m.delivery_attempt + 1 })
                  ∷ []
                else Effect.forward_to_dead_letter_queue
                    (record m { delivery_attempt = m.delivery_attempt + 1 })
                  ∷ []))
      retried true = (refl, tt)
      retried false = (refl, tt)
  finish-Keeps broadcasting r c =
      released-Keeps _ _ (λ q' e. release-kept c.quota (body_size m) m.queue_offset q q' e)
        (λ q'. rw (published q' (committed_offset q')) tt)

  permitted-Keeps : (s : Service) (o : Outcome) → Keeps q m o → Keeps q m (o.0, permit s m ++ o.1)
  permitted-Keeps s (none, es) h = h
  permitted-Keeps s (some q', es) h = (h.0, (h.1.0, rw (permit_activities s m es) h.1.1))

unbind-kept :
    (q : ProcessQueue)
    → ((unbind_fifo_consume_task q).0.cached_messages ≡ q.cached_messages)
      × ((unbind_fifo_consume_task q).0.filter_expression ≡ q.filter_expression)
unfolding unbind_fifo_consume_task
unbind-kept q = elim (Bool-cases q.has_fifo_task_bound) [
  | inl bound ↦ rw bound (refl, refl)
  | inr free ↦ rw free (refl, refl)
]

pub perform-Keeps :
    (s : Service) (c : FifoConsumer) (q : ProcessQueue) (a : Activity) (answer : Bool)
    → Keeps q (message_of a) (perform s c q a answer)
unfolding perform
perform-Keeps s c q (running m) answer =
    unfold consume_task in
    (permitted-Keeps m q s _ (finish-Keeps m q c.message_model (result_of (s.consume_message m)) c))
perform-Keeps s c q (awaiting_ack m) true = unfold on_ack in (refl, (refl, (refl, tt)))
perform-Keeps s c q (awaiting_ack m) false =
    unfold on_ack in ((unbind-kept q).0, ((unbind-kept q).1, tt))
perform-Keeps s c q (acking_later m) answer = unfold schedule_ack_task in (refl, (refl, (refl, tt)))
perform-Keeps s c q (awaiting_forward m) true =
    unfold on_forward_to_dead_letter_queue in ((unbind-kept q).0, ((unbind-kept q).1, tt))
perform-Keeps s c q (awaiting_forward m) false =
    unfold on_forward_to_dead_letter_queue in (refl, (refl, (refl, tt)))
perform-Keeps s c q (forwarding_later m) answer =
    unfold schedule_forward_dead_letter_queue_task in (refl, (refl, (refl, tt)))
perform-Keeps s c q (consuming_later m) answer =
    unfold schedule_consume_task in (refl, (refl, (refl, tt)))
