-- ===== src/Fifo.antt =====
-- The FIFO consume service: src/main/cpp/rocketmq/ConsumeFifoMessageService.cpp.
-- A handler takes what its weak pointers lock to, and returns the process queue and what it asks of
-- others, in order: tasks for the pool or the executor, calls of the consumer, and a failed assertion.
pub mod Machine
pub mod Exclusion
pub mod Stuck
pub mod Kept
pub mod Sequence
pub mod Dispatched
pub mod Order
use rocketmq_client_cpp.Prelude.{
  ℕ, ◌+◌, Bool, true, false, not, ◌&&◌, Option, none, some, List, [], ◌∷◌, ◌++◌, ltb, ◌==◌,
  if◌then◌else◌,
}
use rocketmq_client_cpp.Prelude.Text.{Text}
use rocketmq_client_cpp.Types.{
  MessageModel, broadcasting, clustering, Message, ConsumeMessageResult, MessageQueue,
}
use rocketmq_client_cpp.Queue.{
  Consumer, ProcessQueue, body_size, take_messages, release, committed_offset,
  bind_fifo_consume_task, unbind_fifo_consume_task,
}

pub record FifoConsumer : Type 0 where
  pub quota : Consumer
  pub open quota use *
  pub consume_batch_size : ℕ
  pub max_delivery_attempts : ℕ

-- The topics with a rate limiter, and the listener: `none` where the callback throws.
pub record Service : Type 0 where
  pub has_rate_limiter : Text → Bool
  pub consume_message : Message → Option ConsumeMessageResult

pub data Effect : Type 0 where
  submit_task : Message → Effect
  acquire_permit : Text → Effect
  ack : Message → Effect
  schedule_ack : Message → Effect
  forward_to_dead_letter_queue : Message → Effect
  schedule_forward : Message → Effect
  schedule_consume : Message → Effect
  update_offset : MessageQueue → ℕ → Effect
  signal_dispatcher : Effect
  abort : Effect

abbrev pub Outcome : Type 0
Outcome = Option ProcessQueue × List Effect

unfoldable pub submit_single : List Message → List Effect
submit_single (m ∷ []) = submit_task m ∷ []
submit_single ms = abort ∷ []

unfoldable pub submit_bound : FifoConsumer → ProcessQueue × Bool → Outcome
unfolding submit_single
submit_bound c (q, false) = (some q, [])
submit_bound c (q, true) =
    let (q', messages, more) = take_messages c.consume_batch_size q in
    (some q', if more then submit_single messages else [])

unfoldable pub submit_consume_task : Option ProcessQueue → Option FifoConsumer → Outcome
unfolding submit_bound
submit_consume_task none c = (none, [])
submit_consume_task (some q) none = (some q, [])
submit_consume_task (some q) (some c) =
    if c.consume_batch_size == 1
    then submit_bound c (bind_fifo_consume_task q)
    else (some q, abort ∷ [])

abbrev result_of : Option ConsumeMessageResult → ConsumeMessageResult
result_of none = ConsumeMessageResult.failure
result_of (some r) = r

-- `release` on the queue, then what follows; a failed assertion in it aborts.
released : Option ProcessQueue → ProcessQueue → (ProcessQueue → List Effect) → Outcome
released none q f = (some q, abort ∷ [])
released (some q') q f = (some q', f q')

pub publish_offset : ProcessQueue → Option ℕ → List Effect
publish_offset q none = []
publish_offset q (some o) = update_offset q.message_queue o ∷ []

unfoldable pub retry_or_forward : FifoConsumer → Message → List Effect
retry_or_forward c m =
    let m' = record m { delivery_attempt = m.delivery_attempt + 1 } in
    if ltb m'.delivery_attempt c.max_delivery_attempts
    then schedule_consume m' ∷ []
    else forward_to_dead_letter_queue m' ∷ []

finish : MessageModel → ConsumeMessageResult → FifoConsumer → Message → ProcessQueue → Outcome
unfolding released publish_offset retry_or_forward
finish clustering ConsumeMessageResult.success c m q =
    released (release (some c.quota) (body_size m) m.queue_offset q) q (λ q'. ack m ∷ [])
finish clustering ConsumeMessageResult.failure c m q = (some q, retry_or_forward c m)
finish broadcasting r c m q =
    released (release (some c.quota) (body_size m) m.queue_offset q) q
      (λ q'. publish_offset q' (committed_offset q'))

pub permit : Service → Message → List Effect
permit s m = if s.has_rate_limiter m.topic then acquire_permit m.topic ∷ [] else []

unfoldable pub consume_task :
    Service → Option ProcessQueue → Option FifoConsumer → Message → Outcome
unfolding finish permit
consume_task s none c m = (none, [])
consume_task s (some q) none m = (some q, [])
consume_task s (some q) (some c) m =
    let (q', effects) = finish c.message_model (result_of (s.consume_message m)) c m q in
    (q', permit s m ++ effects)

-- The callback of `ack`: whether it carries an error.
unfoldable pub on_ack : Option ProcessQueue → Option FifoConsumer → Message → Bool → Outcome
on_ack none c m error = (none, [])
on_ack (some q) none m true = (some q, [])
on_ack (some q) (some c) m true = (some q, schedule_ack m ∷ [])
on_ack (some q) c m false = (some (unbind_fifo_consume_task q).0, signal_dispatcher ∷ [])

unfoldable pub on_forward_to_dead_letter_queue :
    Option ProcessQueue → Option FifoConsumer → Message → Bool → Outcome
on_forward_to_dead_letter_queue none c m ok = (none, [])
on_forward_to_dead_letter_queue (some q) c m true = (some (unbind_fifo_consume_task q).0, [])
on_forward_to_dead_letter_queue (some q) none m false = (some q, abort ∷ [])
on_forward_to_dead_letter_queue (some q) (some c) m false = (some q, schedule_forward m ∷ [])

unfoldable pub schedule_forward_dead_letter_queue_task :
    Option ProcessQueue → Option FifoConsumer → Message → Outcome
schedule_forward_dead_letter_queue_task none c m = (none, [])
schedule_forward_dead_letter_queue_task (some q) none m = (some q, abort ∷ [])
schedule_forward_dead_letter_queue_task (some q) (some c) m =
    (some q, forward_to_dead_letter_queue m ∷ [])

unfoldable pub schedule_ack_task : Option ProcessQueue → Option FifoConsumer → Message → Outcome
schedule_ack_task none c m = (none, [])
schedule_ack_task (some q) none m = (some q, [])
schedule_ack_task (some q) (some c) m = (some q, ack m ∷ [])

unfoldable pub schedule_consume_task : Option ProcessQueue → Option FifoConsumer → Message → Outcome
schedule_consume_task none c m = (none, [])
schedule_consume_task (some q) none m = (some q, [])
schedule_consume_task (some q) (some c) m = (some q, submit_task m ∷ [])
