-- ===== src/Standard.antt =====
-- The standard consume service: src/main/cpp/rocketmq/ConsumeStandardMessageService.cpp.
-- A handler takes what its weak pointers lock to, and returns the process queue and what it asks of
-- others, in order. Tracing and logging are left out.
pub mod Submit
pub mod Consume
pub mod Quota
pub mod Machine
pub mod Counts
pub mod Delivery
use rocketmq_client_cpp.Prelude.{
  ℕ, zero, suc, ◌+◌, Bool, true, false, not, ◌&&◌, Option, none, some, List, [], ◌∷◌, ◌++◌,
  is_empty, length, if◌then◌else◌, is_some,
}
use rocketmq_client_cpp.Prelude.Text.{Text}
use rocketmq_client_cpp.Types.{
  MessageModel, broadcasting, clustering, Message, ConsumeMessageResult, MessageQueue,
}
use rocketmq_client_cpp.Queue.{
  Consumer, ProcessQueue, body_size, take_messages, release, committed_offset,
}

pub record StandardConsumer : Type 0 where
  pub quota : Consumer
  pub open quota use *
  pub consume_batch_size : ℕ  -- uint32_t
  pub custom_executor : Bool  -- whether one is set

-- The topics with a rate limiter, and the listener: `none` where the callback throws.
pub record Service : Type 0 where
  pub has_rate_limiter : Text → Bool
  pub consume_message : List Message → Option ConsumeMessageResult

pub data Effect : Type 0 where
  submit_pool : List Message → Effect
  submit_executor : List Message → Effect
  acquire_permit : Text → Effect
  ack : Message → Effect
  nack : Message → Effect
  update_offset : MessageQueue → ℕ → Effect
  abort : Effect

abbrev pub Outcome : Type 0
Outcome = Option ProcessQueue × List Effect

abbrev pub submit : StandardConsumer → List Message → Effect
submit c ms = if c.custom_executor then submit_executor ms else submit_pool ms

-- The loop of `submitConsumeTask`, on fuel: `none` where the fuel runs out.
unfoldable pub submit_loop :
    ℕ → StandardConsumer → ProcessQueue → Option (ProcessQueue × List Effect)
submit_loop zero c q = none
submit_loop (suc fuel) c q =
    let (q', messages, has_more) = take_messages c.consume_batch_size q in
    let rest = submit_loop fuel c q' in
    if is_empty messages
    then some (q', if has_more then abort ∷ [] else [])
    else if has_more
    then elim rest [ none ↦ none | some (q'', effects) ↦ some (q'', submit c messages ∷ effects) ]
    else some (q', submit c messages ∷ [])

pub submitted : Option (ProcessQueue × List Effect) → Option Outcome
submitted none = none
submitted (some (q, effects)) = some (some q, effects)

unfoldable pub submit_consume_task : Option ProcessQueue → Option StandardConsumer → Option Outcome
unfolding submitted
submit_consume_task none c = some (none, [])
submit_consume_task (some q) none = some (some q, [])
submit_consume_task (some q) (some c) = submitted (submit_loop (suc (length q.cached_messages)) c q)

abbrev pub result_of : Option ConsumeMessageResult → ConsumeMessageResult
result_of none = ConsumeMessageResult.failure
result_of (some r) = r

-- `acquire` once for each message, on the limiter of the first one's topic.
unfoldable pub permits : Service → Text → List Message → List Effect
permits s topic [] = []
permits s topic (m ∷ ms) =
    if s.has_rate_limiter topic then acquire_permit topic ∷ permits s topic ms else []

abbrev pub answer : ConsumeMessageResult → Message → Effect
answer ConsumeMessageResult.success m = ack m
answer ConsumeMessageResult.failure m = nack m

abbrev queue_or : ProcessQueue → Option ProcessQueue → ProcessQueue
queue_or q none = q
queue_or q (some q') = q'

-- The loop of the CLUSTERING branch; a failed assertion in `release` aborts.
unfoldable pub release_loop :
    ConsumeMessageResult → Consumer → List Message → ProcessQueue → ProcessQueue × List Effect
release_loop r c [] q = (q, [])
release_loop r c (m ∷ ms) q =
    let q' = release (some c) (body_size m) m.queue_offset q in
    let (q'', effects) = release_loop r c ms (queue_or q q') in
    if is_some q' then (q'', answer r m ∷ effects) else (q, abort ∷ [])

pub publish_offset : ProcessQueue → Option ℕ → List Effect
publish_offset q none = []
publish_offset q (some o) = update_offset q.message_queue o ∷ []

finish :
    MessageModel
    → ConsumeMessageResult
    → StandardConsumer
    → List Message
    → ProcessQueue
    → ProcessQueue × List Effect
unfolding publish_offset
finish clustering r c ms q = release_loop r c.quota ms q
finish broadcasting r c ms q = (q, publish_offset q (committed_offset q))

unfoldable pub consume_task :
    Service → Option ProcessQueue → Option StandardConsumer → List Message → Outcome
unfolding finish
consume_task s none c ms = (none, [])
consume_task s (some q) c [] = (some q, [])
consume_task s (some q) none (m ∷ ms) = (some q, [])
consume_task s (some q) (some c) (m ∷ ms) =
    let (q', effects) =
      finish c.message_model (result_of (s.consume_message (m ∷ ms))) c (m ∷ ms) q in
    (some q', permits s m.topic (m ∷ ms) ++ effects)
