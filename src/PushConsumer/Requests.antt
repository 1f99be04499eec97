-- ===== src/PushConsumer/Requests.antt =====
-- The requests of a push consumer about a message: `ack`, `nack`, `forwardToDeadLetterQueue` and
-- `wrapAckMessageRequest` of src/main/cpp/rocketmq/PushConsumerImpl.cpp, with its settings and its heartbeat.
pub mod Received
use rocketmq_client_cpp.Prelude.{
  ℕ, ◌+◌, ◌≡◌, Bool, true, false, Option, none, some, List, [], ◌∷◌, ◌++◌, map, is_empty, keep, leb,
  if◌then◌else◌,
}
use rocketmq_client_cpp.Prelude.Text.{Text}
use rocketmq_client_cpp.Prelude.Int.{ℤ, pos, leb_ℤ, pos_part}
use rocketmq_client_cpp.Prelude.Table.{emplace}
use rocketmq_client_cpp.Types.{
  Message, MessageModel, MessageQueue, FilterExpression, ExpressionType,
}
use rocketmq_client_cpp.Queue.{ProcessQueue, has_pending_messages}
use rocketmq_client_cpp.Client.{ListenerType, standard, fifo}

-- A name in the namespace of the client: `rmq::Resource`.
pub record Resource : Type 0 where
  pub resource_namespace : Text
  pub name : Text

-- What the requests take from the consumer.
pub record Consumer : Type 0 where
  pub resource_namespace : Text
  pub group_name : Text
  pub client_id : Text
  pub max_delivery_attempts : ℕ  -- int32_t

abbrev pub group_of : Consumer → Resource
group_of c = record { resource_namespace = c.resource_namespace; name = c.group_name }

abbrev pub topic_of : Consumer → Text → Resource
topic_of c topic = record { resource_namespace = c.resource_namespace; name = topic }

pub record AckRequest : Type 0 where
  pub group : Resource
  pub topic : Resource
  pub client_id : Text
  pub message_id : Text
  pub receipt_handle : Text

pub record NackRequest : Type 0 where
  pub group : Resource
  pub topic : Resource
  pub client_id : Text
  pub receipt_handle : Text
  pub message_id : Text
  pub delivery_attempt : ℕ
  pub max_delivery_attempts : ℕ

pub record ForwardRequest : Type 0 where
  pub group : Resource
  pub topic : Resource
  pub client_id : Text
  pub message_id : Text
  pub delivery_attempt : ℕ
  pub max_delivery_attempts : ℕ

unfoldable pub wrap_ack_message_request : Consumer → Message → AckRequest
wrap_ack_message_request c m = record {
  group = group_of c;
  topic = topic_of c m.topic;
  client_id = c.client_id;
  message_id = m.msg_id;
  receipt_handle = m.attributes.receipt_handle;
}

-- The host and the request; `none` is a failed assertion.
unfoldable pub ack : Consumer → Message → Option (Text × AckRequest)
unfolding wrap_ack_message_request
ack c m =
    if is_empty m.attributes.target_endpoint
    then none
    else some (m.attributes.target_endpoint, wrap_ack_message_request c m)

unfoldable pub nack : Consumer → Message → Text × NackRequest
nack c m = (
  m.attributes.target_endpoint,
  record {
    group = group_of c;
    topic = topic_of c m.topic;
    client_id = c.client_id;
    receipt_handle = m.attributes.receipt_handle;
    message_id = m.msg_id;
    delivery_attempt = m.delivery_attempt + 1;
    max_delivery_attempts = c.max_delivery_attempts;
  },
)

unfoldable pub forward_to_dead_letter_queue : Consumer → Message → Text × ForwardRequest
forward_to_dead_letter_queue c m = (
  m.attributes.target_endpoint,
  record {
    group = group_of c;
    topic = topic_of c m.topic;
    client_id = c.client_id;
    message_id = m.msg_id;
    delivery_attempt = m.delivery_attempt;
    max_delivery_attempts = c.max_delivery_attempts;
  },
)

-- The setters: a size that is not positive is ignored, and a batch of a FIFO listener stays one.
unfoldable pub consume_thread_pool_size : ℤ → ℕ → ℕ
consume_thread_pool_size thread_pool_size current =
    if leb_ℤ (pos 1) thread_pool_size then pos_part thread_pool_size else current

set_batch_size : Option ListenerType → ℕ → ℕ → ℕ
set_batch_size (some fifo) size current = current
set_batch_size (some standard) size current = if leb 1 size then size else current
set_batch_size none size current = if leb 1 size then size else current

unfoldable pub consume_batch_size : Option ListenerType → ℕ → ℕ → ℕ
unfolding set_batch_size
consume_batch_size listener size current = set_batch_size listener size current

-- The table, and what a service that is there is told.
unfoldable pub set_throttle : Bool → Text → ℕ → List (Text × ℕ) → List (Text × ℕ) × List (Text × ℕ)
set_throttle has_service topic threshold table =
    (emplace topic threshold table, if has_service then (topic, threshold) ∷ [] else [])

-- The queues that `iterateProcessQueue` calls back with.
unfoldable pub iterate_process_queue : List (MessageQueue × ProcessQueue) → List ProcessQueue
iterate_process_queue table = keep has_pending_messages (map (λ entry. entry.1) table)

-- The topics of `resourceBundle`.
unfoldable pub resource_bundle : List (Text × FilterExpression) → List Text
resource_bundle table = map (λ entry. entry.0) table

pub record Subscription : Type 0 where
  pub topic : Resource
  pub expression : Text
  pub type : ExpressionType

pub record ConsumerData : Type 0 where
  pub client_id : Text
  pub fifo_flag : Bool
  pub group : Resource
  pub consume_model : MessageModel
  pub subscriptions : List Subscription

-- A request without a listener keeps the default of the flag.
fifo_flag_of : Option ListenerType → Bool
fifo_flag_of (some fifo) = true
fifo_flag_of (some standard) = false
fifo_flag_of none = false

unfoldable pub prepare_heartbeat_data :
    Consumer → Option ListenerType → MessageModel → List (Text × FilterExpression) → ConsumerData
unfolding fifo_flag_of
prepare_heartbeat_data c listener model table = record {
  client_id = c.client_id;
  fifo_flag = fifo_flag_of listener;
  group = group_of c;
  consume_model = model;
  subscriptions =
      map
        (λ entry. record {
          topic = topic_of c entry.0;
          expression = (entry.1).content;
          type = (entry.1).type;
        })
        table;
}
