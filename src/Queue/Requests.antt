-- ===== src/Queue/Requests.antt =====
-- What a process queue asks its broker for: `receiveMessage`, `popMessage`, `pullMessage` and the `wrap…Request`
-- methods of src/main/cpp/rocketmq/ProcessQueueImpl.cpp.
use rocketmq_client_cpp.Prelude.{ℕ, ◌*◌, ◌/◌, ◌%◌, ◌≡◌, refl, true, Option, none, some, List, arith}
use rocketmq_client_cpp.Prelude.Text.{Text, text_eq_refl}
use rocketmq_client_cpp.Prelude.Int.{ℤ}
use rocketmq_client_cpp.Prelude.Table.{lookup}
use rocketmq_client_cpp.Types.{
  Message, FilterExpression, ExpressionType, wild_card_tag, accept, ReceiveMessageAction, polling,
  pull,
}
use rocketmq_client_cpp.Wire.{Timestamp, read_duration}
use rocketmq_client_cpp.Queue.{ProcessQueue, sync_idle_state}

-- What the requests take from the consumer: its table of filters among it.
pub record Receiver : Type 0 where
  pub resource_namespace : Text
  pub group_name : Text
  pub client_id : Text
  pub receive_batch_size : ℕ  -- int32_t
  pub receive_message_action : ReceiveMessageAction
  pub filters : List (Text × FilterExpression)

-- `rmq::Partition`: the namespace and the name of the topic, and the number of the queue.
pub record Partition : Type 0 where
  pub resource_namespace : Text
  pub topic : Text
  pub id : ℤ

pub record ReceiveMessageRequest : Type 0 where
  pub client_id : Text
  pub group : Text × Text
  pub partition : Partition
  pub filter_expression : FilterExpression
  pub batch_size : ℕ
  pub invisible_duration : Timestamp

pub record PullMessageRequest : Type 0 where
  pub client_id : Text
  pub group : Text × Text
  pub partition : Partition
  pub offset : ℕ
  pub batch_size : ℕ
  pub filter_expression : FilterExpression

filter_of : Option FilterExpression → FilterExpression
filter_of (some f) = f
filter_of none = record { content = wild_card_tag; type = ExpressionType.tag }

-- The filter that the consumer has for the topic now, and not the one of the queue.
unfoldable pub wrap_filter_expression : Receiver → ProcessQueue → FilterExpression
unfolding filter_of
wrap_filter_expression c q = filter_of (lookup q.message_queue.topic c.filters)

abbrev pub partition_of : Receiver → ProcessQueue → Partition
partition_of c q = record {
  resource_namespace = c.resource_namespace;
  topic = q.message_queue.topic;
  id = q.message_queue.queue_id;
}

-- A duration of milliseconds, in seconds and nanoseconds.
abbrev pub split_duration : ℕ → Timestamp
split_duration invisible_time = record {
  seconds = invisible_time / 1000;
  nanos = invisible_time % 1000 * 1_000_000;
}

unfoldable pub wrap_pop_message_request : Receiver → ℕ → ProcessQueue → ReceiveMessageRequest
wrap_pop_message_request c invisible_time q = record {
  client_id = c.client_id;
  group = (c.resource_namespace, c.group_name);
  partition = partition_of c q;
  filter_expression = wrap_filter_expression c q;
  batch_size = c.receive_batch_size;
  invisible_duration = split_duration invisible_time;
}

unfoldable pub wrap_pull_message_request : Receiver → ProcessQueue → PullMessageRequest
wrap_pull_message_request c q = record {
  client_id = c.client_id;
  group = (c.resource_namespace, c.group_name);
  partition = partition_of c q;
  offset = q.next_offset;
  batch_size = c.receive_batch_size;
  filter_expression = wrap_filter_expression c q;
}

-- To the host of the queue.
pub data Request : Type 0 where
  receive_message : Text → ReceiveMessageRequest → Request
  pull_message : Text → PullMessageRequest → Request

request_by : ReceiveMessageAction → Receiver → ℕ → ProcessQueue → Request
request_by polling c invisible_time q =
    receive_message q.message_queue.service_address (wrap_pop_message_request c invisible_time q)
request_by pull c invisible_time q =
    pull_message q.message_queue.service_address (wrap_pull_message_request c q)

-- `receiveMessage`, by `popMessage` or `pullMessage`: without a consumer nothing happens.
unfoldable pub receive_message_from :
    Option Receiver → ℕ → ℕ → ProcessQueue → ProcessQueue × Option Request
unfolding request_by
receive_message_from none invisible_time now q = (q, none)
receive_message_from (some c) invisible_time now q =
    (sync_idle_state now q, some (request_by c.receive_message_action c invisible_time q))

-- The broker reads the invisible time that was meant.
invisible_duration-read :
    (c : Receiver) (invisible_time : ℕ) (q : ProcessQueue)
    → read_duration (some (wrap_pop_message_request c invisible_time q).invisible_duration)
      ≡ invisible_time * 1_000_000
unfolding wrap_pop_message_request read_duration
invisible_duration-read c invisible_time q = omega arith

-- A message that the queue takes passes the filter of the request, while the filter of the topic is that of the
-- queue or there is none.
wrap_filter_expression-accept :
    (c : Receiver) (q : ProcessQueue) (m : Message)
    → ((f : FilterExpression)
        → lookup q.message_queue.topic c.filters ≡ some f
        → f ≡ q.filter_expression)
    → accept q.filter_expression m ≡ true
    → accept (wrap_filter_expression c q) m ≡ true
unfolding wrap_filter_expression
wrap_filter_expression-accept c q m same h = of (lookup q.message_queue.topic c.filters) same
  where
    of :
        (o : Option FilterExpression)
        → ((f : FilterExpression) → o ≡ some f → f ≡ q.filter_expression)
        → accept (filter_of o) m ≡ true
    of none same = unfold filter_of accept in rw (text_eq_refl wild_card_tag) refl
    of (some f) same = unfold filter_of in rw (same f refl) h
