-- ===== src/PullConsumer.antt =====
-- The pull consumer: src/main/cpp/rocketmq/PullConsumerImpl.cpp. A promise is what it is set to; a callback of a
-- lookup is a number, as in RouteCache.
pub mod Pulled
pub mod Queues
use rocketmq_client_cpp.Prelude.{
  ℕ, ◌/◌, ◌%◌, Option, none, some, List, [], ◌∷◌, map, Bool, true, false, not, is_empty,
  if◌then◌else◌,
}
use rocketmq_client_cpp.Prelude.Text.{Text}
use rocketmq_client_cpp.Prelude.Int.{ℤ}
use rocketmq_client_cpp.Prelude.Table.{lookup}
use rocketmq_client_cpp.Types.{ErrorCode, MessageQueue, Message, MessageModel}
use rocketmq_client_cpp.Wire.{Timestamp}
use rocketmq_client_cpp.Route.{Partition, as_message_queue}
use rocketmq_client_cpp.RouteCache
use rocketmq_client_cpp.RouteCache.{get_route_for, Effect}
use rocketmq_client_cpp.Rpc.{
  Code, ok, unauthenticated, permission_denied, invalid_argument, not_found, deadline_exceeded,
  failed_precondition, internal, resource_exhausted, out_of_range, other, Answer,
}
use rocketmq_client_cpp.Rpc.Wrap.{Item, Codec, pop_loop}

pub data Promise (A : Type 0) : Type 0 where
  pending : Promise A
  set_value : A → Promise A
  set_exception : ErrorCode → Promise A

-- `queuesFor`: a route of the table is answered at once; else it is looked up.
queues_known :
    Bool
    → Text
    → ℕ
    → RouteCache.Client
    → Option (List Partition)
    → RouteCache.Client × List Effect × Promise (List MessageQueue)
queues_known has_name_server topic cb c (some route) =
    (c, [], set_value (map as_message_queue route))
queues_known has_name_server topic cb c none =
    let (c', es) = get_route_for has_name_server topic cb c in (c', es, pending)

unfoldable pub queues_for :
    Bool
    → Text
    → ℕ
    → RouteCache.Client
    → RouteCache.Client × List Effect × Promise (List MessageQueue)
unfolding queues_known
queues_for has_name_server topic cb c =
    queues_known has_name_server topic cb c (lookup topic c.topic_route_table)

-- Its callback; `none` is a use of a route that is null.
unfoldable pub on_queues :
    Option ErrorCode → Option (List Partition) → Option (Promise (List MessageQueue))
on_queues (some ec) route = some (set_exception ec)
on_queues none none = none
on_queues none (some route) = some (set_value (map as_message_queue route))

-- What the requests take from the consumer.
pub record Consumer : Type 0 where
  pub resource_namespace : Text
  pub group_name : Text
  pub client_id : Text

pub data QueryOffsetPolicy : Type 0 where
  beginning end time_point : QueryOffsetPolicy

-- A time is nanoseconds since the epoch, a duration nanoseconds.
pub record OffsetQuery : Type 0 where
  pub message_queue : MessageQueue
  pub policy : QueryOffsetPolicy
  pub time_point : ℕ

pub record PullPartition : Type 0 where
  pub topic : Text × Text
  pub id : ℤ

pub record QueryOffsetRequest : Type 0 where
  pub policy : QueryOffsetPolicy
  pub time_point : Option Timestamp
  pub partition : PullPartition

abbrev split : ℕ → Timestamp
split duration = record { seconds = duration / 1_000_000_000; nanos = duration % 1_000_000_000 }

abbrev partition_of : Consumer → MessageQueue → PullPartition
partition_of c q = record { topic = (c.resource_namespace, q.topic); id = q.queue_id }

query_time : QueryOffsetPolicy → ℕ → Option Timestamp
query_time beginning time = none
query_time end time = none
query_time time_point time = some (split time)

-- The host and the request.
unfoldable pub query_offset : Consumer → OffsetQuery → Text × QueryOffsetRequest
unfolding query_time
query_offset c q = (
  q.message_queue.service_address,
  record {
    policy = q.policy;
    time_point = query_time q.policy q.time_point;
    partition = partition_of c q.message_queue;
  },
)

unfoldable pub on_query_offset : Answer → ℕ → Promise ℕ
on_query_offset (some ec) offset = set_exception ec
on_query_offset none offset = set_value offset

pub record PullMessageQuery : Type 0 where
  pub message_queue : MessageQueue
  pub offset : ℕ
  pub batch_size : ℕ
  pub await_time : ℕ

pub record PullMessageRequest : Type 0 where
  pub offset : ℕ
  pub await_time : Timestamp
  pub group : Text × Text
  pub partition : PullPartition
  pub client_id : Text

-- `pull`: the host and the request; `none` is a failed assertion. The batch size is not sent.
unfoldable pub pull : Consumer → PullMessageQuery → Option (Text × PullMessageRequest)
pull c q =
    if is_empty q.message_queue.service_address
    then none
    else some (
      q.message_queue.service_address,
      record {
        offset = q.offset;
        await_time = split q.await_time;
        group = (c.resource_namespace, c.group_name);
        partition = partition_of c q.message_queue;
        client_id = c.client_id;
      },
    )

pub record PullMessageResponse : Type 0 where
  pub code : Code
  pub items : List Item
  pub min_offset : ℕ
  pub max_offset : ℕ
  pub next_offset : ℕ

pub record InvocationContext : Type 0 where
  pub status_ok : Bool
  pub response : PullMessageResponse

pub record PullResult : Type 0 where
  pub min : ℕ
  pub max : ℕ
  pub next : ℕ
  pub messages : List Message

-- How the callback of the caller is called.
pub data Outcome : Type 0 where
  aborted : Outcome
  on_failure : ErrorCode → Outcome
  on_success : PullResult → Outcome

succeed : PullMessageResponse → Option (List Message) → Outcome
succeed r none = aborted
succeed r (some ms) =
    on_success
      (record { min = r.min_offset; max = r.max_offset; next = r.next_offset; messages = ms })

by_code : Text → Codec → PullMessageResponse → Code → Outcome
unfolding succeed
by_code ns codec r ok = succeed r (pop_loop (λ m. m) ns codec r.items)
by_code ns codec r permission_denied = on_failure ErrorCode.forbidden
by_code ns codec r unauthenticated = on_failure ErrorCode.unauthorized
by_code ns codec r deadline_exceeded = on_failure ErrorCode.gateway_timeout
by_code ns codec r invalid_argument = on_failure ErrorCode.bad_request
by_code ns codec r internal = on_failure ErrorCode.internal_server_error
by_code ns codec r not_found = on_failure ErrorCode.not_implemented
by_code ns codec r failed_precondition = on_failure ErrorCode.not_implemented
by_code ns codec r resource_exhausted = on_failure ErrorCode.not_implemented
by_code ns codec r out_of_range = on_failure ErrorCode.not_implemented
by_code ns codec r (other n) = on_failure ErrorCode.not_implemented

-- The callback of `pull`.
unfoldable pub on_pull : Text → Codec → Option InvocationContext → Outcome
unfolding by_code
on_pull ns codec none = on_failure ErrorCode.request_timeout
on_pull ns codec (some ctx) =
    if not ctx.status_ok
    then on_failure ErrorCode.request_timeout
    else by_code ns codec ctx.response ctx.response.code

pub record ConsumerData : Type 0 where
  pub client_id : Text
  pub group : Text × Text
  pub consume_model : MessageModel

unfoldable pub prepare_heartbeat_data : Consumer → MessageModel → ConsumerData
prepare_heartbeat_data c model = record {
  client_id = c.client_id;
  group = (c.resource_namespace, c.group_name);
  consume_model = model;
}
