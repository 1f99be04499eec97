-- ===== src/Tests.antt =====
-- Runs on concrete inputs, by component; here the data that they share.
mod Queue
mod Fifo
mod Standard
mod Receive
mod Producer
mod Publish
mod Routes
mod Base
mod Push
mod Query
mod Lifecycle
mod Histogram
mod Await
mod Request
mod Client
mod Pull
use rocketmq_client_cpp.PushConsumer.{Settings}
use rocketmq_client_cpp.Prelude.{ℕ, true, none, some, List, [], ◌∷◌, false}
use rocketmq_client_cpp.Prelude.Text.{Text, codes}
use rocketmq_client_cpp.Prelude.Int.{pos}
use rocketmq_client_cpp.Types.{
  MessageQueue, Message, FilterExpression, ExpressionType, wild_card_tag, MessageModel,
  broadcasting, clustering, Attributes, normal, ReceiveMessageAction,
}
use rocketmq_client_cpp.Route.{Partition, Permission, AddressScheme, ipv4}
use rocketmq_client_cpp.Queue.{Consumer, ProcessQueue}
use rocketmq_client_cpp.Queue.Offsets.{OffsetRecord}

abbrev pub queue_0 : MessageQueue
queue_0 = record {
  topic = codes "orders";
  broker_name = codes "broker-a";
  queue_id = pos 0;
  service_address = codes "ipv4:10.0.0.1:80";
}

abbrev pub any_tag : FilterExpression
any_tag = record { content = wild_card_tag; type = ExpressionType.tag }

abbrev pub no_attributes : Attributes
no_attributes = record {
  keys = [];
  receipt_handle = [];
  message_type = normal;
  born_timestamp = 0;
  born_host = [];
  store_timestamp = 0;
  store_host = [];
  delivery_timestamp = 0;
  decode_timestamp = 0;
  delay_level = pos 0;
  queue_id = pos 0;
  invisible_period = 0;
  trace_context = [];
  target_endpoint = [];
  properties = [];
}

abbrev pub message : ℕ → Message
message o = record {
  topic = codes "orders";
  msg_id = codes "m";
  tags = codes "t";
  body = codes "abc";
  queue_offset = o;
  delivery_attempt = 1;
  attributes = no_attributes;
}

abbrev pub consumer : MessageModel → Consumer
consumer model = record {
  max_cached_message_quantity = 2;
  max_cached_message_memory = 0;
  message_model = model;
}

-- Two messages cached, a third one out for consumption.
abbrev pub busy_queue : ProcessQueue
busy_queue = record {
  message_queue = queue_0;
  filter_expression = any_tag;
  idle_since = 0;
  cached_messages = message 6 ∷ message 7 ∷ [];
  cached_message_quantity = 3;
  cached_message_memory = 9;
  next_offset = 8;
  has_fifo_task_bound = false;
  offsets = [];
}

abbrev pub partition_0 : Partition
partition_0 = record {
  topic = record { resource_namespace = codes "ns"; name = codes "orders" };
  id = pos 0;
  permission = Permission.read_write;
  broker = record {
    name = codes "broker-a";
    id = pos 0;
    service_address = record {
      scheme = ipv4;
      addresses = record { host = codes "10.0.0.1"; port = pos 80 } ∷ [];
    };
  };
}

abbrev pub settings : ReceiveMessageAction → Settings
settings policy = record {
  active = true;
  receive_message_policy = policy;
  has_stored_offset = λ q. true;
  now = 7;
}
