-- ===== src/Wire.antt =====
-- The attributes of a message on the wire (`rmq::Message`, `rmq::SystemAttribute`), and what `wrapMessage` of
-- src/main/cpp/client/ClientManagerImpl.cpp makes of them by the setters of src/main/cpp/base/MessageAccessor.cpp
-- and MQMessage.cpp. Times are nanoseconds since the epoch; the host and the clock are arguments.
use rocketmq_client_cpp.Prelude.{ℕ, ◌+◌, ◌*◌, ◌/◌, Option, none, some, List, [], ◌∷◌}
use rocketmq_client_cpp.Prelude.Text.{Text}
use rocketmq_client_cpp.Prelude.Int.{ℤ, pos}
use rocketmq_client_cpp.Prelude.Table.{emplace}
use rocketmq_client_cpp.Types.{Message, Attributes, MessageType, normal, fifo, delay, transaction}

-- `rmq::MessageType`.
pub data WireType : Type 0 where
  normal_type fifo_type delay_type transaction_type : WireType
  other_type : ℕ → WireType

-- `google::protobuf::Timestamp` and `Duration`.
pub record Timestamp : Type 0 where
  pub seconds : ℕ
  pub nanos : ℕ

-- The one-of `timed_delivery`.
pub data TimedDelivery : Type 0 where
  not_timed : TimedDelivery
  at_delay_level : ℤ → TimedDelivery
  at_timestamp : Timestamp → TimedDelivery

pub record SystemAttribute : Type 0 where
  pub keys : List Text
  pub receipt_handle : Text
  pub message_type : WireType
  pub born_timestamp : Option Timestamp
  pub born_host : Text
  pub store_timestamp : Option Timestamp
  pub store_host : Text
  pub timed_delivery : TimedDelivery
  pub partition_id : ℤ
  pub invisible_period : Option Timestamp
  pub trace_context : Text
  pub user_attribute : List (Text × Text)

-- `absl::TimeFromTimeval`.
abbrev pub time_from_timeval : ℕ → ℕ → ℕ
time_from_timeval sec usec = sec * 1_000_000_000 + usec * 1000

-- What the constructor of a message sets: the host and the time.
unfoldable pub new_attributes : Text → ℕ → Attributes
new_attributes hostname now = record {
  keys = [];
  receipt_handle = [];
  message_type = normal;
  born_timestamp = now;
  born_host = hostname;
  store_timestamp = 0;
  store_host = [];
  delivery_timestamp = 0;
  decode_timestamp = now;
  delay_level = pos 0;
  queue_id = pos 0;
  invisible_period = 0;
  trace_context = [];
  target_endpoint = [];
  properties = [];
}

unfoldable pub read_message_type : WireType → MessageType
read_message_type normal_type = normal
read_message_type fifo_type = fifo
read_message_type delay_type = delay
read_message_type transaction_type = transaction
read_message_type (other_type n) = normal

unfoldable pub read_timestamp : ℕ → Option Timestamp → ℕ
read_timestamp before none = before
read_timestamp before (some t) = time_from_timeval t.seconds (t.nanos / 1000)

unfoldable pub read_duration : Option Timestamp → ℕ
read_duration none = 0
read_duration (some t) = t.seconds * 1_000_000_000 + t.nanos

-- The nanoseconds of a delivery timestamp are taken for microseconds.
unfoldable pub read_timed_delivery : TimedDelivery → Attributes → Attributes
read_timed_delivery not_timed a = a
read_timed_delivery (at_delay_level level) a = record a { delay_level = level }
read_timed_delivery (at_timestamp t) a = record a {
  delivery_timestamp = time_from_timeval t.seconds t.nanos;
}

-- `setProperties`: a name that is there keeps its value.
unfoldable pub set_properties : List (Text × Text) → List (Text × Text) → List (Text × Text)
set_properties [] properties = properties
set_properties ((name, value) ∷ l) properties = set_properties l (emplace name value properties)

-- `setTargetEndpoint`.
abbrev pub set_target_endpoint : Text → Message → Message
set_target_endpoint endpoint m = record m {
  attributes = record (m.attributes) { target_endpoint = endpoint };
}

unfoldable pub read_attributes : Text → ℕ → SystemAttribute → Attributes
unfolding new_attributes read_message_type read_timestamp read_duration read_timed_delivery
read_attributes hostname now s =
    let a = new_attributes hostname now in
    read_timed_delivery s.timed_delivery (record a {
      receipt_handle = s.receipt_handle;
      keys = s.keys;
      message_type = read_message_type s.message_type;
      born_timestamp = read_timestamp a.born_timestamp s.born_timestamp;
      born_host = s.born_host;
      store_timestamp = read_timestamp a.store_timestamp s.store_timestamp;
      store_host = s.store_host;
      queue_id = s.partition_id;
      invisible_period = read_duration s.invisible_period;
      trace_context = s.trace_context;
      properties = set_properties (set_properties s.user_attribute []) a.properties;
    })
