-- ===== src/Producer/Request.antt =====
-- The request of a send: `wrapSendMessageRequest` of src/main/cpp/rocketmq/ProducerImpl.cpp. The compression, the
-- next message identifier, the name of the host and the clock are arguments.
pub mod RoundTrip
use rocketmq_client_cpp.Prelude.{
  ℕ, ◌/◌, ◌%◌, Bool, Option, none, some, List, [], ◌∷◌, length, leb, if◌then◌else◌,
}
use rocketmq_client_cpp.Prelude.Text.{Text}
use rocketmq_client_cpp.Prelude.Int.{ℤ}
use rocketmq_client_cpp.Prelude.Word.{u32}
use rocketmq_client_cpp.Prelude.Table.{emplace}
use rocketmq_client_cpp.Types.{Message, MessageQueue, MessageType, normal, fifo, delay, transaction}
use rocketmq_client_cpp.Wire.{
  SystemAttribute, WireType, normal_type, fifo_type, delay_type, transaction_type, Timestamp,
  not_timed, set_properties,
}
use rocketmq_client_cpp.Rpc.Wrap.{Item, identity, gzip, crc32_digest}

-- What a producer knows, and what it takes from elsewhere.
pub record Sender : Type 0 where
  pub resource_namespace : Text
  pub compress_body_threshold : ℕ  -- uint32_t
  pub compress : Text → Text
  pub message_id : Text
  pub hostname : Text
  pub now : ℕ

unfoldable pub wire_type : MessageType → WireType
wire_type normal = normal_type
wire_type fifo = fifo_type
wire_type delay = delay_type
wire_type transaction = transaction_type

unfoldable pub to_timestamp : ℕ → Timestamp
to_timestamp now = record { seconds = now / 1_000_000_000; nanos = now % 1_000_000_000 }

abbrev pub is_compressed : Sender → Message → Bool
is_compressed s m = leb s.compress_body_threshold (u32 (length m.body))

-- Fields that are not set keep the defaults of protobuf: the digest is CRC32 with no checksum, and the tag, the
-- keys, the delay and the trace context are empty.
unfoldable pub wrap_send_message_request : Sender → MessageQueue → Message → Item
unfolding wire_type to_timestamp
wrap_send_message_request s q m = record {
  resource_namespace = s.resource_namespace;
  topic = m.topic;
  tag = [];
  message_id = s.message_id;
  body = if is_compressed s m then s.compress m.body else m.body;
  digest_type = crc32_digest;
  checksum = [];
  body_encoding = if is_compressed s m then gzip else identity;
  partition_offset = 0;
  delivery_attempt = 0;
  system = record {
    keys = [];
    receipt_handle = [];
    message_type = wire_type m.attributes.message_type;
    born_timestamp = some (to_timestamp s.now);
    born_host = s.hostname;
    store_timestamp = none;
    store_host = [];
    timed_delivery = not_timed;
    partition_id = q.queue_id;
    invisible_period = none;
    trace_context = [];
    user_attribute = set_properties m.attributes.properties [];
  };
}
