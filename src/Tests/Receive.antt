-- ===== src/Tests/Receive.antt =====
-- Replies and the receive cycle.
use rocketmq_client_cpp.Prelude.{◌≡◌, refl, true, none, some, [], ◌∷◌}
use rocketmq_client_cpp.Prelude.Text.{codes, text_eq}
use rocketmq_client_cpp.Types.{clustering, polling}
use rocketmq_client_cpp.Rpc.{Code, Reply}
use rocketmq_client_cpp.Wire.{SystemAttribute, normal_type, not_timed}
use rocketmq_client_cpp.Prelude.Int.{pos}
use rocketmq_client_cpp.Rpc.Wrap.{
  Item, Codec, Response, ReceiveResult, process_pull_result, wrapped_message, crc32_digest,
  pull_loop, ok_status, wrap_message, identity, body_digest_match,
}
use rocketmq_client_cpp.Receive.{ReceiveConsumer}
use rocketmq_client_cpp.Tests.{consumer}

abbrev denied : Reply
denied = record { status_ok = true; code = Code.permission_denied }

abbrev pub codec : Codec
codec = record {
  crc32 = λ body. some body;
  md5 = λ body. none;
  sha1 = λ body. none;
  uncompress = λ body. body;
  hostname = codes "client";
  now = 9;
}

abbrev attributes_on_wire : SystemAttribute
attributes_on_wire = record {
  keys = codes "k" ∷ [];
  receipt_handle = codes "h";
  message_type = normal_type;
  born_timestamp = none;
  born_host = codes "producer";
  store_timestamp = none;
  store_host = codes "broker";
  timed_delivery = not_timed;
  partition_id = pos 0;
  invisible_period = none;
  trace_context = [];
  user_attribute = [];
}

abbrev pub item : Item
item = record {
  resource_namespace = codes "ns";
  topic = codes "orders";
  tag = codes "t";
  message_id = codes "m";
  body = codes "abc";
  digest_type = crc32_digest;
  checksum = codes "abc";
  body_encoding = identity;
  partition_offset = 41;
  delivery_attempt = 1;
  system = attributes_on_wire;
}

abbrev pub response : Response
response = record { code = Code.ok; items = item ∷ []; next_offset = 42 }

abbrev pub result : ReceiveResult
result = record { status = ok_status; messages = wrapped_message codec item ∷ []; next_offset = 0 }

pub pulled : process_pull_result (codes "ns") codec response ≡ some result
unfolding process_pull_result pull_loop wrap_message body_digest_match text_eq
pulled = refl

abbrev popper : ReceiveConsumer
popper = record { quota = consumer clustering; active = true; receive_message_action = polling }
