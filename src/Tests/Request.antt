-- ===== src/Tests/Request.antt =====
-- A message that is sent and read back.
use rocketmq_client_cpp.Prelude.{◌≡◌, refl, false, none, some, [], ◌∷◌}
use rocketmq_client_cpp.Prelude.Text.{codes, text_eq, Text}
use rocketmq_client_cpp.Prelude.Table.{lookup}
use rocketmq_client_cpp.Types.{FilterExpression, ExpressionType, Message, accept, fifo}
use rocketmq_client_cpp.Rpc.Wrap.{
  Codec, wrap_message, wrapped, body_digest_match, crc32_digest, wrapped_message,
}
use rocketmq_client_cpp.Producer.Request.{Sender, wrap_send_message_request}
use rocketmq_client_cpp.Producer.Request.RoundTrip.{
  Delivery, deliver, Carries, sent-Carries, sent-accept,
}
use rocketmq_client_cpp.Tests.{message, queue_0, no_attributes}

-- A compression that marks its result.
abbrev sender : Sender
sender = record {
  resource_namespace = codes "ns";
  compress_body_threshold = 2;
  compress = λ body. 1 ∷ body;
  message_id = codes "id";
  hostname = codes "producer";
  now = 1_234_567;
}

abbrev second : Text → Text
second [] = []
second (c ∷ t) = t

abbrev reader : Codec
reader = record {
  crc32 = λ body. some (codes "sum");
  md5 = λ body. none;
  sha1 = λ body. none;
  uncompress = second;
  hostname = codes "consumer";
  now = 9;
}

abbrev delivery : Delivery
delivery = record {
  digest_type = crc32_digest;
  checksum = codes "sum";
  partition_offset = 5;
  delivery_attempt = 1;
  receipt_handle = codes "handle";
  store_timestamp = none;
  store_host = codes "broker";
  invisible_period = none;
}

abbrev tagged : Message
tagged = record (message 0) {
  attributes = record no_attributes {
    message_type = fifo;
    properties = (codes "a", codes "1") ∷ (codes "b", codes "2") ∷ [];
  };
}

sent-Carries_example :
    (r : Message) × ((wrap_message
          (codes "ns")
          reader
          (deliver delivery (wrap_send_message_request sender queue_0 tagged))
        ≡ wrapped r)
      × Carries sender queue_0 tagged delivery r)
unfolding lookup text_eq body_digest_match wrap_send_message_request
sent-Carries_example =
    sent-Carries sender queue_0 tagged reader delivery (refl, (refl, tt)) refl refl

-- The tag that the message has when it is sent.
abbrev wanted : FilterExpression
wanted = record { content = codes "t"; type = ExpressionType.tag }

read_back :
    wrap_message
      (codes "ns")
      reader
      (deliver delivery (wrap_send_message_request sender queue_0 tagged))
    ≡ wrapped (
        wrapped_message reader (deliver delivery (wrap_send_message_request sender queue_0 tagged)))
unfolding wrap_message body_digest_match wrap_send_message_request text_eq
read_back = refl

sent-accept_example :
    accept wanted
      (wrapped_message reader (deliver delivery (wrap_send_message_request sender queue_0 tagged)))
    ≡ false
unfolding text_eq
sent-accept_example =
    sent-accept sender queue_0 tagged
      (wrapped_message reader (deliver delivery (wrap_send_message_request sender queue_0 tagged)))
      reader delivery wanted refl refl (λ e. cc) read_back
