-- ===== src/Types.antt =====
-- The data that the client's parts share: api/rocketmq/{ErrorCode,State,MQMessageQueue}.h, the parts
-- of a message that the modelled code reads, and src/main/cpp/rocketmq/FilterExpression.cpp.
use rocketmq_client_cpp.Prelude.{
  ℕ, refl, inl, inr, ◌⊎◌, Bool, true, not, ◌&&◌, ◌≡◌, arith, is_empty, if◌then◌else◌, List,
}
use rocketmq_client_cpp.Prelude.Text.{Text, codes, text_eq, text_lt, text_eq_refl}
use rocketmq_client_cpp.Prelude.Int.{ℤ, pos, eq_ℤ, ltb_ℤ, leb_ℤ}

pub data ErrorCode : Type 0 where
  success illegal_state bad_configuration bad_request unauthorized forbidden not_found : ErrorCode
  request_timeout payload_too_large precondition_required too_many_request : ErrorCode
  header_fields_too_large unavailable_for_legal_reasons internal_server_error : ErrorCode
  not_implemented bad_gateway service_unavailable gateway_timeout : ErrorCode
  protocol_version_not_supported insufficient_storage : ErrorCode

pub data State : Type 0 where
  created starting started stopping stopped : State

pub data MessageModel : Type 0 where
  broadcasting clustering : MessageModel

pub data ConsumeMessageResult : Type 0 where
  success failure : ConsumeMessageResult

pub data ReceiveMessageAction : Type 0 where
  polling pull : ReceiveMessageAction

pub record MessageQueue : Type 0 where
  pub topic : Text
  pub broker_name : Text
  pub queue_id : ℤ
  pub service_address : Text

-- The service address is not part of a queue's identity.
abbrev pub mq_eq : MessageQueue → MessageQueue → Bool
mq_eq p q =
    text_eq p.topic q.topic && (text_eq p.broker_name q.broker_name && eq_ℤ p.queue_id q.queue_id)

abbrev pub mq_lt : MessageQueue → MessageQueue → Bool
mq_lt p q =
    if not (text_eq p.topic q.topic)
    then text_lt p.topic q.topic
    else if not (text_eq p.broker_name q.broker_name)
    then text_lt p.broker_name q.broker_name
    else ltb_ℤ p.queue_id q.queue_id

-- `operator bool`.
abbrev pub mq_valid : MessageQueue → Bool
mq_valid q = not (is_empty q.topic) && (not (is_empty q.broker_name) && leb_ℤ (pos 0) q.queue_id)

pub mq_eq_refl : (q : MessageQueue) → mq_eq q q ≡ true
mq_eq_refl q = ground (arith, text_eq_refl q.topic, text_eq_refl q.broker_name)

pub data MessageType : Type 0 where
  normal fifo delay transaction : MessageType

-- The attributes of a message that only its reader looks at. Times are nanoseconds since the epoch.
pub record Attributes : Type 0 where
  pub keys : List Text
  pub receipt_handle : Text
  pub message_type : MessageType
  pub born_timestamp : ℕ
  pub born_host : Text
  pub store_timestamp : ℕ
  pub store_host : Text
  pub delivery_timestamp : ℕ
  pub decode_timestamp : ℕ
  pub delay_level : ℤ
  pub queue_id : ℤ
  pub invisible_period : ℕ
  pub trace_context : Text
  pub target_endpoint : Text
  pub properties : List (Text × Text)

pub record Message : Type 0 where
  pub topic : Text
  pub msg_id : Text
  pub tags : Text
  pub body : Text
  pub queue_offset : ℕ
  pub delivery_attempt : ℕ
  pub attributes : Attributes

pub data ExpressionType : Type 0 where
  tag sql92 : ExpressionType

pub record FilterExpression : Type 0 where
  pub content : Text
  pub type : ExpressionType

abbrev pub wild_card_tag : Text
wild_card_tag = codes "*"

accept_as : ExpressionType → Text → Message → Bool
accept_as ExpressionType.tag content m =
    if text_eq wild_card_tag content then true else text_eq m.tags content
accept_as ExpressionType.sql92 content m = true

unfoldable pub accept : FilterExpression → Message → Bool
unfolding accept_as
accept f m = accept_as f.type f.content m

pub MessageModel-cases : (m : MessageModel) → (m ≡ broadcasting) ⊎ (m ≡ clustering)
MessageModel-cases broadcasting = inl refl
MessageModel-cases clustering = inr refl
