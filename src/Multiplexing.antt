-- ===== src/Multiplexing.antt =====
-- The poll of a broker for its requests: `multiplexing`, `onMultiplexingResponse` and `fillGenericPollingRequest` of
-- src/main/cpp/rocketmq/ClientImpl.cpp, with `resolveOrphanedTransactionalMessage`, `prepare`, `commit`, `rollback`
-- and `endTransaction0` of ProducerImpl.cpp and src/main/cpp/rocketmq/TransactionImpl.cpp. A handler returns what it
-- asks for, in order; `none` is a failed assertion.
pub mod Chains
use rocketmq_client_cpp.Prelude.{
  Bool, true, false, Option, none, some, List, [], ◌∷◌, ◌++◌, map, if◌then◌else◌, not,
}
use rocketmq_client_cpp.Prelude.Text.{Text, codes}
use rocketmq_client_cpp.Types.{Message, MessageType, transaction, Attributes}
use rocketmq_client_cpp.Rpc.{Code, ok, invalid_argument}
use rocketmq_client_cpp.Wire.{set_target_endpoint}
use rocketmq_client_cpp.Rpc.Wrap.{
  Item, Codec, Wrapped, failed_assertion, corrupted, wrapped, wrap_message,
}

pub data GroupType : Type 0 where
  publisher subscriber : GroupType

pub data TransactionState : Type 0 where
  commit_state rollback_state : TransactionState

pub record PollingRequest : Type 0 where
  pub client_id : Text
  pub group_type : GroupType
  pub group : Text × Text
  pub topics : List (Text × Text)

-- The one-of of a request.
pub data Request : Type 0 where
  polling_request : PollingRequest → Request
  print_thread_stack_response : Code → Text → Request
  verify_message_consumption_response : Code → Text → Request

-- The one-of of a response.
pub data Response : Type 0 where
  print_thread_stack_request polling_response unsupported : Response
  verify_message_consumption_request : Item → Response
  resolve_orphaned_transaction_request : Text → Item → Response

pub record Context : Type 0 where
  pub status_ok : Bool
  pub remote_address : Text
  pub response : Response

-- What the virtual methods of a client give: the topics and the kind of its bundle, the verification of a message,
-- and for a producer the checker of local transactions.
pub record Client : Type 0 where
  pub resource_namespace : Text
  pub group_name : Text
  pub client_id : Text
  pub group_type : GroupType
  pub topics : List Text
  pub codec : Codec
  pub verify_message_consumption : Message → Text
  pub transaction_state_checker : Option (Message → TransactionState)

pub data Timeout : Type 0 where
  long_polling io : Timeout

pub data Effect : Type 0 where
  multiplexing_call : Text → Request → Timeout → Effect
  multiplexing_later : Text → Effect
  end_transaction : Text → Text → Text → TransactionState → Effect

unfoldable pub fill_generic_polling_request : Client → PollingRequest
fill_generic_polling_request c = record {
  client_id = c.client_id;
  group_type = c.group_type;
  group = (c.resource_namespace, c.group_name);
  topics = map (λ topic. (c.resource_namespace, topic)) c.topics;
}

unfoldable pub multiplexing : Text → Request → Effect
multiplexing target request = multiplexing_call target request long_polling

abbrev pub poll_again : Client → Text → Effect
poll_again c target = multiplexing target (polling_request (fill_generic_polling_request c))

-- `TransactionImpl` with its producer, and the request that a commit or a rollback sends.
pub record Transaction : Type 0 where
  pub message_id : Text
  pub transaction_id : Text
  pub endpoint : Text
  pub producer_alive : Bool

unfoldable pub end_transaction0 : Text → Text → Text → TransactionState → Effect
end_transaction0 target message_id transaction_id resolution =
    end_transaction target message_id transaction_id resolution

-- `commit` and `rollback`: without a producer nothing is sent, and the result is false.
unfoldable pub resolve : TransactionState → Transaction → List Effect
resolve resolution t =
    if t.producer_alive
    then end_transaction0 t.endpoint t.message_id t.transaction_id resolution ∷ []
    else []

-- What the checker of a producer says of an orphan; any other client does nothing.
unfoldable pub resolve_orphaned_transactional_message : Client → Text → Message → List Effect
resolve_orphaned_transactional_message c transaction_id m = elim (c.transaction_state_checker) [
  | none ↦ []
  | some check ↦
      end_transaction0 m.attributes.target_endpoint m.msg_id transaction_id (check m) ∷ []
]

abbrev unimplemented : Code
unimplemented = Code.other 12

on_verify : Client → Text → Wrapped → Option (List Effect)
on_verify c target failed_assertion = none
on_verify c target corrupted = some (
    multiplexing target (
      verify_message_consumption_response invalid_argument (codes "Message to verify is corrupted"))
    ∷ [])
on_verify c target (wrapped m) = some (
    multiplexing target (verify_message_consumption_response ok (c.verify_message_consumption m))
    ∷ [])

on_orphan : Client → Text → Text → Wrapped → Option (List Effect)
on_orphan c target transaction_id failed_assertion = none
on_orphan c target transaction_id corrupted = some (poll_again c target ∷ [])
on_orphan c target transaction_id (wrapped m) = some (
    resolve_orphaned_transactional_message c transaction_id (set_target_endpoint target m)
    ++ poll_again c target ∷ [])

on_response : Client → Text → Response → Option (List Effect)
unfolding on_verify on_orphan
on_response c target print_thread_stack_request = some (
    multiplexing_call target
      (print_thread_stack_response unimplemented
        (codes "Print thread stack trace is not supported by C++ SDK"))
      io
    ∷ [])
on_response c target polling_response = some (poll_again c target ∷ [])
on_response c target unsupported = some (poll_again c target ∷ [])
on_response c target (verify_message_consumption_request item) =
    on_verify c target (wrap_message c.resource_namespace c.codec item)
on_response c target (resolve_orphaned_transaction_request transaction_id item) =
    on_orphan c target transaction_id (wrap_message c.resource_namespace c.codec item)

unfoldable pub on_multiplexing_response : Client → Context → Option (List Effect)
unfolding on_response
on_multiplexing_response c ctx =
    if not ctx.status_ok
    then some (multiplexing_later ctx.remote_address ∷ [])
    else on_response c ctx.remote_address ctx.response

-- The task that a failed call schedules.
unfoldable pub on_multiplexing_timer : Client → Text → List Effect
on_multiplexing_timer c target = poll_again c target ∷ []
