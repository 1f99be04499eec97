-- ===== src/Rpc.antt =====
-- What the asynchronous calls of src/main/cpp/client/ClientManagerImpl.cpp make of a reply, and
-- `pullMessage` of src/main/cpp/rocketmq/ProcessQueueImpl.cpp. A handler returns the calls of the
-- caller's callback, each with its error: `none` is the empty `std::error_code`.
pub mod Answers
pub mod Wrap
use rocketmq_client_cpp.Prelude.{
  ℕ, Bool, true, false, not, Option, none, some, List, [], ◌∷◌, map, is_some, if◌then◌else◌,
}
use rocketmq_client_cpp.Types.{ErrorCode, State, created, starting, started, stopping, stopped}

-- `google::rpc::Code`: the ones that the source names, and any other number.
pub data Code : Type 0 where
  ok unauthenticated permission_denied invalid_argument not_found deadline_exceeded : Code
  failed_precondition internal resource_exhausted out_of_range : Code
  other : ℕ → Code

-- The status of the call, and the code that a response carries.
pub record Reply : Type 0 where
  pub status_ok : Bool
  pub code : Code

abbrev pub Answer : Type 0
Answer = Option ErrorCode

health_check_code : Code → Option ErrorCode
health_check_code ok = none
health_check_code unauthenticated = some ErrorCode.unauthorized
health_check_code permission_denied = some ErrorCode.forbidden
health_check_code invalid_argument = some ErrorCode.not_implemented
health_check_code not_found = some ErrorCode.not_implemented
health_check_code deadline_exceeded = some ErrorCode.not_implemented
health_check_code failed_precondition = some ErrorCode.not_implemented
health_check_code internal = some ErrorCode.internal_server_error
health_check_code resource_exhausted = some ErrorCode.not_implemented
health_check_code out_of_range = some ErrorCode.not_implemented
health_check_code (other n) = some ErrorCode.not_implemented

unfoldable pub on_health_check : Reply → List Answer
unfolding health_check_code
on_health_check r =
    (if r.status_ok then health_check_code r.code else some ErrorCode.request_timeout) ∷ []

heartbeat_code : Code → List Answer
heartbeat_code ok = none ∷ []
heartbeat_code unauthenticated = some ErrorCode.unauthorized ∷ []
heartbeat_code permission_denied = some ErrorCode.forbidden ∷ []
heartbeat_code invalid_argument = some ErrorCode.bad_request ∷ []
heartbeat_code internal = some ErrorCode.internal_server_error ∷ []
heartbeat_code not_found = []
heartbeat_code deadline_exceeded = []
heartbeat_code failed_precondition = []
heartbeat_code resource_exhausted = []
heartbeat_code out_of_range = []
heartbeat_code (other n) = []

unfoldable pub on_heartbeat : Reply → List Answer
unfolding heartbeat_code
on_heartbeat r = if r.status_ok then heartbeat_code r.code else some ErrorCode.request_timeout ∷ []

send_code : Code → Option ErrorCode
send_code ok = none
send_code unauthenticated = some ErrorCode.unauthorized
send_code permission_denied = some ErrorCode.forbidden
send_code invalid_argument = some ErrorCode.bad_request
send_code not_found = some ErrorCode.not_implemented
send_code deadline_exceeded = some ErrorCode.not_implemented
send_code failed_precondition = some ErrorCode.not_implemented
send_code internal = some ErrorCode.internal_server_error
send_code resource_exhausted = some ErrorCode.not_implemented
send_code out_of_range = some ErrorCode.not_implemented
send_code (other n) = some ErrorCode.not_implemented

is_started : State → Bool
is_started started = true
is_started created = false
is_started starting = false
is_started stopping = false
is_started stopped = false

-- `none` where the client manager is gone.
unfoldable pub on_send : Option State → Reply → List Answer
unfolding send_code is_started
on_send none r = []
on_send (some state) r =
    if not (is_started state)
    then []
    else (if r.status_ok then send_code r.code else some ErrorCode.request_timeout) ∷ []

resolve_route_code : Code → Option ErrorCode
resolve_route_code ok = none
resolve_route_code unauthenticated = some ErrorCode.unauthorized
resolve_route_code permission_denied = some ErrorCode.forbidden
resolve_route_code invalid_argument = some ErrorCode.bad_request
resolve_route_code not_found = some ErrorCode.not_found
resolve_route_code deadline_exceeded = some ErrorCode.not_implemented
resolve_route_code failed_precondition = some ErrorCode.not_implemented
resolve_route_code internal = some ErrorCode.internal_server_error
resolve_route_code resource_exhausted = some ErrorCode.not_implemented
resolve_route_code out_of_range = some ErrorCode.not_implemented
resolve_route_code (other n) = some ErrorCode.not_implemented

unfoldable pub on_resolve_route : Reply → List Answer
unfolding resolve_route_code
on_resolve_route r =
    (if r.status_ok then resolve_route_code r.code else some ErrorCode.request_timeout) ∷ []

query_assignment_code : Code → Option ErrorCode
query_assignment_code ok = none
query_assignment_code unauthenticated = some ErrorCode.unauthorized
query_assignment_code permission_denied = some ErrorCode.forbidden
query_assignment_code invalid_argument = some ErrorCode.bad_request
query_assignment_code not_found = some ErrorCode.not_implemented
query_assignment_code deadline_exceeded = some ErrorCode.not_implemented
query_assignment_code failed_precondition = some ErrorCode.not_implemented
query_assignment_code internal = some ErrorCode.internal_server_error
query_assignment_code resource_exhausted = some ErrorCode.not_implemented
query_assignment_code out_of_range = some ErrorCode.not_implemented
query_assignment_code (other n) = some ErrorCode.not_implemented

unfoldable pub on_query_assignment : Reply → List Answer
unfolding query_assignment_code
on_query_assignment r =
    (if r.status_ok then query_assignment_code r.code else some ErrorCode.request_timeout) ∷ []

receive_message_code : Code → Option ErrorCode
receive_message_code ok = none
receive_message_code unauthenticated = some ErrorCode.unauthorized
receive_message_code permission_denied = some ErrorCode.forbidden
receive_message_code invalid_argument = some ErrorCode.bad_request
receive_message_code not_found = some ErrorCode.not_implemented
receive_message_code deadline_exceeded = some ErrorCode.gateway_timeout
receive_message_code failed_precondition = some ErrorCode.not_implemented
receive_message_code internal = some ErrorCode.internal_server_error
receive_message_code resource_exhausted = some ErrorCode.not_implemented
receive_message_code out_of_range = some ErrorCode.not_implemented
receive_message_code (other n) = some ErrorCode.not_implemented

unfoldable pub on_receive_message : Reply → List Answer
unfolding receive_message_code
on_receive_message r =
    (if r.status_ok then receive_message_code r.code else some ErrorCode.request_timeout) ∷ []

ack_code : Code → Option ErrorCode
ack_code ok = none
ack_code unauthenticated = some ErrorCode.unauthorized
ack_code permission_denied = some ErrorCode.forbidden
ack_code invalid_argument = some ErrorCode.bad_request
ack_code not_found = some ErrorCode.not_implemented
ack_code deadline_exceeded = some ErrorCode.not_implemented
ack_code failed_precondition = some ErrorCode.not_implemented
ack_code internal = some ErrorCode.internal_server_error
ack_code resource_exhausted = some ErrorCode.not_implemented
ack_code out_of_range = some ErrorCode.not_implemented
ack_code (other n) = some ErrorCode.not_implemented

unfoldable pub on_ack : Reply → List Answer
unfolding ack_code
on_ack r = (if r.status_ok then ack_code r.code else some ErrorCode.request_timeout) ∷ []

nack_code : Code → Option ErrorCode
nack_code ok = none
nack_code unauthenticated = some ErrorCode.unauthorized
nack_code permission_denied = some ErrorCode.forbidden
nack_code invalid_argument = some ErrorCode.not_implemented
nack_code not_found = some ErrorCode.not_implemented
nack_code deadline_exceeded = some ErrorCode.not_implemented
nack_code failed_precondition = some ErrorCode.not_implemented
nack_code internal = some ErrorCode.internal_server_error
nack_code resource_exhausted = some ErrorCode.not_implemented
nack_code out_of_range = some ErrorCode.not_implemented
nack_code (other n) = some ErrorCode.not_implemented

unfoldable pub on_nack : Reply → List Answer
unfolding nack_code
on_nack r = (if r.status_ok then nack_code r.code else some ErrorCode.request_timeout) ∷ []

end_transaction_code : Code → Option ErrorCode
end_transaction_code ok = none
end_transaction_code unauthenticated = some ErrorCode.unauthorized
end_transaction_code permission_denied = some ErrorCode.forbidden
end_transaction_code invalid_argument = some ErrorCode.not_implemented
end_transaction_code not_found = some ErrorCode.not_implemented
end_transaction_code deadline_exceeded = some ErrorCode.not_implemented
end_transaction_code failed_precondition = some ErrorCode.not_implemented
end_transaction_code internal = some ErrorCode.internal_server_error
end_transaction_code resource_exhausted = some ErrorCode.not_implemented
end_transaction_code out_of_range = some ErrorCode.not_implemented
end_transaction_code (other n) = some ErrorCode.not_implemented

unfoldable pub on_end_transaction : Reply → List Answer
unfolding end_transaction_code
on_end_transaction r =
    (if r.status_ok then end_transaction_code r.code else some ErrorCode.bad_request) ∷ []

query_offset_code : Code → Option ErrorCode
query_offset_code ok = none
query_offset_code unauthenticated = some ErrorCode.unauthorized
query_offset_code permission_denied = some ErrorCode.forbidden
query_offset_code invalid_argument = some ErrorCode.not_implemented
query_offset_code not_found = some ErrorCode.not_implemented
query_offset_code deadline_exceeded = some ErrorCode.not_implemented
query_offset_code failed_precondition = some ErrorCode.not_implemented
query_offset_code internal = some ErrorCode.internal_server_error
query_offset_code resource_exhausted = some ErrorCode.not_implemented
query_offset_code out_of_range = some ErrorCode.not_implemented
query_offset_code (other n) = some ErrorCode.not_implemented

unfoldable pub on_query_offset : Reply → List Answer
unfolding query_offset_code
on_query_offset r =
    (if r.status_ok then query_offset_code r.code else some ErrorCode.request_timeout) ∷ []

notify_client_termination_code : Code → Option ErrorCode
notify_client_termination_code ok = none
notify_client_termination_code unauthenticated = some ErrorCode.unauthorized
notify_client_termination_code permission_denied = some ErrorCode.forbidden
notify_client_termination_code invalid_argument = some ErrorCode.not_implemented
notify_client_termination_code not_found = some ErrorCode.not_implemented
notify_client_termination_code deadline_exceeded = some ErrorCode.not_implemented
notify_client_termination_code failed_precondition = some ErrorCode.not_implemented
notify_client_termination_code internal = some ErrorCode.internal_server_error
notify_client_termination_code resource_exhausted = some ErrorCode.not_implemented
notify_client_termination_code out_of_range = some ErrorCode.not_implemented
notify_client_termination_code (other n) = some ErrorCode.not_implemented

unfoldable pub on_notify_client_termination : Reply → List Answer
unfolding notify_client_termination_code
on_notify_client_termination r =
    (if r.status_ok then notify_client_termination_code r.code else some ErrorCode.request_timeout)
    ∷ []

pull_message_code : Code → Option ErrorCode
pull_message_code ok = none
pull_message_code unauthenticated = some ErrorCode.unauthorized
pull_message_code permission_denied = some ErrorCode.forbidden
pull_message_code invalid_argument = some ErrorCode.bad_request
pull_message_code not_found = some ErrorCode.not_implemented
pull_message_code deadline_exceeded = some ErrorCode.gateway_timeout
pull_message_code failed_precondition = some ErrorCode.precondition_required
pull_message_code internal = some ErrorCode.internal_server_error
pull_message_code resource_exhausted = some ErrorCode.not_implemented
pull_message_code out_of_range = some ErrorCode.not_implemented
pull_message_code (other n) = some ErrorCode.not_implemented

unfoldable pub on_pull_message : Reply → List Answer
unfolding pull_message_code
on_pull_message r =
    (if r.status_ok then pull_message_code r.code else some ErrorCode.request_timeout) ∷ []

-- The calls that hand their context on: the reply, or `none` for the null pointer where there is no RPC client.
unfoldable pub on_multiplexing_call : Option Reply → List (Option Reply)
on_multiplexing_call none = none ∷ []
on_multiplexing_call (some r) = if r.status_ok then some r ∷ [] else some r ∷ []

unfoldable pub on_pull : Option Reply → List (Option Reply)
on_pull none = none ∷ []
on_pull (some r) = some r ∷ []

unfoldable pub on_forward_message_to_dead_letter_queue : Option Reply → List (Option Reply)
on_forward_message_to_dead_letter_queue none = none ∷ []
on_forward_message_to_dead_letter_queue (some r) = if r.status_ok then some r ∷ [] else some r ∷ []

-- What `forwardToDeadLetterQueue` of the push consumer tells its callback, which takes a `bool` and is given the
-- pointer to the context.
unfoldable pub forward_to_dead_letter_queue : Option Reply → List Bool
unfolding on_forward_message_to_dead_letter_queue
forward_to_dead_letter_queue r = map is_some (on_forward_message_to_dead_letter_queue r)
