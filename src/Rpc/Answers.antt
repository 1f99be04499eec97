-- ===== src/Rpc/Answers.antt =====
-- The answers of the calls of ClientManagerImpl.cpp: how many, and whether they are errors.
use rocketmq_client_cpp.Prelude.{
  Bool, true, false, not, ◌&&◌, Option, some, List, [], ◌∷◌, is_some, ◌≡◌,
}
use rocketmq_client_cpp.Types.{started}
use rocketmq_client_cpp.Rpc.{
  Code, ok, unauthenticated, permission_denied, invalid_argument, not_found, deadline_exceeded,
  failed_precondition, internal, resource_exhausted, out_of_range, other, Reply, Answer,
  on_health_check, on_send, on_resolve_route, on_query_assignment, on_receive_message, on_ack,
  on_nack, on_end_transaction, on_query_offset, on_notify_client_termination, on_pull_message,
  other, on_multiplexing_call, on_pull, on_forward_message_to_dead_letter_queue,
}

pub data Call : Type 0 where
  health_check send resolve_route query_assignment receive_message ack nack : Call
  end_transaction query_offset notify_client_termination pull_message : Call

-- The answers to a reply; of a `send`, those of a client manager that is started.
abbrev pub answers : Call → Reply → List Answer
answers health_check r = on_health_check r
answers send r = on_send (some started) r
answers resolve_route r = on_resolve_route r
answers query_assignment r = on_query_assignment r
answers receive_message r = on_receive_message r
answers ack r = on_ack r
answers nack r = on_nack r
answers end_transaction r = on_end_transaction r
answers query_offset r = on_query_offset r
answers notify_client_termination r = on_notify_client_termination r
answers pull_message r = on_pull_message r

abbrev pub is_ok : Code → Bool
is_ok ok = true
is_ok unauthenticated = false
is_ok permission_denied = false
is_ok invalid_argument = false
is_ok not_found = false
is_ok deadline_exceeded = false
is_ok failed_precondition = false
is_ok internal = false
is_ok resource_exhausted = false
is_ok out_of_range = false
is_ok (other n) = false

-- One answer, which is an error unless the call went through and the broker said OK.
abbrev pub OnceHonest : Reply → List Answer → Type 0
OnceHonest r l = (a : Answer) × ((l ≡ a ∷ []) × (is_some a ≡ not (r.status_ok && is_ok r.code)))

-- The calls that hand their context on.
pub data ContextCall : Type 0 where
  multiplexing_call pull forward_message_to_dead_letter_queue : ContextCall

abbrev pub contexts : ContextCall → Option Reply → List (Option Reply)
contexts multiplexing_call r = on_multiplexing_call r
contexts pull r = on_pull r
contexts forward_message_to_dead_letter_queue r = on_forward_message_to_dead_letter_queue r
