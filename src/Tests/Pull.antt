-- ===== src/Tests/Pull.antt =====
-- The pull consumer, and what a push consumer asks and answers.
use rocketmq_client_cpp.Prelude.{ℕ, ◌≡◌, refl, Bool, true, none, some, List, [], ◌∷◌, map, keep}
use rocketmq_client_cpp.Prelude.Text.{codes, text_eq}
use rocketmq_client_cpp.Prelude.Table.{lookup}
use rocketmq_client_cpp.Rpc.{Code}
use rocketmq_client_cpp.Rpc.Wrap
use rocketmq_client_cpp.Rpc.Wrap.{
  process_pop_result, pop_loop, wrap_message, wrapped_message, ReceiveResult, body_digest_match,
  ok_status,
}
use rocketmq_client_cpp.Wire.{set_target_endpoint}
use rocketmq_client_cpp.Route.{as_message_queue}
use rocketmq_client_cpp.RouteCache.{Client, Effect, on_topic_route_ready}
use rocketmq_client_cpp.PullConsumer.{InvocationContext, on_pull, queues_for, set_value}
use rocketmq_client_cpp.PullConsumer.Pulled.{IsOutcome, on_pull-IsOutcome}
use rocketmq_client_cpp.PullConsumer.Queues.{SettleEach, queues_for-agrees}
use rocketmq_client_cpp.PushConsumer.Requests.{Consumer, ack}
use rocketmq_client_cpp.PushConsumer.Requests.Received.{
  AnswerEach, process_pop_result-AnswerEach, process_pull_result-unanswered,
}
use rocketmq_client_cpp.Tests.{partition_0}
use rocketmq_client_cpp.Tests.Receive.{codec, item, response, result, pulled}

abbrev answering : Consumer
answering = record {
  resource_namespace = codes "ns";
  group_name = codes "group";
  client_id = codes "id";
  max_delivery_attempts = 3;
}

-- The second item has another checksum.
abbrev popped_items : Wrap.Response
popped_items = record response { items = item ∷ (record item { checksum = codes "x" }) ∷ [] }

abbrev popped_result : ReceiveResult
popped_result = record {
  status = ok_status;
  messages = set_target_endpoint (codes "host") (wrapped_message codec item) ∷ [];
  next_offset = 0;
}

popped : process_pop_result (codes "host") (codes "ns") codec popped_items ≡ some popped_result
unfolding process_pop_result pop_loop wrap_message body_digest_match text_eq
popped = refl

process_pop_result-AnswerEach_example :
    AnswerEach answering
      (codes "host")
      popped_result.messages
      (keep (body_digest_match codec) popped_items.items)
process_pop_result-AnswerEach_example =
    process_pop_result-AnswerEach answering (codes "host") (codes "ns") codec popped_items
      popped_result refl popped refl

process_pull_result-unanswered_example :
    map (ack answering) result.messages ≡ map (λ i. none) response.items
process_pull_result-unanswered_example =
    process_pull_result-unanswered answering (codes "ns") codec response result pulled refl

abbrev context : InvocationContext
context = record {
  status_ok = true;
  response = record {
    code = Code.ok;
    items = popped_items.items;
    min_offset = 1;
    max_offset = 50;
    next_offset = 43;
  };
}

on_pull-IsOutcome_example :
    IsOutcome (codes "ns") codec (some context) (on_pull (codes "ns") codec (some context))
on_pull-IsOutcome_example = on_pull-IsOutcome (codes "ns") codec (some context)

-- Two lookups wait for the route.
abbrev waiting_client : Client
waiting_client = record {
  topic_route_table = [];
  inflight_route_requests = (codes "orders", 1 ∷ 2 ∷ []) ∷ [];
}

unknown : lookup (codes "orders") waiting_client.topic_route_table ≡ none
unfolding lookup
unknown = refl

awaited : lookup (codes "orders") waiting_client.inflight_route_requests ≡ some (1 ∷ 2 ∷ [])
unfolding lookup text_eq
awaited = refl

queues_for-agrees_example :
    (c' : Client) × ((es : List Effect) × ((on_topic_route_ready
            (codes "orders")
            none
            (some (partition_0 ∷ []))
            waiting_client
          ≡ some (c', es))
        × (SettleEach (set_value (map as_message_queue (partition_0 ∷ []))) (1 ∷ 2 ∷ []) es
            × ((has_name_server : Bool) (cb : ℕ)
                → queues_for has_name_server (codes "orders") cb c'
                  ≡ (c', [], set_value (map as_message_queue (partition_0 ∷ [])))))))
queues_for-agrees_example =
    queues_for-agrees (codes "orders") (partition_0 ∷ []) waiting_client (1 ∷ 2 ∷ []) refl unknown
      awaited
