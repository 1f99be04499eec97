-- ===== src/Tests/Producer.antt =====
-- The producer.
use rocketmq_client_cpp.Prelude.{ℕ, ◌%◌, ◌≡◌, refl, true, false, some, List, [], ◌∷◌, get_elem?}
use rocketmq_client_cpp.Prelude.Text.{codes, starts_with}
use rocketmq_client_cpp.Prelude.Int.{pos}
use rocketmq_client_cpp.Types.{ErrorCode, MessageQueue}
use rocketmq_client_cpp.PublishInfo.{PublishInfo}
use rocketmq_client_cpp.Producer.{
  MqMessage, Platform, Lookup, validate, send0, choose, choose_async, named_queues, found, failed,
}
use rocketmq_client_cpp.Producer.Retry.{
  send_impl, send_loop, message_queue, RetrySendCallback, on_failure, sent, answered,
}
use rocketmq_client_cpp.Producer.Retry.Attempts.{Sending, starts, retries}
use rocketmq_client_cpp.Producer.Retry.Limit.{Limited, Sending-Limited, Sending-answers, fail}
use rocketmq_client_cpp.Producer.Candidates.{group-sticks, choose_async-choose}
use rocketmq_client_cpp.Tests.{queue_0, partition_0}

abbrev queue_1 : MessageQueue
queue_1 = record queue_0 { queue_id = pos 1 }

abbrev platform : Platform
platform = record { topic_matches = λ topic. true; hash = λ group. 3 }

abbrev grouped : MqMessage
grouped = record {
  topic = codes "orders";
  body = codes "abc";
  message_group = codes "g";
  message_queue = record queue_0 { topic = [] };
}

abbrev callback : List MessageQueue → ℕ → RetrySendCallback
callback list n = record { attempt_times = n; max_attempt_times = 3; candidates = list }

abbrev two : List MessageQueue
two = queue_0 ∷ queue_1 ∷ []

first_send : send0 platform grouped two (pos 3) ≡ some (sent queue_0 (callback two 0))
unfolding send0 validate starts_with send_impl send_loop message_queue
first_send = refl

second_send :
    on_failure true ErrorCode.request_timeout (callback two 0)
    ≡ some (sent queue_1 (callback two 1))
unfolding on_failure send_impl send_loop message_queue
second_send = refl

retried : Sending platform grouped two (pos 3) 2 (sent queue_1 (callback two 1))
retried = retries true ErrorCode.request_timeout (starts first_send) second_send

Sending-Limited_example : Limited two 3 2 (sent queue_1 (callback two 1))
Sending-Limited_example =
    Sending-Limited platform grouped two (pos 3) 2 (sent queue_1 (callback two 1)) retried

Sending-answers_example :
    (e : ErrorCode) × (fail 3 true ErrorCode.request_timeout (sent queue_1 (callback two 1))
      ≡ some (answered e))
Sending-answers_example =
    Sending-answers platform grouped two (pos 3) 2 (sent queue_1 (callback two 1)) true
      ErrorCode.request_timeout retried

named : named_queues platform grouped two ≡ some (queue_1 ∷ [])
unfolding named_queues
named = refl

first_of_group :
    send0 platform grouped (queue_1 ∷ []) (pos 3) ≡ some (sent queue_1 (callback (queue_1 ∷ []) 0))
unfolding send0 validate starts_with send_impl send_loop message_queue
first_of_group = refl

group-sticks_example : get_elem? two (3 % 2) ≡ some queue_1
group-sticks_example =
    group-sticks platform grouped two (queue_1 ∷ []) (pos 3) 1 queue_1 (callback (queue_1 ∷ []) 0)
      refl named (starts first_of_group)

abbrev lost : Lookup
lost = failed ErrorCode.not_found

abbrev info : PublishInfo
info = record {
  partition_list = partition_0 ∷ [];
  topic = codes "orders";
  topic_route_data = partition_0 ∷ [];
  send_which_queue = 4;
}

-- The message has a group, and its send goes by the rotation all the same.
choose_async-choose_example :
    (choose_async platform (λ a. false) 3 true grouped (found info)).1
    ≡ choose platform (λ a. false) 3 true (record grouped { message_group = [] }) (found info) lost
choose_async-choose_example =
    choose_async-choose platform (λ a. false) 3 true grouped (record grouped { message_group = [] })
      info lost refl
