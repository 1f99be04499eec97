-- ===== src/Tests/Publish.antt =====
-- The publish information.
use rocketmq_client_cpp.Prelude.{
  ◌≡◌, refl, Bool, true, false, [], ◌∷◌, arith, subst, length, ◌<◌, sym, some,
}
use rocketmq_client_cpp.Prelude.Text.{Text, codes, text_eq}
use rocketmq_client_cpp.Route.{as_message_queue}
use rocketmq_client_cpp.PublishInfo.{
  PublishInfo, has_broker, take_message_queues, take_loop, consider, add_candidate, queue_at,
  update_publish_info, publish, writable_partitions, add_writable,
}
use rocketmq_client_cpp.PublishInfo.Take.{
  DistinctBrokers, Picked, take_message_queues_sound, take_message_queues_complete,
}
use rocketmq_client_cpp.Tests.{partition_0}
use rocketmq_client_cpp.PublishInfo.{make}
use rocketmq_client_cpp.Prelude.Table.{lookup, insert_or_assign}
use rocketmq_client_cpp.Producer.{found}
use rocketmq_client_cpp.Producer.Table.{
  Table, ready, on_route, async_publish_info, Reach, here, later, asks, replies, store,
}
use rocketmq_client_cpp.Producer.Table.Frozen.{IsFrozen, Unasked, Reach-frozen}

abbrev info : PublishInfo
info = record {
  partition_list = partition_0 ∷ partition_0 ∷ [];
  topic = codes "orders";
  topic_route_data = partition_0 ∷ partition_0 ∷ [];
  send_which_queue = 4;
}

abbrev nobody : Text → Bool
nobody address = false

take_message_queues_sound_example :
    DistinctBrokers (take_message_queues nobody [] 3 info).1
    × Picked nobody (partition_0 ∷ partition_0 ∷ []) (take_message_queues nobody [] 3 info).1
take_message_queues_sound_example = take_message_queues_sound nobody 3 info

taken : (take_message_queues nobody [] 3 info).1 ≡ as_message_queue partition_0 ∷ []
unfolding take_message_queues take_loop consider add_candidate queue_at text_eq as_message_queue
taken = refl

take_message_queues_complete_example :
    has_broker (as_message_queue partition_0).broker_name (take_message_queues nobody [] 3 info).1
    ≡ true
take_message_queues_complete_example =
    take_message_queues_complete nobody 3 1 info partition_0 (omega arith)
      (subst (λ l. length l < 3) (sym taken) (omega arith)) (omega arith) refl refl

-- A topic that was looked up, with the lookup of another on its way.
abbrev topic_0 : Text
topic_0 = codes "orders"

abbrev known : PublishInfo
known = record {
  partition_list = partition_0 ∷ [];
  topic = topic_0;
  topic_route_data = partition_0 ∷ [];
  send_which_queue = 0;
}

made : make topic_0 (partition_0 ∷ []) 0 ≡ some known
unfolding make update_publish_info publish writable_partitions add_writable text_eq
made = refl

abbrev looked_up : Table
looked_up = record {
  topic_publish_info_table = (topic_0, known) ∷ [];
  requests = record { topic = codes "Other"; callback = 4 } ∷ [];
}

looked_up-IsFrozen : IsFrozen topic_0 known looked_up
unfolding lookup text_eq
looked_up-IsFrozen = (refl, (refl, tt))

abbrev nowhere : PublishInfo
nowhere = record {
  partition_list = [];
  topic = codes "Other";
  topic_route_data = [];
  send_which_queue = 0;
}

-- The lookup of the other topic calls back, and a caller asks for the topic.
abbrev replied : Table
replied = record looked_up {
  topic_publish_info_table = (topic_0, known) ∷ (codes "Other", nowhere) ∷ [];
  requests = [];
}

other_reply :
    on_route
      (record { topic = codes "Other"; callback = 4 })
      (ready [])
      0
      (record looked_up { requests = [] })
    ≡ some (replied, record { callback = 4; result = found nowhere } ∷ [])
unfolding on_route store make update_publish_info publish writable_partitions insert_or_assign
    text_eq
other_reply = refl

abbrev asked_again : Table
asked_again = (async_publish_info topic_0 5 replied).0

asked_again-Reach : Reach looked_up asked_again
asked_again-Reach =
    later
      (later here (
        replies [] [] (record { topic = codes "Other"; callback = 4 }) (ready []) 0 refl
          other_reply))
      (asks topic_0 5)

Reach-frozen_example :
    (async_publish_info topic_0 9 asked_again
      ≡ (asked_again, record { callback = 9; result = found known } ∷ []))
    × Unasked topic_0 asked_again.requests
Reach-frozen_example = Reach-frozen topic_0 known 9 looked_up-IsFrozen asked_again-Reach
