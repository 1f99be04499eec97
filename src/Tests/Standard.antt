-- ===== src/Tests/Standard.antt =====
-- The standard consume service.
use rocketmq_client_cpp.Prelude.{◌≡◌, refl, false, some, List, [], ◌∷◌, map, arith, All, ◌++◌}
use rocketmq_client_cpp.Types.{Message, ConsumeMessageResult, clustering, MessageModel, accept}
use rocketmq_client_cpp.Queue.{
  cache_messages, init, take_messages, take_loop, cache_loop, cache_message,
}
use rocketmq_client_cpp.Standard.{
  StandardConsumer, Service, submit, submit_consume_task, consume_task, submit_loop,
}
use rocketmq_client_cpp.Standard.Machine.{
  Machine, Reach, here, later, receives, dispatches, runs, fresh, queue_after, answered_of,
  Accounted,
}
use rocketmq_client_cpp.Prelude.Text.{text_eq}
use rocketmq_client_cpp.Standard.Delivery.{Reach-Accounted, Reach-settles, Settled}
use rocketmq_client_cpp.Standard.Submit.{submit_consume_task-drains, concat, IsBatch}
use rocketmq_client_cpp.Tests.{message, consumer, busy_queue, queue_0, any_tag}

abbrev standard : MessageModel → StandardConsumer
standard model = record { quota = consumer model; consume_batch_size = 1; custom_executor = false }

abbrev service : Service
service = record {
  has_rate_limiter = λ topic. false;
  consume_message = λ ms. some ConsumeMessageResult.success;
}

submit_consume_task-drains_example :
    (batches : List (List Message)) × ((concat batches ≡ message 6 ∷ message 7 ∷ [])
      × (All (IsBatch 1) batches)
      × (submit_consume_task (some busy_queue) (some (standard clustering))
          ≡ some (
            some (record busy_queue { cached_messages = [] }),
            map (submit (standard clustering)) batches,
          )))
submit_consume_task-drains_example =
    submit_consume_task-drains (standard clustering) busy_queue (omega arith)

-- Two messages come, and one of the two tasks has run.
abbrev come : Machine
come = record {
  queue =
      (cache_messages (some (consumer clustering)) (message 5 ∷ message 6 ∷ [])
        (init queue_0 any_tag 0)).0;
  tasks = [];
  received = message 5 ∷ message 6 ∷ [];
  answered =
      (cache_messages (some (consumer clustering)) (message 5 ∷ message 6 ∷ [])
        (init queue_0 any_tag 0)).1;
}

abbrev dispatched : Machine
dispatched = record come {
  queue = record (come.queue) { cached_messages = [] };
  tasks = (message 5 ∷ []) ∷ (message 6 ∷ []) ∷ [];
}

cut :
    submit_consume_task (some come.queue) (some (standard clustering))
    ≡ some (
      some dispatched.queue,
      map (submit (standard clustering)) ((message 5 ∷ []) ∷ (message 6 ∷ []) ∷ []),
    )
unfolding submit_consume_task submit_loop take_messages take_loop cache_messages cache_loop
    cache_message accept init text_eq
cut = refl

dispatched-Reach : Reach (standard clustering) (fresh queue_0 any_tag 0) dispatched
dispatched-Reach = later (later here (receives (message 5 ∷ message 6 ∷ []))) (dispatches _ _ cut)

abbrev half_done : Machine
half_done = record {
  queue =
      queue_after dispatched.queue
        (consume_task service (some dispatched.queue) (some (standard clustering))
          (message 6 ∷ [])).0;
  tasks = (message 5 ∷ []) ∷ [];
  received = dispatched.received;
  answered =
      dispatched.answered
      ++ answered_of
          (consume_task service (some dispatched.queue) (some (standard clustering))
            (message 6 ∷ [])).1;
}

half_done-Reach : Reach (standard clustering) (fresh queue_0 any_tag 0) half_done
half_done-Reach =
    later dispatched-Reach (runs service ((message 5 ∷ []) ∷ []) (message 6 ∷ []) [] refl)

Reach-Accounted_example : Accounted half_done
Reach-Accounted_example =
    Reach-Accounted (standard clustering) refl (omega arith) queue_0 any_tag 0 half_done
      half_done-Reach

Reach-settles_example :
    (v : Machine) × (Reach (standard clustering) half_done v
      × ((v.received ≡ half_done.received) × Settled v))
Reach-settles_example =
    Reach-settles service (standard clustering) refl (omega arith) queue_0 any_tag 0 half_done
      half_done-Reach
