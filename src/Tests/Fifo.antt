-- ===== src/Tests/Fifo.antt =====
-- The FIFO consume service.
use rocketmq_client_cpp.Prelude.Text.{text_eq}
use rocketmq_client_cpp.Prelude.{◌≡◌, ◌≤◌, refl, true, false, some, [], ◌∷◌, length}
use rocketmq_client_cpp.Types.{ConsumeMessageResult, MessageModel, broadcasting, clustering, accept}
use rocketmq_client_cpp.Queue.{
  ProcessQueue, release, cache_messages, init, committed_offset, cache_message,
}
use rocketmq_client_cpp.Fifo.{FifoConsumer, Service, Effect, submit_consume_task, consume_task}
use rocketmq_client_cpp.Fifo.Machine.{
  Machine, running, perform, Reach, here, later, arrives, dispatches, performs, awaiting_ack, idle,
}
use rocketmq_client_cpp.Fifo.{submit_task, ack, submit_bound, submit_single}
use rocketmq_client_cpp.Fifo.Order.{consumed-InOrder}
use rocketmq_client_cpp.Fifo.Sequence
use rocketmq_client_cpp.Fifo.Sequence.{InOrder, consumed}
use rocketmq_client_cpp.Queue.{bind_fifo_consume_task, take_messages, take_loop, cache_loop}
use rocketmq_client_cpp.Fifo.Exclusion.{one_at_a_time}
use rocketmq_client_cpp.Fifo.Stuck.{IsStuck, lone_message-IsStuck}
use rocketmq_client_cpp.Queue.Offsets.{committed, erase, release_offset}
use rocketmq_client_cpp.Tests.{message, consumer, busy_queue, queue_0, any_tag}

abbrev fifo : MessageModel → FifoConsumer
fifo model = record { quota = consumer model; consume_batch_size = 1; max_delivery_attempts = 3 }

abbrev service : Service
service = record {
  has_rate_limiter = λ topic. false;
  consume_message = λ m. some ConsumeMessageResult.success;
}

abbrev arrived : Machine
arrived = record (idle queue_0 any_tag 0) {
  queue =
      (cache_messages (some (consumer clustering)) (message 5 ∷ message 6 ∷ [])
        (init queue_0 any_tag 0)).0;
}

arrived-Reach : Reach (fifo clustering) (idle queue_0 any_tag 0) arrived
arrived-Reach = later here (arrives (message 5 ∷ message 6 ∷ []))

-- A round of the dispatcher, and the task of the first message runs.
abbrev bound : ProcessQueue
bound = record arrived.queue { cached_messages = message 6 ∷ []; has_fifo_task_bound = true }

abbrev released : ProcessQueue
released = record bound { cached_message_quantity = 1; cached_message_memory = 3 }

abbrev called : Machine
called = record { queue = released; activities = awaiting_ack (message 5) ∷ [] }

bound_round :
    submit_consume_task (some arrived.queue) (some (fifo clustering))
    ≡ (some bound, submit_task (message 5) ∷ [])
unfolding submit_consume_task bind_fifo_consume_task submit_bound take_messages take_loop
    submit_single cache_messages cache_loop init accept text_eq cache_message
bound_round = refl

called_run :
    perform service (fifo clustering) bound (running (message 5)) false
    ≡ (some released, ack (message 5) ∷ [])
unfolding perform consume_task release cache_messages cache_loop init accept text_eq cache_message
called_run = refl

called-Reach : Reach (fifo clustering) (idle queue_0 any_tag 0) called
called-Reach =
    later (later arrived-Reach (dispatches bound_round))
      (performs service [] [] (running (message 5)) false refl called_run)

consumed-InOrder_example : InOrder (consumed called-Reach) (Sequence.arrived called-Reach)
consumed-InOrder_example = consumed-InOrder (fifo clustering) queue_0 any_tag 0 called-Reach

one_at_a_time_example :
    (length arrived.activities ≤ 1)
    × (arrived.queue.has_fifo_task_bound ≡ false → arrived.activities ≡ [])
one_at_a_time_example = one_at_a_time (fifo clustering) queue_0 any_tag 0 arrived-Reach

-- A queue with a single message.
abbrev lone_queue : ProcessQueue
lone_queue = record busy_queue { cached_messages = message 6 ∷ [] }

lone_message-IsStuck_example :
    (q : ProcessQueue) × (submit_consume_task (some lone_queue) (some (fifo clustering))
      ≡ (some q, []))
    × (q.cached_messages ≡ [])
    × IsStuck (record { queue = q; activities = [] })
lone_message-IsStuck_example =
    lone_message-IsStuck (fifo clustering) (record { queue = lone_queue; activities = [] })
      (message 6) refl refl refl refl

abbrev stuck : Machine
stuck = record { queue = record busy_queue { has_fifo_task_bound = true }; activities = [] }

abbrev tracked : ProcessQueue
tracked = record busy_queue {
  has_fifo_task_bound = true;
  offsets = record { offset = 5; released = false } ∷ record { offset = 6; released = false } ∷ [];
}

abbrev after_task : ProcessQueue
after_task = record tracked {
  cached_message_quantity = 2;
  cached_message_memory = 6;
  offsets = record { offset = 6; released = false } ∷ [];
}

task_run :
    perform service (fifo broadcasting) tracked (running (message 5)) true
    ≡ (some after_task, Effect.update_offset queue_0 6 ∷ [])
unfolding perform consume_task release committed_offset committed release_offset erase
task_run = refl
