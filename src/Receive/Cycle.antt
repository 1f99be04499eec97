-- ===== src/Receive/Cycle.antt =====
-- How the receive cycle of AsyncReceiveMessageCallback.cpp goes on after a result, with `receiveMessage` of
-- PushConsumerImpl.cpp.
use rocketmq_client_cpp.Prelude.{
  if◌then◌else◌, ℕ, suc, ◌≡◌, Bool, true, false, ◌||◌, none, some, List, [], ◌∷◌, ◌++◌,
}
use rocketmq_client_cpp.Types.{MessageQueue}
use rocketmq_client_cpp.Queue.{ProcessQueue, should_throttle}
use rocketmq_client_cpp.Rpc.Wrap.{
  ReceiveMessageStatus, ok_status, data_corrupted_status, deadline_exceeded_status, internal_status,
  resource_exhausted_status, not_found_status, out_of_range_status,
}
use rocketmq_client_cpp.Receive.{
  ReceiveConsumer, Effect, Outcome, receive_later, ack, receive_immediately, signal_dispatcher,
  abort,
}
use rocketmq_client_cpp.PushConsumer
use rocketmq_client_cpp.PushConsumer.{Settings, QueueTable, receive_message, pop_message}

-- What the effects start by a call of `receiveMessage` of the consumer on a queue, and how many checks they schedule.
abbrev pub started : Settings → QueueTable → ProcessQueue → List Effect → List PushConsumer.Effect
started s table q [] = []
started s table q (ack m ∷ es) = started s table q es
started s table q (signal_dispatcher ∷ es) = started s table q es
started s table q (receive_later ∷ es) = started s table q es
started s table q (receive_immediately ∷ es) =
    (receive_message s q.message_queue q.filter_expression table).2 ++ started s table q es
started s table q (abort ∷ es) = started s table q es

abbrev pub scheduled : List Effect → ℕ
scheduled [] = 0
scheduled (ack m ∷ es) = scheduled es
scheduled (signal_dispatcher ∷ es) = scheduled es
scheduled (receive_later ∷ es) = suc (scheduled es)
scheduled (receive_immediately ∷ es) = scheduled es
scheduled (abort ∷ es) = scheduled es

-- The results after which no message is asked for at once.
abbrev pub is_postponed : ReceiveMessageStatus → Bool
is_postponed ok_status = false
is_postponed data_corrupted_status = false
is_postponed out_of_range_status = false
is_postponed deadline_exceeded_status = false
is_postponed internal_status = true
is_postponed resource_exhausted_status = true
is_postponed not_found_status = true

-- Where the queue that is left is to wait: one check is scheduled and nothing started; otherwise one pop is started and
-- no check scheduled.
abbrev pub GoesOn : Settings → QueueTable → ReceiveConsumer → MessageQueue → Bool → Outcome → Type 0
GoesOn s table c queue postponed (none, es) = ⊥
GoesOn s table c queue postponed (some q, es) =
    (started s table q es
      ≡ (if postponed || should_throttle (some c.quota) q then [] else pop_message queue ∷ []))
    × (scheduled es ≡ (if postponed || should_throttle (some c.quota) q then 1 else 0))

-- Effects that neither start nor schedule anything.
abbrev IsQuiet : List Effect → Type 0
IsQuiet [] = Unit {0}
IsQuiet (ack m ∷ es) = IsQuiet es
IsQuiet (signal_dispatcher ∷ es) = IsQuiet es
IsQuiet (receive_later ∷ es) = ⊥
IsQuiet (receive_immediately ∷ es) = ⊥
IsQuiet (abort ∷ es) = IsQuiet es
