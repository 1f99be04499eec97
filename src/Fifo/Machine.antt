-- ===== src/Fifo/Machine.antt =====
-- One process queue under the FIFO service, with everything that is still to call back: a step is a
-- batch that arrives, a round of the dispatcher, or one pending activity that runs.
use rocketmq_client_cpp.Prelude.{ℕ, ◌≡◌, Bool, some, List, [], ◌∷◌, ◌++◌}
use rocketmq_client_cpp.Types.{Message, MessageQueue, FilterExpression}
use rocketmq_client_cpp.Queue.{ProcessQueue, init, cache_messages}
use rocketmq_client_cpp.Fifo.{
  FifoConsumer, Service, Effect, submit_task, ack, schedule_ack, forward_to_dead_letter_queue,
  schedule_forward, schedule_consume, Outcome, submit_consume_task, consume_task, on_ack,
  on_forward_to_dead_letter_queue, schedule_forward_dead_letter_queue_task, schedule_ack_task,
  schedule_consume_task,
}

pub data Activity : Type 0 where
  running awaiting_ack acking_later awaiting_forward forwarding_later consuming_later :
      Message → Activity

-- The activity that an effect starts; the others end with the handler.
abbrev pub activity_of : Effect → List Activity
activity_of (submit_task m) = running m ∷ []
activity_of (ack m) = awaiting_ack m ∷ []
activity_of (schedule_ack m) = acking_later m ∷ []
activity_of (forward_to_dead_letter_queue m) = awaiting_forward m ∷ []
activity_of (schedule_forward m) = forwarding_later m ∷ []
activity_of (schedule_consume m) = consuming_later m ∷ []
activity_of _ = []

abbrev pub activities_of : List Effect → List Activity
activities_of [] = []
activities_of (e ∷ es) = activity_of e ++ activities_of es

-- Runs an activity; the Boolean is the answer of the broker where one is awaited.
unfoldable pub perform : Service → FifoConsumer → ProcessQueue → Activity → Bool → Outcome
perform s c q (running m) answer = consume_task s (some q) (some c) m
perform s c q (awaiting_ack m) answer = on_ack (some q) (some c) m answer
perform s c q (acking_later m) answer = schedule_ack_task (some q) (some c) m
perform s c q (awaiting_forward m) answer =
    on_forward_to_dead_letter_queue (some q) (some c) m answer
perform s c q (forwarding_later m) answer =
    schedule_forward_dead_letter_queue_task (some q) (some c) m
perform s c q (consuming_later m) answer = schedule_consume_task (some q) (some c) m

pub record Machine : Type 0 where
  pub queue : ProcessQueue
  pub activities : List Activity

-- The listener may answer to a message in another way each time.
pub data Step (c : FifoConsumer) (w : Machine) : Machine → Type 0 where
  arrives :
      (ms : List Message)
      → Step c w (record w { queue = (cache_messages (some c.quota) ms w.queue).0 })
  dispatches :
      {q : ProcessQueue} {effects : List Effect}
      → submit_consume_task (some w.queue) (some c) ≡ (some q, effects)
      → Step c w (record { queue = q; activities = w.activities ++ activities_of effects })
  performs :
      (s : Service) (before after : List Activity) (a : Activity) (answer : Bool) {q : ProcessQueue}
      {effects : List Effect}
      → w.activities ≡ before ++ (a ∷ after)
      → perform s c w.queue a answer ≡ (some q, effects)
      → Step c w (record { queue = q; activities = before ++ (activities_of effects ++ after) })

pub data Reach (c : FifoConsumer) (w : Machine) : Machine → Type 0 where
  here : Reach c w w
  later : {v u : Machine} → Reach c w v → Step c v u → Reach c w u

-- A machine with nothing pending on a queue that is not bound.
abbrev pub idle : MessageQueue → FilterExpression → ℕ → Machine
idle queue filter now = record { queue = init queue filter now; activities = [] }
