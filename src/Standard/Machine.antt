-- ===== src/Standard/Machine.antt =====
-- A process queue and the standard consume service of ConsumeStandardMessageService.cpp together, in the clustering
-- model: batches that are received, rounds of the dispatcher and tasks of the pool, in any order.
use rocketmq_client_cpp.Prelude.{
  ℕ, ◌+◌, ◌≡◌, Bool, Option, none, some, List, [], ◌∷◌, ◌++◌, length, if◌then◌else◌,
}
use rocketmq_client_cpp.Prelude.Word.{u32, u64}
use rocketmq_client_cpp.Types.{Message, MessageQueue, FilterExpression}
use rocketmq_client_cpp.Queue.{ProcessQueue, cache_messages, init}
use rocketmq_client_cpp.Queue.World.{bytes_of}
use rocketmq_client_cpp.Standard.{
  StandardConsumer, Service, Effect, submit_pool, submit_executor, ack, nack, submit_consume_task,
  consume_task,
}
use rocketmq_client_cpp.Standard.Submit.{concat}

-- The messages that have come, those that are acknowledged, positively or negatively, and the tasks that are
-- submitted and have not run.
pub record Machine : Type 0 where
  pub queue : ProcessQueue
  pub tasks : List (List Message)
  pub received : List Message
  pub answered : List Message

abbrev pub tasks_of : List Effect → List (List Message)
tasks_of [] = []
tasks_of (submit_pool ms ∷ es) = ms ∷ tasks_of es
tasks_of (submit_executor ms ∷ es) = ms ∷ tasks_of es
tasks_of (e ∷ es) = tasks_of es

abbrev pub answered_of : List Effect → List Message
answered_of [] = []
answered_of (ack m ∷ es) = m ∷ answered_of es
answered_of (nack m ∷ es) = m ∷ answered_of es
answered_of (e ∷ es) = answered_of es

abbrev pub queue_after : ProcessQueue → Option ProcessQueue → ProcessQueue
queue_after q none = q
queue_after q (some q') = q'

-- The listener may answer to a message in another way each time.
pub data Step (c : StandardConsumer) (w : Machine) : Machine → Type 0 where
  receives :
      (ms : List Message)
      → Step c w (record w {
        queue = (cache_messages (some c.quota) ms w.queue).0;
        received = w.received ++ ms;
        answered = w.answered ++ (cache_messages (some c.quota) ms w.queue).1;
      })
  dispatches :
      (q : ProcessQueue) (effects : List Effect)
      → submit_consume_task (some w.queue) (some c) ≡ some (some q, effects)
      → Step c w (record w { queue = q; tasks = w.tasks ++ tasks_of effects })
  runs :
      (s : Service) (before : List (List Message)) (ms : List Message) (after : List (List Message))
      → w.tasks ≡ before ++ ms ∷ after
      → Step c w (record w {
        queue = queue_after w.queue (consume_task s (some w.queue) (some c) ms).0;
        tasks = before ++ after;
        answered = w.answered ++ answered_of (consume_task s (some w.queue) (some c) ms).1;
      })

pub data Reach (c : StandardConsumer) (w : Machine) : Machine → Type 0 where
  here : Reach c w w
  later : {u v : Machine} → Reach c w u → Step c u v → Reach c w v

-- A new queue, before anything has come.
abbrev pub fresh : MessageQueue → FilterExpression → ℕ → Machine
fresh queue filter now = record {
  queue = init queue filter now;
  tasks = [];
  received = [];
  answered = [];
}

-- How many messages pass a test.
abbrev pub tally : (Message → Bool) → List Message → ℕ
tally p [] = 0
tally p (m ∷ ms) = if p m then 1 + tally p ms else tally p ms

-- Whatever is asked of a message, as many have come as are cached, in a task or answered; and the counters of the
-- queue are the number and the bytes of those cached or in a task, in machine words.
pub record Accounted (w : Machine) : Type 0 where
  pub delivered :
      (p : Message → Bool)
      → tally p w.received
        ≡ tally p w.queue.cached_messages + (tally p (concat w.tasks) + tally p w.answered)
  pub quantity :
      w.queue.cached_message_quantity
      ≡ u32 (length w.queue.cached_messages + length (concat w.tasks))
  pub memory :
      w.queue.cached_message_memory
      ≡ u64 (bytes_of w.queue.cached_messages + bytes_of (concat w.tasks))
