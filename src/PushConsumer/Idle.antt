-- ===== src/PushConsumer/Idle.antt =====
-- Pulling from queues whose offset is in the store (`receiveMessage` of PushConsumerImpl.cpp).
use rocketmq_client_cpp.Prelude.{
  ◌≡◌, refl, ap, Bool, true, false, not, List, [], ◌∷◌, ◌++◌, any, All, arith, if◌then◌else◌, ◌∙◌,
}
use rocketmq_client_cpp.Prelude.Text.{Text}
use rocketmq_client_cpp.Types.{MessageQueue, mq_eq, FilterExpression, pull}
use rocketmq_client_cpp.PushConsumer.{
  QueueTable, Settings, Effect, drop_stale, receive_message, start_missing, sync_process_queue,
  start_receive,
}

if_same : (b : Bool) (l : List Effect) → (if b then l else l) ≡ l
if_same true l = refl
if_same false l = refl

receive-idle :
    (s : Settings) (q : MessageQueue) (filter : FilterExpression) (table : QueueTable)
    → s.receive_message_policy ≡ pull
    → s.has_stored_offset q ≡ true
    → (receive_message s q filter table).2 ≡ []
unfolding receive_message start_receive
receive-idle s q filter table policy stored = ground arith

start-idle :
    (s : Settings) (filter : FilterExpression) (current list : List MessageQueue)
    (table : QueueTable)
    → s.receive_message_policy ≡ pull
    → All (λ q. s.has_stored_offset q ≡ true) list
    → (start_missing s filter current list table).1 ≡ []
unfolding start_missing
start-idle s filter current [] table policy stored = refl
start-idle s filter current (q ∷ list) table policy stored =
    let fresh = not (any (λ item. mq_eq item q) current) in
    let effects = (receive_message s q filter table).2 in
    let table' = if fresh then (receive_message s q filter table).0 else table in
    let later = (start_missing s filter current list table').1 in
    let none_now : effects ≡ [] = receive-idle s q filter table policy stored.0 in
    let none_later : later ≡ [] = start-idle s filter current list table' policy stored.1 in
    ap (λ es. if fresh then es ++ later else later) none_now
    ∙ (ap (λ es. if fresh then es else es) none_later ∙ if_same fresh [])

-- A consumer that pulls, with an offset in the store for every assigned queue, starts no request in a
-- synchronisation.
sync_process_queue_idle :
    (s : Settings) (topic : Text) (list : List MessageQueue) (filter : FilterExpression)
    (table : QueueTable)
    → s.receive_message_policy ≡ pull
    → All (λ q. s.has_stored_offset q ≡ true) list
    → (sync_process_queue s topic list filter table).1 ≡ []
unfolding sync_process_queue
sync_process_queue_idle s topic list filter table policy stored =
    start-idle s filter (drop_stale topic list s.now table).1 list
      (drop_stale topic list s.now table).0 policy stored
