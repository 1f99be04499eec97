-- ===== src/PushConsumer/Sync.antt =====
-- The table of process queues after `syncProcessQueue` of PushConsumerImpl.cpp.
use rocketmq_client_cpp.Prelude.{
  if◌then◌else◌, All-append, All-map, ℕ, ◌≡◌, refl, true, not, ◌||◌, List, [], ◌∷◌, ◌++◌, any, All,
  arith, Bool-cases, inl, inr, is_empty,
}
use rocketmq_client_cpp.Prelude.Text.{Text, text_eq}
use rocketmq_client_cpp.Types.{MessageQueue, mq_eq, mq_eq_refl, FilterExpression}
use rocketmq_client_cpp.Queue.{init, expired}
use rocketmq_client_cpp.PushConsumer.{
  QueueTable, Settings, has_queue, is_assigned, drop_stale, get_or_create_process_queue,
  receive_message, start_missing, sync_process_queue,
}

has_queue-append :
    (q : MessageQueue) (xs ys : QueueTable)
    → has_queue q (xs ++ ys) ≡ (has_queue q xs || has_queue q ys)
has_queue-append q [] ys = refl
has_queue-append q (x ∷ xs) ys = ground (arith, has_queue-append q xs ys)

-- A queue that goes on is in the table that is left.
drop_stale-current :
    (topic : Text) (list : List MessageQueue) (now : ℕ) (table : QueueTable) (q : MessageQueue)
    → any (λ item. mq_eq item q) (drop_stale topic list now table).1 ≡ true
    → has_queue q (drop_stale topic list now table).0 ≡ true
unfolding drop_stale
drop_stale-current topic list now [] q h = h
drop_stale-current topic list now ((key, queue) ∷ table) q h =
    let rec = drop_stale-current topic list now table q in ground arith

receive-keeps :
    (s : Settings) (p q : MessageQueue) (filter : FilterExpression) (table : QueueTable)
    → has_queue q table ≡ true
    → has_queue q (receive_message s p filter table).0 ≡ true
unfolding receive_message get_or_create_process_queue
receive-keeps s p q filter table h =
    ground (arith, has_queue-append q table ((p, init p filter s.now) ∷ []))

receive-adds :
    (s : Settings) (q : MessageQueue) (filter : FilterExpression) (table : QueueTable)
    → s.active ≡ true
    → has_queue q (receive_message s q filter table).0 ≡ true
unfolding receive_message get_or_create_process_queue
receive-adds s q filter table active =
    ground (arith, has_queue-append q table ((q, init q filter s.now) ∷ []), mq_eq_refl q)

-- The table after one queue of the second loop.
abbrev next_table :
    Settings → FilterExpression → List MessageQueue → MessageQueue → QueueTable → QueueTable
next_table s filter current p table =
    if not (any (λ item. mq_eq item p) current) then (receive_message s p filter table).0 else table

next-keeps :
    (s : Settings) (filter : FilterExpression) (current : List MessageQueue) (p q : MessageQueue)
    (table : QueueTable)
    → has_queue q table ≡ true
    → has_queue q (next_table s filter current p table) ≡ true
next-keeps s filter current p q table h = elim (Bool-cases (any (λ item. mq_eq item p) current)) [
  | inl old ↦ rw old h
  | inr new ↦ rw new (receive-keeps s p q filter table h)
]

next-has :
    (s : Settings) (filter : FilterExpression) (current : List MessageQueue) (p : MessageQueue)
    (table : QueueTable)
    → s.active ≡ true
    → (any (λ item. mq_eq item p) current ≡ true → has_queue p table ≡ true)
    → has_queue p (next_table s filter current p table) ≡ true
next-has s filter current p table active h =
    elim (Bool-cases (any (λ item. mq_eq item p) current)) [
      | inl old ↦ rw old (h old)
      | inr new ↦ rw new (receive-adds s p filter table active)
    ]

start-keeps :
    (s : Settings) (filter : FilterExpression) (current list : List MessageQueue)
    (table : QueueTable) (q : MessageQueue)
    → has_queue q table ≡ true
    → has_queue q (start_missing s filter current list table).0 ≡ true
unfolding start_missing
start-keeps s filter current [] table q h = h
start-keeps s filter current (p ∷ list) table q h =
    start-keeps s filter current list (next_table s filter current p table) q
      (next-keeps s filter current p q table h)

start-has :
    (s : Settings) (filter : FilterExpression) (current list : List MessageQueue)
    (table : QueueTable)
    → s.active ≡ true
    → ((q : MessageQueue) → any (λ item. mq_eq item q) current ≡ true → has_queue q table ≡ true)
    → All (λ q. has_queue q (start_missing s filter current list table).0 ≡ true) list
unfolding start_missing
start-has s filter current [] table active h = tt
start-has s filter current (p ∷ list) table active h =
    let table' = next_table s filter current p table in
    (
      start-keeps s filter current list table' p (next-has s filter current p table active (h p)),
      start-has s filter current list table' active
          (λ q e. next-keeps s filter current p q table (h q e)),
    )

-- After a synchronisation of an active consumer every assigned queue has a process queue.
sync_process_queue-has :
    (s : Settings) (topic : Text) (list : List MessageQueue) (filter : FilterExpression)
    (table : QueueTable)
    → s.active ≡ true
    → All (λ q. has_queue q (sync_process_queue s topic list filter table).0 ≡ true) list
unfolding sync_process_queue
sync_process_queue-has s topic list filter table active =
    start-has s filter (drop_stale topic list s.now table).1 list
      (drop_stale topic list s.now table).0 active (drop_stale-current topic list s.now table)

-- The entries of the topic are of assigned queues.
abbrev pub Follows : Text → List MessageQueue → QueueTable → Type 0
Follows topic list =
    All λ entry. text_eq topic entry.0.topic ≡ true → is_assigned list entry.0 ≡ true

drop_stale-Follows :
    (topic : Text) (list : List MessageQueue) (now : ℕ) (table : QueueTable)
    → Follows topic list (drop_stale topic list now table).0
unfolding drop_stale
drop_stale-Follows topic list now [] = tt
drop_stale-Follows topic list now ((key, queue) ∷ table) =
    elim (Bool-cases (text_eq topic key.topic)) [
      | inr other ↦ rw other ((λ same. absurd cc), drop_stale-Follows topic list now table)
      | inl same ↦ elim (Bool-cases (is_assigned list key)) [
        | inr gone ↦ rw (same, gone) (drop_stale-Follows topic list now table)
        | inl assigned ↦ elim (Bool-cases (expired now queue)) [
          | inl old ↦ rw (same, assigned, old) (drop_stale-Follows topic list now table)
          | inr fresh ↦
              rw (same, assigned, fresh) ((λ e. assigned), drop_stale-Follows topic list now table)
        ]
      ]
    ]

created-Follows :
    (topic : Text) (whole : List MessageQueue) (s : Settings) (filter : FilterExpression)
    (p : MessageQueue) (table : QueueTable)
    → is_assigned whole p ≡ true
    → Follows topic whole table
    → Follows topic whole (get_or_create_process_queue s p filter table)
unfolding get_or_create_process_queue
created-Follows topic whole s filter p table a f = elim (Bool-cases (has_queue p table)) [
  | inl old ↦ rw old f
  | inr new ↦ rw new (All-append _ table ((p, init p filter s.now) ∷ []) f ((λ e. a), tt))
]

receive-Follows :
    (topic : Text) (whole : List MessageQueue) (s : Settings) (filter : FilterExpression)
    (p : MessageQueue) (table : QueueTable)
    → is_assigned whole p ≡ true
    → Follows topic whole table
    → Follows topic whole (receive_message s p filter table).0
unfolding receive_message get_or_create_process_queue
receive-Follows topic whole s filter p table a f = elim (Bool-cases s.active) [
  | inr off ↦ rw off f
  | inl on ↦ elim (Bool-cases (is_empty p.service_address)) [
    | inl void ↦ rw (on, void) (created-Follows topic whole s filter p table a f)
    | inr held ↦ rw (on, held) (created-Follows topic whole s filter p table a f)
  ]
]

next-Follows :
    (topic : Text) (whole : List MessageQueue) (s : Settings) (filter : FilterExpression)
    (current : List MessageQueue) (p : MessageQueue) (table : QueueTable)
    → is_assigned whole p ≡ true
    → Follows topic whole table
    → Follows topic whole (next_table s filter current p table)
next-Follows topic whole s filter current p table a f =
    elim (Bool-cases (any (λ item. mq_eq item p) current)) [
      | inl old ↦ rw old f
      | inr new ↦ rw new (receive-Follows topic whole s filter p table a f)
    ]

start-Follows :
    (topic : Text) (whole : List MessageQueue) (s : Settings) (filter : FilterExpression)
    (current list : List MessageQueue) (table : QueueTable)
    → All (λ p. is_assigned whole p ≡ true) list
    → Follows topic whole table
    → Follows topic whole (start_missing s filter current list table).0
unfolding start_missing
start-Follows topic whole s filter current [] table a f = f
start-Follows topic whole s filter current (p ∷ list) table a f =
    start-Follows topic whole s filter current list (next_table s filter current p table) a.1
      (next-Follows topic whole s filter current p table a.0 f)

is_assigned_self : (list : List MessageQueue) → All (λ p. is_assigned list p ≡ true) list
is_assigned_self [] = tt
is_assigned_self (q ∷ list) = (
  ground (arith, mq_eq_refl q),
  All-map (λ p. is_assigned list p ≡ true) (λ p. is_assigned (q ∷ list) p ≡ true)
      (λ p h. ground arith) list (is_assigned_self list),
)

-- After a synchronisation the entries of the topic in the table of process queues are of queues that
-- are assigned.
pub sync_process_queue-Follows :
    (s : Settings) (topic : Text) (list : List MessageQueue) (filter : FilterExpression)
    (table : QueueTable)
    → Follows topic list (sync_process_queue s topic list filter table).0
unfolding sync_process_queue
sync_process_queue-Follows s topic list filter table =
    start-Follows topic list s filter (drop_stale topic list s.now table).1 list
      (drop_stale topic list s.now table).0 (is_assigned_self list)
      (drop_stale-Follows topic list s.now table)
