-- ===== src/PushConsumer.antt =====
-- The push consumer: subscriptions, and the process queues that follow an assignment, of
-- src/main/cpp/rocketmq/PushConsumerImpl.cpp, and the assignment of a response, of
-- src/main/cpp/client/TopicAssignmentInfo.cpp. A method under its mutexes is a function.
pub mod Sync
pub mod Idle
pub mod Broker
pub mod Requests
use rocketmq_client_cpp.Prelude.{
  ℕ, Bool, true, false, not, ◌||◌, Option, none, some, List, [], ◌∷◌, ◌++◌, is_empty, any,
  if◌then◌else◌,
}
use rocketmq_client_cpp.Prelude.Text.{Text, codes, text_eq}
use rocketmq_client_cpp.Prelude.Table.{lookup, insert_or_assign, erase_key, emplace}
use rocketmq_client_cpp.Prelude.Sort.{sort}
use rocketmq_client_cpp.Prelude.Decimal.{to_string}
use rocketmq_client_cpp.Types.{
  MessageQueue, mq_eq, mq_lt, FilterExpression, ReceiveMessageAction, polling, pull,
}
use rocketmq_client_cpp.Queue.{ProcessQueue, init, expired}
use rocketmq_client_cpp.Route.{
  Partition, Permission, AddressScheme, ipv4, ipv6, domain_name, Address,
}

unfoldable pub subscribe :
    Text → FilterExpression → List (Text × FilterExpression) → List (Text × FilterExpression)
subscribe topic expression table = emplace topic expression table

unfoldable pub unsubscribe : Text → List (Text × FilterExpression) → List (Text × FilterExpression)
unsubscribe topic table = erase_key topic table

unfoldable pub get_filter_expression :
    Text → List (Text × FilterExpression) → Option FilterExpression
get_filter_expression topic table = lookup topic table

-- The table of process queues, in the order in which it is iterated.
abbrev pub QueueTable : Type 0
QueueTable = List (MessageQueue × ProcessQueue)

abbrev pub has_queue : MessageQueue → QueueTable → Bool
has_queue q table = any (λ entry. mq_eq entry.0 q) table

abbrev pub is_assigned : List MessageQueue → MessageQueue → Bool
is_assigned list key = any (λ q. mq_eq key q) list

-- The first loop of `syncProcessQueue`: the table that is left, and the queues that go on.
unfoldable pub drop_stale :
    Text → List MessageQueue → ℕ → QueueTable → QueueTable × List MessageQueue
drop_stale topic list now [] = ([], [])
drop_stale topic list now ((key, queue) ∷ table) =
    let (table', current) = drop_stale topic list now table in
    if not (text_eq topic key.topic)
    then ((key, queue) ∷ table', current)
    else if not (is_assigned list key) || expired now queue
    then (table', current)
    else ((key, queue) ∷ table', key ∷ current)

-- What `receiveMessage` starts: a query of the latest offset, or a pop.
pub data Effect : Type 0 where
  query_offset pop_message : MessageQueue → Effect

-- What is fixed while the table changes: whether the consumer is active, how it receives, the queues
-- with an offset in the store, and the steady clock.
pub record Settings : Type 0 where
  pub active : Bool
  pub receive_message_policy : ReceiveMessageAction
  pub has_stored_offset : MessageQueue → Bool
  pub now : ℕ

-- The queue of an active consumer; one that is there is kept as it is.
unfoldable pub get_or_create_process_queue :
    Settings → MessageQueue → FilterExpression → QueueTable → QueueTable
get_or_create_process_queue s q filter table =
    if has_queue q table then table else table ++ (q, init q filter s.now) ∷ []

unfoldable pub start_receive : ReceiveMessageAction → Bool → MessageQueue → List Effect
start_receive pull stored q = if stored then [] else query_offset q ∷ []
start_receive polling stored q = pop_message q ∷ []

-- The table, whether it was initiated, and what is started.
unfoldable pub receive_message :
    Settings → MessageQueue → FilterExpression → QueueTable → QueueTable × Bool × List Effect
unfolding start_receive
receive_message s q filter table =
    if not s.active
    then (table, false, [])
    else if is_empty q.service_address
    then (get_or_create_process_queue s q filter table, false, [])
    else (
      get_or_create_process_queue s q filter table,
      true,
      start_receive s.receive_message_policy (s.has_stored_offset q) q,
    )

-- The second loop of `syncProcessQueue`.
unfoldable pub start_missing :
    Settings
    → FilterExpression
    → List MessageQueue
    → List MessageQueue
    → QueueTable
    → QueueTable × List Effect
start_missing s filter current [] table = (table, [])
start_missing s filter current (q ∷ list) table =
    let (table', ok, effects) = receive_message s q filter table in
    let start = not (any (λ item. mq_eq item q) current) in
    let (table'', later) = start_missing s filter current list (if start then table' else table) in
    (table'', if start then effects ++ later else later)

unfoldable pub sync_process_queue :
    Settings → Text → List MessageQueue → FilterExpression → QueueTable → QueueTable × List Effect
sync_process_queue s topic list filter table =
    let (table', current) = drop_stale topic list s.now table in
    start_missing s filter current list table'

-- The service address of an assignment: all addresses, or the first one of a domain name.
prefix : AddressScheme → Text
prefix ipv4 = codes "ipv4:"
prefix ipv6 = codes "ipv6:"
prefix domain_name = codes "dns:"

host_port : Address → Text
host_port a = a.host ++ (codes ":" ++ to_string a.port)

more_addresses : List Address → Text
unfolding host_port
more_addresses [] = []
more_addresses (a ∷ l) = codes "," ++ (host_port a ++ more_addresses l)

assigned_address : AddressScheme → List Address → Text
unfolding prefix host_port more_addresses
assigned_address s [] = []
assigned_address domain_name (a ∷ l) = prefix domain_name ++ host_port a
assigned_address ipv4 (a ∷ l) = prefix ipv4 ++ (host_port a ++ more_addresses l)
assigned_address ipv6 (a ∷ l) = prefix ipv6 ++ (host_port a ++ more_addresses l)

abbrev is_readable : Permission → Bool
is_readable Permission.none = false
is_readable Permission.read = true
is_readable Permission.write = false
is_readable Permission.read_write = true

abbrev assigned_queue : Partition → MessageQueue
assigned_queue p = record {
  topic = p.topic.name;
  broker_name = p.broker.name;
  queue_id = p.id;
  service_address =
      assigned_address p.broker.service_address.scheme p.broker.service_address.addresses;
}

assignment_loop : List Partition → List MessageQueue
unfolding assigned_address
assignment_loop [] = []
assignment_loop (p ∷ l) =
    if not (is_readable p.permission) || is_empty p.broker.service_address.addresses
    then assignment_loop l
    else assigned_queue p ∷ assignment_loop l

-- The assignment of a response, with whether its code is OK.
unfoldable pub topic_assignment : Bool → List Partition → List MessageQueue
unfolding assignment_loop
topic_assignment is_ok partitions = if is_ok then sort mq_lt (assignment_loop partitions) else []
