-- ===== src/PushConsumer/Broker.antt =====
-- The query of an assignment by a push consumer: scanAssignments, selectBroker and queryAssignment of
-- src/main/cpp/rocketmq/PushConsumerImpl.cpp. The counter `query_which_broker_`, which the consumers of a
-- thread share, is an argument and a result; the loop of selectBroker runs on fuel, and `none` is fuel that
-- has run out.
pub mod Queryable
pub mod Choice
use rocketmq_client_cpp.Prelude.{
  ℕ, zero, suc, ◌+◌, ◌%◌, Bool, true, false, not, ◌||◌, Option, none, some, List, [], ◌∷◌, ◌++◌,
  length, get_elem?, is_empty, ltb, if◌then◌else◌, is_some, map,
}
use rocketmq_client_cpp.Prelude.Text.{Text}
use rocketmq_client_cpp.Prelude.Int.{eq_ℤ}
use rocketmq_client_cpp.Prelude.Sort.{sort}
use rocketmq_client_cpp.Types.{
  MessageQueue, mq_lt, FilterExpression, ErrorCode, MessageModel, broadcasting, clustering,
}
use rocketmq_client_cpp.Prelude.Word.{u32}
use rocketmq_client_cpp.Route.{
  Partition, Permission, broker_valid, address, master_broker_id, as_message_queue,
}
use rocketmq_client_cpp.PushConsumer.{Settings, QueueTable, Effect, sync_process_queue}

abbrev pub is_denied : Permission → Bool
is_denied Permission.none = true
is_denied Permission.read = false
is_denied Permission.write = false
is_denied Permission.read_write = false

-- The body of the loop: the host of a partition that is not passed over.
unfoldable pub host_of : Partition → Option Text
host_of p =
    if not (eq_ℤ master_broker_id p.broker.id) || is_denied p.permission
    then none
    else if broker_valid p.broker
    then some (address p.broker.service_address)
    else none

unfoldable pub host_at : List Partition → ℕ → Option Text
host_at l i = elim (get_elem? l i) [ none ↦ none | some p ↦ host_of p ]

-- The loop: `i` is of 32 bits, and its bound, a size, of 64.
unfoldable pub broker_loop : List Partition → ℕ → ℕ → ℕ → Option (Option Text)
broker_loop l bound zero i = none
broker_loop l bound (suc fuel) i =
    let rest = broker_loop l bound fuel (u32 (i + 1)) in
    if ltb i bound
    then elim (host_at l (i % length l)) [ none ↦ rest | some host ↦ some (some host) ]
    else some none

abbrev pub next_which : ℕ → ℕ
next_which which = u32 (which + 1)

-- The counter, and the host if one is found.
unfoldable pub select_broker : ℕ → ℕ → Option (List Partition) → ℕ × Option (Option Text)
select_broker fuel which none = (which, some none)
select_broker fuel which (some []) = (which, some none)
select_broker fuel which (some (p ∷ l)) =
    let start = next_which which in (start, broker_loop (p ∷ l) (start + length (p ∷ l)) fuel start)

-- What the query of an assignment does: it answers, reads a route that is not there, or sends a request to
-- a host.
pub data QueryEffect : Type 0 where
  answer : Option ErrorCode → Option (List MessageQueue) → QueryEffect
  null_route : QueryEffect
  query_assignment : Text → QueryEffect

assigned_to_all : Option ErrorCode → Option (List Partition) → List QueryEffect
assigned_to_all ec none = null_route ∷ []
assigned_to_all ec (some l) = answer ec (some (sort mq_lt (map as_message_queue l))) ∷ []

-- The callback of the route, with the counter: in the broadcasting model a failure is answered, and the route
-- is read all the same.
unfoldable pub on_route :
    MessageModel
    → ℕ
    → ℕ
    → Option ErrorCode
    → Option (List Partition)
    → Option (ℕ × List QueryEffect)
unfolding assigned_to_all
on_route broadcasting fuel which ec route =
    some (which, (if is_some ec then answer ec none ∷ [] else []) ++ assigned_to_all ec route)
on_route clustering fuel which ec route =
    let (which', selected) = select_broker fuel which route in
    elim selected [
      | none ↦ none
      | some none ↦ some (which', query_assignment [] ∷ [])
      | some (some host) ↦ some (which', query_assignment host ∷ [])
    ]

-- The callback of `scanAssignments`.
unfoldable pub on_assignments :
    Settings
    → Text
    → FilterExpression
    → Option ErrorCode
    → Option (List MessageQueue)
    → QueueTable
    → QueueTable × List Effect
on_assignments s topic filter (some ec) assignments table = (table, [])
on_assignments s topic filter none none table = (table, [])
on_assignments s topic filter none (some []) table = (table, [])
on_assignments s topic filter none (some (q ∷ list)) table =
    sync_process_queue s topic (q ∷ list) filter table
