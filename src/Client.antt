-- ===== src/Client.antt =====
-- The start and the shutdown of a client, and what it sends to all its brokers: src/main/cpp/rocketmq/ClientImpl.cpp,
-- with the start and the shutdown of ProducerImpl.cpp, PullConsumerImpl.cpp and PushConsumerImpl.cpp. The identifiers
-- that the scheduler gives are arguments; a method returns what it asks of other parts, in order.
pub mod Lifetime
pub mod Health
pub mod Endpoints
use rocketmq_client_cpp.Prelude.{
  ℕ, zero, suc, ◌==◌, Bool, true, false, not, Option, none, some, List, [], ◌∷◌, ◌++◌, map,
  if◌then◌else◌, is_some, is_empty, ◌&&◌,
}
use rocketmq_client_cpp.Prelude.Text.{Text}
use rocketmq_client_cpp.Types.{
  State, created, starting, started, stopping, stopped, MessageModel, broadcasting, clustering,
  ReceiveMessageAction, polling, pull,
}
use rocketmq_client_cpp.Route.{Partition}
use rocketmq_client_cpp.RouteCache.{endpoints_in_use}

pub data ListenerType : Type 0 where
  standard fifo : ListenerType

-- What a method asks for: `send_heartbeats` is `heartbeat` on the routes of that moment, and `null_pointer` a call
-- through a null pointer.
pub data Effect : Type 0 where
  start_resolver stop_resolver start_manager start_exporter add_observer : Effect
  fetch_routes send_heartbeats : Effect
  schedule_task cancel_task : ℕ → Effect
  send_heartbeat notify_termination : Text → Effect
  start_service stop_service : ListenerType → Effect
  throttle : Text → ℕ → Effect
  abort null_pointer clear_process_queues : Effect

-- The parts of a client that its life changes. A handle of 0 is none.
pub record Client : Type 0 where
  pub state : State
  pub has_resolver : Bool
  pub has_manager : Bool
  pub route_update_handle : ℕ
  pub topic_route_table : List (Text × List Partition)

is_created : State → Bool
is_created created = true
is_created starting = false
is_created started = false
is_created stopping = false
is_created stopped = false

abbrev pub is_started : State → Bool
is_started created = false
is_started starting = false
is_started started = true
is_started stopping = false
is_started stopped = false

-- `ClientImpl::start`.
unfoldable pub start : ℕ → Client → Client × List Effect
unfolding is_created
start id c =
    if not (is_created c.state)
    then (c, [])
    else if not c.has_resolver
    then (record c { state = starting }, abort ∷ [])
    else (
      record c { state = started; has_manager = true; route_update_handle = id },
      start_resolver ∷ start_manager ∷ start_exporter ∷ schedule_task id ∷ [],
    )

-- To every endpoint in use.
unfoldable pub heartbeat : Client → List Effect
heartbeat c = map send_heartbeat (endpoints_in_use c.topic_route_table [])

unfoldable pub notify_client_termination : Client → List Effect
notify_client_termination c = map notify_termination (endpoints_in_use c.topic_route_table [])

-- A use of the client manager: without one, what follows is not reached.
through_manager : Client → List Effect → List Effect
through_manager c es = if c.has_manager then es else null_pointer ∷ []

abbrev cancel : ℕ → List Effect
cancel id = if id == 0 then [] else cancel_task id ∷ []

-- `ClientImpl::shutdown`: the state is set whatever it was.
unfoldable pub shutdown : Client → Client × List Effect
unfolding through_manager
shutdown c = (
  record c { state = stopping; has_manager = false },
  if not c.has_resolver
      then null_pointer ∷ []
      else stop_resolver
        ∷ (if c.route_update_handle == 0
            then (if is_empty (notify_client_termination c)
                then []
                else through_manager c (notify_client_termination c))
            else through_manager c (cancel c.route_update_handle ++ notify_client_termination c)),
)

-- `compare_exchange_strong` from STOPPING to STOPPED, which follows it.
stop : State → State
stop stopping = stopped
stop created = created
stop starting = starting
stop started = started
stop stopped = stopped

-- `start` of a producer and of a pull consumer, and their `shutdown`.
unfoldable pub start_observed : ℕ → Client → Client × List Effect
start_observed id c =
    let (c', es) = start id c in (c', if is_started c'.state then es ++ add_observer ∷ [] else es)

unfoldable pub shutdown_observed : Client → Client × List Effect
unfolding stop
shutdown_observed c = let (c', es) = shutdown c in (record c' { state = stop c'.state }, es)

pub record PushConsumer : Type 0 where
  pub base : Client
  pub message_listener : Option ListenerType
  pub message_model : MessageModel
  pub receive_message_policy : ReceiveMessageAction
  pub consume_batch_size : ℕ
  pub consume_message_service : Option ListenerType
  pub throttle_table : List (Text × ℕ)
  pub scan_assignment_handle : ℕ

receive_policy : ListenerType → MessageModel → ReceiveMessageAction
receive_policy standard clustering = polling
receive_policy standard broadcasting = pull
receive_policy fifo model = pull

batch_size : ListenerType → ℕ → ℕ
batch_size fifo n = 1
batch_size standard n = n

throttles : List (Text × ℕ) → List Effect
throttles [] = []
throttles ((topic, threshold) ∷ table) = throttle topic threshold ∷ throttles table

-- What follows the start of the base when the client is started then.
start_listening : ℕ → PushConsumer → List Effect → Option ListenerType → PushConsumer × List Effect
unfolding receive_policy batch_size throttles
start_listening id p es none = (p, es ++ abort ∷ [])
start_listening id p es (some listener) = (
  record p {
    receive_message_policy = receive_policy listener p.message_model;
    consume_batch_size = batch_size listener p.consume_batch_size;
    consume_message_service = some listener;
    scan_assignment_handle = id;
  },
  es
      ++ (add_observer
          ∷ fetch_routes
          ∷ send_heartbeats
          ∷ start_service listener
          ∷ (throttles p.throttle_table ++ schedule_task id ∷ [])),
)

-- The identifiers are those of the task that updates routes and of the one that scans assignments.
unfoldable pub start_push : ℕ → ℕ → PushConsumer → PushConsumer × List Effect
unfolding start_listening
start_push route_id scan_id p =
    let (base', es) = start route_id p.base in
    let p' : PushConsumer = record p { base = base' } in
    if is_started base'.state then start_listening scan_id p' es p.message_listener else (p', es)

stop_services : Option ListenerType → List Effect
stop_services none = []
stop_services (some listener) = stop_service listener ∷ []

unfoldable pub shutdown_push : PushConsumer → PushConsumer × List Effect
unfolding through_manager stop stop_services
shutdown_push p =
    let (base', es) = shutdown p.base in
    (
      record p { base = record base' { state = stop base'.state } },
      if not (p.scan_assignment_handle == 0) && not p.base.has_manager
          then null_pointer ∷ []
          else cancel p.scan_assignment_handle
            ++ clear_process_queues ∷ (stop_services p.consume_message_service ++ es),
    )
