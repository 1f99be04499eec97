-- ===== src/Tests/Base.antt =====
-- The scheduler, the identifiers, hexadecimal text and the RPC clients.
use rocketmq_client_cpp.Prelude.{◌≡◌, refl, true, some, [], ◌∷◌, arith}
use rocketmq_client_cpp.Prelude.Text.{codes}
use rocketmq_client_cpp.Types.{started}
use rocketmq_client_cpp.Hex.{hex, hex_to_binary}
use rocketmq_client_cpp.Hex.RoundTrip.{hex_to_binary-hex}
use rocketmq_client_cpp.UniqueId.Rising.{slots, Ascending, slots-rise}
use rocketmq_client_cpp.Scheduler.{
  Scheduler, TimerTask, Execution, locked, rearmed, begin, cancel, execute, fire, lock_task,
  find_task, find_execution,
}
use rocketmq_client_cpp.Scheduler.Cancel.{
  System, Reach, IsUnheld, runs_of, cancel-stops, fires, later, here,
}
use rocketmq_client_cpp.Manager.{RpcTable, new_client}

hex_to_binary-hex_example : hex_to_binary (hex (0 ∷ 171 ∷ 255 ∷ [])) ≡ some (0 ∷ 171 ∷ 255 ∷ [])
hex_to_binary-hex_example =
    hex_to_binary-hex (0 ∷ 171 ∷ 255 ∷ []) (omega arith, (omega arith, (omega arith, tt)))

hex_text : hex (171 ∷ []) ≡ codes "AB"
unfolding hex
hex_text = refl

slots-rise_example : Ascending (slots (7 ∷ 7 ∷ 9 ∷ []) (record { seconds = 7; sequence = 0 }))
slots-rise_example =
    slots-rise (7 ∷ 7 ∷ 9 ∷ []) (record { seconds = 7; sequence = 0 })
      (omega arith, (omega arith, (omega arith, tt))) (omega arith)

abbrev every_100_ms : TimerTask
every_100_ms = record { callback = 5; interval = 100 }

abbrev armed : System
armed = record {
  scheduler = record {
    state = started;
    tasks = (1, every_100_ms) ∷ [];
    timers = 1 ∷ [];
    executing = [];
  };
  task_id = 1;
}

abbrev retired : System
retired = record armed { scheduler = fire 1 (cancel 1 armed.scheduler) }

-- The task is cancelled, and its timer fires.
cancelled : Reach (record armed { scheduler = cancel 1 armed.scheduler }) retired
cancelled = later here (fires 1)

cancel-stops_example : (runs_of 1 cancelled ≡ 0) × IsUnheld 1 retired.scheduler.executing
cancel-stops_example = cancel-stops 1 armed retired (omega arith) tt cancelled

-- A thread holds the task when it is cancelled: the callback runs after that.
abbrev held : Execution
held = record { id = 1; task = every_100_ms; stage = locked }

held_too_long : (execute [] held [] (cancel 1 (fire 1 armed.scheduler))).1 ≡ some 5
unfolding execute cancel fire
held_too_long = refl

-- The timer is armed again and fires before the thread lets go of the task: another thread locks it.
abbrev let_go_late : Scheduler
let_go_late = record {
  state = started;
  tasks = [];
  timers = 1 ∷ [];
  executing = record held { stage = rearmed } ∷ [];
}

locked_again : (fire 1 let_go_late).executing ≡ record held { stage = rearmed } ∷ held ∷ []
unfolding fire begin lock_task find_execution find_task
locked_again = refl

abbrev clients : RpcTable
clients = (codes "a", new_client true) ∷ []
