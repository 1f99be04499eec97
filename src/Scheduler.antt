-- ===== src/Scheduler.antt =====
-- The timer tasks: src/main/cpp/scheduler/SchedulerImpl.cpp. A timer holds its task weakly, here by its
-- identifier: it finds the task while the table has it or an execution holds it. Threads of the pool execute timers
-- without the mutex, so that an execution is several steps. The last identifier, which all schedulers share, is an
-- argument, and their calls of `schedule` do not overlap.
pub mod Cancel
use rocketmq_client_cpp.Prelude.{
  ℕ, ◌+◌, ◌%◌, Bool, true, false, not, Option, none, some, List, [], ◌∷◌, ◌++◌, any, ◌==◌, is_some,
  if◌then◌else◌,
}
use rocketmq_client_cpp.Types.{State, created, starting, started, stopping, stopped}

-- A callback is a number.
pub record TimerTask : Type 0 where
  pub callback : ℕ
  pub interval : ℕ  -- milliseconds

-- How far an execution is: the task is locked, its callback has run, the timer is armed again or deleted.
pub data Stage : Type 0 where
  locked called rearmed : Stage

pub record Execution : Type 0 where
  pub id : ℕ
  pub task : TimerTask
  pub stage : Stage

pub record Scheduler : Type 0 where
  pub state : State
  pub tasks : List (ℕ × TimerTask)
  pub timers : List ℕ  -- armed, by the identifier of their task
  pub executing : List Execution

unfoldable pub find_task : ℕ → List (ℕ × TimerTask) → Option TimerTask
find_task id [] = none
find_task id ((k, task) ∷ tasks) = if k == id then some task else find_task id tasks

unfoldable pub erase_task : ℕ → List (ℕ × TimerTask) → List (ℕ × TimerTask)
erase_task id [] = []
erase_task id ((k, task) ∷ tasks) =
    if k == id then erase_task id tasks else (k, task) ∷ erase_task id tasks

-- `insert`: an identifier that is there keeps its task.
abbrev insert_task : ℕ → TimerTask → List (ℕ × TimerTask) → List (ℕ × TimerTask)
insert_task id task tasks = if is_some (find_task id tasks) then tasks else tasks ++ (id, task) ∷ []

-- The scheduler, and the identifier of the new task, after the last one.
unfoldable pub schedule : ℕ → ℕ → ℕ → Scheduler → Scheduler × ℕ
schedule callback interval task_id s =
    let id = (task_id + 1) % 4_294_967_296 in
    (
      record s {
        tasks = insert_task id (record { callback = callback; interval = interval }) s.tasks;
        timers = s.timers ++ id ∷ [];
      },
      id,
    )

unfoldable pub cancel : ℕ → Scheduler → Scheduler
cancel id s = record s { tasks = erase_task id s.tasks }

-- The timers without the one that fires.
unfoldable pub disarm : ℕ → List ℕ → List ℕ
disarm id [] = []
disarm id (t ∷ timers) = if t == id then timers else t ∷ disarm id timers

unfoldable pub find_execution : ℕ → List Execution → Option TimerTask
find_execution id [] = none
find_execution id (e ∷ es) = if e.id == id then some e.task else find_execution id es

-- `lock` of the weak pointer to a task.
unfoldable pub lock_task : ℕ → Scheduler → Option TimerTask
lock_task id s =
    if is_some (find_task id s.tasks) then find_task id s.tasks else find_execution id s.executing

unfoldable pub begin : ℕ → Scheduler → Option TimerTask → Scheduler
begin id s none = record s { timers = disarm id s.timers }
begin id s (some task) = record s {
  timers = disarm id s.timers;
  executing = s.executing ++ record { id = id; task = task; stage = locked } ∷ [];
}

-- A timer fires: a thread begins to execute it.
unfoldable pub fire : ℕ → Scheduler → Scheduler
unfolding begin
fire id s = begin id s (lock_task id s)

-- The next step of an execution, which stands between others: the scheduler, and the callback that runs. A task
-- with an interval is armed again, while the execution holds it until it returns.
advance : List Execution → Execution → List Execution → Stage → Scheduler → Scheduler × Option ℕ
advance before e after locked s =
    (record s { executing = before ++ record e { stage = called } ∷ after }, some e.task.callback)
advance before e after called s = (
  record s {
    timers = if e.task.interval == 0 then s.timers else s.timers ++ e.id ∷ [];
    executing = before ++ record e { stage = rearmed } ∷ after;
  },
  none,
)
advance before e after rearmed s = (record s { executing = before ++ after }, none)

unfoldable pub execute :
    List Execution → Execution → List Execution → Scheduler → Scheduler × Option ℕ
unfolding advance
execute before e after s = advance before e after e.stage s

unfoldable pub shutdown : Scheduler → Scheduler
shutdown s = shut s.state s
  where
    shut : State → Scheduler → Scheduler
    shut started s = record s { state = stopped; tasks = [] }
    shut created s = s
    shut starting s = s
    shut stopping s = s
    shut stopped s = s
