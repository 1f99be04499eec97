-- ===== src/Scheduler/Cancel.antt =====
-- What follows a cancellation in SchedulerImpl.cpp.
use rocketmq_client_cpp.Prelude.{
  ℕ, ◌+◌, ◌%◌, ◌≡◌, ◌≤◌, ◌<◌, refl, ap, sym, subst, ◌∙◌, Bool, true, false, ◌&&◌, if◌then◌else◌,
  Option, none, some, List, [], ◌∷◌, ◌++◌, arith, ◌==◌, Bool-cases, inl, inr,
}
use rocketmq_client_cpp.Scheduler.{
  Scheduler, TimerTask, Execution, Stage, locked, called, rearmed, find_task, erase_task,
  find_execution, lock_task, schedule, cancel, fire, begin, execute, advance,
}

find_task-append :
    (id : ℕ) (xs ys : List (ℕ × TimerTask))
    → find_task id xs ≡ none
    → find_task id (xs ++ ys) ≡ find_task id ys
unfolding find_task
find_task-append id [] ys h = refl
find_task-append id ((k, task) ∷ xs) ys h = elim (Bool-cases (k == id)) [
  | inl same ↦ absurd (ground arith)
  | inr other ↦ rw other (find_task-append id xs ys (rw other at h))
]

find_task-erase :
    (id j : ℕ) (tasks : List (ℕ × TimerTask))
    → find_task j tasks ≡ none
    → find_task j (erase_task id tasks) ≡ none
unfolding find_task erase_task
find_task-erase id j [] h = refl
find_task-erase id j ((k, task) ∷ tasks) h = ground (arith, find_task-erase id j tasks)

erase_task-gone :
    (id : ℕ) (tasks : List (ℕ × TimerTask)) → find_task id (erase_task id tasks) ≡ none
unfolding find_task erase_task
erase_task-gone id [] = refl
erase_task-gone id ((k, task) ∷ tasks) = ground (arith, erase_task-gone id tasks)

-- A scheduler, with the last identifier that any scheduler gave.
pub record System : Type 0 where
  pub scheduler : Scheduler
  pub task_id : ℕ

-- What may happen: calls, here or of another scheduler, timers that fire, and executions that go on. Identifiers do not
-- wrap.
pub data Step (w : System) : System → Type 0 where
  schedules :
      (callback interval : ℕ)
      → w.task_id + 1 < 4_294_967_296
      → Step w (record {
        scheduler = (schedule callback interval w.task_id w.scheduler).0;
        task_id = (schedule callback interval w.task_id w.scheduler).1;
      })
  schedules_elsewhere :
      w.task_id + 1 < 4_294_967_296 → Step w (record w { task_id = w.task_id + 1 })
  cancels : (id : ℕ) → Step w (record w { scheduler = cancel id w.scheduler })
  fires : (id : ℕ) → Step w (record w { scheduler = fire id w.scheduler })
  goes_on :
      (before : List Execution) (e : Execution) (after : List Execution)
      → w.scheduler.executing ≡ before ++ e ∷ after
      → Step w (record w { scheduler = (execute before e after w.scheduler).0 })

pub data Reach (w : System) : System → Type 0 where
  here : Reach w w
  later : {v u : System} → Reach w v → Step v u → Reach w u

abbrev is_locked : Stage → Bool
is_locked locked = true
is_locked called = false
is_locked rearmed = false

-- How often the callback of a task runs.
abbrev pub runs_in : {w v : System} → ℕ → Step w v → ℕ
runs_in id (schedules callback interval small) = 0
runs_in id (schedules_elsewhere small) = 0
runs_in id (cancels j) = 0
runs_in id (fires j) = 0
runs_in id (goes_on before e after held) = if e.id == id && is_locked e.stage then 1 else 0

abbrev pub runs_of : {w v : System} → ℕ → Reach w v → ℕ
runs_of id here = 0
runs_of id (later r step) = runs_of id r + runs_in id step

-- No thread executes the task.
abbrev pub IsUnheld : ℕ → List Execution → Type 0
IsUnheld id [] = Unit {0}
IsUnheld id (e ∷ es) = ((e.id == id) ≡ false) × IsUnheld id es

-- A used identifier without a task.
abbrev Retired : ℕ → System → Type 0
Retired id w =
    (id ≤ w.task_id) × ((find_task id w.scheduler.tasks ≡ none) × IsUnheld id w.scheduler.executing)

find_execution-none : (id : ℕ) (es : List Execution) → IsUnheld id es → find_execution id es ≡ none
unfolding find_execution
find_execution-none id [] h = refl
find_execution-none id (e ∷ es) (other, h) = rw other (find_execution-none id es h)

IsUnheld-append :
    (id : ℕ) (xs ys : List Execution) → IsUnheld id xs → IsUnheld id ys → IsUnheld id (xs ++ ys)
IsUnheld-append id [] ys h k = k
IsUnheld-append id (e ∷ xs) ys h k = (h.0, IsUnheld-append id xs ys h.1 k)

IsUnheld-split :
    (id : ℕ) (xs : List Execution) (e : Execution) (ys : List Execution)
    → IsUnheld id (xs ++ e ∷ ys)
    → IsUnheld id xs × (((e.id == id) ≡ false) × IsUnheld id ys)
IsUnheld-split id [] e ys h = (tt, h)
IsUnheld-split id (x ∷ xs) e ys h =
    let (before, rest) = IsUnheld-split id xs e ys h.1 in ((h.0, before), rest)

schedule-Retired :
    (id callback interval : ℕ) (w : System)
    → w.task_id + 1 < 4_294_967_296
    → Retired id w
    → Retired id (record {
      scheduler = (schedule callback interval w.task_id w.scheduler).0;
      task_id = (schedule callback interval w.task_id w.scheduler).1;
    })
unfolding schedule find_task
schedule-Retired id callback interval w h (used, (gone, unheld)) =
    let new : ℕ = (w.task_id + 1) % 4_294_967_296 in
    let one : List (ℕ × TimerTask) =
      (new, record { callback = callback; interval = interval }) ∷ [] in
    let appended : find_task id (w.scheduler.tasks ++ one) ≡ find_task id one =
      find_task-append id w.scheduler.tasks one gone in
    let next : new ≡ w.task_id + 1 = omega (arith, h) in
    (omega (arith, used, h), (ground (arith, appended, next, used, gone), unheld))

-- An execution that begins is of another task, since the pointer to this one does not lock.
fire-Retired :
    (id j task_id : ℕ) (s : Scheduler)
    → Retired id (record { scheduler = s; task_id = task_id })
    → Retired id (record { scheduler = fire j s; task_id = task_id })
unfolding fire begin
fire-Retired id j task_id s (used, (gone, unheld)) = begun (lock_task j s) other
  where
    none_some : {task : TimerTask} → ◌≡◌ {A = Option TimerTask} none (some task) → ⊥
    none_some h = cc

    unlocked : lock_task id s ≡ none
    unlocked = unfold lock_task in rw (gone, find_execution-none id s.executing unheld) refl

    other : (task : TimerTask) → lock_task j s ≡ some task → (j == id) ≡ false
    other task e = elim (Bool-cases (j == id)) [
      | inl same ↦
          let mine : j ≡ id = ground arith in
          absurd (none_some (sym unlocked ∙ (ap (λ k. lock_task k s) (sym mine) ∙ e)))
      | inr new ↦ new
    ]

    begun :
        (o : Option TimerTask)
        → ((task : TimerTask) → o ≡ some task → (j == id) ≡ false)
        → Retired id (record { scheduler = begin j s o; task_id = task_id })
    begun none h = (used, (gone, unheld))
    begun (some task) h = (used, (gone, IsUnheld-append id s.executing _ unheld (h task refl, tt)))

advance-IsUnheld :
    (id : ℕ) (before : List Execution) (e : Execution) (after : List Execution) (stage : Stage)
    (s : Scheduler)
    → IsUnheld id before × (((e.id == id) ≡ false) × IsUnheld id after)
    → IsUnheld id (advance before e after stage s).0.executing
      × ((advance before e after stage s).0.tasks ≡ s.tasks)
unfolding advance
advance-IsUnheld id before e after locked s (b, rest) = (IsUnheld-append id before _ b rest, refl)
advance-IsUnheld id before e after called s (b, rest) = (IsUnheld-append id before _ b rest, refl)
advance-IsUnheld id before e after rearmed s (b, rest) =
    (IsUnheld-append id before after b rest.1, refl)

-- A step keeps a task retired, and does not run its callback.
Step-Retired :
    (id : ℕ) {w v : System} (step : Step w v) → Retired id w → Retired id v × (runs_in id step ≡ 0)
unfolding cancel execute
Step-Retired id {w} (schedules callback interval h) r =
    (schedule-Retired id callback interval w h r, refl)
Step-Retired id (schedules_elsewhere h) (used, rest) = ((omega (arith, used), rest), refl)
Step-Retired id {w} (cancels j) (used, (gone, unheld)) =
    ((used, (find_task-erase j id w.scheduler.tasks gone, unheld)), refl)
Step-Retired id {w} (fires j) r = (fire-Retired id j w.task_id w.scheduler r, refl)
Step-Retired id {w} (goes_on before e after held) (used, (gone, unheld)) =
    let parts = IsUnheld-split id before e after (subst (IsUnheld id) held unheld) in
    let (kept, tasks) = advance-IsUnheld id before e after e.stage w.scheduler parts in
    ((used, (ap (find_task id) tasks ∙ gone, kept)), rw parts.1.0 refl)

Reach-Retired :
    (id : ℕ) {w v : System} (r : Reach w v) → Retired id w → Retired id v × (runs_of id r ≡ 0)
Reach-Retired id here r = (r, refl)
Reach-Retired id (later before step) r =
    let (retired, none_before) = Reach-Retired id before r in
    let (retired', none_now) = Step-Retired id step retired in
    (retired', omega (arith, none_before, none_now))

-- When a task is cancelled that no thread executes, its callback does not run any more, and no thread
-- executes it again, whatever is scheduled, here or by another scheduler, cancelled and fired from
-- then on, and however the executions of other tasks go on, as long as the identifiers do not wrap.
pub cancel-stops :
    (id : ℕ) (w v : System)
    → id ≤ w.task_id
    → IsUnheld id w.scheduler.executing
    → (r : Reach (record w { scheduler = cancel id w.scheduler }) v)
    → (runs_of id r ≡ 0) × IsUnheld id v.scheduler.executing
unfolding cancel
cancel-stops id w v used unheld r =
    let (retired, quiet) =
      Reach-Retired id r (used, (erase_task-gone id w.scheduler.tasks, unheld)) in
    (quiet, retired.1.1)
