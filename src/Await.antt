-- ===== src/Await.antt =====
-- How a thread waits for a callback: AwaitPullCallback, AwaitSendCallback of SendCallbacks.cpp, getPublishInfo,
-- listMessageQueue and endTransaction0 of ProducerImpl.cpp (all in src/main/cpp/rocketmq), and ThreadPoolImpl::start
-- of src/main/cpp/base. Each method is the list of its atomic steps; the thread that waits and the one that calls
-- back share a mutex, a condition variable, a flag and an answer, and take turns in any order.
pub mod Explore
pub mod Sound
pub mod Lost
use rocketmq_client_cpp.Prelude.{
  Bool, true, false, Option, none, some, List, [], ◌∷◌, if◌then◌else◌,
}

-- One step, on the mutex, the condition variable, the flag and the answer. `asleep` is a thread inside `Wait`.
pub data Instruction : Type 0 where
  lock unlock wait asleep signal_all complete store read : Instruction
  until_completed until_completed_locking unless_completed : Instruction

pub data Side : Type 0 where
  waiting calling : Side

pub data Holder : Type 0 where
  nobody : Holder
  held_by : Side → Holder

pub record System : Type 0 where
  pub holder : Holder
  pub completed : Bool
  pub stored : Bool
  pub seen : Option Bool
  pub waiter : List Instruction
  pub callback : List Instruction

abbrev rest_of : Side → List Instruction → System → System
rest_of waiting l s = record s { waiter = l }
rest_of calling l s = record s { callback = l }

abbrev pub is_free : Holder → Bool
is_free nobody = true
is_free (held_by side) = false

abbrev pub wake : List Instruction → List Instruction
wake (asleep ∷ l) = lock ∷ l
wake [] = []
wake (i ∷ l) = i ∷ l

-- One step of a thread; a thread that is blocked changes nothing.
unfoldable pub execute : Side → List Instruction → System → System
execute side [] s = s
execute side (lock ∷ l) s =
    if is_free s.holder then rest_of side l (record s { holder = held_by side }) else s
execute side (unlock ∷ l) s = rest_of side l (record s { holder = nobody })
execute side (wait ∷ l) s = rest_of side (asleep ∷ l) (record s { holder = nobody })
execute side (asleep ∷ l) s = s
execute side (signal_all ∷ l) s = rest_of side l (record s { waiter = wake s.waiter })
execute side (complete ∷ l) s = rest_of side l (record s { completed = true })
execute side (store ∷ l) s = rest_of side l (record s { stored = true })
execute side (read ∷ l) s = rest_of side l (record s { seen = some s.stored })
execute side (until_completed ∷ l) s =
    rest_of side (if s.completed then l else wait ∷ until_completed ∷ l) s
execute side (until_completed_locking ∷ l) s =
    rest_of side (if s.completed then l else lock ∷ wait ∷ unlock ∷ until_completed_locking ∷ l) s
execute side (unless_completed ∷ l) s = rest_of side (if s.completed then l else wait ∷ l) s

-- A turn of a thread, or a wake-up that no signal causes, as `Wait` may have.
pub data Turn : Type 0 where
  go : Side → Turn
  spurious : Turn

abbrev pub program : Side → System → List Instruction
program waiting s = s.waiter
program calling s = s.callback

unfoldable pub step : Turn → System → System
step (go side) s = execute side (program side s) s
step spurious s = record s { waiter = wake s.waiter }

unfoldable pub run : List Turn → System → System
run [] s = s
run (turn ∷ turns) s = run turns (step turn s)

-- The methods that wait, with the callback that they wait for.
pub data Protocol : Type 0 where
  await_pull await_send_success await_send_failure publish_info end_transaction start_pool :
      Protocol

unfoldable pub waiter_of : Protocol → List Instruction
waiter_of await_pull = lock ∷ until_completed ∷ read ∷ unlock ∷ []
waiter_of await_send_success = lock ∷ until_completed ∷ unlock ∷ read ∷ []
waiter_of await_send_failure = lock ∷ until_completed ∷ unlock ∷ read ∷ []
waiter_of publish_info = until_completed_locking ∷ read ∷ []
waiter_of end_transaction = lock ∷ wait ∷ unlock ∷ read ∷ []
waiter_of start_pool = lock ∷ unless_completed ∷ unlock ∷ []

unfoldable pub callback_of : Protocol → List Instruction
callback_of await_pull = lock ∷ complete ∷ store ∷ signal_all ∷ unlock ∷ []
callback_of await_send_success = store ∷ complete ∷ lock ∷ signal_all ∷ unlock ∷ []
callback_of await_send_failure = complete ∷ store ∷ lock ∷ signal_all ∷ unlock ∷ []
callback_of publish_info = lock ∷ store ∷ complete ∷ signal_all ∷ unlock ∷ []
callback_of end_transaction = complete ∷ store ∷ lock ∷ signal_all ∷ unlock ∷ []
callback_of start_pool = complete ∷ lock ∷ signal_all ∷ unlock ∷ []

unfoldable pub begin : Protocol → System
unfolding waiter_of callback_of
begin p = record {
  holder = nobody;
  completed = false;
  stored = false;
  seen = none;
  waiter = waiter_of p;
  callback = callback_of p;
}
