-- ===== src/Lifecycle.antt =====
-- Start and shutdown of a consume service: src/main/cpp/rocketmq/ConsumeMessageService.cpp, with the start and
-- shutdown of ConsumeFifoMessageService.cpp and ConsumeStandardMessageService.cpp, which are the same. A call is
-- at one of its atomic steps, and the steps of concurrent calls interleave.
pub mod Closing
use rocketmq_client_cpp.Prelude.{ℕ, ◌+◌, Bool, true, false, List, [], ◌∷◌, ◌++◌, if◌then◌else◌}
use rocketmq_client_cpp.Types.{State, created, starting, started, stopping, stopped}

abbrev state_eq : State → State → Bool
state_eq created created = true
state_eq starting starting = true
state_eq started started = true
state_eq stopping stopping = true
state_eq stopped stopped = true
state_eq _ _ = false

-- The state, how often the pool was started and shut down, the dispatcher threads that were made and
-- joined, and how often the observer of the rate limiters was stopped.
pub record Service : Type 0 where
  pub state : State
  pub pool_started : ℕ
  pub pool_shut_down : ℕ
  pub dispatch_threads : ℕ
  pub joined : ℕ
  pub observer_stopped : ℕ

unfoldable pub compare_exchange : State → State → Service → Service × Bool
compare_exchange expected desired s =
    if state_eq s.state expected then (record s { state = desired }, true) else (s, false)

-- Where a call of `start` or `shutdown` stands.
pub data Call : Type 0 where
  start_base start_pool start_thread start_mark : Call
  shutdown_wait shutdown_mark shutdown_base shutdown_pool shutdown_join shutdown_observer : Call
  returned : Call

-- The next atomic step of a call.
unfoldable pub advance : Call → Service → Service × Call
unfolding compare_exchange
advance start_base s =
    let (s', won) = compare_exchange created starting s in
    (s', if won then start_pool else start_mark)
advance start_pool s = (record s { pool_started = s.pool_started + 1 }, start_thread)
advance start_thread s = (record s { dispatch_threads = s.dispatch_threads + 1 }, start_mark)
advance start_mark s = ((compare_exchange starting started s).0, returned)
advance shutdown_wait s = (s, if state_eq s.state starting then shutdown_wait else shutdown_mark)
advance shutdown_mark s =
    let (s', won) = compare_exchange started stopping s in
    (s', if won then shutdown_base else returned)
advance shutdown_base s =
    let (s', won) = compare_exchange stopping stopped s in
    (s', if won then shutdown_pool else returned)
advance shutdown_pool s = (record s { pool_shut_down = s.pool_shut_down + 1 }, shutdown_join)
advance shutdown_join s = (record s { joined = s.dispatch_threads }, shutdown_observer)
advance shutdown_observer s = (record s { observer_stopped = s.observer_stopped + 1 }, returned)
advance returned s = (s, returned)

pub record System : Type 0 where
  pub service : Service
  pub calls : List Call

-- A call goes on, or `shutdown` is called.
pub data Step : System → System → Type 0 where
  goes_on :
      (s : Service) (before : List Call) (c : Call) (after : List Call)
      → Step
          (record { service = s; calls = before ++ c ∷ after })
          (record { service = (advance c s).0; calls = before ++ (advance c s).1 ∷ after })
  shut_down :
      (s : Service) (calls : List Call)
      → Step
          (record { service = s; calls = calls })
          (record { service = s; calls = shutdown_wait ∷ calls })

pub data Reach (x : System) : System → Type 0 where
  here : Reach x x
  later : {y z : System} → Reach x y → Step y z → Reach x z

-- A service that is made and started once.
abbrev pub one_start : System
one_start = record {
  service = record {
    state = created;
    pool_started = 0;
    pool_shut_down = 0;
    dispatch_threads = 0;
    joined = 0;
    observer_stopped = 0;
  };
  calls = start_base ∷ [];
}
