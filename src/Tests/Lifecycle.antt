-- ===== src/Tests/Lifecycle.antt =====
-- Start and shutdown of a consume service.
use rocketmq_client_cpp.Prelude.{refl, [], ◌∷◌}
use rocketmq_client_cpp.Types.{starting, started, stopped}
use rocketmq_client_cpp.Lifecycle.{
  Service, start_base, start_pool, start_thread, start_mark, shutdown_wait, shutdown_mark,
  shutdown_base, shutdown_pool, shutdown_join, shutdown_observer, returned, advance,
  compare_exchange, System, goes_on, shut_down, Reach, here, later, one_start,
}
use rocketmq_client_cpp.Lifecycle.Closing.{IsSettled, returned-IsSettled}

abbrev running : System
running = record {
  service = record {
    state = started;
    pool_started = 1;
    pool_shut_down = 0;
    dispatch_threads = 1;
    joined = 0;
    observer_stopped = 0;
  };
  calls = returned ∷ [];
}

started_once : Reach one_start running
unfolding advance compare_exchange
started_once =
    later
      (later
        (later (later here (goes_on one_start.service [] start_base []))
          (goes_on _ [] start_pool []))
        (goes_on _ [] start_thread []))
      (goes_on _ [] start_mark [])

abbrev closed : System
closed = record {
  service = record {
    state = stopped;
    pool_started = 1;
    pool_shut_down = 1;
    dispatch_threads = 1;
    joined = 1;
    observer_stopped = 1;
  };
  calls = returned ∷ returned ∷ [];
}

closed_once : Reach one_start closed
unfolding advance compare_exchange
closed_once =
    later
      (later
        (later
          (later
            (later
              (later (later started_once (shut_down running.service (returned ∷ [])))
                (goes_on running.service [] shutdown_wait (returned ∷ [])))
              (goes_on running.service [] shutdown_mark (returned ∷ [])))
            (goes_on _ [] shutdown_base (returned ∷ [])))
          (goes_on _ [] shutdown_pool (returned ∷ [])))
        (goes_on _ [] shutdown_join (returned ∷ [])))
      (goes_on _ [] shutdown_observer (returned ∷ []))

returned-IsSettled_example : IsSettled closed.service
returned-IsSettled_example = returned-IsSettled closed closed_once (refl, (refl, tt))

-- With a second call of start, the service may be shut down before its dispatcher thread is there.
abbrev two_starts : System
two_starts = record one_start { calls = start_base ∷ start_base ∷ [] }

abbrev half_started : Service
half_started = record one_start.service { state = starting }

abbrev too_early : Service
too_early = record half_started { state = started }

shut_down_too_early : Reach two_starts (record {
  service = record half_started { state = stopped; pool_shut_down = 1 };
  calls = shutdown_join ∷ start_pool ∷ returned ∷ [];
})
unfolding advance compare_exchange
shut_down_too_early =
    later
      (later
        (later
          (later
            (later
              (later
                (later (later here (goes_on one_start.service [] start_base (start_base ∷ [])))
                  (goes_on half_started (start_pool ∷ []) start_base []))
                (goes_on half_started (start_pool ∷ []) start_mark []))
              (shut_down too_early (start_pool ∷ returned ∷ [])))
            (goes_on too_early [] shutdown_wait (start_pool ∷ returned ∷ [])))
          (goes_on too_early [] shutdown_mark (start_pool ∷ returned ∷ [])))
        (goes_on _ [] shutdown_base (start_pool ∷ returned ∷ [])))
      (goes_on _ [] shutdown_pool (start_pool ∷ returned ∷ []))
