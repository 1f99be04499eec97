-- ===== src/Tests/Await.antt =====
-- Waiting for a callback.
use rocketmq_client_cpp.Prelude.{◌≡◌, ◌≢◌, refl, map, List, [], ◌∷◌, some, false}
use rocketmq_client_cpp.Await.{
  Turn, Side, go, waiting, calling, begin, run, step, execute, await_send_failure, await_pull,
  end_transaction, spurious,
}
use rocketmq_client_cpp.Await.Explore.{IsStuck}
use rocketmq_client_cpp.Await.Sound.{stuck-ended, Read}
use rocketmq_client_cpp.Await.Lost.{missed_for_good}

-- The callback comes while the other thread sleeps, which wakes once for nothing.
abbrev late_callback : List Turn
late_callback =
    go waiting
    ∷ go waiting
    ∷ go waiting
    ∷ spurious
    ∷ go waiting
    ∷ go waiting
    ∷ go waiting
    ∷ go calling
    ∷ go calling
    ∷ go calling
    ∷ go calling
    ∷ go calling
    ∷ go waiting
    ∷ go waiting
    ∷ go waiting
    ∷ go waiting
    ∷ []

late_callback-IsStuck : IsStuck (run late_callback (begin await_pull))
unfolding run step execute begin
late_callback-IsStuck = (refl, refl)

stuck-ended_example :
    ((run late_callback (begin await_pull)).waiter ≡ [])
    × (((run late_callback (begin await_pull)).callback ≡ [])
        × Read await_pull (run late_callback (begin await_pull)).seen)
stuck-ended_example = stuck-ended await_pull late_callback tt late_callback-IsStuck

missed_for_good_example :
    (first : List Side) × (((run (map go first) (begin end_transaction)).callback ≡ [])
      × ((sides : List Side)
          → (run (map go sides) (run (map go first) (begin end_transaction))).waiter ≢ []))
missed_for_good_example = missed_for_good end_transaction tt

-- A failed send whose error is read before it is there.
read_too_early :
    (run
      (map go (calling ∷ waiting ∷ waiting ∷ waiting ∷ waiting ∷ []))
      (begin await_send_failure)).seen
    ≡ some false
unfolding run step execute begin
read_too_early = refl
