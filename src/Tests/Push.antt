-- ===== src/Tests/Push.antt =====
-- The push consumer's table and the rate limiter.
use rocketmq_client_cpp.Prelude.{◌+◌, ◌≡◌, refl, some, [], ◌∷◌, arith, replicate}
use rocketmq_client_cpp.Prelude.Text.{codes}
use rocketmq_client_cpp.Types.{polling}
use rocketmq_client_cpp.PushConsumer.{sync_process_queue}
use rocketmq_client_cpp.PushConsumer.Sync.{Follows, sync_process_queue-Follows}
use rocketmq_client_cpp.RateLimiter.{
  RateLimiter, acquire_some, acquire, past_slot, past_loop, drain_slot,
}
use rocketmq_client_cpp.RateLimiter.Permits.{total, acquire_some-total}
use rocketmq_client_cpp.Tests.{settings, queue_0, any_tag, busy_queue}

sync_process_queue-Follows_example :
    Follows
      (codes "orders")
      []
      (sync_process_queue
        (settings polling)
        (codes "orders")
        []
        any_tag
        ((queue_0, busy_queue) ∷ [])).0
sync_process_queue-Follows_example =
    sync_process_queue-Follows (settings polling) (codes "orders") [] any_tag
      ((queue_0, busy_queue) ∷ [])

-- One permit in each slot.
abbrev ones : RateLimiter
ones = record { partition = replicate 10 1; permits = replicate 10 1 }

acquire_some-total_example :
    total (acquire_some 2 3 ones).0.permits + (acquire_some 2 3 ones).1 ≡ 10
acquire_some-total_example = acquire_some-total 2 3 ones refl (omega arith) (omega arith)

-- What is acquired wraps when the slots hold more than 2^32 - 1: it is 0 here, and all permits are gone.
abbrev brimming : RateLimiter
brimming = record {
  partition = replicate 10 0;
  permits = 0 ∷ 1 ∷ 1 ∷ 4_294_967_294 ∷ 0 ∷ 0 ∷ 0 ∷ 0 ∷ 0 ∷ 0 ∷ [];
}

acquire_some_wraps :
    ((acquire_some 4_294_967_295 3 brimming).1 ≡ 0)
    × (total (acquire_some 4_294_967_295 3 brimming).0.permits ≡ 0)
unfolding acquire_some past_loop drain_slot
acquire_some_wraps = (refl, refl)

-- Two permits are asked for, and six are taken.
acquire_some_greedy : (acquire_some 2 3 ones).1 ≡ 6
unfolding acquire_some past_loop drain_slot
acquire_some_greedy = refl

abbrev one_less : RateLimiter
one_less = record ones { permits = 1 ∷ 1 ∷ 1 ∷ 0 ∷ 1 ∷ 1 ∷ 1 ∷ 1 ∷ 1 ∷ 1 ∷ [] }

ones-acquire : acquire 3 ones ≡ some one_less
unfolding acquire past_slot
ones-acquire = refl
