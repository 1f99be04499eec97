-- ===== src/Queue/Taking.antt =====
-- What `take` of ProcessQueueImpl.cpp hands out and what it leaves in the cache.
use rocketmq_client_cpp.Prelude.{
  ℕ, zero, suc, ◌≤◌, ◌<◌, ◌≡◌, refl, ap, not, List, [], ◌∷◌, ◌++◌, arith, length, is_empty, take,
  drop,
}
use rocketmq_client_cpp.Types.{Message}
use rocketmq_client_cpp.Queue.{ProcessQueue, take_loop, take_messages}

-- The loop takes the first `n` messages, or all of them.
pub take_loop-eq : (n : ℕ) (ms : List Message) → take_loop n ms ≡ (take n ms, drop n ms)
unfolding take_loop
take_loop-eq zero [] = refl
take_loop-eq zero (m ∷ ms) = refl
take_loop-eq (suc n) [] = refl
take_loop-eq (suc n) (m ∷ ms) = ground (arith, take_loop-eq n ms)

pub take_loop-append : (n : ℕ) (ms : List Message) → (take_loop n ms).0 ++ (take_loop n ms).1 ≡ ms
unfolding take_loop
take_loop-append zero [] = refl
take_loop-append zero (m ∷ ms) = refl
take_loop-append (suc n) [] = refl
take_loop-append (suc n) (m ∷ ms) = ap (λ l. m ∷ l) (take_loop-append n ms)

pub length-take_loop-le : (n : ℕ) (ms : List Message) → length (take_loop n ms).0 ≤ n
unfolding take_loop
length-take_loop-le zero [] = omega arith
length-take_loop-le zero (m ∷ ms) = omega arith
length-take_loop-le (suc n) [] = omega arith
length-take_loop-le (suc n) (m ∷ ms) = omega (arith, length-take_loop-le n ms)

pub take_loop_pos :
    (n : ℕ) (m : Message) (ms : List Message) → 0 < n → 0 < length (take_loop n (m ∷ ms)).0
unfolding take_loop
take_loop_pos zero m ms h = elim h [ ]
take_loop_pos (suc n) m ms h = omega arith

-- take hands out a prefix of the cache of at most n messages, keeps the rest in order, and says
-- whether anything is left.
take_messages_lem :
    (n : ℕ) (q : ProcessQueue)
    → ((take_messages n q).1 ++ (take_messages n q).0.cached_messages ≡ q.cached_messages)
      × (length (take_messages n q).1 ≤ n)
      × ((take_messages n q).2 ≡ not (is_empty (take_messages n q).0.cached_messages))
unfolding take_messages
take_messages_lem n q =
    (take_loop-append n q.cached_messages, length-take_loop-le n q.cached_messages, refl)
