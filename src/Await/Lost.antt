-- ===== src/Await/Lost.antt =====
-- Waits that may miss their signal: getPublishInfo, listMessageQueue and endTransaction0 of ProducerImpl.cpp.
use rocketmq_client_cpp.Prelude.{
  ◌≡◌, ◌≢◌, refl, List, [], ◌∷◌, map, arith, ◌∙◌, Bool-cases, inl, inr, subst, sym,
}
use rocketmq_client_cpp.Await.{
  Instruction, lock, wait, asleep, begin, execute, step, run, Protocol, publish_info,
  end_transaction, await_pull, await_send_success, await_send_failure, start_pool, System, Side,
  waiting, calling, go, is_free,
}

-- The waits that sleep without a look at the flag under the mutex.
abbrev pub LooksTooEarly : Protocol → Type 0
LooksTooEarly publish_info = Unit {0}
LooksTooEarly end_transaction = Unit {0}
LooksTooEarly await_pull = ⊥
LooksTooEarly await_send_success = ⊥
LooksTooEarly await_send_failure = ⊥
LooksTooEarly start_pool = ⊥

-- About to sleep with no look at the flag in between, or asleep.
pub data Missed : List Instruction → Type 0 where
  about_to_lock : {l : List Instruction} → Missed (lock ∷ wait ∷ l)
  about_to_sleep : {l : List Instruction} → Missed (wait ∷ l)
  sleeps : {l : List Instruction} → Missed (asleep ∷ l)

-- So is the thread that waits, and the callback is over.
abbrev pub HasMissed : System → Type 0
HasMissed s = (s.callback ≡ []) × Missed s.waiter

execute-Missed :
    (l : List Instruction) (s : System)
    → s.waiter ≡ l
    → Missed l
    → Missed (execute waiting l s).waiter
unfolding execute
execute-Missed l s e about_to_lock = elim (Bool-cases (is_free s.holder)) [
  | inl free ↦ rw free about_to_sleep
  | inr held ↦ rw held (subst Missed (sym e) about_to_lock)
]
execute-Missed l s e about_to_sleep = sleeps
execute-Missed l s e sleeps = subst Missed (sym e) sleeps

execute-callback : (l : List Instruction) (s : System) → (execute waiting l s).callback ≡ s.callback
unfolding execute
execute-callback l s = ground arith

execute_done : (l : List Instruction) (s : System) → l ≡ [] → execute calling l s ≡ s
unfolding execute
execute_done [] s e = refl
execute_done (i ∷ l) s e = absurd cc

step-HasMissed : (side : Side) (s : System) → HasMissed s → HasMissed (step (go side) s)
unfolding step
step-HasMissed waiting s (c, m) =
    (execute-callback s.waiter s ∙ c, execute-Missed s.waiter s refl m)
step-HasMissed calling s (c, m) = subst HasMissed (sym (execute_done s.callback s c)) (c, m)

run-HasMissed : (sides : List Side) (s : System) → HasMissed s → HasMissed (run (map go sides) s)
unfolding run
run-HasMissed [] s h = h
run-HasMissed (side ∷ sides) s h = run-HasMissed sides (step (go side) s) (step-HasMissed side s h)

Missed-ne-nil : (l : List Instruction) → Missed l → l ≢ []
Missed-ne-nil l about_to_lock e = cc
Missed-ne-nil l about_to_sleep e = cc
Missed-ne-nil l sleeps e = cc

-- The test of the flag, or nothing, before the callback; then the callback.
too_early : Protocol → List Side
too_early publish_info = waiting ∷ calling ∷ calling ∷ calling ∷ calling ∷ calling ∷ []
too_early p = calling ∷ calling ∷ calling ∷ calling ∷ calling ∷ []

too_early-HasMissed :
    (p : Protocol) → LooksTooEarly p → HasMissed (run (map go (too_early p)) (begin p))
unfolding too_early run step execute begin
too_early-HasMissed publish_info h = (refl, about_to_lock)
too_early-HasMissed end_transaction h = (refl, about_to_lock)
too_early-HasMissed await_pull h = absurd h
too_early-HasMissed await_send_success h = absurd h
too_early-HasMissed await_send_failure h = absurd h
too_early-HasMissed start_pool h = absurd h

-- For getPublishInfo, listMessageQueue and endTransaction0 there is an order of steps after which the
-- callback has ended and the thread that waits never does, whatever steps follow without a wake-up for
-- nothing.
pub missed_for_good :
    (p : Protocol)
    → LooksTooEarly p
    → (first : List Side) × (((run (map go first) (begin p)).callback ≡ [])
        × ((sides : List Side) → (run (map go sides) (run (map go first) (begin p))).waiter ≢ []))
missed_for_good p h =
    let missed = too_early-HasMissed p h in
    (
      too_early p,
      (
        missed.0,
        λ sides.
            Missed-ne-nil _ (run-HasMissed sides (run (map go (too_early p)) (begin p)) missed).1,
      ),
    )
