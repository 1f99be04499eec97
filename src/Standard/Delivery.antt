-- ===== src/Standard/Delivery.antt =====
-- No message is lost between its arrival and its answer, in the code of ConsumeStandardMessageService.cpp and
-- ProcessQueueImpl.cpp.
use rocketmq_client_cpp.Prelude.{
  ℕ, ◌+◌, ◌<◌, ◌≡◌, refl, ap, sym, subst, ◌∙◌, Bool, Option, some, List, [], ◌∷◌, ◌++◌, map, length,
  length-append, arith,
}
use rocketmq_client_cpp.Types.{clustering, Message, MessageQueue, FilterExpression}
use rocketmq_client_cpp.Queue.{ProcessQueue, cache_loop, cache_messages, init}
use rocketmq_client_cpp.Queue.World.{bytes_of}
use rocketmq_client_cpp.Queue.Account.{bytes_of-append}
use rocketmq_client_cpp.Standard.{
  StandardConsumer, Service, Effect, submit, consume_task, submit_consume_task,
}
use rocketmq_client_cpp.Standard.Submit.{concat, submit_consume_task-drains}
use rocketmq_client_cpp.Standard.Machine.{
  Machine, Step, receives, dispatches, runs, Reach, here, later, fresh, tally, tasks_of,
  answered_of, queue_after, Accounted,
}
use rocketmq_client_cpp.Standard.Counts.{
  tally-append, concat-append, cache_loop-tally, cache_loop-quantity, cache_loop-memory,
  release_all-cached, release_all-quantity, release_all-memory, consume_task-all, tasks_of-submit,
}

module _ (c : StandardConsumer) (model : c.message_model ≡ clustering)
    (pos : 0 < c.consume_batch_size) where
  receives-Accounted :
      (w : Machine) (ms : List Message)
      → Accounted w
      → Accounted (record w {
        queue = (cache_messages (some c.quota) ms w.queue).0;
        received = w.received ++ ms;
        answered = w.answered ++ (cache_messages (some c.quota) ms w.queue).1;
      })
  unfolding cache_messages
  receives-Accounted w ms i = record {
    delivered = λ p. omega (
      arith,
      i.delivered p,
      cache_loop-tally c.message_model p ms w.queue,
      tally-append p w.received ms,
      tally-append p w.answered (cache_loop c.message_model ms w.queue).1,
    );
    quantity = cache_loop-quantity c.message_model (length (concat w.tasks)) ms w.queue i.quantity;
    memory = cache_loop-memory c.message_model (bytes_of (concat w.tasks)) ms w.queue i.memory;
  }

  -- The cache, cut into batches.
  batched-Accounted :
      (w : Machine) (batches : List (List Message))
      → concat batches ≡ w.queue.cached_messages
      → Accounted w
      → Accounted (record w {
        queue = record (w.queue) { cached_messages = [] };
        tasks = w.tasks ++ tasks_of (map (submit c) batches);
      })
  batched-Accounted w batches joined i =
      let all : concat (w.tasks ++ tasks_of (map (submit c) batches))
          ≡ concat w.tasks ++ w.queue.cached_messages =
        rw (tasks_of-submit c batches, concat-append w.tasks batches, joined) refl in
      record {
        delivered = λ p. omega (
          arith,
          i.delivered p,
          ap (tally p) all,
          tally-append p (concat w.tasks) w.queue.cached_messages,
        );
        quantity = omega (
          arith,
          i.quantity,
          ap length all,
          length-append (concat w.tasks) w.queue.cached_messages,
        );
        memory = omega (
          arith,
          i.memory,
          ap bytes_of all,
          bytes_of-append (concat w.tasks) w.queue.cached_messages,
        );
      }

  dispatches-Accounted :
      (w : Machine) (q : ProcessQueue) (effects : List Effect)
      → submit_consume_task (some w.queue) (some c) ≡ some (some q, effects)
      → Accounted w
      → Accounted (record w { queue = q; tasks = w.tasks ++ tasks_of effects })
  dispatches-Accounted w q effects e i =
      let (batches, (joined, each, run)) = submit_consume_task-drains c w.queue pos in
      subst (λ out. Accounted (record w { queue = out.0; tasks = w.tasks ++ tasks_of out.1 }))
        (same (sym run ∙ e)) (batched-Accounted w batches joined i)
    where
      same :
          {p r : ProcessQueue} {es fs : List Effect}
          → ◌≡◌ {A = Option (Option ProcessQueue × List Effect)}
              (some (some p, es))
              (some (some r, fs))
          → ◌≡◌ {A = ProcessQueue × List Effect} (p, es) (r, fs)
      same h = cc

  runs-Accounted :
      (s : Service) (w : Machine) (before : List (List Message)) (ms : List Message)
      (after : List (List Message))
      → w.tasks ≡ before ++ ms ∷ after
      → Accounted w
      → Accounted (record w {
        queue = queue_after w.queue (consume_task s (some w.queue) (some c) ms).0;
        tasks = before ++ after;
        answered = w.answered ++ answered_of (consume_task s (some w.queue) (some c) ms).1;
      })
  runs-Accounted s w before ms after held i =
      let (left, answers) = consume_task-all s c ms w.queue model in
      let tasks : concat w.tasks ≡ concat before ++ (ms ++ concat after) =
        ap concat held ∙ concat-append before (ms ∷ after) in
      let cached = release_all-cached ms w.queue in
      rw (left, answers)
        (record {
          delivered = λ p. omega (
            arith,
            i.delivered p,
            ap (tally p) cached,
            ap (tally p) tasks,
            ap (tally p) (concat-append before after),
            tally-append p (concat before) (ms ++ concat after),
            tally-append p ms (concat after),
            tally-append p (concat before) (concat after),
            tally-append p w.answered ms,
          );
          quantity =
              release_all-quantity
                (length w.queue.cached_messages + length (concat (before ++ after))) ms w.queue
                (omega (
                  arith,
                  i.quantity,
                  ap length tasks,
                  ap length (concat-append before after),
                  length-append (concat before) (ms ++ concat after),
                  length-append ms (concat after),
                  length-append (concat before) (concat after),
                ))
              ∙ omega (arith, ap length cached);
          memory =
              release_all-memory
                (bytes_of w.queue.cached_messages + bytes_of (concat (before ++ after))) ms w.queue
                (omega (
                  arith,
                  i.memory,
                  ap bytes_of tasks,
                  ap bytes_of (concat-append before after),
                  bytes_of-append (concat before) (ms ++ concat after),
                  bytes_of-append ms (concat after),
                  bytes_of-append (concat before) (concat after),
                ))
              ∙ omega (arith, ap bytes_of cached);
        })

  Step-Accounted : {w v : Machine} → Step c w v → Accounted w → Accounted v
  Step-Accounted {w} (receives ms) i = receives-Accounted w ms i
  Step-Accounted {w} (dispatches q effects e) i = dispatches-Accounted w q effects e i
  Step-Accounted {w} (runs s before ms after held) i = runs-Accounted s w before ms after held i

  Reach_from-Accounted : {w v : Machine} → Reach c w v → Accounted w → Accounted v
  Reach_from-Accounted here i = i
  Reach_from-Accounted (later r step) i = Step-Accounted step (Reach_from-Accounted r i)

  -- Every task runs.
  run_all :
      (s : Service) (tasks : List (List Message)) (from w : Machine)
      → w.tasks ≡ tasks
      → Reach c from w
      → (v : Machine) × (Reach c from v
          × ((v.tasks ≡ [])
              × ((v.queue.cached_messages ≡ w.queue.cached_messages) × (v.received ≡ w.received))))
  run_all s [] from w held r = (w, (r, (held, (refl, refl))))
  run_all s (ms ∷ tasks) from w held r =
      let (left, answers) = consume_task-all s c ms w.queue model in
      let (v, (run, (done, (cached, received)))) =
        run_all s tasks from _ refl (later r (runs s [] ms tasks held)) in
      (
        v,
        (
          run,
          (
            done,
            (
              cached
                  ∙ (ap (λ o. (queue_after w.queue o).cached_messages) left
                      ∙ release_all-cached ms w.queue),
              received,
            ),
          ),
        ),
      )

fresh-Accounted :
    (queue : MessageQueue) (filter : FilterExpression) (now : ℕ)
    → Accounted (fresh queue filter now)
unfolding init
fresh-Accounted queue filter now = record { delivered = λ p. refl; quantity = refl; memory = refl }

-- In the clustering model with a batch size of at least one, from a new queue on, in whatever order
-- batches are received, the dispatcher goes round and tasks run, however the listener answers:
-- whatever is asked of a message, as many have come as are cached, in a task that has not run or
-- acknowledged, positively or negatively; and the counters of the queue are the number and the bytes
-- of those cached or in a task, modulo 2^32 and 2^64.
pub Reach-Accounted :
    (c : StandardConsumer)
    → c.message_model ≡ clustering
    → 0 < c.consume_batch_size
    → (queue : MessageQueue) (filter : FilterExpression) (now : ℕ) (w : Machine)
    → Reach c (fresh queue filter now) w
    → Accounted w
Reach-Accounted c model pos queue filter now w r =
    Reach_from-Accounted c model pos r (fresh-Accounted queue filter now)

-- Nothing is cached, no task is left, everything that came is answered, and the whole quota is free.
pub record Settled (w : Machine) : Type 0 where
  pub no_cache : w.queue.cached_messages ≡ []
  pub no_tasks : w.tasks ≡ []
  pub all_answered : (p : Message → Bool) → tally p w.answered ≡ tally p w.received
  pub no_quantity : w.queue.cached_message_quantity ≡ 0
  pub no_memory : w.queue.cached_message_memory ≡ 0

Accounted-Settled :
    (w : Machine) → w.queue.cached_messages ≡ [] → w.tasks ≡ [] → Accounted w → Settled w
Accounted-Settled w cached tasks i = record {
  no_cache = cached;
  no_tasks = tasks;
  all_answered =
      λ p. omega (arith, i.delivered p, ap (tally p) cached, ap (λ l. tally p (concat l)) tasks);
  no_quantity = omega (arith, i.quantity, ap length cached, ap (λ l. length (concat l)) tasks);
  no_memory = omega (arith, i.memory, ap bytes_of cached, ap (λ l. bytes_of (concat l)) tasks);
}

-- In the clustering model with a batch size of at least one, from every state that a new queue reaches
-- by receiving, dispatching and running tasks, however the listener answers, further steps in which
-- nothing new comes lead to a state with an empty cache, no task left, as many acknowledged as have
-- come, whatever is asked of them, and counters of 0.
pub Reach-settles :
    (s : Service) (c : StandardConsumer)
    → c.message_model ≡ clustering
    → 0 < c.consume_batch_size
    → (queue : MessageQueue) (filter : FilterExpression) (now : ℕ) (w : Machine)
    → Reach c (fresh queue filter now) w
    → (v : Machine) × (Reach c w v × ((v.received ≡ w.received) × Settled v))
Reach-settles s c model pos queue filter now w r =
    let (batches, (joined, each, run)) = submit_consume_task-drains c w.queue pos in
    let (v, (onwards, (done, (cached, received)))) =
      run_all c model pos s _ w _ refl (later here (dispatches _ _ run)) in
    (
      v,
      (
        onwards,
        (
          received,
          Accounted-Settled v cached done (
              Reach_from-Accounted c model pos onwards
                (Reach-Accounted c model pos queue filter now w r)),
        ),
      ),
    )
