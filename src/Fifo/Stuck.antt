-- ===== src/Fifo/Stuck.antt =====
-- Bound queues of ConsumeFifoMessageService.cpp with nothing pending.
use rocketmq_client_cpp.Queue.Binding.{bound-cache, bound-release}
use rocketmq_client_cpp.Fifo.Exclusion.{published, permit_activities}
use rocketmq_client_cpp.Prelude.{
  subst, ◌≡◌, refl, ◌∙◌, sym, Bool, true, false, Option, none, some, List, [], ◌∷◌, ◌++◌, arith,
}
use rocketmq_client_cpp.Types.{Message, broadcasting}
use rocketmq_client_cpp.Queue.{
  ProcessQueue, take_messages, take_loop, bind_fifo_consume_task, committed_offset,
}
use rocketmq_client_cpp.Fifo.{
  FifoConsumer, Service, Effect, Outcome, submit_consume_task, submit_bound, consume_task, finish,
  released, publish_offset, permit, result_of,
}
use rocketmq_client_cpp.Fifo.Machine.{
  Activity, activities_of, perform, Machine, Step, arrives, dispatches, performs, Reach, here,
  later, running,
}

-- Bound, with no activity that could unbind it.
abbrev pub IsStuck : Machine → Type 0
IsStuck w = (w.queue.has_fifo_task_bound ≡ true) × (w.activities ≡ [])

submit-IsStuck :
    (c : FifoConsumer) (q q' : ProcessQueue) (l : List Activity) (effects : List Effect)
    → q.has_fifo_task_bound ≡ true
    → l ≡ []
    → submit_consume_task (some q) (some c) ≡ (some q', effects)
    → (q'.has_fifo_task_bound ≡ true) × (l ++ activities_of effects ≡ [])
unfolding submit_consume_task bind_fifo_consume_task
submit-IsStuck c q q' l es b n e = ground arith

not-nil-append : (before after : List Activity) (a : Activity) → [] ≡ before ++ (a ∷ after) → ⊥
not-nil-append [] after a e = cc
not-nil-append (b ∷ before) after a e = cc

pub Step-IsStuck : {c : FifoConsumer} {w v : Machine} → Step c w v → IsStuck w → IsStuck v
Step-IsStuck {c} {w} (arrives ms) h = (bound-cache c.quota ms w.queue ∙ h.0, h.1)
Step-IsStuck {c} {w} (dispatches {q} {effects} e) h =
    submit-IsStuck c w.queue q w.activities effects h.0 h.1 e
Step-IsStuck (performs s before after a answer held e) h =
    absurd (not-nil-append before after a (sym h.1 ∙ held))

-- A queue that is bound with nothing pending stays so, whatever arrives and however often the
-- dispatcher runs.
Reach-IsStuck :
    (c : FifoConsumer) (w : Machine) → IsStuck w → {v : Machine} → Reach c w v → IsStuck v
Reach-IsStuck c w h here = h
Reach-IsStuck c w h (later r st) = Step-IsStuck st (Reach-IsStuck c w h r)

-- When the cache of an unbound queue with nothing pending holds a single message and the batch size is
-- 1, a round of the dispatcher takes the message out, submits no task for it, and leaves the queue
-- bound with an empty cache and nothing pending.
pub lone_message-IsStuck :
    (c : FifoConsumer) (w : Machine) (m : Message)
    → c.consume_batch_size ≡ 1
    → w.queue.has_fifo_task_bound ≡ false
    → w.activities ≡ []
    → w.queue.cached_messages ≡ m ∷ []
    → (q : ProcessQueue) × (submit_consume_task (some w.queue) (some c) ≡ (some q, []))
      × (q.cached_messages ≡ [])
      × IsStuck (record { queue = q; activities = [] })
unfolding submit_consume_task bind_fifo_consume_task take_messages take_loop submit_bound
lone_message-IsStuck c w m size unbound quiet sole = (
  record w.queue { has_fifo_task_bound = true; cached_messages = [] },
  ground arith,
  refl,
  (refl, refl),
)

-- What a consume task leaves pending in the broadcasting model: nothing, on a queue as bound as it was.
abbrev LeavesNothing : ProcessQueue → Outcome → Type 0
LeavesNothing q (none, es) = ⊥
LeavesNothing q (some q', es) =
    (q'.has_fifo_task_bound ≡ q.has_fifo_task_bound) × (activities_of es ≡ [])

released_quiet :
    (q : ProcessQueue) (o : Option ProcessQueue)
    → ((q' : ProcessQueue) → o ≡ some q' → q'.has_fifo_task_bound ≡ q.has_fifo_task_bound)
    → LeavesNothing q (released o q (λ q'. publish_offset q' (committed_offset q')))
unfolding released
released_quiet q none h = (refl, refl)
released_quiet q (some q') h = (h q' refl, published q' (committed_offset q'))

consume_task_quiet :
    (s : Service) (c : FifoConsumer) (m : Message) (q : ProcessQueue)
    → c.message_model ≡ broadcasting
    → LeavesNothing q (consume_task s (some q) (some c) m)
unfolding consume_task finish
consume_task_quiet s c m q e =
    permitted (finish c.message_model (result_of (s.consume_message m)) c m q) (
      subst (λ k. LeavesNothing q (finish k (result_of (s.consume_message m)) c m q)) (sym e)
        (released_quiet q _ (λ q' d. bound-release c.quota _ _ q q' d)))
  where
    permitted : (o : Outcome) → LeavesNothing q o → LeavesNothing q (o.0, permit s m ++ o.1)
    permitted (none, es) h = h
    permitted (some q', es) h = (h.0, permit_activities s m es ∙ h.1)

-- In the broadcasting model a FIFO consume task that is alone pending on a bound queue leaves it bound
-- with nothing pending, whatever the listener returns.
broadcasting-IsStuck :
    (s : Service) (c : FifoConsumer) (w : Machine) (m : Message) (answer : Bool) (q : ProcessQueue)
    (effects : List Effect)
    → c.message_model ≡ broadcasting
    → w.queue.has_fifo_task_bound ≡ true
    → w.activities ≡ running m ∷ []
    → perform s c w.queue (running m) answer ≡ (some q, effects)
    → IsStuck (record { queue = q; activities = activities_of effects })
unfolding perform
broadcasting-IsStuck s c w m answer q es e b one done =
    ground (arith, subst (LeavesNothing w.queue) done (consume_task_quiet s c m w.queue e))
