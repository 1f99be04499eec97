-- ===== src/Fifo/Exclusion.antt =====
-- The activities of a queue that are pending together under ConsumeFifoMessageService.cpp.
use rocketmq_client_cpp.Queue.Binding.{bound-cache, bound-release}
use rocketmq_client_cpp.Queue.{
  ProcessQueue, init, take_messages, unbind_fifo_consume_task, bind_fifo_consume_task,
  committed_offset,
}
use rocketmq_client_cpp.Prelude.{
  ℕ, ◌≤◌, ◌≡◌, refl, Bool, true, false, Option, none, some, List, [], ◌∷◌, ◌++◌, arith, length,
  length-append, if◌then◌else◌, subst,
}
use rocketmq_client_cpp.Types.{
  Message, MessageQueue, FilterExpression, MessageModel, broadcasting, clustering,
  ConsumeMessageResult,
}
use rocketmq_client_cpp.Fifo.{
  FifoConsumer, Service, Effect, submit_consume_task, consume_task, on_ack, released,
  publish_offset, on_forward_to_dead_letter_queue, schedule_forward_dead_letter_queue_task,
  schedule_ack_task, schedule_consume_task, submit_single, finish, permit, retry_or_forward,
  Outcome, result_of,
}
use rocketmq_client_cpp.Fifo.Machine.{
  Activity, activities_of, perform, Machine, Step, arrives, dispatches, performs, Reach, here,
  later, idle, running, awaiting_ack, acking_later, awaiting_forward, forwarding_later,
  consuming_later,
}

abbrev capacity : Bool → ℕ
capacity bound = if bound then 1 else 0

abbrev Fits : ProcessQueue → List Activity → Type 0
Fits q l = length l ≤ capacity q.has_fifo_task_bound

-- What a consume task leaves behind: the binding, and one pending activity at most.
abbrev KeepsOne : ProcessQueue → Outcome → Type 0
KeepsOne q (none, es) = ⊥
KeepsOne q (some q', es) =
    (q'.has_fifo_task_bound ≡ q.has_fifo_task_bound) × (length (activities_of es) ≤ 1)

released-KeepsOne :
    (q : ProcessQueue) (o : Option ProcessQueue) (f : ProcessQueue → List Effect)
    → ((q' : ProcessQueue) → o ≡ some q' → q'.has_fifo_task_bound ≡ q.has_fifo_task_bound)
    → ((q' : ProcessQueue) → length (activities_of (f q')) ≤ 1)
    → KeepsOne q (released o q f)
unfolding released
released-KeepsOne q none f h k = (refl, omega arith)
released-KeepsOne q (some q') f h k = (h q' refl, k q')

pub published : (q : ProcessQueue) (o : Option ℕ) → activities_of (publish_offset q o) ≡ []
unfolding publish_offset
published q none = refl
published q (some o) = refl

finish-KeepsOne :
    (k : MessageModel) (r : ConsumeMessageResult) (c : FifoConsumer) (m : Message)
    (q : ProcessQueue)
    → KeepsOne q (finish k r c m q)
unfolding finish
finish-KeepsOne clustering ConsumeMessageResult.success c m q =
    released-KeepsOne q _ _ (λ q' e. bound-release c.quota _ _ q q' e) (λ q'. omega arith)
finish-KeepsOne clustering ConsumeMessageResult.failure c m q =
    (refl, unfold retry_or_forward in (ground arith))
finish-KeepsOne broadcasting r c m q =
    released-KeepsOne q _ _ (λ q' e. bound-release c.quota _ _ q q' e)
      (λ q'. rw (published q' (committed_offset q')) (omega arith))

pub permit_activities :
    (s : Service) (m : Message) (es : List Effect)
    → activities_of (permit s m ++ es) ≡ activities_of es
unfolding permit
permit_activities s m es = ground arith

consume_task-KeepsOne :
    (s : Service) (c : FifoConsumer) (m : Message) (q : ProcessQueue)
    → KeepsOne q (consume_task s (some q) (some c) m)
unfolding consume_task
consume_task-KeepsOne s c m q =
    permitted (finish c.message_model (result_of (s.consume_message m)) c m q)
      (finish-KeepsOne c.message_model (result_of (s.consume_message m)) c m q)
  where
    permitted : (o : Outcome) → KeepsOne q o → KeepsOne q (o.0, permit s m ++ o.1)
    permitted (none, es) h = h
    permitted (some q', es) h = (h.0, rw (permit_activities s m es) h.1)

perform-Fits :
    (s : Service) (c : FifoConsumer) (q q' : ProcessQueue) (a : Activity) (answer : Bool)
    (effects : List Effect)
    → q.has_fifo_task_bound ≡ true
    → perform s c q a answer ≡ (some q', effects)
    → Fits q' (activities_of effects)
unfolding perform
perform-Fits s c q q' (running m) answer es b e =
    ground (arith, subst (KeepsOne q) e (consume_task-KeepsOne s c m q))
perform-Fits s c q q' (awaiting_ack m) true es b e = unfold on_ack in (ground arith)
perform-Fits s c q q' (awaiting_ack m) false es b e =
    unfold on_ack unbind_fifo_consume_task in (ground arith)
perform-Fits s c q q' (acking_later m) answer es b e = unfold schedule_ack_task in (ground arith)
perform-Fits s c q q' (awaiting_forward m) true es b e =
    unfold on_forward_to_dead_letter_queue unbind_fifo_consume_task in (ground arith)
perform-Fits s c q q' (awaiting_forward m) false es b e =
    unfold on_forward_to_dead_letter_queue in (ground arith)
perform-Fits s c q q' (forwarding_later m) answer es b e =
    unfold schedule_forward_dead_letter_queue_task in (ground arith)
perform-Fits s c q q' (consuming_later m) answer es b e =
    unfold schedule_consume_task in (ground arith)

submit-Fits :
    (c : FifoConsumer) (q q' : ProcessQueue) (l : List Activity) (effects : List Effect)
    → Fits q l
    → submit_consume_task (some q) (some c) ≡ (some q', effects)
    → Fits q' (l ++ activities_of effects)
unfolding submit_consume_task bind_fifo_consume_task take_messages submit_single
submit-Fits c q q' l es h e = ground (arith, length-append l (activities_of es))

-- What every step keeps: one activity at most, and none on a queue that is not bound.
pub record Inv (w : Machine) : Type 0 where
  pub fits : length w.activities ≤ capacity w.queue.has_fifo_task_bound

pub one_between :
    (before after : List Activity) (a : Activity)
    → length (before ++ (a ∷ after)) ≤ 1
    → (before ≡ []) × (after ≡ [])
one_between [] [] a h = (refl, refl)
one_between [] (b ∷ after) a h = absurd (omega arith)
one_between (b ∷ before) after a h = absurd (omega (arith, length-append before (a ∷ after)))

performs-Fits :
    (s : Service) (c : FifoConsumer) (w : Machine) (before after : List Activity) (a : Activity)
    (answer : Bool) (q : ProcessQueue) (effects : List Effect)
    → Inv w
    → w.activities ≡ before ++ (a ∷ after)
    → perform s c w.queue a answer ≡ (some q, effects)
    → Fits q (before ++ (activities_of effects ++ after))
performs-Fits s c w before after a answer q effects v held e =
    let long : length (before ++ (a ∷ after)) ≤ capacity w.queue.has_fifo_task_bound =
      subst (λ l. length l ≤ capacity w.queue.has_fifo_task_bound) held v.fits in
    let bound : w.queue.has_fifo_task_bound ≡ true =
      ground (arith, length-append before (a ∷ after)) in
    let alone = one_between before after a (ground arith) in
    rw (alone.0, alone.1)
      (ground (
        arith,
        perform-Fits s c w.queue q a answer effects bound e,
        length-append (activities_of effects) [],
      ))

pub Step-Inv : {c : FifoConsumer} {w v : Machine} → Step c w v → Inv w → Inv v
Step-Inv {c} {w} (arrives ms) v = record { fits = rw (bound-cache c.quota ms w.queue) v.fits }
Step-Inv {c} {w} (dispatches {q} {effects} e) v = record {
  fits = submit-Fits c w.queue q w.activities effects v.fits e;
}
Step-Inv {c} {w} (performs s before after a answer {q} {effects} held e) v = record {
  fits = performs-Fits s c w before after a answer q effects v held e;
}

pub Reach-Inv : {c : FifoConsumer} {w v : Machine} → Inv w → Reach c w v → Inv v
Reach-Inv i here = i
Reach-Inv i (later r s) = Step-Inv s (Reach-Inv i r)

pub idle-Inv :
    (queue : MessageQueue) (filter : FilterExpression) (now : ℕ) → Inv (idle queue filter now)
unfolding init
idle-Inv queue filter now = record { fits = omega arith }

pub bounded :
    (w : Machine)
    → Inv w
    → (length w.activities ≤ 1) × (w.queue.has_fifo_task_bound ≡ false → w.activities ≡ [])
bounded w v = let h = v.fits in (ground arith, λ e. ground arith)

-- From an idle queue, however batches, rounds of the dispatcher and callbacks interleave and whatever
-- the listener answers, at most one consume task, acknowledgement, forwarding or retry of the queue is
-- pending, and none while the queue is not bound.
pub one_at_a_time :
    (c : FifoConsumer) (queue : MessageQueue) (filter : FilterExpression) (now : ℕ) {w : Machine}
    → Reach c (idle queue filter now) w
    → (length w.activities ≤ 1) × (w.queue.has_fifo_task_bound ≡ false → w.activities ≡ [])
one_at_a_time c queue filter now {w} r = bounded w (Reach-Inv (idle-Inv queue filter now) r)
