-- ===== src/Fifo/Dispatched.antt =====
-- What a round of the dispatcher of ConsumeFifoMessageService.cpp takes out of a queue.
use rocketmq_client_cpp.Prelude.{
  ◌≡◌, ◌==◌, refl, ap, sym, ◌∙◌, Bool, true, false, some, List, [], ◌∷◌, ◌++◌, arith,
}
use rocketmq_client_cpp.Types.{Message}
use rocketmq_client_cpp.Queue.{ProcessQueue, take_messages, take_loop, bind_fifo_consume_task}
use rocketmq_client_cpp.Fifo.{
  FifoConsumer, Effect, Outcome, submit_consume_task, submit_bound, submit_single, submit_task,
  abort,
}
use rocketmq_client_cpp.Fifo.Machine.{activities_of}

abbrev pub first_of : List Message → List Message
first_of [] = []
first_of (m ∷ l) = m ∷ []

abbrev pub rest_of : List Message → List Message
rest_of [] = []
rest_of (m ∷ l) = l

-- The task for the first message, if it is not the only one.
abbrev pub first_task : List Message → List Effect
first_task [] = []
first_task (m ∷ []) = []
first_task (m ∷ n ∷ l) = submit_task m ∷ []

pub first_rest : (l : List Message) → l ≡ first_of l ++ rest_of l
first_rest [] = refl
first_rest (m ∷ l) = refl

submit_bound-first :
    (c : FifoConsumer) (q : ProcessQueue) (l : List Message)
    → c.consume_batch_size ≡ 1
    → submit_bound c (record q { cached_messages = l; has_fifo_task_bound = true }, true)
      ≡ (some (record q { cached_messages = rest_of l; has_fifo_task_bound = true }), first_task l)
unfolding submit_bound take_messages take_loop submit_single
submit_bound-first c q [] one = refl
submit_bound-first c q (m ∷ []) one = rw one refl
submit_bound-first c q (m ∷ n ∷ l) one = rw one refl

-- What a round of the dispatcher does: nothing to the cache, or the first message out of it and nothing else pending.
pub data Submitted (q q' : ProcessQueue) (effects : List Effect) : Type 0 where
  kept :
      q'.cached_messages ≡ q.cached_messages
      → q'.filter_expression ≡ q.filter_expression
      → activities_of effects ≡ []
      → Submitted q q' effects
  took :
      q.has_fifo_task_bound ≡ false
      → q'.cached_messages ≡ rest_of q.cached_messages
      → q'.filter_expression ≡ q.filter_expression
      → effects ≡ first_task q.cached_messages
      → Submitted q q' effects

components :
    (p q : ProcessQueue) {es fs : List Effect}
    → ◌≡◌ {A = Outcome} (some p, es) (some q, fs)
    → (q ≡ p) × (fs ≡ es)
components p q e = (cc, cc)

pub submit-Submitted :
    (c : FifoConsumer) (q q' : ProcessQueue) (effects : List Effect)
    → submit_consume_task (some q) (some c) ≡ (some q', effects)
    → Submitted q q' effects
unfolding submit_consume_task bind_fifo_consume_task
submit-Submitted c q q' effects e = of (c.consume_batch_size == 1) q.has_fifo_task_bound refl refl
  where
    of :
        (one bound : Bool)
        → (c.consume_batch_size == 1) ≡ one
        → q.has_fifo_task_bound ≡ bound
        → Submitted q q' effects
    of false bound o b =
        let run : submit_consume_task (some q) (some c) ≡ (some q, abort ∷ []) = rw o refl in
        let (same, asks) = components q q' (sym run ∙ e) in
        kept (ap (λ p. p.cached_messages) same) (ap (λ p. p.filter_expression) same)
          (ap activities_of asks)
    of true true o b =
        let run : submit_consume_task (some q) (some c) ≡ (some q, []) =
          unfold submit_bound in rw (o, b) refl in
        let (same, asks) = components q q' (sym run ∙ e) in
        kept (ap (λ p. p.cached_messages) same) (ap (λ p. p.filter_expression) same)
          (ap activities_of asks)
    of true false o b =
        let run : submit_consume_task (some q) (some c)
            ≡ submit_bound c (record q { has_fifo_task_bound = true }, true) =
          rw (o, b) refl in
        let left : ProcessQueue = record q {
          cached_messages = rest_of q.cached_messages;
          has_fifo_task_bound = true;
        } in
        let first = submit_bound-first c q q.cached_messages (ground arith) in
        let (same, asks) = components left q' (sym first ∙ (sym run ∙ e)) in
        took b (ap (λ p. p.cached_messages) same) (ap (λ p. p.filter_expression) same) asks
