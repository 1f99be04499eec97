-- ===== src/Fifo/Order.antt =====
-- The order in which ConsumeFifoMessageService.cpp hands messages to the listener.
use rocketmq_client_cpp.Prelude.{
  ℕ, ◌≡◌, ◌≤◌, refl, ap, sym, subst, ◌∙◌, Bool, some, List, [], ◌∷◌, ◌++◌, All, map, keep,
  append-nil, append_assoc, length, All-map,
}
use rocketmq_client_cpp.Types.{Message, MessageQueue, FilterExpression, accept}
use rocketmq_client_cpp.Queue.{ProcessQueue, init, cache_messages}
use rocketmq_client_cpp.Queue.Refine.{cache_loop-cached}
use rocketmq_client_cpp.Fifo.{FifoConsumer, Service, Effect, submit_consume_task}
use rocketmq_client_cpp.Fifo.Machine.{
  Activity, running, awaiting_ack, acking_later, awaiting_forward, forwarding_later,
  consuming_later, activities_of, perform, Machine, Step, arrives, dispatches, performs, Reach,
  here, later, idle,
}
use rocketmq_client_cpp.Fifo.Exclusion.{Inv, Reach-Inv, idle-Inv, bounded, one_between}
use rocketmq_client_cpp.Fifo.Kept.{key, message_of, About, Keeps, perform-Keeps}
use rocketmq_client_cpp.Fifo.Sequence.{
  arrived_by, consumed_of, consumed_by, arrived, consumed, InOrder, InOrder-extend, InOrder-last,
}
use rocketmq_client_cpp.Fifo.Dispatched.{
  first_of, rest_of, first_task, first_rest, Submitted, kept, took, submit-Submitted,
}

abbrev Last : List Message → Message → Type 0
Last taken m = (pre : List Message) × (taken ≡ pre ++ m ∷ [])

-- After some steps: what has come is what was taken out, then what is cached; the listener was called in the order
-- of the former, and what is pending is about its last message.
record Ordered (f : FilterExpression) (w : Machine) (came called : List Message) : Type 0 where
  filter : w.queue.filter_expression ≡ f
  taken : List Message
  whole : came ≡ taken ++ map key w.queue.cached_messages
  in_order : InOrder called taken
  about_last : All (λ a. Last taken (key (message_of a))) w.activities

map-append : (xs ys : List Message) → map key (xs ++ ys) ≡ map key xs ++ map key ys
map-append [] ys = refl
map-append (x ∷ xs) ys = ap (λ l. key x ∷ l) (map-append xs ys)

arrives-Ordered :
    (f : FilterExpression) (c : FifoConsumer) (w : Machine) (came called : List Message)
    (ms : List Message)
    → Ordered f w came called
    → Ordered f
        (record w { queue = (cache_messages (some c.quota) ms w.queue).0 })
        (came ++ map key (keep (accept w.queue.filter_expression) ms))
        (called ++ [])
unfolding cache_messages
arrives-Ordered f c w came called ms o =
    let (cached, filter) = cache_loop-cached c.message_model ms w.queue in
    record {
      filter = filter ∙ o.filter;
      taken = o.taken;
      whole =
          ap (λ l. l ++ map key (keep (accept w.queue.filter_expression) ms)) o.whole
          ∙ (append_assoc o.taken (map key w.queue.cached_messages) _
              ∙ ap (λ l. o.taken ++ l)
                  (sym (
                      map-append w.queue.cached_messages
                        (keep (accept w.queue.filter_expression) ms))
                    ∙ ap (map key) (sym cached)));
      in_order = subst (λ l. InOrder l o.taken) (sym (append-nil called)) o.in_order;
      about_last = o.about_last;
    }

All-middle :
    (P : Activity → Type 0) (before after : List Activity) (a : Activity)
    → All P (before ++ a ∷ after)
    → P a
All-middle P [] after a h = h.0
All-middle P (b ∷ before) after a h = All-middle P before after a h.1

consumed_of-InOrder :
    (called taken : List Message) (a : Activity)
    → Last taken (key (message_of a))
    → InOrder called taken
    → InOrder (called ++ consumed_of a) taken
consumed_of-InOrder called taken (running m) (pre, e) o =
    subst (InOrder (called ++ key m ∷ [])) (sym e)
      (InOrder-last called pre (key m) (subst (InOrder called) e o))
consumed_of-InOrder called taken (awaiting_ack m) l o = rw (append-nil called) o
consumed_of-InOrder called taken (acking_later m) l o = rw (append-nil called) o
consumed_of-InOrder called taken (awaiting_forward m) l o = rw (append-nil called) o
consumed_of-InOrder called taken (forwarding_later m) l o = rw (append-nil called) o
consumed_of-InOrder called taken (consuming_later m) l o = rw (append-nil called) o

performs-Ordered :
    (f : FilterExpression) (s : Service) (c : FifoConsumer) (w : Machine)
    (came called : List Message) (before after : List Activity) (a : Activity) (answer : Bool)
    (q : ProcessQueue) (effects : List Effect)
    → Inv w
    → w.activities ≡ before ++ (a ∷ after)
    → perform s c w.queue a answer ≡ (some q, effects)
    → Ordered f w came called
    → Ordered f
        (record { queue = q; activities = before ++ (activities_of effects ++ after) })
        (came ++ [])
        (called ++ consumed_of a)
performs-Ordered f s c w came called before after a answer q effects i held e o =
    let (cached, (filter, about)) =
      subst (Keeps w.queue (message_of a)) e (perform-Keeps s c w.queue a answer) in
    let last =
      All-middle (λ b. Last o.taken (key (message_of b))) before after a
        (subst (All (λ b. Last o.taken (key (message_of b)))) held o.about_last) in
    let alone = one_between before after a (subst (λ l. length l ≤ 1) held (bounded w i).0) in
    record {
      filter = filter ∙ o.filter;
      taken = o.taken;
      whole = append-nil came ∙ (o.whole ∙ ap (λ l. o.taken ++ map key l) (sym cached));
      in_order = consumed_of-InOrder called o.taken a last o.in_order;
      about_last =
          rw (alone.0, alone.1, append-nil (activities_of effects))
            (All-map (About (message_of a)) (λ b. Last o.taken (key (message_of b)))
              (λ b same. subst (Last o.taken) (sym same) last) (activities_of effects) about);
    }

first_task-Last :
    (taken l : List Message)
    → All
        (λ a. Last (taken ++ map key (first_of l)) (key (message_of a)))
        (activities_of (first_task l))
first_task-Last taken [] = tt
first_task-Last taken (m ∷ []) = tt
first_task-Last taken (m ∷ n ∷ l) = ((taken, refl), tt)

dispatches-Ordered :
    (f : FilterExpression) (c : FifoConsumer) (w : Machine) (came called : List Message)
    (q : ProcessQueue) (effects : List Effect)
    → Inv w
    → submit_consume_task (some w.queue) (some c) ≡ (some q, effects)
    → Ordered f w came called
    → Ordered f
        (record { queue = q; activities = w.activities ++ activities_of effects })
        (came ++ [])
        (called ++ [])
dispatches-Ordered f c w came called q effects i e o = of (submit-Submitted c w.queue q effects e)
  where
    of :
        Submitted w.queue q effects
        → Ordered f
            (record { queue = q; activities = w.activities ++ activities_of effects })
            (came ++ [])
            (called ++ [])
    of (kept cached filter quiet) = record {
      filter = filter ∙ o.filter;
      taken = o.taken;
      whole = append-nil came ∙ (o.whole ∙ ap (λ l. o.taken ++ map key l) (sym cached));
      in_order = rw (append-nil called) o.in_order;
      about_last = rw (quiet, append-nil w.activities) o.about_last;
    }
    of (took free cached filter asks) = record {
      filter = filter ∙ o.filter;
      taken = o.taken ++ map key (first_of w.queue.cached_messages);
      whole =
          append-nil came
          ∙ (o.whole
              ∙ (ap (λ l. o.taken ++ map key l) (first_rest w.queue.cached_messages)
                  ∙ (ap (λ l. o.taken ++ l)
                        (map-append (first_of w.queue.cached_messages)
                          (rest_of w.queue.cached_messages))
                      ∙ (sym (append_assoc o.taken _ _)
                          ∙ ap
                              (λ l.
                                (o.taken ++ map key (first_of w.queue.cached_messages))
                                ++ map key l)
                              (sym cached)))));
      in_order =
          rw (append-nil called)
            (InOrder-extend called o.taken (map key (first_of w.queue.cached_messages)) o.in_order);
      about_last =
          rw ((bounded w i).1 free, asks) (first_task-Last o.taken w.queue.cached_messages);
    }

Step-Ordered :
    (f : FilterExpression) {c : FifoConsumer} {w v : Machine} (came called : List Message)
    (step : Step c w v)
    → Inv w
    → Ordered f w came called
    → Ordered f v (came ++ arrived_by step) (called ++ consumed_by step)
Step-Ordered f {c} {w} came called (arrives ms) i o = arrives-Ordered f c w came called ms o
Step-Ordered f {c} {w} came called (dispatches {q} {effects} e) i o =
    dispatches-Ordered f c w came called q effects i e o
Step-Ordered f {c} {w} came called (performs s before after a answer {q} {effects} held e) i o =
    performs-Ordered f s c w came called before after a answer q effects i held e o

Reach-Ordered :
    (f : FilterExpression) {c : FifoConsumer} {w v : Machine} (r : Reach c w v)
    → Inv w
    → Ordered f w [] []
    → Ordered f v (arrived r) (consumed r)
Reach-Ordered f here i o = o
Reach-Ordered f (later r step) i o =
    Step-Ordered f (arrived r) (consumed r) step (Reach-Inv i r) (Reach-Ordered f r i o)

idle-Ordered :
    (queue : MessageQueue) (filter : FilterExpression) (now : ℕ)
    → Ordered filter (idle queue filter now) [] []
unfolding init
idle-Ordered queue filter now = record {
  filter = refl;
  taken = [];
  whole = refl;
  in_order = tt;
  about_last = tt;
}

-- From an idle queue, however batches, rounds of the dispatcher and callbacks interleave and whatever
-- the listener answers, it is called with messages in the order in which they came and passed the
-- filter, the count of deliveries aside: it may get a message again or never, and does not go back to
-- an earlier one.
pub consumed-InOrder :
    (c : FifoConsumer) (queue : MessageQueue) (filter : FilterExpression) (now : ℕ) {w : Machine}
    → (r : Reach c (idle queue filter now) w) → InOrder (consumed r) (arrived r)
consumed-InOrder c queue filter now {w} r =
    let o = Reach-Ordered filter r (idle-Inv queue filter now) (idle-Ordered queue filter now) in
    subst (InOrder (consumed r)) (sym o.whole)
      (InOrder-extend (consumed r) o.taken (map key w.queue.cached_messages) o.in_order)
