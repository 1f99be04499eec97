-- ===== src/Queue/Refine.antt =====
-- A process queue of ProcessQueueImpl.cpp against its specification: a bag of outstanding offsets.
use rocketmq_client_cpp.Prelude.{
  ℕ, drop, ◌<◌, ◌≡◌, refl, sym, ◌∙◌, ap, Option, some, none, List, [], ◌∷◌, ◌++◌, arith, keep,
  append-nil, append_assoc, Bool-cases, inl, inr,
}
use rocketmq_client_cpp.Types.{MessageModel, broadcasting, Message, FilterExpression, accept}
use rocketmq_client_cpp.Queue.{
  Consumer, ProcessQueue, cache_loop, cache_message, cache_messages, take_messages, take_loop,
  release, with_offsets, release_quota, committed_offset, body_size, init,
}
use mathlib.Core.Quot
use rocketmq_client_cpp.Queue.Offsets.{OffsetRecord}
use rocketmq_client_cpp.Queue.Tracking.{count, count-append}
use rocketmq_client_cpp.Queue.Taking.{take_loop-append, take_loop-eq}
use rocketmq_client_cpp.Queue.World.{
  World, Reach, Step, start, caches, takes, later, releases, outstanding, offsets_of, Inv,
}
use rocketmq_client_cpp.Queue.Account.{count-offsets, released_count, Reach-account}
use rocketmq_client_cpp.Queue.Least.{Reach-committed_least}
use rocketmq_client_cpp.Queue.Bag.{Bag, of_list, occurrences, add_all, remove, remove_sound, first}

-- What a caller does.
pub data Operation : Type 0 where
  cache : List Message → Operation
  take : ℕ → Operation
  release_one : ℕ → Operation

-- What a queue promises: the messages that wait, in the order of their coming, and the offsets that are outstanding.
pub record Spec : Type 0 where
  pub waiting : List Message
  pub out : Bag

abbrev pub nothing : Spec
nothing = record { waiting = []; out = of_list [] }

-- A batch adds the messages that pass the filter, at the back; taking moves the first ones out, which stay
-- outstanding; and a release takes out one offset.
unfoldable pub apply : FilterExpression → Operation → Spec → Spec
apply f (cache ms) s = record {
  waiting = s.waiting ++ keep (accept f) ms;
  out = add_all (offsets_of (keep (accept f) ms)) s.out;
}
apply f (take n) s = record s { waiting = drop n s.waiting }
apply f (release_one o) s = record s { out = remove o s.out }

abbrev pub operation : {c : Consumer} {w v : World} → Step c w v → Operation
operation (caches ms fresh) = cache ms
operation (takes n) = take n
operation (releases before after m held done) = release_one m.queue_offset

-- What the operations of a run come to.
unfoldable pub specified : {c : Consumer} {w : World} → FilterExpression → Reach c w → Spec
specified f (start queue filter now) = nothing
specified f (later r s) = apply f (operation s) (specified f r)

abbrev pub abstraction : World → Spec
abstraction w = record { waiting = w.queue.cached_messages; out = of_list (outstanding w) }

-- What a loop of `cacheMessages` leaves in the cache.
pub cache_loop-cached :
    (model : MessageModel) (ms : List Message) (q : ProcessQueue)
    → ((cache_loop model ms q).0.cached_messages
        ≡ q.cached_messages ++ keep (accept q.filter_expression) ms)
      × ((cache_loop model ms q).0.filter_expression ≡ q.filter_expression)
unfolding cache_loop cache_message
cache_loop-cached model [] q = (sym (append-nil q.cached_messages), refl)
cache_loop-cached model (m ∷ ms) q = elim (Bool-cases (accept q.filter_expression m)) [
  | inl fits ↦
      let (cached, filter) = cache_loop-cached model ms (cache_message model m q) in
      rw fits (
        cached ∙ append_assoc q.cached_messages (m ∷ []) (keep (accept q.filter_expression) ms),
        filter,
      )
  | inr dropped ↦ rw dropped (cache_loop-cached model ms q)
]

with_offsets-kept :
    (p q : ProcessQueue) (o : Option (List OffsetRecord))
    → with_offsets p o ≡ some q
    → (q.cached_messages ≡ p.cached_messages) × (q.filter_expression ≡ p.filter_expression)
unfolding with_offsets
with_offsets-kept p q none e = absurd cc
with_offsets-kept p q (some rs) e = (cc, cc)

pub release-kept :
    (c : Consumer) (size o : ℕ) (p q : ProcessQueue)
    → release (some c) size o p ≡ some q
    → (q.cached_messages ≡ p.cached_messages) × (q.filter_expression ≡ p.filter_expression)
unfolding release
release-kept c size o p q e = with_offsets-kept (release_quota size p) q _ e

count-moved :
    (o : ℕ) (xs ys zs : List Message)
    → count o (offsets_of ((xs ++ ys) ++ zs)) ≡ count o (offsets_of ys ++ offsets_of (xs ++ zs))
count-moved o xs ys zs = omega (
  arith,
  count-offsets o (xs ++ ys) zs,
  count-offsets o xs ys,
  count-offsets o xs zs,
  count-append o (offsets_of ys) (offsets_of (xs ++ zs)),
)

same_view :
    {ms ns : List Message} {b d : Bag}
    → ms ≡ ns
    → b ≡ d
    → ◌≡◌ {A = Spec} (record { waiting = ms; out = b }) (record { waiting = ns; out = d })
same_view e h = λ i. record { waiting = e i; out = h i }

module _ (c : Consumer) (w : World) where
  -- The step does what the specification says, on the abstract view, and keeps the filter.
  abbrev Refines : Operation → World → Type 0
  Refines o v =
      (abstraction v ≡ apply w.queue.filter_expression o (abstraction w))
      × (v.queue.filter_expression ≡ w.queue.filter_expression)

  caches-Refines :
      (ms : List Message)
      → Refines (cache ms) (record w { queue = (cache_messages (some c) ms w.queue).0 })
  unfolding cache_messages add_all apply
  caches-Refines ms =
      let (cached, filter) = cache_loop-cached c.message_model ms w.queue in
      (
        same_view cached (
            Quot.sound (λ o.
              ap (λ l. count o (offsets_of (l ++ w.inflight))) cached
              ∙ count-moved o w.queue.cached_messages (keep (accept w.queue.filter_expression) ms)
                  w.inflight)),
        filter,
      )

  takes-Refines :
      (n : ℕ)
      → Refines (take n) (record {
        queue = (take_messages n w.queue).0;
        inflight = w.inflight ++ (take_messages n w.queue).1;
      })
  unfolding take_messages apply
  takes-Refines n =
      let messages = (take_loop n w.queue.cached_messages).0 in
      let rest = (take_loop n w.queue.cached_messages).1 in
      (
        same_view (ap (λ p. p.1) (take_loop-eq n w.queue.cached_messages)) (
            Quot.sound (λ o. omega (
              arith,
              ap (λ l. count o (offsets_of l)) (take_loop-append n w.queue.cached_messages),
              count-offsets o messages rest,
              count-offsets o rest (w.inflight ++ messages),
              count-offsets o w.inflight messages,
              count-offsets o w.queue.cached_messages w.inflight,
            ))),
        refl,
      )

  releases-Refines :
      (before after : List Message) (m : Message) (q : ProcessQueue)
      → w.inflight ≡ before ++ (m ∷ after)
      → release (some c) (body_size m) m.queue_offset w.queue ≡ some q
      → Inv c w
      → Refines (release_one m.queue_offset) (record { queue = q; inflight = before ++ after })
  unfolding apply
  releases-Refines before after m q held done i =
      let (cached, filter) = release-kept c (body_size m) m.queue_offset w.queue q done in
      (
        same_view cached (
            ap (λ l. of_list (offsets_of (l ++ (before ++ after)))) cached
            ∙ sym (
                remove_sound m.queue_offset (outstanding w)
                  (offsets_of (w.queue.cached_messages ++ (before ++ after)))
                  (released_count c w before after m held i))),
        filter,
      )

Step-Refines : {c : Consumer} {w v : World} (s : Step c w v) → Inv c w → Refines c w (operation s) v
Step-Refines {c} {w} (caches ms f) i = caches-Refines c w ms
Step-Refines {c} {w} (takes n) i = takes-Refines c w n
Step-Refines {c} {w} (releases before after m {q} held done) i =
    releases-Refines c w before after m q held done i

Reach-specified :
    {c : Consumer} {w : World} (r : Reach c w)
    → abstraction w ≡ specified w.queue.filter_expression r
unfolding init specified
Reach-specified (start queue filter now) = refl
Reach-specified {w = v} (later {w} r s) =
    let (spec, same) = Step-Refines s (Reach-account r) in
    spec
    ∙ (ap (apply w.queue.filter_expression (operation s)) (Reach-specified r)
        ∙ ap (λ f. apply f (operation s) (specified f r)) (sym same))

-- A process queue does what the operations that led to it come to: a batch adds the messages that pass
-- the filter, in their order behind the cached ones, and their offsets to the bag of those
-- outstanding; taking moves as many messages as asked for, or all, out of the front of the cache, and
-- their offsets stay outstanding; a release takes its offset out of the bag. The cache is what the
-- specification has waiting, the offsets cached or in flight are its bag, and in the broadcasting
-- model, with some offset outstanding, the committed offset is the least of the bag. The messages of a
-- batch have offsets that are not outstanding when they are cached.
pub Reach-refines :
    {c : Consumer} {w : World}
    → (r : Reach c w)
    → (abstraction w ≡ specified w.queue.filter_expression r)
      × (c.message_model ≡ broadcasting
          → (o : ℕ) → 0 < occurrences o (abstraction w).out
          → committed_offset w.queue ≡ first (specified w.queue.filter_expression r).out)
unfolding occurrences first
Reach-refines {w} r = (
  Reach-specified r,
  λ e o p. Reach-committed_least r e o p ∙ ap (λ s. first s.out) (Reach-specified r),
)
