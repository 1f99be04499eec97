-- ===== src/Queue/Account.antt =====
-- The account of `World` through caching, taking and releasing (ProcessQueueImpl.cpp): the counters
-- and the offset set.
use rocketmq_client_cpp.Queue.Taking.{take_loop-append}
use rocketmq_client_cpp.Queue.Tracks.{Tracks-release, Tracks-committed}
use rocketmq_client_cpp.Prelude.{
  none, refl, ℕ, ◌+◌, ◌≡◌, sym, subst, List, [], ◌∷◌, ◌++◌, arith, length-append, ◌≤◌, ap, some,
  true, length, Bool-cases, inl, inr, ◌<◌, Option,
}
use rocketmq_client_cpp.Types.{MessageModel-cases, broadcasting, Message}
use rocketmq_client_cpp.Queue.{
  release_quota, release_tracked, with_offsets, Consumer, ProcessQueue, cache_message,
  take_messages, cache_loop, OffsetRecord, take_loop, accept, release_offset, release,
  committed_offset, cache_messages, body_size, init,
}
use rocketmq_client_cpp.Queue.Tracking.{count, Tracks, open_records}
use rocketmq_client_cpp.Queue.Tracks.{Tracks-perm, Tracks-cache}
use rocketmq_client_cpp.Queue.World.{
  offsets_of, bytes_of, Inv, World, outstanding, IsFresh, Reach, Step, start, caches, takes, later,
  releases,
}

pub count-offsets :
    (o : ℕ) (xs ys : List Message)
    → count o (offsets_of (xs ++ ys)) ≡ count o (offsets_of xs) + count o (offsets_of ys)
count-offsets o [] ys = omega arith
count-offsets o (x ∷ xs) ys = ground (arith, count-offsets o xs ys)

pub bytes_of-append : (xs ys : List Message) → bytes_of (xs ++ ys) ≡ bytes_of xs + bytes_of ys
bytes_of-append [] ys = omega arith
bytes_of-append (x ∷ xs) ys = omega (arith, bytes_of-append xs ys)

-- A message that is cached comes last in the cache, and counts as the first outstanding one.
count-cached :
    (o : ℕ) (xs ys : List Message) (m : Message)
    → count o (offsets_of ((xs ++ m ∷ []) ++ ys)) ≡ count o (m.queue_offset ∷ offsets_of (xs ++ ys))
count-cached o xs ys m =
    ground
      (arith, count-offsets o (xs ++ m ∷ []) ys, count-offsets o xs (m ∷ []), count-offsets o xs ys)

cache_message-tracked :
    (c : Consumer) (q : ProcessQueue) (l : List Message) (m : Message)
    → c.message_model ≡ broadcasting
    → count m.queue_offset (offsets_of (q.cached_messages ++ l)) ≡ 0
    → Tracks (offsets_of (q.cached_messages ++ l)) q.offsets
    → Tracks
        (offsets_of ((cache_message c.message_model m q).cached_messages ++ l))
        (cache_message c.message_model m q).offsets
unfolding cache_message
cache_message-tracked c q l m e f t =
    subst
      (λ model.
        Tracks (offsets_of ((cache_message model m q).cached_messages ++ l))
          (cache_message model m q).offsets)
      (sym e)
      (Tracks-perm _ _ _ (λ o. count-cached o q.cached_messages l m)
        (Tracks-cache m.queue_offset _ q.offsets f t))

cache_message-Inv :
    (c : Consumer) (q : ProcessQueue) (l : List Message) (m : Message)
    → count m.queue_offset (offsets_of (q.cached_messages ++ l)) ≡ 0
    → Inv c (record { queue = q; inflight = l })
    → Inv c (record { queue = cache_message c.message_model m q; inflight = l })
unfolding cache_message
cache_message-Inv c q l m f v = record {
  quantity = omega (arith, v.quantity, length-append q.cached_messages (m ∷ []));
  memory = omega (arith, v.memory, bytes_of-append q.cached_messages (m ∷ []));
  tracked = λ e. cache_message-tracked c q l m e f (v.tracked e);
}

-- Fewer outstanding offsets leave a fresh batch fresh.
IsFresh-anti :
    (ms : List Message) (out out' : List ℕ)
    → ((o : ℕ) → count o out' ≤ count o out)
    → IsFresh ms out
    → IsFresh ms out'
IsFresh-anti [] out out' h f = tt
IsFresh-anti (m ∷ ms) out out' h f = (
  omega (arith, h m.queue_offset, f.0),
  IsFresh-anti ms (m.queue_offset ∷ out) (m.queue_offset ∷ out') (λ o. ground (arith, h o)) f.1,
)

cache_loop-Inv :
    (c : Consumer) (ms : List Message) (q : ProcessQueue) (l : List Message)
    → IsFresh ms (offsets_of (q.cached_messages ++ l))
    → Inv c (record { queue = q; inflight = l })
    → Inv c (record { queue = (cache_loop c.message_model ms q).0; inflight = l })
unfolding cache_loop
cache_loop-Inv c [] q l f v = v
cache_loop-Inv c (m ∷ ms) q l f v = elim (Bool-cases (accept q.filter_expression m)) [
  | inl fits ↦ rw fits (
      cache_loop-Inv c ms (cache_message c.message_model m q) l (cached_fresh fits)
        (cache_message-Inv c q l m f.0 v))
  | inr dropped ↦
      rw dropped (cache_loop-Inv c ms q l (IsFresh-anti ms _ _ (λ o. ground arith) f.1) v)
]
  where
    cached_fresh :
        accept q.filter_expression m ≡ true
        → IsFresh ms (offsets_of ((cache_message c.message_model m q).cached_messages ++ l))
    cached_fresh _ =
        IsFresh-anti ms (m.queue_offset ∷ offsets_of (q.cached_messages ++ l)) _
          (λ o. unfold cache_message in (omega (arith, count-cached o q.cached_messages l m))) f.1

take-Inv :
    (c : Consumer) (n : ℕ) (w : World)
    → Inv c w
    → Inv c (record {
      queue = (take_messages n w.queue).0;
      inflight = w.inflight ++ (take_messages n w.queue).1;
    })
unfolding take_messages
take-Inv c n w v =
    let messages = (take_loop n w.queue.cached_messages).0 in
    let rest = (take_loop n w.queue.cached_messages).1 in
    let split = take_loop-append n w.queue.cached_messages in
    record {
      quantity = omega (
        arith,
        v.quantity,
        ap length split,
        length-append messages rest,
        length-append w.inflight messages,
      );
      memory = omega (
        arith,
        v.memory,
        ap bytes_of split,
        bytes_of-append messages rest,
        bytes_of-append w.inflight messages,
      );
      tracked = λ e.
          Tracks-perm _ _ _
            (λ o. omega (
              arith,
              ap (λ l. count o (offsets_of l)) split,
              count-offsets o messages rest,
              count-offsets o rest (w.inflight ++ messages),
              count-offsets o w.inflight messages,
              count-offsets o w.queue.cached_messages w.inflight,
            ))
            (v.tracked e);
    }

with_offsets_total :
    (q : ProcessQueue) (o : Option (List OffsetRecord))
    → (rs : List OffsetRecord) × (o ≡ some rs)
    → (q' : ProcessQueue) × (with_offsets q o ≡ some q')
unfolding with_offsets
with_offsets_total q none (rs, e) = cc
with_offsets_total q (some r) (rs, e) = (_, refl)

-- What releasing the message `m` between `before` and `after` does to the account.
module _ (c : Consumer) (w : World) (before after : List Message) (m : Message)
    (held : w.inflight ≡ before ++ (m ∷ after)) (v : Inv c w) where
  abbrev out' : List ℕ
  out' = offsets_of (w.queue.cached_messages ++ (before ++ after))

  pub released_count : (o : ℕ) → count o (outstanding w) ≡ count o (m.queue_offset ∷ out')
  released_count o = ground (
    arith,
    ap (λ l. count o (offsets_of l)) held,
    count-offsets o w.queue.cached_messages w.inflight,
    count-offsets o w.queue.cached_messages (before ++ after),
    count-offsets o before after,
    count-offsets o before (m ∷ after),
  )

  released_tracked :
      c.message_model ≡ broadcasting
      → (rs : List OffsetRecord) × (release_offset m.queue_offset w.queue.offsets ≡ some rs)
        × Tracks out' rs
  released_tracked e = Tracks-release m.queue_offset _ out' _ released_count (v.tracked e)

  released_any :
      (rs : List OffsetRecord) × (release_tracked c.message_model m.queue_offset w.queue.offsets
        ≡ some rs)
  unfolding release_tracked
  released_any = elim (MessageModel-cases c.message_model) [
    | inl e ↦
        let t = released_tracked e in
        (t.0, subst (λ k. release_tracked k m.queue_offset w.queue.offsets ≡ some t.0) (sym e) t.1)
    | inr e ↦ (
      w.queue.offsets,
      subst (λ k. release_tracked k m.queue_offset w.queue.offsets ≡ some w.queue.offsets) (sym e)
          refl,
    )
  ]

  -- Releasing a message in flight never meets a failed assertion.
  pub release_held :
      (q : ProcessQueue) × (release (some c) (body_size m) m.queue_offset w.queue ≡ some q)
  unfolding release
  release_held = with_offsets_total (release_quota (body_size m) w.queue) _ released_any

  release-Inv :
      {q : ProcessQueue}
      → release (some c) (body_size m) m.queue_offset w.queue ≡ some q
      → Inv c (record { queue = q; inflight = before ++ after })
  unfolding release
  release-Inv {q} done = record {
    quantity = ground (
      arith,
      v.quantity,
      ap length held,
      length-append before (m ∷ after),
      length-append before after,
    );
    memory = ground (
      arith,
      v.memory,
      ap bytes_of held,
      bytes_of-append before (m ∷ after),
      bytes_of-append before after,
    );
    tracked = λ e.
        let (rs, p, t) = released_tracked e in
        let same : (rs ≡ q.offsets) × (w.queue.cached_messages ≡ q.cached_messages) =
          ground arith in
        subst (λ l. Tracks (offsets_of (l ++ (before ++ after))) q.offsets) same.1
          (subst (Tracks (offsets_of (w.queue.cached_messages ++ (before ++ after)))) same.0 t);
  }

pub Step-Inv : {c : Consumer} {w v : World} → Step c w v → Inv c w → Inv c v
unfolding cache_messages
Step-Inv {c} {w} (caches ms f) i = cache_loop-Inv c ms w.queue w.inflight f i
Step-Inv {c} {w} (takes n) i = take-Inv c n w i
Step-Inv {c} {w} (releases before after m held done) i = release-Inv c w before after m held i done

-- In every state that a process queue reaches by caching, taking and releasing, its two counters are
-- the number and the bytes of the messages that are cached or in flight, modulo 2^32 and 2^64, and in
-- the broadcasting model the offset set tracks their offsets; the messages of a batch have offsets
-- that are not outstanding when they are cached, and one message in flight is released at a time.
pub Reach-account : {c : Consumer} {w : World} → Reach c w → Inv c w
Reach-account (start queue filter now) =
    unfold init in
    record { quantity = refl; memory = refl; tracked = λ e. open_records tt tt (λ o. refl) }
Reach-account (later r s) = Step-Inv s (Reach-account r)

-- In every state that a process queue reaches by caching, taking and releasing, in the broadcasting
-- model, no message that is cached or in flight lies before the committed offset; the messages of a
-- batch have offsets that are not outstanding when they are cached.
Reach-committed_offset :
    {c : Consumer} {w : World}
    → Reach c w
    → c.message_model ≡ broadcasting
    → (committed o : ℕ) → committed_offset w.queue ≡ some committed
    → 0 < count o (outstanding w)
    → committed ≤ o
unfolding committed_offset
Reach-committed_offset {w} r e k o h p =
    Tracks-committed o k _ w.queue.offsets ((Reach-account r).tracked e) h p

-- In every state that a process queue reaches by caching, taking and releasing, in both models, a
-- message in flight can be released without a failed assertion; the messages of a batch have offsets
-- that are not outstanding when they are cached.
pub Reach-release_ok :
    {c : Consumer} {w : World}
    → Reach c w
    → (before after : List Message) (m : Message) → w.inflight ≡ before ++ (m ∷ after)
    → (q : ProcessQueue) × (release (some c) (body_size m) m.queue_offset w.queue ≡ some q)
Reach-release_ok {c} {w} r before after m held =
    release_held c w before after m held (Reach-account r)
