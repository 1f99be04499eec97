-- ===== src/Queue/World.antt =====
-- A process queue with the messages that were taken from it and not yet released, under any sequence
-- of `cacheMessages`, `take` and `release`.
use rocketmq_client_cpp.Prelude.Word.{u32, u64}
use rocketmq_client_cpp.Prelude.{ℕ, ◌+◌, ◌≡◌, some, List, [], ◌∷◌, ◌++◌, length}
use rocketmq_client_cpp.Types.{broadcasting, MessageQueue, Message, FilterExpression}
use rocketmq_client_cpp.Queue.{
  Consumer, ProcessQueue, init, body_size, cache_messages, take_messages, release,
}
use rocketmq_client_cpp.Queue.Tracking.{count, Tracks}

pub record World : Type 0 where
  pub queue : ProcessQueue
  pub inflight : List Message

abbrev pub offsets_of : List Message → List ℕ
offsets_of [] = []
offsets_of (m ∷ ms) = m.queue_offset ∷ offsets_of ms

abbrev pub bytes_of : List Message → ℕ
bytes_of [] = 0
bytes_of (m ∷ ms) = body_size m + bytes_of ms

-- Each message of a batch has an offset that is not outstanding when it is cached.
abbrev pub IsFresh : List Message → List ℕ → Type 0
IsFresh [] out = Unit {0}
IsFresh (m ∷ ms) out = (count m.queue_offset out ≡ 0) × IsFresh ms (m.queue_offset ∷ out)

abbrev pub outstanding : World → List ℕ
outstanding w = offsets_of (w.queue.cached_messages ++ w.inflight)

pub data Step (c : Consumer) (w : World) : World → Type 0 where
  caches :
      (ms : List Message)
      → IsFresh ms (outstanding w)
      → Step c w (record w { queue = (cache_messages (some c) ms w.queue).0 })
  takes :
      (n : ℕ)
      → Step c w (record {
        queue = (take_messages n w.queue).0;
        inflight = w.inflight ++ (take_messages n w.queue).1;
      })
  releases :
      (before after : List Message) (m : Message) {q : ProcessQueue}
      → w.inflight ≡ before ++ (m ∷ after)
      → release (some c) (body_size m) m.queue_offset w.queue ≡ some q
      → Step c w (record { queue = q; inflight = before ++ after })

pub data Reach (c : Consumer) : World → Type 0 where
  start :
      (queue : MessageQueue) (filter : FilterExpression) (now : ℕ)
      → Reach c (record { queue = init queue filter now; inflight = [] })
  later : {w v : World} → Reach c w → Step c w v → Reach c v

-- The counters are the number and the bytes of the messages cached or in flight, as the machine word
-- keeps them; in the broadcasting model the offset set tracks their offsets.
pub record Inv (c : Consumer) (w : World) : Type 0 where
  pub quantity :
      w.queue.cached_message_quantity ≡ u32 (length w.queue.cached_messages + length w.inflight)
  pub memory :
      w.queue.cached_message_memory ≡ u64 (bytes_of w.queue.cached_messages + bytes_of w.inflight)
  pub tracked : c.message_model ≡ broadcasting → Tracks (outstanding w) w.queue.offsets
