-- ===== src/Queue.antt =====
-- The process queue of one message queue: src/main/cpp/rocketmq/ProcessQueueImpl.cpp and its header.
-- A method under its mutexes is a function on the record. `consumer_.lock()` is an argument, `none`
-- where the consumer is gone; `none` as a result is a failed assertion.
pub mod Offsets
pub mod Tracking
pub mod Tracks
pub mod Taking
pub mod World
pub mod Account
pub mod Binding
pub mod Quota
pub mod Least
pub mod Bag
pub mod Refine
pub mod Requests
use rocketmq_client_cpp.Prelude.Word.{u32, u64, sub_u32, sub_u64}
use rocketmq_client_cpp.Prelude.{
  ℕ, zero, suc, ◌+◌, ◌-◌, ◌*◌, ◌%◌, ◌^◌, Bool, true, false, not, ◌&&◌, Option, none, some, List, [],
  ◌∷◌, ◌++◌, length, take, drop, is_empty, ltb, leb, ◌==◌, if◌then◌else◌,
}
use rocketmq_client_cpp.Types.{
  MessageModel, broadcasting, clustering, MessageQueue, Message, FilterExpression, accept,
}
use Offsets.{OffsetRecord, emplace, erase, forget_released, release_offset, committed}

-- What a queue asks of its consumer.
pub record Consumer : Type 0 where
  pub max_cached_message_quantity : ℕ  -- uint32_t
  pub max_cached_message_memory : ℕ  -- uint64_t
  pub message_model : MessageModel

pub record ProcessQueue : Type 0 where
  pub message_queue : MessageQueue
  pub filter_expression : FilterExpression
  pub idle_since : ℕ  -- nanoseconds of the steady clock
  pub cached_messages : List Message
  pub cached_message_quantity : ℕ  -- uint32_t
  pub cached_message_memory : ℕ  -- uint64_t
  pub next_offset : ℕ
  pub has_fifo_task_bound : Bool
  pub offsets : List OffsetRecord

abbrev pub expiration_threshold : ℕ
expiration_threshold = 120 * 1_000_000_000

abbrev pub body_size : Message → ℕ
body_size m = length m.body

unfoldable pub init : MessageQueue → FilterExpression → ℕ → ProcessQueue
init queue filter now = record {
  message_queue = queue;
  filter_expression = filter;
  idle_since = now;
  cached_messages = [];
  cached_message_quantity = 0;
  cached_message_memory = 0;
  next_offset = 0;
  has_fifo_task_bound = false;
  offsets = [];
}

unfoldable pub expired : ℕ → ProcessQueue → Bool
expired now q = ltb expiration_threshold (now - q.idle_since)

unfoldable pub throttles : Consumer → ProcessQueue → Bool
throttles c q =
    if leb c.max_cached_message_quantity q.cached_message_quantity
    then true
    else if c.max_cached_message_memory == 0
    then false
    else leb c.max_cached_message_memory q.cached_message_memory

unfoldable pub should_throttle : Option Consumer → ProcessQueue → Bool
unfolding throttles
should_throttle none q = false
should_throttle (some c) q = throttles c q

unfoldable pub has_pending_messages : ProcessQueue → Bool
has_pending_messages q = not (is_empty q.cached_messages)

track_offset : MessageModel → ℕ → List OffsetRecord → List OffsetRecord
track_offset broadcasting o rs =
    emplace (record { offset = o; released = false }) (forget_released rs)
track_offset clustering o rs = rs

-- The body of the loop of `cacheMessages`, for a message that passes the filter.
unfoldable pub cache_message : MessageModel → Message → ProcessQueue → ProcessQueue
unfolding track_offset
cache_message model m q = record q {
  cached_messages = q.cached_messages ++ m ∷ [];
  cached_message_quantity = u32 (q.cached_message_quantity + 1);
  cached_message_memory = u64 (q.cached_message_memory + body_size m);
  offsets = track_offset model m.queue_offset q.offsets;
}

-- The loop itself: the queue, and the messages that are acknowledged at once.
unfoldable pub cache_loop : MessageModel → List Message → ProcessQueue → ProcessQueue × List Message
cache_loop model [] q = (q, [])
cache_loop model (m ∷ ms) q =
    let fits = accept q.filter_expression m in
    let (q', acked) = cache_loop model ms (if fits then cache_message model m q else q) in
    (q', if fits then acked else m ∷ acked)

unfoldable pub cache_messages :
    Option Consumer → List Message → ProcessQueue → ProcessQueue × List Message
cache_messages none ms q = (q, [])
cache_messages (some c) ms q = cache_loop c.message_model ms q

-- The loop of `take`: the messages moved out and those left; `batch_size` counts down to 0.
unfoldable pub take_loop : ℕ → List Message → List Message × List Message
take_loop batch_size [] = ([], [])
take_loop zero (m ∷ ms) = ([], m ∷ ms)
take_loop (suc batch_size) (m ∷ ms) =
    let (messages, rest) = take_loop batch_size ms in (m ∷ messages, rest)

-- The queue, the messages moved out, and whether the cache has more.
unfoldable pub take_messages : ℕ → ProcessQueue → ProcessQueue × List Message × Bool
take_messages batch_size q =
    let (messages, rest) = take_loop batch_size q.cached_messages in
    (record q { cached_messages = rest }, messages, not (is_empty rest))

unfoldable pub committed_offset : ProcessQueue → Option ℕ
committed_offset q = committed q.offsets

release_tracked : MessageModel → ℕ → List OffsetRecord → Option (List OffsetRecord)
release_tracked broadcasting o rs = release_offset o rs
release_tracked clustering o rs = some rs

with_offsets : ProcessQueue → Option (List OffsetRecord) → Option ProcessQueue
with_offsets q none = none
with_offsets q (some rs) = some (record q { offsets = rs })

-- The `fetch_sub` of both counters.
abbrev pub release_quota : ℕ → ProcessQueue → ProcessQueue
release_quota size q = record q {
  cached_message_quantity = sub_u32 q.cached_message_quantity 1;
  cached_message_memory = sub_u64 q.cached_message_memory size;
}

unfoldable pub release : Option Consumer → ℕ → ℕ → ProcessQueue → Option ProcessQueue
unfolding with_offsets release_tracked
release none size o q = some q
release (some c) size o q =
    with_offsets (release_quota size q) (release_tracked c.message_model o q.offsets)

unfoldable pub sync_idle_state : ℕ → ProcessQueue → ProcessQueue
sync_idle_state now q = record q { idle_since = now }

-- The compare-and-exchange on `has_fifo_task_bound_`: the queue, and whether it was exchanged.
unfoldable pub bind_fifo_consume_task : ProcessQueue → ProcessQueue × Bool
bind_fifo_consume_task q =
    if q.has_fifo_task_bound then (q, false) else (record q { has_fifo_task_bound = true }, true)

unfoldable pub unbind_fifo_consume_task : ProcessQueue → ProcessQueue × Bool
unbind_fifo_consume_task q =
    if q.has_fifo_task_bound then (record q { has_fifo_task_bound = false }, true) else (q, false)
