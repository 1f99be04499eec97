-- ===== src/Queue/Binding.antt =====
-- The mark of the FIFO task through caching and releasing (ProcessQueueImpl.cpp).
use rocketmq_client_cpp.Prelude.{
  ℕ, ◌≡◌, refl, Option, none, some, List, [], ◌∷◌, arith, inl, inr, Bool-cases,
}
use rocketmq_client_cpp.Types.{Message, MessageModel, accept}
use rocketmq_client_cpp.Queue.Offsets.{OffsetRecord}
use rocketmq_client_cpp.Queue.{
  release_quota, Consumer, ProcessQueue, cache_message, cache_loop, cache_messages, release,
  with_offsets,
}

pub bound-cache_loop :
    (model : MessageModel) (ms : List Message) (q : ProcessQueue)
    → (cache_loop model ms q).0.has_fifo_task_bound ≡ q.has_fifo_task_bound
unfolding cache_loop cache_message
bound-cache_loop model [] q = refl
bound-cache_loop model (m ∷ ms) q = elim (Bool-cases (accept q.filter_expression m)) [
  | inl e ↦ rw e (bound-cache_loop model ms (cache_message model m q))
  | inr e ↦ rw e (bound-cache_loop model ms q)
]

pub bound-cache :
    (c : Consumer) (ms : List Message) (q : ProcessQueue)
    → (cache_messages (some c) ms q).0.has_fifo_task_bound ≡ q.has_fifo_task_bound
unfolding cache_messages
bound-cache c ms q = bound-cache_loop c.message_model ms q

bound-with_offsets :
    (q q' : ProcessQueue) (o : Option (List OffsetRecord))
    → with_offsets q o ≡ some q'
    → q'.has_fifo_task_bound ≡ q.has_fifo_task_bound
unfolding with_offsets
bound-with_offsets q q' none e = cc
bound-with_offsets q q' (some rs) e = ground arith

pub bound-release :
    (c : Consumer) (size o : ℕ) (q q' : ProcessQueue)
    → release (some c) size o q ≡ some q'
    → q'.has_fifo_task_bound ≡ q.has_fifo_task_bound
unfolding release
bound-release c size o q q' e = bound-with_offsets (release_quota size q) q' _ e
