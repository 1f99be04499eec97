-- ===== src/Tests/Queue.antt =====
-- The process queue.
use rocketmq_client_cpp.Prelude.{◌<◌, ◌≡◌, refl, some, [], ◌∷◌, ℕ}
use rocketmq_client_cpp.Types.{accept, broadcasting}
use rocketmq_client_cpp.Queue.{
  cache_loop, cache_message, take_loop, ProcessQueue, take_messages, release, committed_offset,
  body_size, init, cache_messages,
}
use rocketmq_client_cpp.Queue.Offsets.{committed, emplace, forget_released}
use rocketmq_client_cpp.Prelude.Text.{text_eq}
use rocketmq_client_cpp.Queue.World.{outstanding, World, Reach, Inv, start, later, caches, takes}
use rocketmq_client_cpp.Queue.Account.{Reach-account, Reach-release_ok}
use rocketmq_client_cpp.Queue.Bag.{occurrences, first}
use rocketmq_client_cpp.Queue.Refine.{specified, abstraction, Reach-refines}
use rocketmq_client_cpp.Tests.{message, consumer, queue_0, any_tag}

-- Two messages arrive in the broadcasting model, and one is taken.
abbrev cached : World
cached = record {
  queue =
      (cache_messages (some (consumer broadcasting)) (message 5 ∷ message 6 ∷ [])
        (init queue_0 any_tag 0)).0;
  inflight = [];
}

abbrev taken : World
taken = record {
  queue = (take_messages 1 cached.queue).0;
  inflight = (take_messages 1 cached.queue).1;
}

taken-Reach : Reach (consumer broadcasting) taken
unfolding init
taken-Reach =
    later (later (start queue_0 any_tag 0) (caches (message 5 ∷ message 6 ∷ []) (refl, (refl, tt))))
      (takes 1)

taken_committed : committed_offset taken.queue ≡ some 5
unfolding committed_offset committed take_messages take_loop cache_messages cache_loop cache_message
    accept init emplace forget_released text_eq
taken_committed = refl

taken_held : taken.inflight ≡ message 5 ∷ []
unfolding committed_offset committed take_messages take_loop cache_messages cache_loop cache_message
    accept init emplace forget_released text_eq
taken_held = refl

taken-outstanding : outstanding taken ≡ 6 ∷ 5 ∷ []
unfolding committed_offset committed take_messages take_loop cache_messages cache_loop cache_message
    accept init emplace forget_released text_eq
taken-outstanding = refl

Reach-account_example : Inv (consumer broadcasting) taken
Reach-account_example = Reach-account taken-Reach

Reach-refines_example :
    (abstraction taken ≡ specified taken.queue.filter_expression taken-Reach)
    × (broadcasting ≡ broadcasting
        → (o : ℕ) → 0 < occurrences o (abstraction taken).out
        → committed_offset taken.queue
          ≡ first (specified taken.queue.filter_expression taken-Reach).out)
Reach-refines_example = Reach-refines taken-Reach

Reach-release_ok_example :
    (q : ProcessQueue) × (release
        (some (consumer broadcasting))
        (body_size (message 5))
        5
        taken.queue
      ≡ some q)
Reach-release_ok_example = Reach-release_ok taken-Reach [] [] (message 5) taken_held
