-- ===== src/PublishInfo.antt =====
-- Which partitions a producer may publish to, and how it picks among them:
-- src/main/cpp/client/TopicPublishInfo.cpp. The counter `send_which_queue_`, which the objects of a
-- thread share, is a field of the record, as one call sees it; the set of isolated endpoints is a test on
-- addresses.
pub mod Take
pub mod Update
use rocketmq_client_cpp.Prelude.Word.{u32}
use rocketmq_client_cpp.Prelude.{
  ℕ, zero, suc, ◌+◌, ◌%◌, Bool, true, false, not, ◌&&◌, ◌||◌, Option, none, some, List, [], ◌∷◌,
  ◌++◌, length, get_elem?, is_empty, any, leb, if◌then◌else◌,
}
use rocketmq_client_cpp.Prelude.Text.{Text, text_eq}
use rocketmq_client_cpp.Prelude.Int.{eq_ℤ}
use rocketmq_client_cpp.Prelude.Sort.{sort}
use rocketmq_client_cpp.Types.{MessageQueue, mq_lt}
use rocketmq_client_cpp.Route.{Partition, Permission, as_message_queue, master_broker_id}

pub record PublishInfo : Type 0 where
  pub partition_list : List Partition
  pub topic : Text
  pub topic_route_data : List Partition
  pub send_which_queue : ℕ  -- uint32_t

-- `++send_which_queue_`.
abbrev pub advance : PublishInfo → PublishInfo
advance p = record p { send_which_queue = u32 (p.send_which_queue + 1) }

unfoldable pub queue_at : List Partition → ℕ → Option MessageQueue
queue_at l i = elim (get_elem? l i) [ none ↦ none | some p ↦ some (as_message_queue p) ]

unfoldable pub select_one_message_queue : PublishInfo → PublishInfo × Option MessageQueue
unfolding queue_at
select_one_message_queue p =
    let p' = advance p in
    (
      p',
      if is_empty p'.partition_list
          then none
          else queue_at p'.partition_list (p'.send_which_queue % length p'.partition_list),
    )

is_active : (Text → Bool) → Option MessageQueue → Bool
is_active isolated none = false
is_active isolated (some q) = not (isolated q.service_address)

-- The loop: the rounds left, and `index`, which wraps.
active_loop : List Partition → (Text → Bool) → ℕ → ℕ → Option MessageQueue
unfolding queue_at is_active
active_loop l isolated zero index = none
active_loop l isolated (suc rounds) index =
    let q = queue_at l (index % length l) in
    let rest = active_loop l isolated rounds (u32 (index + 1)) in
    if is_active isolated q then q else rest

unfoldable pub select_one_active_message_queue :
    (Text → Bool) → PublishInfo → PublishInfo × Option MessageQueue
unfolding active_loop
select_one_active_message_queue isolated p =
    let p' = advance p in
    (p', active_loop p'.partition_list isolated (length p'.partition_list) p'.send_which_queue)

abbrev pub has_broker : Text → List MessageQueue → Bool
has_broker name qs = any (λ q. text_eq q.broker_name name) qs

-- The body of the loop, for a queue that is not isolated.
unfoldable pub add_candidate : MessageQueue → List MessageQueue → List MessageQueue
add_candidate q candidates =
    if has_broker q.broker_name candidates then candidates else candidates ++ q ∷ []

-- Candidates after one partition, and whether `count` is reached there.
unfoldable pub consider :
    (Text → Bool) → ℕ → Option MessageQueue → List MessageQueue → List MessageQueue × Bool
consider isolated count none candidates = (candidates, false)
consider isolated count (some q) candidates =
    let candidates' = add_candidate q candidates in
    if isolated q.service_address
    then (candidates, false)
    else (candidates', leb count (length candidates'))

unfoldable pub take_loop :
    List Partition → (Text → Bool) → ℕ → ℕ → ℕ → List MessageQueue → List MessageQueue × Bool
unfolding queue_at
take_loop l isolated count zero index candidates = (candidates, false)
take_loop l isolated count (suc rounds) index candidates =
    let step = consider isolated count (queue_at l (index % length l)) candidates in
    let rest = take_loop l isolated count rounds (u32 (index + 1)) step.0 in
    if step.1 then step else rest

-- The new state, the candidates, and the result.
unfoldable pub take_message_queues :
    (Text → Bool) → List MessageQueue → ℕ → PublishInfo → PublishInfo × List MessageQueue × Bool
take_message_queues isolated candidates count p =
    let p' = advance p in
    let l = p'.partition_list in
    let (taken, full) = take_loop l isolated count (length l) p'.send_which_queue candidates in
    (
      p',
      (if is_empty l then candidates else taken),
      not (is_empty l) && (full || not (is_empty taken)),
    )

abbrev is_writable : Permission → Bool
is_writable Permission.none = false
is_writable Permission.read = false
is_writable Permission.write = true
is_writable Permission.read_write = true

abbrev pub is_publishable : Partition → Bool
is_publishable p = is_writable p.permission && eq_ℤ master_broker_id p.broker.id

unfoldable pub add_writable : Partition → Option (List Partition) → Option (List Partition)
add_writable p none = none
add_writable p (some l) = some (if is_publishable p then p ∷ l else l)

-- The loop of `updatePublishInfo`; `none` is the failed assertion on the name of the topic.
unfoldable pub writable_partitions : Text → List Partition → Option (List Partition)
unfolding add_writable
writable_partitions topic [] = some []
writable_partitions topic (p ∷ l) =
    let rest = writable_partitions topic l in
    if text_eq p.topic.name topic then add_writable p rest else none

unfoldable pub publish : PublishInfo → Option (List Partition) → Option PublishInfo
publish p none = none
publish p (some writable) =
    some (if is_empty writable then p else record p { partition_list = writable })

unfoldable pub update_publish_info : PublishInfo → Option PublishInfo
unfolding publish
update_publish_info p = publish p (writable_partitions p.topic p.topic_route_data)

unfoldable pub make : Text → List Partition → ℕ → Option PublishInfo
unfolding update_publish_info
make topic route which = update_publish_info (record {
  partition_list = [];
  topic = topic;
  topic_route_data = route;
  send_which_queue = which;
})

unfoldable pub set_topic_route_data : List Partition → PublishInfo → Option PublishInfo
unfolding update_publish_info
set_topic_route_data route p = update_publish_info (record p { topic_route_data = route })

list_loop : List Partition → List MessageQueue
list_loop [] = []
list_loop (p ∷ l) =
    let q = as_message_queue p in
    if is_writable p.permission && not (is_empty q.service_address)
    then q ∷ list_loop l
    else list_loop l

unfoldable pub get_message_queue_list : PublishInfo → List MessageQueue
unfolding list_loop
get_message_queue_list p = sort mq_lt (list_loop p.partition_list)
