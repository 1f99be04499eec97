-- ===== src/Producer.antt =====
-- The producer: src/main/cpp/rocketmq/ProducerImpl.cpp, with `validate` of src/main/cpp/base/MixAll.cpp.
-- The hash of a message group, the match of the topic's pattern and the routes that are looked up are
-- arguments. `none` as a result is a failed assertion or a division by zero.
pub mod Retry
pub mod Candidates
pub mod Request
pub mod Table
use rocketmq_client_cpp.Prelude.{
  ℕ, ◌%◌, Bool, true, false, not, ◌&&◌, ◌||◌, Option, none, some, List, [], ◌∷◌, ◌++◌, length,
  is_empty, get_elem?, find?, ltb, ◌==◌, if◌then◌else◌,
}
use rocketmq_client_cpp.Prelude.Text.{Text, codes, starts_with, text_eq}
use rocketmq_client_cpp.Prelude.Int.{ℤ, pos, leb_ℤ, pos_part}
use rocketmq_client_cpp.Types.{ErrorCode, MessageQueue, mq_eq, mq_valid}
use rocketmq_client_cpp.PublishInfo.{PublishInfo, take_message_queues, get_message_queue_list}
use Retry.{RetrySendCallback, Verdict, send_impl, answered}

pub record MqMessage : Type 0 where
  pub topic : Text
  pub body : Text
  pub message_group : Text
  pub message_queue : MessageQueue

-- What the code takes from elsewhere: `RE2::FullMatch` of the topic, and `std::hash`.
pub record Platform : Type 0 where
  pub topic_matches : Text → Bool
  pub hash : Text → ℕ

abbrev pub max_message_body_size : ℕ
max_message_body_size = 4_194_304

unfoldable pub validate : Platform → MqMessage → Bool
validate p m =
    let body_length = length m.body % 4_294_967_296 in
    if is_empty m.topic
    then false
    else if starts_with m.topic (codes "CID") || starts_with m.topic (codes "GID")
    then false
    else if not (p.topic_matches m.topic)
    then false
    else not (body_length == 0 || ltb max_message_body_size body_length)

-- What a lookup of the publish information calls back with.
pub data Lookup : Type 0 where
  failed : ErrorCode → Lookup
  found : PublishInfo → Lookup

pub single : Option MessageQueue → Option (List MessageQueue)
single none = none
single (some q) = some (q ∷ [])

-- The queues that a message names, out of a list: the one of its group, or the one that equals its own.
-- Of an empty list, where the remainder is by 0, there is none.
pub by_group : Platform → Text → List MessageQueue → Option (List MessageQueue)
unfolding single
by_group p group list = single (get_elem? list (p.hash group % length list))

pub by_queue : MessageQueue → List MessageQueue → List MessageQueue
by_queue mine list = elim (find? (λ entry. mq_eq entry mine) list) [ none ↦ [] | some x ↦ x ∷ [] ]

abbrev pub names_queue : MqMessage → Bool
names_queue m = not (is_empty m.message_group) || mq_valid m.message_queue

unfoldable pub named_queues : Platform → MqMessage → List MessageQueue → Option (List MessageQueue)
unfolding by_group by_queue
named_queues p m list =
    if not (is_empty m.message_group)
    then by_group p m.message_group list
    else some (by_queue m.message_queue list)

-- What a call of `send` does: an error, or `send0` on the candidates. The publish information is
-- returned as `takeMessageQueues` leaves it.
pub data Choice : Type 0 where
  refused : ErrorCode → Choice
  candidates : PublishInfo → List MessageQueue → Choice

offer : PublishInfo → Option (List MessageQueue) → Option Choice
offer info none = none
offer info (some []) = some (refused ErrorCode.service_unavailable)
offer info (some (q ∷ list)) = some (candidates info (q ∷ list))

round_robin : (Text → Bool) → ℕ → PublishInfo → Option Choice
unfolding offer
round_robin isolated max info =
    let (info', taken, more) = take_message_queues isolated [] max info in offer info' (some taken)

-- The list is looked up a second time by `listMessageQueue`.
choose_listed : Platform → MqMessage → PublishInfo → Lookup → Option Choice
unfolding offer
choose_listed p m info (failed ec) = some (refused ec)
choose_listed p m info (found listed) =
    let list = get_message_queue_list listed in
    if is_empty list
    then some (refused ErrorCode.service_unavailable)
    else offer info (named_queues p m list)

-- `send` that waits, up to `send0`: whether the client runs, and the two lookups.
unfoldable pub choose :
    Platform → (Text → Bool) → ℕ → Bool → MqMessage → Lookup → Lookup → Option Choice
unfolding choose_listed round_robin
choose p isolated max running m (failed ec) second =
    some (refused (if running then ErrorCode.not_found else ErrorCode.illegal_state))
choose p isolated max running m (found info) second =
    if not running
    then some (refused ErrorCode.illegal_state)
    else if names_queue m
    then choose_listed p m info second
    else round_robin isolated max info

-- The copy of a message that the callback takes: the copy constructor copies neither group nor queue.
unfoldable pub copied : MqMessage → MqMessage
copied m = record m {
  message_group = [];
  message_queue = record { topic = []; broker_name = []; queue_id = pos 0; service_address = [] };
}

-- `send` with a callback, up to `send0`: the errors that the callback gets first, then the choice.
unfoldable pub choose_async :
    Platform → (Text → Bool) → ℕ → Bool → MqMessage → Lookup → List ErrorCode × Option Choice
unfolding offer round_robin copied
choose_async p isolated max running m (failed ec) =
    (if running then [] else ErrorCode.illegal_state ∷ [], some (refused ec))
choose_async p isolated max running m (found info) = (
  if running then [] else ErrorCode.illegal_state ∷ [],
  if names_queue (copied m)
      then offer info (named_queues p (copied m) (get_message_queue_list info))
      else round_robin isolated max info,
)

unfoldable pub send0 : Platform → MqMessage → List MessageQueue → ℤ → Option Verdict
send0 p m list max =
    if not (validate p m)
    then some (answered ErrorCode.bad_request)
    else if is_empty list
    then some (answered ErrorCode.not_found)
    else if leb_ℤ max (pos 0)
    then some (answered ErrorCode.bad_configuration)
    else send_impl true
        (record { attempt_times = 0; max_attempt_times = pos_part max; candidates = list })

-- `withServiceAddress`: the queue, or an error.
pub data Addressed : Type 0 where
  unaddressed : ErrorCode → Addressed
  addressed : MessageQueue → Addressed

first_or : List MessageQueue → Option MessageQueue → Addressed
first_or list (some q) = addressed q
first_or [] none = unaddressed ErrorCode.not_found
first_or (q ∷ list) none = addressed q

listed : MessageQueue → Lookup → Addressed
unfolding first_or
listed q (failed ec) = unaddressed ec
listed q (found info) =
    let list = get_message_queue_list info in first_or list (find? (λ item. mq_eq item q) list)

unfoldable pub with_service_address : MessageQueue → Lookup → Addressed
unfolding listed
with_service_address q lookup =
    if not (is_empty q.service_address)
    then addressed q
    else if not (mq_valid q)
    then unaddressed ErrorCode.bad_request
    else listed q lookup
