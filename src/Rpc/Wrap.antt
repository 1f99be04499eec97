-- ===== src/Rpc/Wrap.antt =====
-- From a response to messages: `wrapMessage`, `processPopResult` and `processPullResult` of
-- src/main/cpp/client/ClientManagerImpl.cpp. The attributes that no other part reads are those of Wire; the
-- latency histogram is left out.
pub mod Pull
pub mod Pop
use rocketmq_client_cpp.Prelude.{
  ℕ, Bool, true, false, Option, none, some, List, [], ◌∷◌, is_empty, if◌then◌else◌,
}
use rocketmq_client_cpp.Prelude.Text.{Text, text_eq}
use rocketmq_client_cpp.Types.{Message}
use rocketmq_client_cpp.Wire.{SystemAttribute, read_attributes, set_target_endpoint}
use rocketmq_client_cpp.Rpc.{
  Code, other, ok, resource_exhausted, deadline_exceeded, not_found, unauthenticated,
  permission_denied, invalid_argument, failed_precondition, internal, out_of_range,
}

pub data DigestType : Type 0 where
  crc32_digest md5_digest sha1_digest : DigestType
  other_digest : ℕ → DigestType

pub data Encoding : Type 0 where
  identity gzip : Encoding
  other_encoding : ℕ → Encoding

-- `rmq::Message` with its system attributes.
pub record Item : Type 0 where
  pub resource_namespace : Text
  pub topic : Text
  pub tag : Text
  pub message_id : Text
  pub body : Text
  pub digest_type : DigestType
  pub checksum : Text
  pub body_encoding : Encoding
  pub partition_offset : ℕ
  pub delivery_attempt : ℕ
  pub system : SystemAttribute

-- The digests, `none` where they fail, what `uncompress` leaves in its result, the name of this host
-- and the clock.
pub record Codec : Type 0 where
  pub crc32 : Text → Option Text
  pub md5 : Text → Option Text
  pub sha1 : Text → Option Text
  pub uncompress : Text → Text
  pub hostname : Text
  pub now : ℕ

pub data Wrapped : Type 0 where
  failed_assertion corrupted : Wrapped
  wrapped : Message → Wrapped

-- A digest that fails counts as given.
abbrev equals : Bool → Option Text → Text → Bool
equals given none expected = given
equals given (some checksum) expected = text_eq expected checksum

digest_match : Codec → DigestType → Text → Text → Bool
digest_match codec crc32_digest body expected = equals false (codec.crc32 body) expected
digest_match codec md5_digest body expected = equals true (codec.md5 body) expected
digest_match codec sha1_digest body expected = equals false (codec.sha1 body) expected
digest_match codec (other_digest n) body expected = true

unfoldable pub body_digest_match : Codec → Item → Bool
unfolding digest_match
body_digest_match codec i =
    if is_empty i.body then true else digest_match codec i.digest_type i.body i.checksum

decode : Codec → Encoding → Text → Text
decode codec identity body = body
decode codec gzip body = codec.uncompress body
decode codec (other_encoding n) body = []

unfoldable pub wrapped_message : Codec → Item → Message
unfolding decode
wrapped_message codec i = record {
  topic = i.topic;
  msg_id = i.message_id;
  tags = i.tag;
  body = decode codec i.body_encoding i.body;
  queue_offset = i.partition_offset;
  delivery_attempt = i.delivery_attempt;
  attributes = read_attributes codec.hostname codec.now i.system;
}

unfoldable pub wrap_message : Text → Codec → Item → Wrapped
wrap_message resource_namespace codec i =
    if text_eq i.resource_namespace resource_namespace
    then if body_digest_match codec i then wrapped (wrapped_message codec i) else corrupted
    else failed_assertion

pub data ReceiveMessageStatus : Type 0 where
  ok_status deadline_exceeded_status resource_exhausted_status not_found_status :
      ReceiveMessageStatus
  out_of_range_status data_corrupted_status internal_status : ReceiveMessageStatus

pub record ReceiveResult : Type 0 where
  pub status : ReceiveMessageStatus
  pub messages : List Message
  pub next_offset : ℕ

pub record Response : Type 0 where
  pub code : Code
  pub items : List Item
  pub next_offset : ℕ

-- One round of the loop of `processPopResult`, before the rounds that are left. What else is set in a
-- message is an argument.
pub pop_step : (Message → Message) → Wrapped → Option (List Message) → Option (List Message)
pop_step set failed_assertion rest = none
pop_step set corrupted rest = rest
pop_step set (wrapped m) none = none
pop_step set (wrapped m) (some ms) = some (set m ∷ ms)

-- The loop, of `processPopResult` and of `pull` of PullConsumerImpl.cpp. `none` is a failed assertion.
unfoldable pub pop_loop : (Message → Message) → Text → Codec → List Item → Option (List Message)
unfolding pop_step
pop_loop set ns codec [] = some []
pop_loop set ns codec (i ∷ items) =
    pop_step set (wrap_message ns codec i) (pop_loop set ns codec items)

pop_status : Code → ReceiveMessageStatus
pop_status ok = ok_status
pop_status resource_exhausted = resource_exhausted_status
pop_status deadline_exceeded = deadline_exceeded_status
pop_status not_found = not_found_status
pop_status unauthenticated = internal_status
pop_status permission_denied = internal_status
pop_status invalid_argument = internal_status
pop_status failed_precondition = internal_status
pop_status internal = internal_status
pop_status out_of_range = internal_status
pop_status (other n) = internal_status

is_found : ReceiveMessageStatus → Bool
is_found ok_status = true
is_found deadline_exceeded_status = false
is_found resource_exhausted_status = false
is_found not_found_status = false
is_found out_of_range_status = false
is_found data_corrupted_status = false
is_found internal_status = false

pop_result : ReceiveMessageStatus → Option (List Message) → Option ReceiveResult
pop_result s none = none
pop_result s (some ms) = some (record { status = s; messages = ms; next_offset = 0 })

-- The target is set first, and `wrapMessage` leaves it.
unfoldable pub process_pop_result : Text → Text → Codec → Response → Option ReceiveResult
unfolding pop_status is_found pop_result
process_pop_result target ns codec r =
    let s = pop_status r.code in
    pop_result s
      (if is_found s then pop_loop (set_target_endpoint target) ns codec r.items else some [])

-- One round of the loop of `processPullResult`, before the rounds that are left.
pull_step :
    Wrapped
    → Option (ReceiveMessageStatus × List Message)
    → Option (ReceiveMessageStatus × List Message)
pull_step failed_assertion rest = none
pull_step corrupted rest = some (data_corrupted_status, [])
pull_step (wrapped m) none = none
pull_step (wrapped m) (some (s, ms)) = some (s, m ∷ ms)

-- The loop: the status and the messages.
unfoldable pub pull_loop : Text → Codec → List Item → Option (ReceiveMessageStatus × List Message)
unfolding pull_step
pull_loop ns codec [] = some (ok_status, [])
pull_loop ns codec (i ∷ items) = pull_step (wrap_message ns codec i) (pull_loop ns codec items)

pull_result : Option (ReceiveMessageStatus × List Message) → Option ReceiveResult
pull_result none = none
pull_result (some (s, ms)) = some (record { status = s; messages = ms; next_offset = 0 })

-- The early return leaves only OK to the switch.
pull_by_code : Text → Codec → List Item → Code → Option ReceiveResult
unfolding pull_result
pull_by_code ns codec items ok =
    if is_empty items then none else pull_result (pull_loop ns codec items)
pull_by_code ns codec items c =
    some (record { status = internal_status; messages = []; next_offset = 0 })

unfoldable pub process_pull_result : Text → Codec → Response → Option ReceiveResult
unfolding pull_by_code
process_pull_result ns codec r = pull_by_code ns codec r.items r.code
