-- ===== src/PushConsumer/Requests/Received.antt =====
-- Which received messages a push consumer can answer: those of a pop (`processPopResult` of
-- src/main/cpp/client/ClientManagerImpl.cpp), and not those of a pull.
use rocketmq_client_cpp.Prelude.{
  ◌+◌, ◌≡◌, refl, false, none, some, List, [], ◌∷◌, is_empty, keep, subst, sym, map, ℕ, ap, ◌∙◌,
}
use rocketmq_client_cpp.Prelude.Text.{Text}
use rocketmq_client_cpp.Types.{Message, Attributes}
use rocketmq_client_cpp.Wire.{
  read_attributes, read_timed_delivery, set_target_endpoint, TimedDelivery, not_timed,
  at_delay_level, at_timestamp, new_attributes, SystemAttribute,
}
use rocketmq_client_cpp.Rpc.Wrap.{
  Item, Codec, Response, ReceiveResult, ok_status, process_pop_result, process_pull_result,
  wrapped_message, body_digest_match,
}
use rocketmq_client_cpp.Rpc.Wrap.Pop.{popped, process_pop_result-kept}
use rocketmq_client_cpp.Rpc.Wrap.Pull.{process_pull_result-Found}
use rocketmq_client_cpp.PushConsumer.Requests.{
  Consumer, ack, nack, forward_to_dead_letter_queue, group_of, topic_of, wrap_ack_message_request,
}

-- The three answers to a message go to the host, and are about the item.
abbrev pub Answers : Consumer → Text → Message → Item → Type 0
Answers c host m i =
    (ack c m
      ≡ some (
        host,
        record {
          group = group_of c;
          topic = topic_of c i.topic;
          client_id = c.client_id;
          message_id = i.message_id;
          receipt_handle = i.system.receipt_handle;
        },
      ))
    × ((nack c m ≡ (
      host,
      record {
        group = group_of c;
        topic = topic_of c i.topic;
        client_id = c.client_id;
        receipt_handle = i.system.receipt_handle;
        message_id = i.message_id;
        delivery_attempt = i.delivery_attempt + 1;
        max_delivery_attempts = c.max_delivery_attempts;
      },
    ))
        × (forward_to_dead_letter_queue c m ≡ (
          host,
          record {
            group = group_of c;
            topic = topic_of c i.topic;
            client_id = c.client_id;
            message_id = i.message_id;
            delivery_attempt = i.delivery_attempt;
            max_delivery_attempts = c.max_delivery_attempts;
          },
        )))

-- One by one.
abbrev pub AnswerEach : Consumer → Text → List Message → List Item → Type 0
AnswerEach c host [] [] = Unit {0}
AnswerEach c host (m ∷ ms) (i ∷ items) = Answers c host m i × AnswerEach c host ms items
AnswerEach c host [] (i ∷ items) = ⊥
AnswerEach c host (m ∷ ms) [] = ⊥

read_timed_delivery-handle :
    (t : TimedDelivery) (a : Attributes)
    → (read_timed_delivery t a).receipt_handle ≡ a.receipt_handle
unfolding read_timed_delivery
read_timed_delivery-handle not_timed a = refl
read_timed_delivery-handle (at_delay_level level) a = refl
read_timed_delivery-handle (at_timestamp t) a = refl

read_timed_delivery-endpoint :
    (t : TimedDelivery) (a : Attributes)
    → (read_timed_delivery t a).target_endpoint ≡ a.target_endpoint
unfolding read_timed_delivery
read_timed_delivery-endpoint not_timed a = refl
read_timed_delivery-endpoint (at_delay_level level) a = refl
read_timed_delivery-endpoint (at_timestamp t) a = refl

read_attributes-handle :
    (hostname : Text) (now : ℕ) (s : SystemAttribute)
    → (read_attributes hostname now s).receipt_handle ≡ s.receipt_handle
unfolding read_attributes
read_attributes-handle hostname now s = read_timed_delivery-handle s.timed_delivery _

read_attributes-endpoint :
    (hostname : Text) (now : ℕ) (s : SystemAttribute)
    → (read_attributes hostname now s).target_endpoint ≡ []
unfolding read_attributes new_attributes
read_attributes-endpoint hostname now s = read_timed_delivery-endpoint s.timed_delivery _

wrapped_message-Answers :
    (c : Consumer) (host : Text) (codec : Codec) (i : Item)
    → is_empty host ≡ false
    → Answers c host (set_target_endpoint host (wrapped_message codec i)) i
unfolding ack nack forward_to_dead_letter_queue wrapped_message wrap_ack_message_request
wrapped_message-Answers c host codec i e =
    rw (e, read_attributes-handle codec.hostname codec.now i.system) (refl, (refl, refl))

kept-AnswerEach :
    (c : Consumer) (host : Text) (codec : Codec) (items : List Item)
    → is_empty host ≡ false
    → AnswerEach c host (map (popped (set_target_endpoint host) codec) items) items
kept-AnswerEach c host codec [] e = tt
kept-AnswerEach c host codec (i ∷ items) e =
    (wrapped_message-Answers c host codec i e, kept-AnswerEach c host codec items e)

-- When a pop from a host with a name comes to OK, its messages are those of the items whose digest
-- matches, in order, and the acknowledgement, the negative acknowledgement and the forwarding of each
-- go to that host, with the identifier of the item, its receipt handle where the request has one, and
-- its delivery attempt, one more for the negative one.
pub process_pop_result-AnswerEach :
    (c : Consumer) (host ns : Text) (codec : Codec) (response : Response) (r : ReceiveResult)
    → is_empty host ≡ false
    → process_pop_result host ns codec response ≡ some r
    → r.status ≡ ok_status
    → AnswerEach c host r.messages (keep (body_digest_match codec) response.items)
process_pop_result-AnswerEach c host ns codec response r e h s =
    subst (λ ms. AnswerEach c host ms (keep (body_digest_match codec) response.items))
      (sym (process_pop_result-kept host ns codec response r h s))
      (kept-AnswerEach c host codec (keep (body_digest_match codec) response.items) e)

wrapped_message-unanswered :
    (c : Consumer) (codec : Codec) (i : Item) → ack c (wrapped_message codec i) ≡ none
unfolding ack wrapped_message
wrapped_message-unanswered c codec i =
    rw (read_attributes-endpoint codec.hostname codec.now i.system) refl

map-unanswered :
    (c : Consumer) (codec : Codec) (items : List Item)
    → map (ack c) (map (wrapped_message codec) items) ≡ map (λ i. none) items
map-unanswered c codec [] = refl
map-unanswered c codec (i ∷ items) =
    rw (wrapped_message-unanswered c codec i, map-unanswered c codec items) refl

-- When a pull of a process queue comes to OK, the acknowledgement of each of its messages meets a
-- failed assertion.
pub process_pull_result-unanswered :
    (c : Consumer) (ns : Text) (codec : Codec) (response : Response) (r : ReceiveResult)
    → process_pull_result ns codec response ≡ some r
    → r.status ≡ ok_status
    → map (ack c) r.messages ≡ map (λ i. none) response.items
process_pull_result-unanswered c ns codec response r h s =
    let found = process_pull_result-Found ns codec response r h s in
    ap (map (ack c)) found.1 ∙ map-unanswered c codec response.items
