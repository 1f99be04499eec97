-- ===== src/Producer/Request/RoundTrip.antt =====
-- From the request of a send, through a broker, to the message that a consumer reads.
use mathlib.Core.List.{append_assoc, append-nil}
use rocketmq_client_cpp.Prelude.{
  ℕ, ◌*◌, ◌/◌, ◌≡◌, ◌≢◌, refl, sym, subst, ◌∙◌, true, false, Option, none, some, ◌+◌, List, [], ◌∷◌,
  ◌++◌, arith, Bool-cases, inl, inr,
}
use rocketmq_client_cpp.Prelude.Text.{Text, text_eq, text_eq_refl}
use rocketmq_client_cpp.Prelude.Int.{pos}
use rocketmq_client_cpp.Prelude.Table.{contains_key, insert_or_assign, lookup}
use rocketmq_client_cpp.Types.{
  Message, MessageQueue, MessageType, normal, fifo, delay, transaction, FilterExpression, accept,
  ExpressionType, wild_card_tag,
}
use rocketmq_client_cpp.Wire.{
  Timestamp, read_timestamp, read_duration, set_properties, read_attributes, read_message_type,
}
use rocketmq_client_cpp.Rpc.Wrap.{
  Item, Codec, wrapped, wrap_message, wrapped_message, body_digest_match, DigestType,
}
use rocketmq_client_cpp.Producer.Request.{
  Sender, wrap_send_message_request, wire_type, is_compressed,
}

-- What a broker adds to a message that it stores and delivers.
pub record Delivery : Type 0 where
  pub digest_type : DigestType
  pub checksum : Text
  pub partition_offset : ℕ
  pub delivery_attempt : ℕ
  pub receipt_handle : Text
  pub store_timestamp : Option Timestamp
  pub store_host : Text
  pub invisible_period : Option Timestamp

abbrev pub deliver : Delivery → Item → Item
deliver d i = record i {
  digest_type = d.digest_type;
  checksum = d.checksum;
  partition_offset = d.partition_offset;
  delivery_attempt = d.delivery_attempt;
  system = record (i.system) {
    receipt_handle = d.receipt_handle;
    store_timestamp = d.store_timestamp;
    store_host = d.store_host;
    invisible_period = d.invisible_period;
  };
}

-- No name stands twice in what is added to `before`.
abbrev pub Fresh : List (Text × Text) → List (Text × Text) → Type 0
Fresh before [] = Unit {0}
Fresh before ((name, value) ∷ l) =
    (contains_key name before ≡ false) × Fresh (before ++ (name, value) ∷ []) l

insert-append :
    (k v : Text) (m : List (Text × Text))
    → contains_key k m ≡ false
    → insert_or_assign k v m ≡ m ++ (k, v) ∷ []
unfolding lookup insert_or_assign
insert-append k v [] h = refl
insert-append k v ((j, w) ∷ m) h = ground (arith, insert-append k v m)

set_properties-append :
    (l before : List (Text × Text)) → Fresh before l → set_properties l before ≡ before ++ l
unfolding set_properties
set_properties-append [] before f = sym (append-nil before)
set_properties-append ((name, value) ∷ l) before (new, f) =
    rw (new, insert-append name value before new)
      (set_properties-append l (before ++ (name, value) ∷ []) f
        ∙ append_assoc before ((name, value) ∷ []) l)

-- The nanoseconds of a time or a duration that may be missing, and those of a time to the microsecond.
abbrev pub nanos_of : Option Timestamp → ℕ
nanos_of none = 0
nanos_of (some t) = t.seconds * 1_000_000_000 + t.nanos

abbrev pub micros : Option Timestamp → ℕ
micros t = nanos_of t / 1000 * 1000

-- What a message that is sent and read back has of the one that was sent.
pub record Carries (s : Sender) (q : MessageQueue) (m : Message) (d : Delivery) (r : Message)
    : Type 0 where
  pub same_topic : r.topic ≡ m.topic
  pub same_body : r.body ≡ m.body
  pub same_type : r.attributes.message_type ≡ m.attributes.message_type
  pub same_properties : r.attributes.properties ≡ m.attributes.properties
  pub its_id : r.msg_id ≡ s.message_id
  pub its_queue : r.attributes.queue_id ≡ q.queue_id
  pub its_host : r.attributes.born_host ≡ s.hostname
  pub its_time : r.attributes.born_timestamp ≡ s.now / 1000 * 1000
  pub its_offset : r.queue_offset ≡ d.partition_offset
  pub its_attempt : r.delivery_attempt ≡ d.delivery_attempt
  pub its_handle : r.attributes.receipt_handle ≡ d.receipt_handle
  pub its_store_time : r.attributes.store_timestamp ≡ micros d.store_timestamp
  pub its_store_host : r.attributes.store_host ≡ d.store_host
  pub its_invisible_period : r.attributes.invisible_period ≡ nanos_of d.invisible_period
  pub no_tag : r.tags ≡ []
  pub no_keys : r.attributes.keys ≡ []
  pub no_delay : r.attributes.delay_level ≡ pos 0
  pub no_trace : r.attributes.trace_context ≡ []

module _ (s : Sender) (q : MessageQueue) (m : Message) (codec : Codec) (d : Delivery) where
  delivered : Item
  delivered = deliver d (wrap_send_message_request s q m)

  delivered-body :
      codec.uncompress (s.compress m.body) ≡ m.body
      → (wrapped_message codec delivered).body ≡ m.body
  unfolding delivered wrapped_message wrap_send_message_request
  delivered-body e = elim (Bool-cases (is_compressed s m)) [
    | inl long ↦ rw long e
    | inr short ↦ rw short refl
  ]

  delivered-type :
      (wrapped_message codec delivered).attributes.message_type ≡ m.attributes.message_type
  unfolding delivered wrapped_message wrap_send_message_request read_attributes
  delivered-type = of m.attributes.message_type
    where
      of : (t : MessageType) → read_message_type (wire_type t) ≡ t
      of normal = unfold read_message_type in unfold wire_type in refl
      of fifo = unfold read_message_type in unfold wire_type in refl
      of delay = unfold read_message_type in unfold wire_type in refl
      of transaction = unfold read_message_type in unfold wire_type in refl

  delivered-Carries :
      Fresh [] m.attributes.properties
      → codec.uncompress (s.compress m.body) ≡ m.body
      → Carries s q m d (wrapped_message codec delivered)
  unfolding delivered wrapped_message wrap_send_message_request read_attributes
  delivered-Carries f e = record {
    same_topic = refl;
    same_body = delivered-body e;
    same_type = delivered-type;
    same_properties = thrice (set_properties-append m.attributes.properties [] f);
    its_id = refl;
    its_queue = refl;
    its_host = refl;
    its_time = omega arith;
    its_offset = refl;
    its_attempt = refl;
    its_handle = refl;
    its_store_time = stored d.store_timestamp;
    its_store_host = refl;
    its_invisible_period = lasting d.invisible_period;
    no_tag = refl;
    no_keys = refl;
    no_delay = refl;
    no_trace = refl;
  }
    where
      stored : (t : Option Timestamp) → read_timestamp 0 t ≡ micros t
      stored none = unfold read_timestamp in omega arith
      stored (some t) = unfold read_timestamp in omega arith

      lasting : (t : Option Timestamp) → read_duration t ≡ nanos_of t
      lasting none = unfold read_duration in refl
      lasting (some t) = unfold read_duration in refl

      thrice :
          set_properties m.attributes.properties [] ≡ m.attributes.properties
          → set_properties (set_properties (set_properties m.attributes.properties []) []) []
            ≡ m.attributes.properties
      thrice e = rw (e, e) e

wrap_message-wrapped :
    (ns : Text) (codec : Codec) (i : Item)
    → i.resource_namespace ≡ ns
    → body_digest_match codec i ≡ true
    → wrap_message ns codec i ≡ wrapped (wrapped_message codec i)
unfolding wrap_message
wrap_message-wrapped ns codec i e ok =
    let own : text_eq i.resource_namespace ns ≡ true =
      subst (λ n. text_eq n ns ≡ true) (sym e) (text_eq_refl ns) in
    rw (own, ok) refl

wrapped-tag :
    (s : Sender) (q : MessageQueue) (m r : Message) (codec : Codec) (d : Delivery)
    → wrap_message s.resource_namespace codec (deliver d (wrap_send_message_request s q m))
      ≡ wrapped r
    → r.tags ≡ []
unfolding wrap_message wrapped_message wrap_send_message_request
wrapped-tag s q m r codec d e = ground arith

tag_refused :
    (f : FilterExpression) (r : Message)
    → f.type ≡ ExpressionType.tag
    → text_eq wild_card_tag f.content ≡ false
    → f.content ≢ []
    → r.tags ≡ []
    → accept f r ≡ false
unfolding accept
tag_refused f r tagged special there untagged =
    rw (tagged, special, untagged) (nil_differs f.content there)
  where
    nil_differs : (t : Text) → t ≢ [] → text_eq [] t ≡ false
    nil_differs [] n = absurd (n refl)
    nil_differs (c ∷ t) n = unfold text_eq in refl

-- When the names of the properties are distinct, decompression undoes compression and the digest that
-- the broker sets matches the body, the consumer makes a message of what a send wrote: with the topic,
-- the body, the type, the properties and the queue that were sent, the identifier, host and time of
-- the sender to the microsecond, and what the broker added: the offset, the attempt, the handle, the
-- host and the time of its store, to the microsecond, and the invisible period.
pub sent-Carries :
    (s : Sender) (q : MessageQueue) (m : Message) (codec : Codec) (d : Delivery)
    → Fresh [] m.attributes.properties
    → codec.uncompress (s.compress m.body) ≡ m.body
    → body_digest_match codec (deliver d (wrap_send_message_request s q m)) ≡ true
    → (r : Message) × ((wrap_message s.resource_namespace codec
            (deliver d (wrap_send_message_request s q m))
          ≡ wrapped r)
        × Carries s q m d r)
unfolding delivered
sent-Carries s q m codec d f e ok = (
  wrapped_message codec (deliver d (wrap_send_message_request s q m)),
  (
    wrap_message-wrapped s.resource_namespace codec (deliver d (wrap_send_message_request s q m))
        (unfold wrap_send_message_request in refl) ok,
    delivered-Carries s q m codec d f e,
  ),
)

-- A filter on tags that is neither empty nor the wild card refuses every message that the consumer
-- makes of what a send wrote, whatever tag the message had.
pub sent-accept :
    (s : Sender) (q : MessageQueue) (m r : Message) (codec : Codec) (d : Delivery)
    (f : FilterExpression)
    → f.type ≡ ExpressionType.tag
    → text_eq wild_card_tag f.content ≡ false
    → f.content ≢ []
    → wrap_message s.resource_namespace codec (deliver d (wrap_send_message_request s q m))
      ≡ wrapped r
    → accept f r ≡ false
sent-accept s q m r codec d f tagged special there e =
    tag_refused f r tagged special there (wrapped-tag s q m r codec d e)
