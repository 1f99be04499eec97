-- ===== src/Rpc/Wrap/Pop.antt =====
-- What `processPopResult` of ClientManagerImpl.cpp hands over.
use rocketmq_client_cpp.Prelude.{
  ◌≡◌, ◌≢◌, subst, refl, ap, sym, ◌∙◌, true, false, Option, none, some, List, [], ◌∷◌, map, keep,
  if◌then◌else◌, Bool, any, not, Bool-cases, inl, inr,
}
use rocketmq_client_cpp.Prelude.Text.{Text, text_eq}
use rocketmq_client_cpp.Types.{Message}
use rocketmq_client_cpp.Wire.{set_target_endpoint}
use rocketmq_client_cpp.Rpc.Wrap.{
  ReceiveMessageStatus, ReceiveResult, Response, Codec, Item, Wrapped, wrap_message,
  wrapped_message, body_digest_match, pop_loop, pop_step, process_pop_result, pop_result, is_found,
  pop_status, failed_assertion, wrapped, corrupted, ok_status,
}

-- The message of an item, with what else is set in it.
abbrev pub popped : (Message → Message) → Codec → Item → Message
popped set codec i = set (wrapped_message codec i)

wrap_message-digest :
    (ns : Text) (codec : Codec) (i : Item)
    → text_eq i.resource_namespace ns ≡ true
    → wrap_message ns codec i
      ≡ (if body_digest_match codec i then wrapped (wrapped_message codec i) else corrupted)
unfolding wrap_message
wrap_message-digest ns codec i e = rw e refl

wrap_message-other :
    (ns : Text) (codec : Codec) (i : Item)
    → text_eq i.resource_namespace ns ≡ false
    → wrap_message ns codec i ≡ failed_assertion
unfolding wrap_message
wrap_message-other ns codec i e = rw e refl

pop_step-other :
    (set : Message → Message) (o : Option (List Message)) (ms : List Message)
    → pop_step set failed_assertion o ≢ some ms
unfolding pop_step
pop_step-other set o ms e = cc

pop_step-corrupted :
    (set : Message → Message) (o : Option (List Message)) (ms : List Message)
    → pop_step set corrupted o ≡ some ms
    → o ≡ some ms
unfolding pop_step
pop_step-corrupted set o ms e = e

pop_step-cons :
    (set : Message → Message) (m : Message) (o : Option (List Message)) (ms : List Message)
    → pop_step set (wrapped m) o ≡ some ms
    → (l : List Message) × ((o ≡ some l) × (ms ≡ set m ∷ l))
unfolding pop_step
pop_step-cons set m none ms e = absurd cc
pop_step-cons set m (some l) ms e = (l, (refl, cc))

-- A round that goes through, on what is kept of the rounds that are left.
round-kept :
    (set : Message → Message) (ns : Text) (codec : Codec) (i : Item) (kept : List Item)
    (o : Option (List Message)) (ms : List Message)
    → ((l : List Message) → o ≡ some l → l ≡ map (popped set codec) kept)
    → pop_step set (wrap_message ns codec i) o ≡ some ms
    → ms ≡ map (popped set codec) (if body_digest_match codec i then i ∷ kept else kept)
round-kept set ns codec i kept o ms rest e =
    of (text_eq i.resource_namespace ns) (body_digest_match codec i) refl refl
  where
    by_step : {w : Wrapped} → wrap_message ns codec i ≡ w → pop_step set w o ≡ some ms
    by_step step = subst (λ w. pop_step set w o ≡ some ms) step e

    of :
        (same match : Bool)
        → text_eq i.resource_namespace ns ≡ same
        → body_digest_match codec i ≡ match
        → ms ≡ map (popped set codec) (if body_digest_match codec i then i ∷ kept else kept)
    of false match n d =
        absurd (pop_step-other set o ms (by_step (wrap_message-other ns codec i n)))
    of true false n d = rw d (
        rest ms
          (pop_step-corrupted set o ms (by_step (wrap_message-digest ns codec i n ∙ rw d refl))))
    of true true n d =
        let (l, (found, whole)) =
          pop_step-cons set (wrapped_message codec i) o ms
            (by_step (wrap_message-digest ns codec i n ∙ rw d refl)) in
        rw d (whole ∙ ap (λ k. popped set codec i ∷ k) (rest l found))

pub pop_loop-kept :
    (set : Message → Message) (ns : Text) (codec : Codec) (items : List Item) (ms : List Message)
    → pop_loop set ns codec items ≡ some ms
    → ms ≡ map (popped set codec) (keep (body_digest_match codec) items)
unfolding pop_loop
pop_loop-kept set ns codec [] ms e = cc
pop_loop-kept set ns codec (i ∷ items) ms e =
    round-kept set ns codec i (keep (body_digest_match codec) items) (pop_loop set ns codec items)
      ms (pop_loop-kept set ns codec items) e

pop_result-status :
    (s : ReceiveMessageStatus) (o : Option (List Message)) (r : ReceiveResult)
    → pop_result s o ≡ some r
    → (o ≡ some r.messages) × (r.status ≡ s)
unfolding pop_result
pop_result-status s none r e = absurd cc
pop_result-status s (some ms) r e = (cc, cc)

is_ok :
    (t : ReceiveMessageStatus)
    → t ≡ ok_status
    → (o : Option (List Message)) (ms : List Message)
    → (if is_found t then o else some []) ≡ some ms
    → o ≡ some ms
unfolding is_found
is_ok t e o ms h = subst (λ u. (if is_found u then o else some []) ≡ some ms) e h

pop_step-none :
    (set : Message → Message) (w : Wrapped) (o : Option (List Message))
    → w ≢ failed_assertion
    → pop_step set w o ≡ none
    → o ≡ none
unfolding pop_step
pop_step-none set failed_assertion o n e = absurd (n refl)
pop_step-none set corrupted o n e = e
pop_step-none set (wrapped m) none n e = refl
pop_step-none set (wrapped m) (some ms) n e = absurd cc

wrap_message-same :
    (ns : Text) (codec : Codec) (i : Item)
    → text_eq i.resource_namespace ns ≡ true
    → wrap_message ns codec i ≢ failed_assertion
wrap_message-same ns codec i n e =
    of (body_digest_match codec i) (sym (wrap_message-digest ns codec i n) ∙ e)
  where
    of :
        (match : Bool)
        → (if match then wrapped (wrapped_message codec i) else corrupted) ≢ failed_assertion
    of true e = cc
    of false e = cc

-- The loop meets a failed assertion on an item of another namespace only.
pub pop_loop-none :
    (set : Message → Message) (ns : Text) (codec : Codec) (items : List Item)
    → pop_loop set ns codec items ≡ none
    → any (λ i. not (text_eq i.resource_namespace ns)) items ≡ true
unfolding pop_loop
pop_loop-none set ns codec [] e = cc
pop_loop-none set ns codec (i ∷ items) e = elim (Bool-cases (text_eq i.resource_namespace ns)) [
  | inl same ↦
      let rest = pop_loop-none set ns codec items (
        pop_step-none set (wrap_message ns codec i) (pop_loop set ns codec items)
          (wrap_message-same ns codec i same) e) in
      rw same rest
  | inr other ↦ rw other refl
]

pub process_pop_result-kept :
    (host ns : Text) (codec : Codec) (response : Response) (r : ReceiveResult)
    → process_pop_result host ns codec response ≡ some r
    → r.status ≡ ok_status
    → r.messages
      ≡ map
          (popped (set_target_endpoint host) codec)
          (keep (body_digest_match codec) response.items)
unfolding process_pop_result
process_pop_result-kept host ns codec response r e s =
    let (found, same) = pop_result-status _ _ r e in
    pop_loop-kept (set_target_endpoint host) ns codec response.items r.messages
      (is_ok (pop_status response.code) (sym same ∙ s) _ _ found)
