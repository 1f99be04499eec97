-- ===== src/Producer/Candidates.antt =====
-- The candidates that the sends of ProducerImpl.cpp choose.
use rocketmq_client_cpp.Prelude.{
  if◌then◌else◌, ℕ, ◌%◌, ◌≡◌, refl, ap, sym, ◌∙◌, Bool, true, false, not, Option, none, some, List,
  [], ◌∷◌, length, is_empty, get_elem?, arith, Bool-cases, inl, inr,
}
use rocketmq_client_cpp.Prelude.Int.{ℤ}
use rocketmq_client_cpp.Prelude.Text.{Text}
use rocketmq_client_cpp.Types.{MessageQueue}
use rocketmq_client_cpp.PublishInfo.{PublishInfo, get_message_queue_list, take_message_queues}
use rocketmq_client_cpp.Producer.{
  MqMessage, Platform, Lookup, choose, named_queues, by_group, by_queue, round_robin, single, offer,
  choose_listed, names_queue, failed, candidates, found, choose_async,
}
use rocketmq_client_cpp.Producer.Retry.{RetrySendCallback, message_queue, sent}
use rocketmq_client_cpp.Producer.Retry.Attempts.{Sending}
use rocketmq_client_cpp.Producer.Retry.Limit.{Sending-Limited}

single-some :
    (o : Option MessageQueue) (chosen : List MessageQueue)
    → single o ≡ some chosen
    → (x : MessageQueue) × ((o ≡ some x) × (chosen ≡ x ∷ []))
unfolding single
single-some none chosen e = absurd cc
single-some (some x) chosen e = (x, (refl, cc))

zero_turn : {x : MessageQueue} (n : ℕ) → get_elem? (x ∷ []) (n % 1) ≡ some x
zero_turn {x} n = let zeroth : n % 1 ≡ 0 = omega arith in ap (λ k. get_elem? (x ∷ []) k) zeroth

-- A single candidate has every turn.
single-turn :
    (c : RetrySendCallback) (x : MessageQueue) → c.candidates ≡ x ∷ [] → message_queue c ≡ some x
unfolding message_queue
single-turn c x e = ap (λ l. get_elem? l (c.attempt_times % length l)) e ∙ zero_turn c.attempt_times

named_queues-group :
    (p : Platform) (m : MqMessage) (list chosen : List MessageQueue)
    → is_empty m.message_group ≡ false
    → named_queues p m list ≡ some chosen
    → single (get_elem? list (p.hash m.message_group % length list)) ≡ some chosen
unfolding named_queues by_group
named_queues-group p m list chosen group e =
    ap
      (λ b. if not b then by_group p m.message_group list else some (by_queue m.message_queue list))
      (sym group)
    ∙ e

-- Every request of every message of a group goes to one queue, that of the hash of the group in the
-- list that the candidates were named from, whatever fails and with any limit.
pub group-sticks :
    (p : Platform) (m : MqMessage) (list chosen : List MessageQueue) (max : ℤ) (n : ℕ)
    (q : MessageQueue) (c : RetrySendCallback)
    → is_empty m.message_group ≡ false
    → named_queues p m list ≡ some chosen
    → Sending p m chosen max n (sent q c)
    → get_elem? list (p.hash m.message_group % length list) ≡ some q
group-sticks p m list chosen max n q c group e s =
    let limited = Sending-Limited p m chosen max n (sent q c) s in
    let (x, (at, alone)) = single-some _ chosen (named_queues-group p m list chosen group e) in
    at ∙ (sym (single-turn c x (limited.3 ∙ alone)) ∙ limited.5)

offer-held :
    (info info' : PublishInfo) (o : Option (List MessageQueue)) (list : List MessageQueue)
    → offer info o ≡ some (candidates info' list)
    → is_empty list ≡ false
unfolding offer
offer-held info info' none list e = absurd cc
offer-held info info' (some []) list e = absurd cc
offer-held info info' (some (q ∷ l)) [] e = absurd cc
offer-held info info' (some (q ∷ l)) (x ∷ list) e = refl

choose_listed-held :
    (p : Platform) (m : MqMessage) (info info' : PublishInfo) (second : Lookup)
    (list : List MessageQueue)
    → choose_listed p m info second ≡ some (candidates info' list)
    → is_empty list ≡ false
unfolding choose_listed
choose_listed-held p m info info' (failed ec) list e = absurd cc
choose_listed-held p m info info' (found l) list e =
    elim (Bool-cases (is_empty (get_message_queue_list l))) [
      | inl void ↦ absurd cc
      | inr held ↦ offer-held info info' (named_queues p m (get_message_queue_list l)) list cc
    ]

round_robin-held :
    (isolated : Text → Bool) (max : ℕ) (info info' : PublishInfo) (list : List MessageQueue)
    → round_robin isolated max info ≡ some (candidates info' list)
    → is_empty list ≡ false
unfolding round_robin
round_robin-held isolated max info info' list e =
    let taken = take_message_queues isolated [] max info in
    offer-held taken.0 info' (some taken.1) list e

-- A send that waits goes as far as send0 only for a producer that runs, and with a candidate.
choose-held :
    (p : Platform) (isolated : Text → Bool) (max : ℕ) (running : Bool) (m : MqMessage)
    (first second : Lookup) (info : PublishInfo) (list : List MessageQueue)
    → choose p isolated max running m first second ≡ some (candidates info list)
    → (running ≡ true) × (is_empty list ≡ false)
unfolding choose
choose-held p isolated max running m (failed ec) second info list e = absurd cc
choose-held p isolated max false m (found i) second info list e = absurd cc
choose-held p isolated max true m (found i) second info list e = elim (Bool-cases (names_queue m)) [
  | inl named ↦ (refl, choose_listed-held p m i info second list (rw named at e))
  | inr free ↦ (refl, round_robin-held isolated max i info list (rw free at e))
]

-- Once the route is found, the send with a callback chooses as the send that waits does for a message
-- that names neither a group nor a queue, whatever the message names.
pub choose_async-choose :
    (p : Platform) (isolated : Text → Bool) (max : ℕ) (running : Bool) (m plain : MqMessage)
    (info : PublishInfo) (second : Lookup)
    → names_queue plain ≡ false
    → (choose_async p isolated max running m (found info)).1
      ≡ choose p isolated max true plain (found info) second
unfolding choose choose_async
choose_async-choose p isolated max running m plain info second e = rw e refl
