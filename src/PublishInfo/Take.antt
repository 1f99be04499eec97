-- ===== src/PublishInfo/Take.antt =====
-- What `takeMessageQueues` of TopicPublishInfo.cpp picks.
use rocketmq_client_cpp.Prelude.Word.{u32}
use rocketmq_client_cpp.Prelude.{
  ℕ, zero, suc, ◌+◌, ◌%◌, ◌≤◌, ◌<◌, ◌≡◌, refl, Bool, true, false, ◌||◌, Option, none, some, List,
  [], ◌∷◌, ◌++◌, arith, length, get_elem?, is_empty, All, All-append, Bool-cases, inl, inr, subst,
}
use rocketmq_client_cpp.Prelude.Cycle.{position}
use rocketmq_client_cpp.Prelude.Text.{Text, text_eq_refl, text_eq_iff}
use rocketmq_client_cpp.Types.{MessageQueue}
use rocketmq_client_cpp.Route.{Partition, as_message_queue}
use rocketmq_client_cpp.PublishInfo.{
  PublishInfo, queue_at, has_broker, add_candidate, consider, take_loop, take_message_queues,
  advance,
}

-- No two queues of one broker.
abbrev pub DistinctBrokers : List MessageQueue → Type 0
DistinctBrokers [] = Unit {0}
DistinctBrokers (q ∷ qs) = (has_broker q.broker_name qs ≡ false) × DistinctBrokers qs

has_broker-append :
    (name : Text) (xs ys : List MessageQueue)
    → has_broker name (xs ++ ys) ≡ (has_broker name xs || has_broker name ys)
has_broker-append name [] ys = refl
has_broker-append name (x ∷ xs) ys = ground (arith, has_broker-append name xs ys)

Distinct-append :
    (xs : List MessageQueue) (q : MessageQueue)
    → DistinctBrokers xs
    → has_broker q.broker_name xs ≡ false
    → DistinctBrokers (xs ++ q ∷ [])
Distinct-append [] q d h = (refl, tt)
Distinct-append (x ∷ xs) q d h = ground (
  arith,
  Distinct-append xs q d.1,
  has_broker-append x.broker_name xs (q ∷ []),
  text_eq_iff x.broker_name q.broker_name,
  text_eq_iff q.broker_name x.broker_name,
)

module _ (isolated : Text → Bool) where
  abbrev pub Picked : List Partition → List MessageQueue → Type 0
  Picked l = All λ q. (isolated q.service_address ≡ false) × ((i : ℕ) × (queue_at l i ≡ some q))

  -- What the candidates keep while partitions are considered.
  abbrev Good : List Partition → List MessageQueue → Type 0
  Good l qs = DistinctBrokers qs × Picked l qs

  consider-Good :
      (l : List Partition) (count i : ℕ) (o : Option MessageQueue) (qs : List MessageQueue)
      → queue_at l i ≡ o
      → Good l qs
      → Good l (consider isolated count o qs).0
  unfolding consider add_candidate
  consider-Good l count i none qs e g = g
  consider-Good l count i (some q) qs e g = elim (Bool-cases (isolated q.service_address)) [
    | inl out ↦ rw out g
    | inr fine ↦ elim (Bool-cases (has_broker q.broker_name qs)) [
      | inl old ↦ rw (fine, old) g
      | inr new ↦
          rw (fine, new)
            (Distinct-append qs q g.0 new, All-append _ qs (q ∷ []) g.1 ((fine, (i, e)), tt))
    ]
  ]

  take_loop-Good :
      (l : List Partition) (count rounds index : ℕ) (qs : List MessageQueue)
      → Good l qs
      → Good l (take_loop l isolated count rounds index qs).0
  unfolding take_loop
  take_loop-Good l count zero index qs g = g
  take_loop-Good l count (suc rounds) index qs g =
      let step = consider isolated count (queue_at l (index % length l)) qs in
      let g' = consider-Good l count (index % length l) _ qs refl g in
      elim (Bool-cases step.1) [
        | inl full ↦ rw full g'
        | inr more ↦ rw more (take_loop-Good l count rounds (u32 (index + 1)) step.0 g')
      ]

  -- A broker that is among the candidates stays among them.
  consider-keeps :
      (count : ℕ) (o : Option MessageQueue) (qs : List MessageQueue) (name : Text)
      → has_broker name qs ≡ true
      → has_broker name (consider isolated count o qs).0 ≡ true
  unfolding consider add_candidate
  consider-keeps count none qs name h = h
  consider-keeps count (some q) qs name h = ground (arith, has_broker-append name qs (q ∷ []))

  take_loop-keeps :
      (l : List Partition) (count rounds index : ℕ) (qs : List MessageQueue) (name : Text)
      → has_broker name qs ≡ true
      → has_broker name (take_loop l isolated count rounds index qs).0 ≡ true
  unfolding take_loop
  take_loop-keeps l count zero index qs name h = h
  take_loop-keeps l count (suc rounds) index qs name h =
      let step = consider isolated count (queue_at l (index % length l)) qs in
      let h' = consider-keeps count (queue_at l (index % length l)) qs name h in
      elim (Bool-cases step.1) [
        | inl full ↦ rw full h'
        | inr more ↦ rw more (take_loop-keeps l count rounds (u32 (index + 1)) step.0 name h')
      ]

  -- A queue that is considered and not isolated has its broker among the candidates.
  consider-adds :
      (count : ℕ) (q : MessageQueue) (qs : List MessageQueue)
      → isolated q.service_address ≡ false
      → has_broker q.broker_name (consider isolated count (some q) qs).0 ≡ true
  unfolding consider add_candidate
  consider-adds count q qs h =
      ground (arith, has_broker-append q.broker_name qs (q ∷ []), text_eq_refl q.broker_name)

  take_loop-covers :
      (l : List Partition) (count rounds index i : ℕ) (qs : List MessageQueue) (q : MessageQueue)
      → i < rounds
      → index + rounds ≤ 4_294_967_296
      → (take_loop l isolated count rounds index qs).1 ≡ false
      → queue_at l ((index + i) % length l) ≡ some q
      → isolated q.service_address ≡ false
      → has_broker q.broker_name (take_loop l isolated count rounds index qs).0 ≡ true
  unfolding take_loop
  take_loop-covers l count zero index i qs q h w f e a = elim h [ ]
  take_loop-covers l count (suc rounds) index zero qs q h w f e a =
      let step = consider isolated count (queue_at l (index % length l)) qs in
      let here : queue_at l (index % length l) ≡ some q =
        subst (λ k. queue_at l (k % length l) ≡ some q) (omega arith) e in
      elim (Bool-cases step.1) [
        | inl full ↦ absurd (ground arith)
        | inr more ↦ rw more (
            take_loop-keeps l count rounds (u32 (index + 1)) step.0 q.broker_name
              (rw here (consider-adds count q qs a)))
      ]
  take_loop-covers l count (suc rounds) index (suc i) qs q h w f e a =
      let step = consider isolated count (queue_at l (index % length l)) qs in
      let later : queue_at l ((u32 (index + 1) + i) % length l) ≡ some q =
        subst (λ k. queue_at l (k % length l) ≡ some q) (omega arith) e in
      elim (Bool-cases step.1) [
        | inl full ↦ absurd (ground arith)
        | inr more ↦ rw more (
            take_loop-covers l count rounds (u32 (index + 1)) i step.0 q (omega arith) (omega arith)
              (rw more at f) later a)
      ]

  -- The loop stops early only when enough candidates are there.
  take_loop-full :
      (l : List Partition) (count rounds index : ℕ) (qs : List MessageQueue)
      → (take_loop l isolated count rounds index qs).1 ≡ true
      → count ≤ length (take_loop l isolated count rounds index qs).0
  unfolding take_loop
  take_loop-full l count zero index qs f = cc
  take_loop-full l count (suc rounds) index qs f =
      let step = consider isolated count (queue_at l (index % length l)) qs in
      elim (Bool-cases step.1) [
        | inl full ↦ rw full (reached (queue_at l (index % length l)) full)
        | inr more ↦ rw more (take_loop-full l count rounds (u32 (index + 1)) step.0 (rw more at f))
      ]
    where
      reached :
          (o : Option MessageQueue)
          → (consider isolated count o qs).1 ≡ true
          → count ≤ length (consider isolated count o qs).0
      reached none h = unfold consider in cc
      reached (some q) h = unfold consider in (ground arith)

queue_at-partition :
    (l : List Partition) (j : ℕ) (p : Partition)
    → get_elem? l j ≡ some p
    → queue_at l j ≡ some (as_message_queue p)
unfolding queue_at
queue_at-partition l j p e = rw (e, queue_at) refl

take_loop-round :
    (isolated : Text → Bool) (l : List Partition) (count index j : ℕ) (qs : List MessageQueue)
    (p : Partition)
    → index + length l ≤ 4_294_967_296
    → (take_loop l isolated count (length l) index qs).1 ≡ false
    → j < length l
    → get_elem? l j ≡ some p
    → isolated (as_message_queue p).service_address ≡ false
    → has_broker (as_message_queue p).broker_name (take_loop l isolated count (length l) index qs).0
      ≡ true
take_loop-round isolated l count index j qs p w f h e a =
    let at = position (length l) index j h in
    take_loop-covers isolated l count (length l) index at.0 qs (as_message_queue p) at.1.0 w f
      (rw at.1.1 (queue_at-partition l j p e)) a

-- Candidates taken from none are of distinct brokers, and each is the queue of one of the published
-- partitions, whose endpoint is not isolated.
pub take_message_queues_sound :
    (isolated : Text → Bool) (count : ℕ) (p : PublishInfo)
    → DistinctBrokers (take_message_queues isolated [] count p).1
      × Picked isolated p.partition_list (take_message_queues isolated [] count p).1
unfolding take_message_queues
take_message_queues_sound isolated count p = elim (Bool-cases (is_empty p.partition_list)) [
  | inl e ↦ rw e (tt, tt)
  | inr e ↦ rw e (
      take_loop-Good isolated p.partition_list count (length p.partition_list)
        (advance p).send_which_queue [] (tt, tt))
]

-- When fewer candidates than asked for come back, no broker was left out: a partition whose endpoint
-- is not isolated has its broker among them, as long as the counter does not wrap during the loop.
pub take_message_queues_complete :
    (isolated : Text → Bool) (count j : ℕ) (p : PublishInfo) (part : Partition)
    → (advance p).send_which_queue + length p.partition_list ≤ 4_294_967_296
    → length (take_message_queues isolated [] count p).1 < count
    → j < length p.partition_list
    → get_elem? p.partition_list j ≡ some part
    → isolated (as_message_queue part).service_address ≡ false
    → has_broker (as_message_queue part).broker_name (take_message_queues isolated [] count p).1
      ≡ true
unfolding take_message_queues
take_message_queues_complete isolated count j p part w short h e a =
    let l = p.partition_list in
    let index = (advance p).send_which_queue in
    elim (Bool-cases (is_empty l)) [
      | inl void ↦ absurd (vacuous l void h)
      | inr held ↦ rw held (
          take_loop-round isolated l count index j [] part w
            (elim (Bool-cases (take_loop l isolated count (length l) index []).1) [
              | inl full ↦
                  absurd (ground (arith, take_loop-full isolated l count (length l) index [] full))
              | inr more ↦ more
            ])
            h e a)
    ]
  where
    vacuous : (l : List Partition) → is_empty l ≡ true → j < length l → ⊥
    vacuous [] e h = elim h [ ]
    vacuous (x ∷ l) e h = absurd cc
