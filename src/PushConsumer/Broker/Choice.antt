-- ===== src/PushConsumer/Broker/Choice.antt =====
-- When `selectBroker` of PushConsumerImpl.cpp comes to an end, and with what.
use rocketmq_client_cpp.Prelude.{
  ℕ, zero, suc, ◌+◌, ◌%◌, ◌≤◌, ◌<◌, ◌≡◌, refl, Option, none, some, List, [], ◌∷◌, arith, length,
  subst, ap, ◌∙◌, ◌⊎◌, inl, inr, get_elem?,
}
use rocketmq_client_cpp.Prelude.Text.{Text}
use rocketmq_client_cpp.Prelude.Cycle.{position}
use rocketmq_client_cpp.Prelude.Word.{u32}
use rocketmq_client_cpp.Route.{Partition}
use rocketmq_client_cpp.PushConsumer.Broker.Queryable.{IsQueryable, host_of-some, host_of-none}
use rocketmq_client_cpp.PushConsumer.Broker.{
  host_at, broker_loop, next_which, select_broker, on_route, ErrorCode, clustering,
  query_assignment, host_of, address,
}

-- A host of some position, or none at all positions.
abbrev pub Choice : List Partition → Option Text → Type 0
Choice l (some host) = (j : ℕ) × (host_at l j ≡ some host)
Choice l none = (j : ℕ) → j < length l → host_at l j ≡ none

-- The partitions of a route; none of a failed lookup.
abbrev pub partitions : Option (List Partition) → List Partition
partitions none = []
partitions (some l) = l

abbrev default_host : Option Text → Text
default_host none = []
default_host (some host) = host

-- The host of a partition that is queryable, or the empty host where there is none at all.
abbrev pub Asked : List Partition → Text → Type 0
Asked l host =
    ((p : Partition) × ((j : ℕ) × ((get_elem? l j ≡ some p)
          × (IsQueryable p × (host ≡ address p.broker.service_address)))))
    ⊎ ((host ≡ []) × ((p : Partition) (j : ℕ) → get_elem? l j ≡ some p → ¬ IsQueryable p))

module _ (l : List Partition) where
  -- What the loop answers when `rounds` positions are left: a host, or none at these.
  abbrev Rest : ℕ → ℕ → Option Text → Type 0
  Rest i rounds (some host) = (j : ℕ) × (host_at l j ≡ some host)
  Rest i rounds none = (k : ℕ) → k < rounds → host_at l ((i + k) % length l) ≡ none

  Rest-suc :
      (i rounds : ℕ) (o : Option Text)
      → host_at l (i % length l) ≡ none
      → Rest (i + 1) rounds o
      → Rest i (suc rounds) o
  Rest-suc i rounds (some host) h r = r
  Rest-suc i rounds none h r = λ k lt. here_or_later k lt
    where
      here_or_later : (k : ℕ) → k < suc rounds → host_at l ((i + k) % length l) ≡ none
      here_or_later zero lt = subst (λ m. host_at l (m % length l) ≡ none) (omega arith) h
      here_or_later (suc k) lt =
          subst (λ m. host_at l (m % length l) ≡ none) (omega arith) (r k (omega arith))

  broker_loop-found :
      (bound fuel i : ℕ) (host : Text)
      → i < bound
      → host_at l (i % length l) ≡ some host
      → broker_loop l bound (suc fuel) i ≡ some (some host)
  unfolding broker_loop
  broker_loop-found bound fuel i host lt e = rw e (ground arith)

  broker_loop-next :
      (bound fuel i : ℕ)
      → i < bound
      → host_at l (i % length l) ≡ none
      → broker_loop l bound (suc fuel) i ≡ broker_loop l bound fuel (u32 (i + 1))
  unfolding broker_loop
  broker_loop-next bound fuel i lt e = rw e (ground arith)

  broker_loop-end : (bound fuel i : ℕ) → bound ≤ i → broker_loop l bound (suc fuel) i ≡ some none
  unfolding broker_loop
  broker_loop-end bound fuel i le = ground arith

  broker_loop-answers :
      (rounds i fuel bound : ℕ)
      → rounds < fuel
      → bound ≡ i + rounds
      → bound < 4_294_967_296
      → (o : Option Text) × ((broker_loop l bound fuel i ≡ some o) × Rest i rounds o)
  broker_loop-answers rounds i zero bound f b w = elim f [ ]
  broker_loop-answers zero i (suc fuel) bound f b w =
      (none, (broker_loop-end bound fuel i (omega arith), λ k lt. elim lt [ ]))
  broker_loop-answers (suc rounds) i (suc fuel) bound f b w =
      step (host_at l (i % length l)) refl
        (broker_loop-answers rounds (i + 1) fuel bound (omega arith) (omega arith) w)
    where
      step :
          (here : Option Text)
          → host_at l (i % length l) ≡ here
          → (o : Option Text) × ((broker_loop l bound fuel (i + 1) ≡ some o)
              × Rest (i + 1) rounds o)
          → (o : Option Text) × ((broker_loop l bound (suc fuel) i ≡ some o)
              × Rest i (suc rounds) o)
      step (some host) e later =
          (some host, (broker_loop-found bound fuel i host (omega arith) e, (i % length l, e)))
      step none e later =
          let wraps : u32 (i + 1) ≡ i + 1 = omega arith in
          (
            later.0,
            (
              broker_loop-next bound fuel i (omega arith) e
                  ∙ (ap (broker_loop l bound fuel) wraps ∙ later.1.0),
              Rest-suc i rounds later.0 e later.1.1,
            ),
          )

  -- With the bound past the largest number of 32 bits, the loop goes on while it finds no host.
  broker_loop-spins :
      (bound fuel i : ℕ)
      → 4_294_967_296 ≤ bound
      → i < 4_294_967_296
      → ((j : ℕ) → host_at l j ≡ none)
      → broker_loop l bound fuel i ≡ none
  broker_loop-spins bound zero i b w h = unfold broker_loop in refl
  broker_loop-spins bound (suc fuel) i b w h =
      broker_loop-next bound fuel i (omega arith) (h (i % length l))
      ∙ broker_loop-spins bound fuel (u32 (i + 1)) b (omega arith) h

  Choice-of : (i : ℕ) (o : Option Text) → Rest i (length l) o → Choice l o
  Choice-of i (some host) r = r
  Choice-of i none r = λ j lt.
      let at = position (length l) i j lt in subst (λ k. host_at l k ≡ none) at.1.1 (r at.0 at.1.0)

select_broker-Choice :
    (fuel which : ℕ) (l : List Partition)
    → length l < fuel
    → next_which which + length l < 4_294_967_296
    → (o : Option Text) × (((select_broker fuel which (some l)).1 ≡ some o) × Choice l o)
unfolding select_broker
select_broker-Choice fuel which [] f w = (none, (refl, λ j lt. elim lt [ ]))
select_broker-Choice fuel which (p ∷ l) f w =
    let start = next_which which in
    let answer =
      broker_loop-answers (p ∷ l) (length (p ∷ l)) start fuel (start + length (p ∷ l)) f refl w in
    (answer.0, (answer.1.0, Choice-of (p ∷ l) start answer.0 answer.1.1))

select_broker-Choice-route :
    (fuel which : ℕ) (route : Option (List Partition))
    → length (partitions route) < fuel
    → next_which which + length (partitions route) < 4_294_967_296
    → (o : Option Text) × (((select_broker fuel which route).1 ≡ some o)
        × Choice (partitions route) o)
select_broker-Choice-route fuel which none f w =
    (none, (unfold select_broker in refl, λ j lt. elim lt [ ]))
select_broker-Choice-route fuel which (some l) f w = select_broker-Choice fuel which l f w

host_at-cases :
    (l : List Partition) (j : ℕ) (host : Text)
    → host_at l j ≡ some host
    → (p : Partition) × ((get_elem? l j ≡ some p)
        × (IsQueryable p × (host ≡ address p.broker.service_address)))
unfolding host_at
host_at-cases l j host e = of (get_elem? l j) refl e
  where
    of :
        (o : Option Partition)
        → get_elem? l j ≡ o
        → elim o [ none ↦ none | some p ↦ host_of p ] ≡ some host
        → (p : Partition) × ((get_elem? l j ≡ some p)
            × (IsQueryable p × (host ≡ address p.broker.service_address)))
    of none at e = absurd cc
    of (some p) at e = (p, (at, host_of-some p host e))

get_elem?-below :
    (l : List Partition) (j : ℕ) (p : Partition) → get_elem? l j ≡ some p → j < length l
get_elem?-below [] j p e = absurd cc
get_elem?-below (x ∷ l) zero p e = omega arith
get_elem?-below (x ∷ l) (suc j) p e = omega (arith, get_elem?-below l j p e)

Choice-Asked : (l : List Partition) (o : Option Text) → Choice l o → Asked l (default_host o)
unfolding host_at
Choice-Asked l (some host) (j, e) =
    let found = host_at-cases l j host e in inl (found.0, (j, found.1))
Choice-Asked l none c =
    inr (refl, λ p j at. host_of-none p (rw (at, host_at) at (c j (get_elem?-below l j p at))))

-- In the clustering model, whatever the lookup of the route gives, the query of an assignment comes to
-- an end and sends exactly one request: to the host of a partition whose broker is a master, has
-- addresses and is not denied to all, or, when the route has no such partition, to the empty host;
-- with more fuel than there are partitions, and when the counter and their number stay below 2^32.
pub on_route-asks :
    (fuel which : ℕ) (ec : Option ErrorCode) (route : Option (List Partition))
    → length (partitions route) < fuel
    → next_which which + length (partitions route) < 4_294_967_296
    → (host : Text) × ((on_route clustering fuel which ec route
          ≡ some ((select_broker fuel which route).0, query_assignment host ∷ []))
        × Asked (partitions route) host)
unfolding on_route
on_route-asks fuel which ec route f w = asks (select_broker-Choice-route fuel which route f w)
  where
    asks :
        (o : Option Text) × (((select_broker fuel which route).1 ≡ some o)
            × Choice (partitions route) o)
        → (host : Text) × ((on_route clustering fuel which ec route
              ≡ some ((select_broker fuel which route).0, query_assignment host ∷ []))
            × Asked (partitions route) host)
    asks (some host, (e, c)) =
        (host, (rw (e, on_route) refl, Choice-Asked (partitions route) (some host) c))
    asks (none, (e, c)) = ([], (rw (e, on_route) refl, Choice-Asked (partitions route) none c))

-- When the counter and the number of partitions reach 2^32 and no partition has a host to ask, the
-- loop of selectBroker never ends: no fuel is enough.
select_broker-spins :
    (fuel which : ℕ) (p : Partition) (l : List Partition)
    → 4_294_967_296 ≤ next_which which + length (p ∷ l)
    → ((j : ℕ) → host_at (p ∷ l) j ≡ none)
    → (select_broker fuel which (some (p ∷ l))).1 ≡ none
unfolding select_broker
select_broker-spins fuel which p l w h =
    let start = next_which which in
    broker_loop-spins (p ∷ l) (start + length (p ∷ l)) fuel start w (omega arith) h
