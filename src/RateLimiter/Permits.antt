-- ===== src/RateLimiter/Permits.antt =====
-- Where the permits of RateLimiter.h go.
use rocketmq_client_cpp.Prelude.Word.{u32}
use rocketmq_client_cpp.Prelude.{
  ℕ, zero, suc, ◌+◌, ◌-◌, ◌≡◌, ◌≤◌, ◌<◌, refl, ap, Option, none, some, List, [], ◌∷◌, get_or, set,
  length, length-set, ltb, leb, arith, Bool-cases, inl, inr, ◌∙◌, subst,
}
use rocketmq_client_cpp.RateLimiter.{
  RateLimiter, back, drain_slot, past_loop, acquire_some, past_slot, first_slot, take_one, acquire,
}

abbrev pub total : List ℕ → ℕ
total [] = 0
total (x ∷ xs) = x + total xs

total-set : (l : List ℕ) (i v : ℕ) → i < length l → total (set l i v) + get_or l i 0 ≡ total l + v
total-set [] i v h = elim h [ ]
total-set (x ∷ l) zero v h = omega arith
total-set (x ∷ l) (suc i) v h = omega (arith, total-set l i v (omega (arith, h)))

drain_slot_lem :
    (permit left acquired : ℕ)
    → left + acquired < 4_294_967_296
    → (drain_slot permit left acquired).0 + (drain_slot permit left acquired).1 ≡ left + acquired
unfolding drain_slot
drain_slot_lem permit zero acquired h = refl
drain_slot_lem permit (suc left) acquired h =
    let next : u32 (acquired + 1) ≡ acquired + 1 = omega (arith, h) in
    let rest = drain_slot_lem permit left (u32 (acquired + 1)) (omega (arith, h)) in
    elim (Bool-cases (leb permit (u32 (acquired + 1)))) [
      | inl full ↦ rw full (omega (arith, h))
      | inr more ↦ rw more (omega (arith, rest, next))
    ]

drain_slot-le :
    (permit left acquired bound : ℕ)
    → permit ≤ bound
    → acquired + 1 ≤ bound
    → (drain_slot permit left acquired).1 ≤ bound
unfolding drain_slot
drain_slot-le permit zero acquired bound h k = omega (arith, k)
drain_slot-le permit (suc left) acquired bound h k =
    elim (Bool-cases (leb permit (u32 (acquired + 1)))) [
      | inl full ↦ rw full (omega (arith, k))
      | inr more ↦ rw more (drain_slot-le permit left (u32 (acquired + 1)) bound h (ground arith))
    ]

past_loop-total :
    (permit idx rounds j : ℕ) (permits : List ℕ) (acquired : ℕ)
    → length permits ≡ 10
    → total permits + acquired < 4_294_967_296
    → total (past_loop permit idx rounds j permits acquired).0
        + (past_loop permit idx rounds j permits acquired).1
      ≡ total permits + acquired
unfolding past_loop
past_loop-total permit idx zero j permits acquired h small = refl
past_loop-total permit idx (suc rounds) j permits acquired h small =
    let at = back idx j in
    let drained = drain_slot permit (get_or permits at 0) acquired in
    let emptied = total-set permits at 0 (omega (arith, h)) in
    let slot =
      drain_slot_lem permit (get_or permits at 0) acquired (omega (arith, emptied, small)) in
    let moved = total-set permits at drained.0 (omega (arith, h)) in
    omega (
      arith,
      past_loop-total permit idx rounds (j + 1) (set permits at drained.0) drained.1
          (length-set permits at drained.0 ∙ h) (omega (arith, moved, slot, small)),
      slot,
      moved,
    )

past_loop-le :
    (permit idx rounds j : ℕ) (permits : List ℕ) (acquired bound : ℕ)
    → permit ≤ bound + 1
    → acquired ≤ bound
    → (past_loop permit idx rounds j permits acquired).1 ≤ bound + rounds
unfolding past_loop
past_loop-le permit idx zero j permits acquired bound h k = omega (arith, k)
past_loop-le permit idx (suc rounds) j permits acquired bound h k =
    let at = back idx j in
    let drained = drain_slot permit (get_or permits at 0) acquired in
    let now =
      drain_slot-le permit (get_or permits at 0) acquired (bound + 1) h (omega (arith, k)) in
    omega (
      arith,
      past_loop-le permit idx rounds (j + 1) (set permits at drained.0) drained.1 (bound + 1)
          (omega (arith, h)) now,
    )

-- In a cycle of ten slots whose permits add up to less than 2^32, no permit is made or lost: what is
-- left in all the slots and what acquire of a number of permits hands out, in whichever slot the clock
-- is, add up to what was there.
pub acquire_some-total :
    (permit idx : ℕ) (l : RateLimiter)
    → length l.permits ≡ 10
    → idx < 10
    → total l.permits < 4_294_967_296
    → total (acquire_some permit idx l).0.permits + (acquire_some permit idx l).1 ≡ total l.permits
unfolding acquire_some
acquire_some-total permit idx l h k small =
    let here = get_or l.permits idx 0 in
    let emptied = total-set l.permits idx 0 (omega (arith, h, k)) in
    elim (Bool-cases (leb permit here)) [
      | inl enough ↦
          rw enough (ground (arith, total-set l.permits idx (here - permit) (omega (arith, h, k))))
      | inr short ↦ rw short (
          omega (
            arith,
            past_loop-total permit idx 5 1 (set l.permits idx 0) here
                (length-set l.permits idx 0 ∙ h) (omega (arith, emptied, small)),
            emptied,
          ))
    ]

-- An acquire of some permits hands out at most four more than asked for.
acquire_some-le : (permit idx : ℕ) (l : RateLimiter) → (acquire_some permit idx l).1 ≤ permit + 4
unfolding acquire_some
acquire_some-le permit idx l =
    let here = get_or l.permits idx 0 in
    elim (Bool-cases (leb permit here)) [
      | inl enough ↦ rw enough (omega arith)
      | inr short ↦ rw short (
          let below : here < permit = ground arith in
          omega (
            arith,
            below,
            past_loop-le permit idx 5 1 (set l.permits idx 0) here (permit - 1)
                (omega (arith, below)) (omega (arith, below)),
          ))
    ]

past_slot-held :
    (idx rounds j pick : ℕ) (permits : List ℕ)
    → past_slot idx rounds j permits ≡ some pick
    → (0 < get_or permits pick 0) × (pick < 10)
unfolding past_slot
past_slot-held idx zero j pick permits e = absurd cc
past_slot-held idx (suc rounds) j pick permits e =
    elim (Bool-cases (ltb 0 (get_or permits (back idx j) 0))) [
      | inl held ↦
          let here : back idx j ≡ pick = ground arith in
          subst (λ k. (0 < get_or permits k 0) × (k < 10)) here (ground arith, omega arith)
      | inr empty ↦ past_slot-held idx rounds (j + 1) pick permits (rw empty at e)
    ]

first_slot-held :
    (idx pick : ℕ) (permits : List ℕ)
    → idx < 10
    → first_slot idx permits ≡ some pick
    → (0 < get_or permits pick 0) × (pick < 10)
first_slot-held idx pick permits k e = elim (Bool-cases (ltb 0 (get_or permits idx 0))) [
  | inl held ↦
      let here : idx ≡ pick = ground arith in
      subst (λ n. (0 < get_or permits n 0) × (n < 10)) here (ground arith, k)
  | inr empty ↦ past_slot-held idx 5 1 pick permits (rw empty at e)
]

take_one-total :
    (l l' : RateLimiter) (o : Option ℕ)
    → length l.permits ≡ 10
    → ((pick : ℕ) → o ≡ some pick → (0 < get_or l.permits pick 0) × (pick < 10))
    → take_one l o ≡ some l'
    → total l'.permits + 1 ≡ total l.permits
unfolding take_one
take_one-total l l' none h held e = absurd cc
take_one-total l l' (some pick) h held e =
    let (pos, below) = held pick refl in
    let one = total-set l.permits pick (get_or l.permits pick 0 - 1) (omega (arith, h, below)) in
    let same : set l.permits pick (get_or l.permits pick 0 - 1) ≡ l'.permits = ground arith in
    omega (arith, one, pos, ap total same)

-- A single acquire that does not wait takes exactly one permit out of the slots.
acquire-total :
    (idx : ℕ) (l l' : RateLimiter)
    → length l.permits ≡ 10
    → idx < 10
    → acquire idx l ≡ some l'
    → total l'.permits + 1 ≡ total l.permits
unfolding acquire
acquire-total idx l l' h k e =
    take_one-total l l' (first_slot idx l.permits) h (λ pick. first_slot-held idx pick l.permits k)
      e
