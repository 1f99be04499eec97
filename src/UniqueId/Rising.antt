-- ===== src/UniqueId/Rising.antt =====
-- The order of the identifiers of UniqueIdGenerator.cpp.
use rocketmq_client_cpp.Prelude.{
  ℕ, ◌+◌, ◌≡◌, ◌≤◌, ◌<◌, ◌⊎◌, inl, inr, Bool-cases, List, [], ◌∷◌, length, arith, ◌==◌, All,
  All-map, subst, sym,
}
use rocketmq_client_cpp.UniqueId.{Slot, next_slot}

-- The slots of calls one after another, each with the seconds that its clock shows.
unfoldable pub slots : List ℕ → Slot → List Slot
slots [] s = []
slots (delta ∷ deltas) s = let t = next_slot delta s in t ∷ slots deltas t

-- Later in the order of the seconds, then of the sequence.
abbrev pub Before : Slot → Slot → Type 0
Before s t = (s.seconds < t.seconds) ⊎ ((s.seconds ≡ t.seconds) × (s.sequence < t.sequence))

-- The clock does not run backwards from a time.
abbrev pub Monotone : ℕ → List ℕ → Type 0
Monotone now [] = Unit {0}
Monotone now (delta ∷ deltas) = (now ≤ delta) × Monotone delta deltas

-- Each slot is before all that follow it.
abbrev pub Ascending : List Slot → Type 0
Ascending [] = Unit {0}
Ascending (s ∷ l) = All (Before s) l × Ascending l

next_slot_lem :
    (delta : ℕ) (s : Slot)
    → s.seconds ≤ delta
    → s.sequence + 1 < 4_294_967_296
    → Before s (next_slot delta s)
      × (((next_slot delta s).seconds ≡ delta) × ((next_slot delta s).sequence ≤ s.sequence + 1))
unfolding next_slot
next_slot_lem delta s h k = elim (Bool-cases (s.seconds == delta)) [
  | inl same ↦ ground arith
  | inr new ↦ ground arith
]

Before-trans : (s t u : Slot) → Before s t → Before t u → Before s u
Before-trans s t u (inl a) (inl b) = inl (omega (arith, a, b))
Before-trans s t u (inl a) (inr b) = inl (omega (arith, a, b.0))
Before-trans s t u (inr a) (inl b) = inl (omega (arith, a.0, b))
Before-trans s t u (inr a) (inr b) = inr (omega (arith, a.0, b.0), omega (arith, a.1, b.1))

slots-Ascending :
    (deltas : List ℕ) (s : Slot)
    → Monotone s.seconds deltas
    → s.sequence + length deltas < 4_294_967_296
    → All (Before s) (slots deltas s) × Ascending (slots deltas s)
unfolding slots
slots-Ascending [] s h k = (tt, tt)
slots-Ascending (delta ∷ deltas) s h k =
    let t = next_slot delta s in
    let (before, (now, seq)) = next_slot_lem delta s h.0 (omega (arith, k)) in
    let rest =
      slots-Ascending deltas t (subst (λ d. Monotone d deltas) (sym now) h.1)
        (omega (arith, k, seq)) in
    ((before, All-map (Before t) (Before s) (λ u. Before-trans s t u before) _ rest.0), rest)

-- While the clock does not run backwards and fewer than 2^32 identifiers are made, each identifier has
-- a slot before those of all later ones, in the order of seconds, then sequence.
pub slots-rise :
    (deltas : List ℕ) (s : Slot)
    → Monotone s.seconds deltas
    → s.sequence + length deltas < 4_294_967_296
    → Ascending (slots deltas s)
slots-rise deltas s h k = (slots-Ascending deltas s h k).1
