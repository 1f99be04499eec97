-- ===== src/Queue/Least.antt =====
-- `committedOffset` of ProcessQueueImpl.cpp against its meaning: the least offset that is outstanding.
use rocketmq_client_cpp.Prelude.{
  ℕ, ◌<◌, ◌≤◌, ◌≡◌, refl, sym, ap, Option, none, some, List, [], ◌∷◌, arith, ltb, ◌==◌,
  if◌then◌else◌, Bool-cases, inl, inr, subst,
}
use rocketmq_client_cpp.Types.{broadcasting}
use rocketmq_client_cpp.Queue.{Consumer, committed_offset}
use rocketmq_client_cpp.Queue.Offsets.{OffsetRecord, committed}
use rocketmq_client_cpp.Queue.Tracking.{count, hits-front, Tracks, open_records, sole_released}
use rocketmq_client_cpp.Queue.World.{World, Reach, outstanding}
use rocketmq_client_cpp.Queue.Account.{Reach-account}

abbrev lesser : ℕ → Option ℕ → ℕ
lesser x none = x
lesser x (some m) = if ltb m x then m else x

abbrev pub least : List ℕ → Option ℕ
least [] = none
least (x ∷ xs) = some (lesser x (least xs))

-- Nothing of an option is below a number.
abbrev Bounds : ℕ → Option ℕ → Type 0
Bounds m none = Unit {0}
Bounds m (some l) = m ≤ l

lesser-Bounds : (m x : ℕ) (o : Option ℕ) → m ≤ x → Bounds m o → m ≤ lesser x o
lesser-Bounds m x none h b = h
lesser-Bounds m x (some l) h b = ground arith

Bounds-tail : (m x : ℕ) (o : Option ℕ) → m ≤ lesser x o → Bounds m o
Bounds-tail m x none h = tt
Bounds-tail m x (some l) h = ground arith

least-Bounds : (m : ℕ) (out : List ℕ) → ((o : ℕ) → 0 < count o out → m ≤ o) → Bounds m (least out)
least-Bounds m [] b = tt
least-Bounds m (x ∷ out) b =
    lesser-Bounds m x (least out) (b x (ground arith))
      (least-Bounds m out (λ o h. b o (ground arith)))

lesser_front : (m : ℕ) (o : Option ℕ) → Bounds m o → lesser m o ≡ m
lesser_front m none b = refl
lesser_front m (some l) b = ground arith

-- An offset that occurs, and that nothing is below, is the least.
least_attained :
    (m : ℕ) (out : List ℕ) → 0 < count m out → Bounds m (least out) → least out ≡ some m
least_attained m [] h b = absurd (omega arith)
least_attained m (x ∷ out) h b = elim (Bool-cases (x == m)) [
  | inl same ↦ ap some (
      subst (λ k. lesser k (least out) ≡ m) (ground arith)
        (lesser_front m (least out) (Bounds-tail m x (least out) b)))
  | inr other ↦ ground (arith, least_attained m out, Bounds-tail m x (least out))
]

-- The least offset occurs, and no other one that occurs is below it.
abbrev pub IsLeast : ℕ → List ℕ → Type 0
IsLeast m out = (0 < count m out) × ((o : ℕ) → 0 < count o out → m ≤ o)

IsLeast-cons :
    (x m : ℕ) (out : List ℕ) → IsLeast m out → IsLeast (if ltb m x then m else x) (x ∷ out)
IsLeast-cons x m out (here, low) = (ground arith, λ o h. ground (arith, low o))

pub least-IsLeast :
    (x : ℕ) (out : List ℕ) → (m : ℕ) × ((least (x ∷ out) ≡ some m) × IsLeast m (x ∷ out))
least-IsLeast x [] = (x, (refl, (ground arith, λ o h. ground arith)))
least-IsLeast x (y ∷ out) =
    let (m, (e, is_least)) = least-IsLeast y out in
    (if ltb m x then m else x, (ap (λ l. some (lesser x l)) e, IsLeast-cons x m (y ∷ out) is_least))

pub least_unique :
    (m : ℕ) (out : List ℕ)
    → 0 < count m out
    → ((o : ℕ) → 0 < count o out → m ≤ o)
    → least out ≡ some m
least_unique m out h b = least_attained m out h (least-Bounds m out b)

Tracks-least :
    (o : ℕ) (out : List ℕ) (rs : List OffsetRecord)
    → Tracks out rs
    → 0 < count o out
    → committed rs ≡ least out
unfolding committed
Tracks-least o out rs (sole_released r e f g) p =
    absurd (omega (arith, subst (λ l. 0 < count o l) g p))
Tracks-least o out [] (open_records s u c) p = absurd (omega (arith, c o))
Tracks-least o out (x ∷ rs) (open_records s u c) p = rw (u.0) (
    sym (
      least_attained x.offset out (ground (arith, c x.offset)) (
        least-Bounds x.offset out
          (λ y h. hits-front y x.offset (x ∷ rs) (omega arith, s.1) (omega (arith, c y))))))

-- In every state that a process queue reaches by caching, taking and releasing, in the broadcasting
-- model and with some offset outstanding, the committed offset is the least offset of the messages
-- that are cached or in flight; the messages of a batch have offsets that are not outstanding when
-- they are cached.
pub Reach-committed_least :
    {c : Consumer} {w : World}
    → Reach c w
    → c.message_model ≡ broadcasting
    → (o : ℕ) → 0 < count o (outstanding w)
    → committed_offset w.queue ≡ least (outstanding w)
unfolding committed_offset
Reach-committed_least {w} r e o p =
    Tracks-least o (outstanding w) w.queue.offsets ((Reach-account r).tracked e) p
