-- ===== src/Await/Explore.antt =====
-- A finite set of states that is closed under the steps of both threads holds whatever a run comes to.
use rocketmq_client_cpp.Prelude.{
  ℕ, zero, suc, ◌==◌, ◌≡◌, refl, Bool, true, false, ◌&&◌, ◌||◌, List, [], ◌∷◌, arith, all, Option,
  none, some, Bool-cases, inl, inr, if◌then◌else◌,
}
use rocketmq_client_cpp.Await.{
  Instruction, lock, unlock, wait, asleep, signal_all, complete, store, read, until_completed,
  until_completed_locking, unless_completed, waiting, calling, Holder, nobody, held_by, System,
  Turn, go, spurious, step, run,
}

code : Instruction → ℕ
code lock = 0
code unlock = 1
code wait = 2
code asleep = 3
code signal_all = 4
code complete = 5
code store = 6
code read = 7
code until_completed = 8
code until_completed_locking = 9
code unless_completed = 10

code-eq : (i j : Instruction) → code i ≡ code j → i ≡ j
unfolding code
code-eq i j e = ground arith

same_program : List Instruction → List Instruction → Bool
unfolding code
same_program [] [] = true
same_program (i ∷ l) (j ∷ m) = code i == code j && same_program l m
same_program [] (j ∷ m) = false
same_program (i ∷ l) [] = false

same_program-eq : (l m : List Instruction) → same_program l m ≡ true → l ≡ m
unfolding same_program
same_program-eq [] [] e = refl
same_program-eq (i ∷ l) (j ∷ m) e = ground (arith, code-eq i j, same_program-eq l m)
same_program-eq [] (j ∷ m) e = cc
same_program-eq (i ∷ l) [] e = cc

bit : Bool → ℕ
bit false = 0
bit true = 1

seen_code : Option Bool → ℕ
seen_code none = 0
seen_code (some false) = 1
seen_code (some true) = 2

holder_code : Holder → ℕ
holder_code nobody = 0
holder_code (held_by waiting) = 1
holder_code (held_by calling) = 2

bit-eq : (a b : Bool) → bit a ≡ bit b → a ≡ b
unfolding bit
bit-eq a b e = ground arith

seen_code-eq : (a b : Option Bool) → seen_code a ≡ seen_code b → a ≡ b
unfolding seen_code
seen_code-eq a b e = ground arith

holder_code-eq : (a b : Holder) → holder_code a ≡ holder_code b → a ≡ b
unfolding holder_code
holder_code-eq a b e = ground arith

same : System → System → Bool
unfolding same_program bit seen_code holder_code
same s t =
    holder_code s.holder == holder_code t.holder
    && (bit s.completed == bit t.completed
        && (bit s.stored == bit t.stored
            && (seen_code s.seen == seen_code t.seen
                && (same_program s.waiter t.waiter && same_program s.callback t.callback))))

same-eq : (s t : System) → same s t ≡ true → s ≡ t
unfolding same
same-eq s t e = ground (
  arith,
  holder_code-eq s.holder t.holder,
  bit-eq s.completed t.completed,
  bit-eq s.stored t.stored,
  seen_code-eq s.seen t.seen,
  same_program-eq s.waiter t.waiter,
  same_program-eq s.callback t.callback,
)

unfoldable pub member : System → List System → Bool
unfolding same
member s [] = false
member s (t ∷ l) = same s t || member s l

fresh : List System → List System → List System
unfolding member
fresh [] known = known
fresh (s ∷ l) known = let rest = fresh l known in if member s rest then rest else s ∷ rest

after : System → List System
after s = step (go waiting) s ∷ step (go calling) s ∷ step spurious s ∷ []

round : List System → List System → List System
unfolding fresh after
round [] known = known
round (s ∷ l) known = fresh (after s) (round l known)

-- All that is found in so many rounds.
unfoldable pub explore : ℕ → List System → List System
unfolding round
explore zero known = known
explore (suc n) known = explore n (round known known)

unfoldable pub is_closed : List System → List System → Bool
unfolding after member
is_closed [] known = true
is_closed (s ∷ l) known = all (λ t. member t known) (after s) && is_closed l known

same_program_refl : (l : List Instruction) → same_program l l ≡ true
unfolding same_program
same_program_refl [] = refl
same_program_refl (i ∷ l) = ground (arith, same_program_refl l)

same_refl : (s : System) → same s s ≡ true
unfolding same
same_refl s = ground (arith, same_program_refl s.waiter, same_program_refl s.callback)

-- No thread can go on.
abbrev pub IsStuck : System → Type 0
IsStuck s = (step (go waiting) s ≡ s) × (step (go calling) s ≡ s)

unfoldable pub is_stuck : System → Bool
unfolding same
is_stuck s = same (step (go waiting) s) s && same (step (go calling) s) s

pub is_stuck_lem : (s : System) → IsStuck s → is_stuck s ≡ true
unfolding is_stuck
is_stuck_lem s (w, c) = rw (w, c, same_refl s) refl

after-member :
    (s : System) (known : List System) (turn : Turn)
    → all (λ t. member t known) (after s) ≡ true
    → member (step turn s) known ≡ true
unfolding after
after-member s known (go waiting) a = ground arith
after-member s known (go calling) a = ground arith
after-member s known spurious a = ground arith

closed-step :
    (l known : List System) (s : System) (turn : Turn)
    → is_closed l known ≡ true
    → member s l ≡ true
    → member (step turn s) known ≡ true
unfolding is_closed member
closed-step [] known s turn c m = cc
closed-step (t ∷ l) known s turn c m = elim (Bool-cases (same s t)) [
  | inl here ↦ rw (same-eq s t here) (after-member t known turn (ground arith))
  | inr there ↦ closed-step l known s turn (ground arith) (ground arith)
]

closed-run :
    (known : List System) (schedule : List Turn) (s : System)
    → is_closed known known ≡ true
    → member s known ≡ true
    → member (run schedule s) known ≡ true
unfolding run
closed-run known [] s c m = m
closed-run known (turn ∷ schedule) s c m =
    closed-run known schedule (step turn s) c (closed-step known known s turn c m)

member-all :
    (test : System → Bool) (l : List System) (s : System)
    → all test l ≡ true
    → member s l ≡ true
    → test s ≡ true
unfolding member
member-all test [] s a m = cc
member-all test (t ∷ l) s a m = elim (Bool-cases (same s t)) [
  | inl here ↦ rw (same-eq s t here) (ground arith)
  | inr there ↦ member-all test l s (ground arith) (ground arith)
]

-- What a test finds in a closed set of states holds of all runs from one of them.
pub holds_in_runs :
    (test : System → Bool) (known : List System) (s : System) (schedule : List Turn)
    → is_closed known known ≡ true
    → member s known ≡ true
    → all test known ≡ true
    → test (run schedule s) ≡ true
holds_in_runs test known s schedule c m a =
    member-all test known (run schedule s) a (closed-run known schedule s c m)
