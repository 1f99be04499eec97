-- ===== src/Histogram/Conserved.antt =====
-- No count is lost while a thread reports a histogram of src/main/cpp/base/include/Histogram.h.
use rocketmq_client_cpp.Prelude.{
  ℕ, suc, ◌+◌, ◌-◌, ◌≡◌, refl, ap, sym, subst, ◌<◌, ◌==◌, List, [], ◌∷◌, if◌then◌else◌, length,
  arith, ap, Bool-cases, inl, ◌∙◌, inr,
}
use Prim.Native.Nat.{zero, min}
use rocketmq_client_cpp.Prelude.Int.{ℤ, pos, negsuc}
use rocketmq_client_cpp.Prelude.Word.{u32}
use rocketmq_client_cpp.Histogram.{
  Visit, load, fetch_add, fetch_sub, count_in, Histogram, leb, count_all, report_loop,
}

-- How often grades fall in a slot: a grade that is too high falls in the last one, a negative one in none.
abbrev pub times : ℕ → ℕ → List ℤ → ℕ
times capacity i [] = 0
times capacity i (negsuc g ∷ gs) = times capacity i gs
times capacity i (pos g ∷ gs) = (if i == min g (capacity - 1) then 1 else 0) + times capacity i gs

-- The same over all that other threads count in while the report goes on.
abbrev pub counted : ℕ → ℕ → List Visit → ℕ
counted capacity i [] = 0
counted capacity i (visit ∷ visits) =
    (times capacity i visit.before + times capacity i visit.between) + counted capacity i visits

u32-left : (a b n : ℕ) → u32 a ≡ u32 b → u32 (a + n) ≡ u32 (b + n)
u32-left a b n e = omega (arith, e)

load-fetch_add :
    (i k n : ℕ) (l : List ℕ)
    → i < length l
    → u32 (load i (fetch_add k n l)) ≡ u32 (load i l + (if i == k then n else 0))
unfolding load fetch_add
load-fetch_add i k n [] h = elim h [ ]
load-fetch_add zero zero n (x ∷ xs) h = ground arith
load-fetch_add zero (suc k) n (x ∷ xs) h = ground arith
load-fetch_add (suc i) zero n (x ∷ xs) h = ground arith
load-fetch_add (suc i) (suc k) n (x ∷ xs) h = ground (arith, load-fetch_add i k n xs (omega arith))

load-fetch_sub :
    (i k n : ℕ) (l : List ℕ)
    → i < length l
    → u32 (load i (fetch_sub k n l) + (if i == k then n else 0)) ≡ u32 (load i l)
unfolding load fetch_sub
load-fetch_sub i k n [] h = elim h [ ]
load-fetch_sub zero zero n (x ∷ xs) h = ground arith
load-fetch_sub zero (suc k) n (x ∷ xs) h = ground arith
load-fetch_sub (suc i) zero n (x ∷ xs) h = ground arith
load-fetch_sub (suc i) (suc k) n (x ∷ xs) h = ground (arith, load-fetch_sub i k n xs (omega arith))

length-fetch_add : (k n : ℕ) (l : List ℕ) → length (fetch_add k n l) ≡ length l
unfolding fetch_add
length-fetch_add k n [] = refl
length-fetch_add zero n (x ∷ xs) = refl
length-fetch_add (suc k) n (x ∷ xs) = ap suc (length-fetch_add k n xs)

length-fetch_sub : (k n : ℕ) (l : List ℕ) → length (fetch_sub k n l) ≡ length l
unfolding fetch_sub
length-fetch_sub k n [] = refl
length-fetch_sub zero n (x ∷ xs) = refl
length-fetch_sub (suc k) n (x ∷ xs) = ap suc (length-fetch_sub k n xs)

-- A slot for each grade below the capacity.
abbrev pub IsValid : ℕ → Histogram → Type 0
IsValid capacity h = (h.capacity ≡ capacity) × (length h.counts ≡ capacity)

count_in_lem :
    (capacity i : ℕ) (g : ℤ) (h : Histogram)
    → i < capacity
    → IsValid capacity h
    → IsValid capacity (count_in g h)
      × (u32 (load i (count_in g h).counts) ≡ u32 (load i h.counts + times capacity i (g ∷ [])))
unfolding count_in
count_in_lem capacity i (negsuc g) h lt (c, l) = ((c, l), omega arith)
count_in_lem capacity i (pos g) h lt (c, l) = elim (Bool-cases (leb h.capacity g)) [
  | inl high ↦ rw high (
    (c, length-fetch_add (h.capacity - 1) 1 h.counts ∙ l),
    ground (arith, c, load-fetch_add i (h.capacity - 1) 1 h.counts (omega (arith, l, lt))),
  )
  | inr low ↦ rw low (
    (c, length-fetch_add g 1 h.counts ∙ l),
    ground (arith, c, load-fetch_add i g 1 h.counts (omega (arith, l, lt))),
  )
]

times_cons :
    (capacity i : ℕ) (g : ℤ) (gs : List ℤ)
    → times capacity i (g ∷ gs) ≡ times capacity i (g ∷ []) + times capacity i gs
times_cons capacity i (negsuc g) gs = omega arith
times_cons capacity i (pos g) gs = omega arith

count_all_lem :
    (capacity i : ℕ) (gs : List ℤ) (h : Histogram)
    → i < capacity
    → IsValid capacity h
    → IsValid capacity (count_all gs h)
      × (u32 (load i (count_all gs h).counts) ≡ u32 (load i h.counts + times capacity i gs))
unfolding count_all
count_all_lem capacity i [] h lt valid = (valid, omega arith)
count_all_lem capacity i (g ∷ gs) h lt valid =
    let (valid', one) = count_in_lem capacity i g h lt valid in
    let (valid'', rest) = count_all_lem capacity i gs (count_in g h) lt valid' in
    (valid'', omega (arith, one, rest, times_cons capacity i g gs))

-- What a report read of a slot, when it began at another.
taken : ℕ → ℕ → List ℕ → ℕ
taken i k [] = 0
taken i k (value ∷ values) = (if i == k then value else 0) + taken i (suc k) values

report_loop_lem :
    (capacity i k : ℕ) (visits : List Visit) (h : Histogram)
    → i < capacity
    → IsValid capacity h
    → u32 (load i (report_loop visits k h).0.counts + taken i k (report_loop visits k h).1)
      ≡ u32 (load i h.counts + counted capacity i visits)
unfolding report_loop taken
report_loop_lem capacity i k [] h lt valid = refl
report_loop_lem capacity i k (visit ∷ visits) h lt valid =
    let (valid_before, before) = count_all_lem capacity i visit.before h lt valid in
    let h_before = count_all visit.before h in
    let (valid_between, between) =
      count_all_lem capacity i visit.between h_before lt valid_before in
    let h_between = count_all visit.between h_before in
    let value = load k h_before.counts in
    let subtracted =
      load-fetch_sub i k value h_between.counts (omega (arith, lt, valid_between.1)) in
    let rest =
      report_loop_lem capacity i (suc k) visits
        (record h_between { counts = fetch_sub k value h_between.counts }) lt
        (valid_between.0, length-fetch_sub k value h_between.counts ∙ valid_between.1) in
    omega (arith, before, between, subtracted, rest)

taken-below : (i k : ℕ) (values : List ℕ) → i < k → taken i k values ≡ 0
unfolding taken
taken-below i k [] lt = refl
taken-below i k (value ∷ values) lt =
    ground (arith, taken-below i (suc k) values (omega (arith, lt)))

taken-load : (i k : ℕ) (values : List ℕ) → taken (i + k) k values ≡ load i values
unfolding taken load
taken-load i k [] = refl
taken-load zero k (value ∷ values) = ground (arith, taken-below k (suc k) values (omega arith))
taken-load (suc i) k (value ∷ values) =
    ground (arith, taken-load i (suc k) values, ap (λ n. taken n (suc k) values) (shifted i k))
  where
    shifted : (i k : ℕ) → suc i + k ≡ i + suc k
    shifted i k = omega arith

-- In a histogram with a slot for each grade below its capacity, whatever other threads count in while
-- a report goes through the slots, also between the load and the subtraction of one: what is left in a
-- slot and what the report has of it are together what was there and what came, modulo 2^32.
pub report_loop-conserves :
    (h : Histogram) (visits : List Visit) (i : ℕ)
    → length h.counts ≡ h.capacity
    → i < h.capacity
    → u32 (load i (report_loop visits 0 h).0.counts + load i (report_loop visits 0 h).1)
      ≡ u32 (load i h.counts + counted h.capacity i visits)
report_loop-conserves h visits i valid lt =
    let whole = report_loop_lem h.capacity i 0 visits h lt (refl, valid) in
    let read = taken-load i 0 (report_loop visits 0 h).1 in
    subst
      (λ n.
        u32 (load i (report_loop visits 0 h).0.counts + n)
        ≡ u32 (load i h.counts + counted h.capacity i visits))
      (ap (λ n. taken n 0 (report_loop visits 0 h).1) (sym (plus_zero i)) ∙ read) whole
  where
    plus_zero : (i : ℕ) → i + 0 ≡ i
    plus_zero i = omega arith
