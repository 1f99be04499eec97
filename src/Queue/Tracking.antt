-- ===== src/Queue/Tracking.antt =====
-- The offset set against the offsets that are still outstanding: the order of the set, and what each
-- operation of it does to the number of records at an offset.
use rocketmq_client_cpp.Prelude.{
  ℕ, suc, ◌+◌, ◌≤◌, ◌<◌, ◌≡◌, refl, true, false, List, [], ◌∷◌, ◌++◌, arith, ◌==◌, if◌then◌else◌,
  All,
}
use rocketmq_client_cpp.Queue.Offsets.{OffsetRecord, emplace, erase}

-- How often an offset occurs among the outstanding ones.
abbrev pub count : ℕ → List ℕ → ℕ
count o [] = 0
count o (x ∷ xs) = if x == o then suc (count o xs) else count o xs

abbrev pub hits : ℕ → List OffsetRecord → ℕ
hits o [] = 0
hits o (x ∷ xs) = if x.offset == o then suc (hits o xs) else hits o xs

-- Strictly increasing, and above a bound.
abbrev pub SortedFrom : ℕ → List OffsetRecord → Type 0
SortedFrom n [] = Unit {0}
SortedFrom n (x ∷ xs) = (n ≤ x.offset) × SortedFrom (suc x.offset) xs

abbrev pub Unreleased : List OffsetRecord → Type 0
Unreleased = All (λ r. r.released ≡ false)

pub SortedFrom-mono : (m n : ℕ) (rs : List OffsetRecord) → m ≤ n → SortedFrom n rs → SortedFrom m rs
SortedFrom-mono m n [] h s = tt
SortedFrom-mono m n (x ∷ xs) h s = (omega arith, s.1)

pub hits-below : (o n : ℕ) (rs : List OffsetRecord) → SortedFrom n rs → o < n → hits o rs ≡ 0
hits-below o n [] s h = refl
hits-below o n (x ∷ xs) s h = ground (arith, hits-below o (suc x.offset) xs s.1)

pub SortedFrom-emplace :
    (n : ℕ) (r : OffsetRecord) (rs : List OffsetRecord)
    → SortedFrom n rs
    → n ≤ r.offset
    → SortedFrom n (emplace r rs)
unfolding emplace
SortedFrom-emplace n r [] s h = (h, tt)
SortedFrom-emplace n r (x ∷ xs) s h = ground (arith, SortedFrom-emplace (suc x.offset) r xs s.1)

pub Unreleased-emplace :
    (r : OffsetRecord) (rs : List OffsetRecord)
    → r.released ≡ false
    → Unreleased rs
    → Unreleased (emplace r rs)
unfolding emplace
Unreleased-emplace r [] e u = (e, tt)
Unreleased-emplace r (x ∷ xs) e u = ground (arith, Unreleased-emplace r xs e u.1)

pub hits-emplace :
    (o : ℕ) (r : OffsetRecord) (rs : List OffsetRecord)
    → hits r.offset rs ≡ 0
    → hits o (emplace r rs) ≡ (if r.offset == o then suc (hits o rs) else hits o rs)
unfolding emplace
hits-emplace o r [] h = refl
hits-emplace o r (x ∷ xs) h = ground (arith, hits-emplace o r xs)

pub SortedFrom-erase :
    (n o : ℕ) (rs : List OffsetRecord) → SortedFrom n rs → SortedFrom n (erase o rs)
unfolding erase
SortedFrom-erase n o [] s = tt
SortedFrom-erase n o (x ∷ xs) s =
    ground (arith, SortedFrom-erase (suc x.offset) o xs s.1, SortedFrom-mono n (suc x.offset) xs)

pub Unreleased-erase : (o : ℕ) (rs : List OffsetRecord) → Unreleased rs → Unreleased (erase o rs)
unfolding erase
Unreleased-erase o [] u = tt
Unreleased-erase o (x ∷ xs) u = ground (arith, Unreleased-erase o xs u.1)

pub hits-erase :
    (n o p : ℕ) (rs : List OffsetRecord)
    → SortedFrom n rs
    → hits p (erase o rs) ≡ (if o == p then 0 else hits p rs)
unfolding erase
hits-erase n o p [] s = ground arith
hits-erase n o p (x ∷ xs) s =
    ground (arith, hits-erase (suc x.offset) o p xs s.1, hits-below p (suc x.offset) xs s.1)

pub hits-le-one : (n o : ℕ) (rs : List OffsetRecord) → SortedFrom n rs → hits o rs ≤ 1
hits-le-one n o [] s = omega arith
hits-le-one n o (x ∷ xs) s =
    ground (arith, hits-le-one (suc x.offset) o xs s.1, hits-below o (suc x.offset) xs s.1)

-- What is tracked lies at or above the front of the set.
pub hits-front : (o n : ℕ) (rs : List OffsetRecord) → SortedFrom n rs → 0 < hits o rs → n ≤ o
hits-front o n [] s h = elim h [ ]
hits-front o n (x ∷ xs) s h = ground (arith, hits-front o (suc x.offset) xs s.1)

pub count-append : (o : ℕ) (xs ys : List ℕ) → count o (xs ++ ys) ≡ count o xs + count o ys
count-append o [] ys = omega arith
count-append o (x ∷ xs) ys = ground (arith, count-append o xs ys)

-- The set as the code keeps it while the offsets `out` are outstanding: their records, none of them
-- released; or, when none is outstanding, the last one released, or nothing.
pub data Tracks (out : List ℕ) (rs : List OffsetRecord) : Type 0 where
  open_records :
      SortedFrom 0 rs → Unreleased rs → ((o : ℕ) → count o out ≡ hits o rs) → Tracks out rs
  sole_released : (r : OffsetRecord) → rs ≡ r ∷ [] → r.released ≡ true → out ≡ [] → Tracks out rs
