-- ===== src/Queue/Bag.antt =====
-- The offsets that are outstanding, up to order: what a process queue of ProcessQueueImpl.cpp stands for.
use mathlib.Core.Quot
use mathlib.Core.Quot.{Quot, Quot-set}
use rocketmq_client_cpp.Prelude.{
  ℕ, ◌-◌, ◌==◌, if◌then◌else◌, ◌≡◌, refl, sym, ◌∙◌, Option, List, [], ◌∷◌, ◌++◌, arith,
}
use rocketmq_client_cpp.Queue.Tracking.{count, count-append}
use rocketmq_client_cpp.Queue.Least.{least, least_unique, least-IsLeast}

-- The same offsets, as often.
abbrev pub SameOffsets : List ℕ → List ℕ → Type 0
SameOffsets xs ys = (o : ℕ) → count o xs ≡ count o ys

abbrev pub Bag : Type 0
Bag = Quot SameOffsets

abbrev pub of_list : List ℕ → Bag
of_list = Quot.mk

unfoldable pub occurrences : ℕ → Bag → ℕ
occurrences o = Quot.lift (hlevel) (count o) λ xs ys h. h o

unfoldable pub add_all : List ℕ → Bag → Bag
add_all new =
    Quot.lift Quot-set (λ out. of_list (new ++ out))
      (λ out out' same.
        Quot.sound (λ o. omega (arith, same o, count-append o new out, count-append o new out')))

-- One occurrence less, where there is one.
pub erase_one : ℕ → List ℕ → List ℕ
erase_one o [] = []
erase_one o (x ∷ xs) = if x == o then xs else x ∷ erase_one o xs

pub count-erase_one :
    (p o : ℕ) (xs : List ℕ) → count p (erase_one o xs) ≡ count p xs - (if p == o then 1 else 0)
unfolding erase_one
count-erase_one p o [] = omega arith
count-erase_one p o (x ∷ xs) = ground (arith, count-erase_one p o xs)

unfoldable pub remove : ℕ → Bag → Bag
remove o =
    Quot.lift Quot-set (λ out. of_list (erase_one o out))
      (λ out out' same.
        Quot.sound (λ p. omega (arith, same p, count-erase_one p o out, count-erase_one p o out')))

-- A bag that has an offset more than another is it after the removal.
pub remove_sound :
    (o : ℕ) (xs ys : List ℕ)
    → ((p : ℕ) → count p xs ≡ count p (o ∷ ys))
    → remove o (of_list xs) ≡ of_list ys
unfolding remove
remove_sound o xs ys h = Quot.sound (λ p. ground (arith, h p, count-erase_one p o xs))

pub least-same : (xs ys : List ℕ) → SameOffsets xs ys → least xs ≡ least ys
least-same [] [] h = refl
least-same [] (y ∷ ys) h = absurd (ground (arith, h y))
least-same (x ∷ xs) ys h =
    let (m, (e, (here, low))) = least-IsLeast x xs in
    e ∙ sym (least_unique m ys (omega (arith, h m)) (λ o i. low o (omega (arith, h o))))

-- The least offset of a bag.
unfoldable pub first : Bag → Option ℕ
first = Quot.lift (hlevel) least least-same
