-- ===== src/Queue/Offsets.antt =====
-- `std::set<OffsetRecord>` ordered by offset, and what ProcessQueueImpl.cpp does with it.
use rocketmq_client_cpp.Prelude.{
  ℕ, ◌+◌, Bool, true, Option, none, some, List, [], ◌∷◌, ltb, ◌==◌, if◌then◌else◌,
}

pub record OffsetRecord : Type 0 where
  pub offset : ℕ
  pub released : Bool

-- An element that is there already stays.
unfoldable pub emplace : OffsetRecord → List OffsetRecord → List OffsetRecord
emplace r [] = r ∷ []
emplace r (x ∷ xs) =
    if ltb r.offset x.offset
    then r ∷ x ∷ xs
    else if r.offset == x.offset
    then x ∷ xs
    else x ∷ emplace r xs

unfoldable pub erase : ℕ → List OffsetRecord → List OffsetRecord
erase o [] = []
erase o (x ∷ xs) = if x.offset == o then xs else x ∷ erase o xs

-- In `cacheMessages`: a sole record that is released is dropped.
unfoldable pub forget_released : List OffsetRecord → List OffsetRecord
forget_released (x ∷ []) = if x.released then [] else x ∷ []
forget_released xs = xs

-- In `release`. The front of an empty set, or another offset than the last one: a failed assertion.
unfoldable pub release_offset : ℕ → List OffsetRecord → Option (List OffsetRecord)
unfolding erase
release_offset o [] = none
release_offset o (x ∷ []) =
    if x.offset == o then some (record { offset = o; released = true } ∷ []) else none
release_offset o (x ∷ y ∷ xs) = some (erase o (x ∷ y ∷ xs))

-- `committedOffset`, on the front of the set.
unfoldable pub committed : List OffsetRecord → Option ℕ
committed [] = none
committed (x ∷ xs) = some (if x.released then x.offset + 1 else x.offset)
