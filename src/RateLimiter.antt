-- ===== src/RateLimiter.antt =====
-- The rate limiter of the consume services, at its only size `RateLimiter<10>`:
-- src/main/cpp/base/include/RateLimiter.h. The slot of the clock is an argument.
pub mod Permits
use rocketmq_client_cpp.Prelude.Word.{u32}
use rocketmq_client_cpp.Prelude.{
  ℕ, zero, suc, ◌+◌, ◌-◌, ◌*◌, ◌/◌, ◌%◌, Bool, true, false, not, Option, none, some, List, [], ◌∷◌,
  replicate, get_or, set, ltb, leb, ◌==◌, if◌then◌else◌,
}

pub record RateLimiter : Type 0 where
  pub partition : List ℕ  -- uint32_t each
  pub permits : List ℕ  -- uint32_t each

abbrev pub size : ℕ
size = 10

-- The remainder is spread: `partition_[i * step]++` for each `i` below it, the last one first.
unfoldable pub spread : ℕ → ℕ → List ℕ → List ℕ
spread step zero l = l
spread step (suc i) l = let l' = spread step i l in set l' (i * step) (get_or l' (i * step) 0 + 1)

unfoldable pub make : ℕ → RateLimiter
make permit =
    let r = permit % size in
    let even = replicate size (permit / size) in
    record {
      partition = if r == 0 then even else spread (size / r) r even;
      permits = replicate size 0;
    }

-- The slot `j` steps before `idx`.
abbrev pub back : ℕ → ℕ → ℕ
back idx j = (idx + size - j) % size

unfoldable pub available : ℕ → RateLimiter → ℕ
available idx l = available_loop 6 l
  where
    available_loop : ℕ → RateLimiter → ℕ
    available_loop zero l = 0
    available_loop (suc j) l = u32 (available_loop j l + get_or l.permits (back idx j) 0)

-- The inner loop of `acquire(permit)` on one slot: what is left there, and what is acquired, a `uint32_t`.
unfoldable pub drain_slot : ℕ → ℕ → ℕ → ℕ × ℕ
drain_slot permit zero acquired = (0, acquired)
drain_slot permit (suc left) acquired =
    let acquired' = u32 (acquired + 1) in
    let rest = drain_slot permit left acquired' in
    if leb permit acquired' then (left, acquired') else rest

-- The loop over the past half of the cycle: the slots that are left to visit, and the step.
unfoldable pub past_loop : ℕ → ℕ → ℕ → ℕ → List ℕ → ℕ → List ℕ × ℕ
past_loop permit idx zero j permits acquired = (permits, acquired)
past_loop permit idx (suc rounds) j permits acquired =
    let at = back idx j in
    let (left, acquired') = drain_slot permit (get_or permits at 0) acquired in
    past_loop permit idx rounds (j + 1) (set permits at left) acquired'

unfoldable pub acquire_some : ℕ → ℕ → RateLimiter → RateLimiter × ℕ
acquire_some permit idx l =
    let here = get_or l.permits idx 0 in
    let (permits', acquired) = past_loop permit idx 5 1 (set l.permits idx 0) here in
    if leb permit here
    then (record l { permits = set l.permits idx (here - permit) }, permit)
    else (record l { permits = permits' }, acquired)

-- The first slot from `j` steps back with a permit.
unfoldable pub past_slot : ℕ → ℕ → ℕ → List ℕ → Option ℕ
past_slot idx zero j permits = none
past_slot idx (suc rounds) j permits =
    let rest = past_slot idx rounds (j + 1) permits in
    if ltb 0 (get_or permits (back idx j) 0) then some (back idx j) else rest

abbrev pub first_slot : ℕ → List ℕ → Option ℕ
first_slot idx permits =
    if ltb 0 (get_or permits idx 0) then some idx else past_slot idx 5 1 permits

pub take_one : RateLimiter → Option ℕ → Option RateLimiter
take_one l none = none
take_one l (some at) = some (record l { permits = set l.permits at (get_or l.permits at 0 - 1) })

-- `acquire()` up to its wait: `none` where it waits.
unfoldable pub acquire : ℕ → RateLimiter → Option RateLimiter
unfolding take_one
acquire idx l = take_one l (first_slot idx l.permits)

-- After the wait, on the slot that the clock shows then; at 0 the counter wraps.
unfoldable pub acquire_woken : ℕ → RateLimiter → RateLimiter
acquire_woken idx l = record l {
  permits = set l.permits idx ((get_or l.permits idx 0 + 4_294_967_295) % 4_294_967_296);
}

unfoldable pub tick : ℕ → RateLimiter → RateLimiter
tick idx l = record l { permits = set l.permits idx (get_or l.partition idx 0) }
