-- ===== src/Await/Sound.antt =====
-- Which of these waits always end, and with what.
use rocketmq_client_cpp.Prelude.{
  ◌≡◌, refl, Bool, true, false, Option, none, some, List, [], ◌∷◌, not, ◌&&◌, ◌||◌, is_empty, arith,
  is_some, ap,
}
use rocketmq_client_cpp.Await.{
  begin, execute, step, run, Protocol, await_pull, await_send_success, await_send_failure,
  start_pool, publish_info, end_transaction, System, Turn,
}
use rocketmq_client_cpp.Await.Explore.{
  explore, is_closed, IsStuck, is_stuck, is_stuck_lem, member, holds_in_runs,
}

-- The waits under the mutex, which look at the flag before they sleep.
abbrev pub LooksFirst : Protocol → Type 0
LooksFirst await_pull = Unit {0}
LooksFirst await_send_success = Unit {0}
LooksFirst await_send_failure = Unit {0}
LooksFirst start_pool = Unit {0}
LooksFirst publish_info = ⊥
LooksFirst end_transaction = ⊥

-- What the thread that waited has read: the answer; for a failed send perhaps what was there before it; for a
-- pool nothing.
abbrev pub Read : Protocol → Option Bool → Type 0
Read await_pull o = o ≡ some true
Read await_send_success o = o ≡ some true
Read await_send_failure o = (b : Bool) × (o ≡ some b)
Read start_pool o = Unit {0}
Read publish_info o = o ≡ some true
Read end_transaction o = o ≡ some true

has_read : Protocol → Option Bool → Bool
has_read await_send_failure o = is_some o
has_read start_pool o = true
has_read p none = false
has_read p (some b) = b

ends_well : Protocol → System → Bool
unfolding has_read
ends_well p s =
    not (is_stuck s) || (is_empty s.waiter && (is_empty s.callback && has_read p s.seen))

known : Protocol → List System
known p = explore 14 (begin p ∷ [])

ends_well-run :
    (p : Protocol) (schedule : List Turn)
    → LooksFirst p
    → ends_well p (run schedule (begin p)) ≡ true
unfolding known explore is_closed member begin step execute ends_well is_stuck
ends_well-run await_pull schedule h =
    holds_in_runs (ends_well await_pull) (known await_pull) (begin await_pull) schedule refl refl
      refl
ends_well-run await_send_success schedule h =
    holds_in_runs (ends_well await_send_success) (known await_send_success)
      (begin await_send_success) schedule refl refl refl
ends_well-run await_send_failure schedule h =
    holds_in_runs (ends_well await_send_failure) (known await_send_failure)
      (begin await_send_failure) schedule refl refl refl
ends_well-run start_pool schedule h =
    holds_in_runs (ends_well start_pool) (known start_pool) (begin start_pool) schedule refl refl
      refl
ends_well-run publish_info schedule h = absurd h
ends_well-run end_transaction schedule h = absurd h

has_read-Read : (p : Protocol) (o : Option Bool) → has_read p o ≡ true → LooksFirst p → Read p o
unfolding has_read
has_read-Read await_pull none h l = cc
has_read-Read await_pull (some b) h l = ap some h
has_read-Read await_send_success none h l = cc
has_read-Read await_send_success (some b) h l = ap some h
has_read-Read await_send_failure none h l = cc
has_read-Read await_send_failure (some b) h l = (b, refl)
has_read-Read start_pool o h l = tt
has_read-Read publish_info o h l = absurd l
has_read-Read end_transaction o h l = absurd l

-- For the waits that look at the flag first (AwaitPullCallback, AwaitSendCallback, the start of a
-- thread pool): in whatever order the thread that waits and the callback take their steps, also with
-- wake-ups for nothing, when neither can move both have ended, and what was read is there where the
-- method says so.
pub stuck-ended :
    (p : Protocol) (schedule : List Turn)
    → LooksFirst p
    → IsStuck (run schedule (begin p))
    → ((run schedule (begin p)).waiter ≡ [])
      × (((run schedule (begin p)).callback ≡ []) × Read p (run schedule (begin p)).seen)
stuck-ended p schedule l stuck =
    of (run schedule (begin p)) (is_stuck_lem (run schedule (begin p)) stuck)
      (ends_well-run p schedule l)
  where
    of :
        (s : System)
        → is_stuck s ≡ true
        → ends_well p s ≡ true
        → (s.waiter ≡ []) × ((s.callback ≡ []) × Read p s.seen)
    of s stuck e =
        unfold ends_well in (ground arith, (ground arith, has_read-Read p s.seen (ground arith) l))
