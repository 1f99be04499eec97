-- ===== src/Producer/Retry.antt =====
-- The retries of a send: `RetrySendCallback` of src/main/cpp/rocketmq/SendCallbacks.cpp, and `sendImpl`
-- of src/main/cpp/rocketmq/ProducerImpl.cpp, which answers a queue without an address by `onFailure`.
pub mod Attempts
pub mod Limit
use rocketmq_client_cpp.Prelude.{
  ℕ, zero, suc, ◌+◌, ◌-◌, ◌%◌, Bool, true, false, not, ◌||◌, Option, none, some, List, [], ◌∷◌,
  length, is_empty, get_elem?, leb, if◌then◌else◌,
}
use rocketmq_client_cpp.Types.{ErrorCode, MessageQueue}

pub record RetrySendCallback : Type 0 where
  pub attempt_times : ℕ
  pub max_attempt_times : ℕ
  pub candidates : List MessageQueue

-- A request on its way to a queue, whose reply the callback waits for, or the end: the caller's
-- `onFailure`, after which the callback is deleted.
pub data Verdict : Type 0 where
  sent : MessageQueue → RetrySendCallback → Verdict
  answered : ErrorCode → Verdict

-- `none` for no candidates, which is a division by zero.
unfoldable pub message_queue : RetrySendCallback → Option MessageQueue
message_queue c = get_elem? c.candidates (c.attempt_times % length c.candidates)

abbrev pub next_attempt : RetrySendCallback → RetrySendCallback
next_attempt c = record c { attempt_times = c.attempt_times + 1 }

-- The checks of `onFailure`, after the count went up; `alive` tells whether the producer is there.
abbrev pub gives_up : Bool → RetrySendCallback → Bool
gives_up alive c = leb c.max_attempt_times c.attempt_times || (not alive || is_empty c.candidates)

-- `sendImpl` on fuel, `none` where it runs out or where there is no queue; `onFailure` calls it again.
attempt : Option MessageQueue → RetrySendCallback → Bool → Option Verdict → Option Verdict
attempt none c done rest = none
attempt (some q) c done rest =
    if not (is_empty q.service_address)
    then some (sent q c)
    else if done
    then some (answered ErrorCode.bad_gateway)
    else rest

unfoldable pub send_loop : ℕ → Bool → RetrySendCallback → Option Verdict
unfolding attempt
send_loop zero alive c = none
send_loop (suc fuel) alive c =
    let c' = next_attempt c in
    attempt (message_queue c) c (gives_up alive c') (send_loop fuel alive c')

-- As many rounds as attempts are left.
unfoldable pub send_impl : Bool → RetrySendCallback → Option Verdict
send_impl alive c = send_loop (suc (c.max_attempt_times - c.attempt_times)) alive c

unfoldable pub on_failure : Bool → ErrorCode → RetrySendCallback → Option Verdict
on_failure alive ec c =
    let c' = next_attempt c in if gives_up alive c' then some (answered ec) else send_impl alive c'
