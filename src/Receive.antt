-- ===== src/Receive.antt =====
-- The receive cycle of a process queue: src/main/cpp/rocketmq/AsyncReceiveMessageCallback.cpp.
-- A handler takes what its weak pointers lock to, and returns the queue and what it asks of others.
pub mod Cycle
pub mod PullOffset
use rocketmq_client_cpp.Prelude.{
  ℕ, Bool, true, false, Option, none, some, List, [], ◌∷◌, ◌++◌, map, if◌then◌else◌,
}
use rocketmq_client_cpp.Types.{Message, ReceiveMessageAction, polling, pull}
use rocketmq_client_cpp.Queue.{
  Consumer, ProcessQueue, cache_messages, should_throttle, sync_idle_state,
}
use rocketmq_client_cpp.Rpc.Wrap.{
  ReceiveMessageStatus, ReceiveResult, ok_status, data_corrupted_status, out_of_range_status,
  deadline_exceeded_status, internal_status, resource_exhausted_status, not_found_status,
}
use rocketmq_client_cpp.Rpc.{internal}

pub record ReceiveConsumer : Type 0 where
  pub quota : Consumer
  pub active : Bool
  pub receive_message_action : ReceiveMessageAction

-- `receive_later` schedules `checkThrottleThenReceive` in a second; `receive_immediately` is
-- `receiveMessage` of the consumer on the queue; `ack` is the one of a message that is filtered out.
pub data Effect : Type 0 where
  ack : Message → Effect
  signal_dispatcher receive_later receive_immediately abort : Effect

abbrev pub Outcome : Type 0
Outcome = Option ProcessQueue × List Effect

abbrev pub quota_of : Option ReceiveConsumer → Option Consumer
quota_of none = none
quota_of (some c) = some c.quota

-- Without a consumer an immediate receive does nothing.
immediately : Option ReceiveConsumer → List Effect
immediately none = []
immediately (some c) = receive_immediately ∷ []

unfoldable pub check_throttle_then_receive :
    ℕ → Option ProcessQueue → Option ReceiveConsumer → Outcome
unfolding immediately
check_throttle_then_receive now none c = (none, [])
check_throttle_then_receive now (some q) c =
    if should_throttle (quota_of c) q
    then (some (sync_idle_state now q), receive_later ∷ [])
    else (some q, immediately c)

-- Effects first, then `checkThrottleThenReceive`.
unfoldable pub then_receive : ℕ → ProcessQueue → ReceiveConsumer → List Effect → Outcome
then_receive now q c effects =
    let (q', next) = check_throttle_then_receive now (some q) (some c) in (q', effects ++ next)

abbrev pub to_offset : ℕ → ProcessQueue → ProcessQueue
to_offset o q = record q { next_offset = o }

unfoldable pub cache_then_signal :
    ReceiveConsumer → List Message → ProcessQueue → ProcessQueue × List Effect
cache_then_signal c ms q =
    let (q', acked) = cache_messages (some c.quota) ms q in
    (q', map ack acked ++ signal_dispatcher ∷ [])

abbrev move_offset : ReceiveMessageAction → ℕ → ProcessQueue → ProcessQueue
move_offset polling o q = q
move_offset pull o q = to_offset o q

on_found : ℕ → ReceiveConsumer → ReceiveResult → ProcessQueue → Outcome
on_found now c r q =
    let (q', effects) = cache_then_signal c r.messages q in
    then_receive now (move_offset c.receive_message_action r.next_offset q') c effects

on_corrupted : ℕ → ReceiveMessageAction → ReceiveConsumer → ReceiveResult → ProcessQueue → Outcome
on_corrupted now polling c r q =
    let (q', effects) = cache_then_signal c r.messages q in then_receive now q' c effects
on_corrupted now pull c r q = then_receive now q c []

on_out_of_range :
    ℕ → ReceiveMessageAction → ReceiveConsumer → ReceiveResult → ProcessQueue → Outcome
on_out_of_range now polling c r q = (some q, abort ∷ [])
on_out_of_range now pull c r q = then_receive now (to_offset r.next_offset q) c []

on_status : ℕ → ReceiveMessageStatus → ReceiveConsumer → ReceiveResult → ProcessQueue → Outcome
unfolding on_found on_corrupted on_out_of_range
on_status now ok_status c r q = on_found now c r q
on_status now data_corrupted_status c r q = on_corrupted now c.receive_message_action c r q
on_status now out_of_range_status c r q = on_out_of_range now c.receive_message_action c r q
on_status now deadline_exceeded_status c r q = then_receive now q c []
on_status now internal_status c r q = (some q, receive_later ∷ [])
on_status now resource_exhausted_status c r q = (some q, receive_later ∷ [])
on_status now not_found_status c r q = (some q, receive_later ∷ [])

-- The consumer is used unchecked: where it is gone, the call of `active` aborts.
unfoldable pub on_success :
    ℕ → Option ProcessQueue → Option ReceiveConsumer → ReceiveResult → Outcome
unfolding on_status
on_success now none c r = (none, [])
on_success now (some q) none r = (some q, abort ∷ [])
on_success now (some q) (some c) r = if c.active then on_status now r.status c r q else (some q, [])

unfoldable pub on_failure : Option ProcessQueue → Outcome
on_failure none = (none, [])
on_failure (some q) = (some q, receive_later ∷ [])
