-- ===== src/Receive/PullOffset.antt =====
-- Where the next pull starts after one that succeeds (AsyncReceiveMessageCallback.cpp).
use rocketmq_client_cpp.Prelude.{
  if◌then◌else◌, ap, ◌∙◌, ℕ, ◌≡◌, refl, true, Option, none, some, List, [], Bool-cases, inl, inr,
}
use rocketmq_client_cpp.Prelude.Text.{Text}
use rocketmq_client_cpp.Types.{pull}
use rocketmq_client_cpp.Queue.{ProcessQueue, should_throttle, sync_idle_state}
use rocketmq_client_cpp.Rpc.Wrap.Pull.{process_pull_result-offset}
use rocketmq_client_cpp.Rpc.Wrap.{ReceiveResult, Response, Codec, process_pull_result}
use rocketmq_client_cpp.Receive.{
  on_status, on_found, then_receive, check_throttle_then_receive, move_offset, cache_then_signal,
  ReceiveConsumer, Effect, on_success, ok_status,
}

abbrev pub next_offset_of : Option ProcessQueue → Option ℕ
next_offset_of none = none
next_offset_of (some q) = some q.next_offset

then_receive-offset :
    (now : ℕ) (q : ProcessQueue) (c : ReceiveConsumer) (effects : List Effect)
    → next_offset_of (then_receive now q c effects).0 ≡ some q.next_offset
unfolding then_receive check_throttle_then_receive sync_idle_state
then_receive-offset now q c effects = elim (Bool-cases (should_throttle (some c.quota) q)) [
  | inl e ↦ rw e refl
  | inr e ↦ rw e refl
]

on_found-offset :
    (now : ℕ) (c : ReceiveConsumer) (r : ReceiveResult) (q : ProcessQueue)
    → c.receive_message_action ≡ pull
    → r.next_offset ≡ 0
    → next_offset_of (on_found now c r q).0 ≡ some 0
unfolding on_found
on_found-offset now c r q pulls o =
    then_receive-offset now _ c _
    ∙ (ap (λ a. some (move_offset a r.next_offset (cache_then_signal c r.messages q).0).next_offset)
          pulls
        ∙ ap some o)

-- A pull that is found starts the next one at offset 0, whatever the response says is next: an active
-- consumer that pulls has next offset 0 after the result.
pull_found-restarts :
    (now : ℕ) (ns : Text) (codec : Codec) (response : Response) (r : ReceiveResult)
    (c : ReceiveConsumer) (q : ProcessQueue)
    → process_pull_result ns codec response ≡ some r
    → r.status ≡ ok_status
    → c.active ≡ true
    → c.receive_message_action ≡ pull
    → next_offset_of (on_success now (some q) (some c) r).0 ≡ some 0
unfolding on_success on_status
pull_found-restarts now ns codec response r c q run found active pulls =
    let zero_offset = process_pull_result-offset ns codec response r run in
    ap (λ b. next_offset_of (if b then on_status now r.status c r q else (some q, [])).0) active
    ∙ (ap (λ s. next_offset_of (on_status now s c r q).0) found
        ∙ on_found-offset now c r q pulls zero_offset)
