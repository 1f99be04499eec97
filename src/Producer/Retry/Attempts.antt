-- ===== src/Producer/Retry/Attempts.antt =====
-- A send of ProducerImpl.cpp and SendCallbacks.cpp through its failures, as a relation.
use rocketmq_client_cpp.Prelude.{
  ℕ, zero, suc, ◌+◌, ◌-◌, ◌%◌, ◌≡◌, ◌≤◌, ◌<◌, refl, Bool, false, Option, none, some, List, [], ◌∷◌,
  length, is_empty, get_elem?-lt, arith, Bool-cases, inl, inr,
}
use rocketmq_client_cpp.Prelude.Int.{ℤ}
use rocketmq_client_cpp.Types.{ErrorCode, MessageQueue}
use rocketmq_client_cpp.Producer.{MqMessage, Platform, send0, answered}
use rocketmq_client_cpp.Producer.Retry.{
  RetrySendCallback, Verdict, message_queue, next_attempt, gives_up, attempt, send_loop, send_impl,
  on_failure, sent,
}

-- A verdict that follows from the attempt `n` on: the request is of that attempt or a later one within
-- the limit, to the queue of its turn, which has an address.
abbrev pub From : ℕ → RetrySendCallback → Option Verdict → Type 0
From n c none = ⊥
From n c (some (answered ec)) = Unit
From n c (some (sent q c')) =
    (n ≤ c'.attempt_times)
    × (c'.attempt_times < c.max_attempt_times)
    × (c'.max_attempt_times ≡ c.max_attempt_times)
    × (c'.candidates ≡ c.candidates)
    × (message_queue c' ≡ some q)
    × (is_empty q.service_address ≡ false)

has_queue :
    (c : RetrySendCallback)
    → 0 < length c.candidates
    → (q : MessageQueue) × (message_queue c ≡ some q)
unfolding message_queue
has_queue c h = get_elem?-lt c.candidates (c.attempt_times % length c.candidates) (omega arith)

From-weaken :
    (n : ℕ) (c : RetrySendCallback) (v : Option Verdict)
    → From (n + 1) (next_attempt c) v
    → From n c v
From-weaken n c none h = h
From-weaken n c (some (answered ec)) h = tt
From-weaken n c (some (sent q c')) h = (omega (arith, h.0), h.1, h.2, h.3, h.4, h.5)

non_empty : (l : List MessageQueue) → 0 < length l → is_empty l ≡ false
non_empty [] h = elim h [ ]
non_empty (q ∷ l) h = refl

send_loop-From :
    (fuel : ℕ) (alive : Bool) (c : RetrySendCallback)
    → 0 < length c.candidates
    → c.attempt_times < c.max_attempt_times
    → c.max_attempt_times - c.attempt_times < fuel
    → From c.attempt_times c (send_loop fuel alive c)
unfolding send_loop attempt
send_loop-From zero alive c some_queue below enough = elim enough [ ]
send_loop-From (suc fuel) alive c some_queue below enough =
    let (q, is_q) = has_queue c some_queue in
    elim (Bool-cases (is_empty q.service_address)) [
      | inr held ↦ rw (is_q, held) (omega arith, below, refl, refl, is_q, held)
      | inl void ↦ elim (Bool-cases (gives_up alive (next_attempt c))) [
        | inl gives ↦ rw (is_q, void, gives) tt
        | inr goes ↦
            rw (is_q, void, goes)
              (From-weaken c.attempt_times c (send_loop fuel alive (next_attempt c)) (
                send_loop-From fuel alive (next_attempt c) some_queue (ground arith)
                  (omega (arith, below, enough))))
      ]
    ]

pub send_impl-From :
    (alive : Bool) (c : RetrySendCallback)
    → 0 < length c.candidates
    → c.attempt_times < c.max_attempt_times
    → From c.attempt_times c (send_impl alive c)
unfolding send_impl
send_impl-From alive c some_queue below =
    send_loop-From (suc (c.max_attempt_times - c.attempt_times)) alive c some_queue below
      (omega arith)

-- What a failure leads to: the caller's answer, or the request of a later attempt.
pub on_failure-From :
    (alive : Bool) (ec : ErrorCode) (c : RetrySendCallback)
    → 0 < length c.candidates
    → From (c.attempt_times + 1) c (on_failure alive ec c)
unfolding on_failure
on_failure-From alive ec c some_queue = elim (Bool-cases (gives_up alive (next_attempt c))) [
  | inl gives ↦ rw gives tt
  | inr goes ↦ rw goes (send_impl-From alive (next_attempt c) some_queue (ground arith))
]

-- A send as its requests fail: how many requests went out, and where it is.
pub data Sending (p : Platform) (m : MqMessage) (list : List MessageQueue) (max : ℤ)
    : ℕ → Verdict → Type 0 where
  starts :
      {q : MessageQueue} {c : RetrySendCallback}
      → send0 p m list max ≡ some (sent q c)
      → Sending p m list max 1 (sent q c)
  refuses :
      {ec : ErrorCode}
      → send0 p m list max ≡ some (answered ec)
      → Sending p m list max 0 (answered ec)
  retries :
      {n : ℕ} {q : MessageQueue} {c : RetrySendCallback} (alive : Bool) (ec : ErrorCode)
      {r : MessageQueue} {d : RetrySendCallback}
      → Sending p m list max n (sent q c)
      → on_failure alive ec c ≡ some (sent r d)
      → Sending p m list max (n + 1) (sent r d)
  ends :
      {n : ℕ} {q : MessageQueue} {c : RetrySendCallback} (alive : Bool) (ec : ErrorCode)
      {e : ErrorCode}
      → Sending p m list max n (sent q c)
      → on_failure alive ec c ≡ some (answered e)
      → Sending p m list max n (answered e)
