-- ===== src/Producer/Retry/Limit.antt =====
-- The requests of a send of ProducerImpl.cpp and SendCallbacks.cpp against its limit.
use rocketmq_client_cpp.Prelude.{
  subst, sym, ◌∙◌, ℕ, zero, suc, ◌+◌, ◌≡◌, ◌≤◌, ◌<◌, refl, Bool, true, false, Option, none, some,
  List, [], ◌∷◌, length, is_empty, ◌⊎◌, arith, Bool-cases, inl, inr, ◌∙◌,
}
use rocketmq_client_cpp.Prelude.Int.{ℤ, pos_part, leb_ℤ, pos}
use rocketmq_client_cpp.Types.{ErrorCode, MessageQueue}
use rocketmq_client_cpp.Producer.{MqMessage, Platform, send0, validate, answered}
use rocketmq_client_cpp.Producer.Retry.{
  RetrySendCallback, Verdict, message_queue, send_impl, on_failure, sent,
}
use rocketmq_client_cpp.Producer.Retry.Attempts.{
  From, on_failure-From, send_impl-From, Sending, starts, refuses, retries, ends,
}

-- The number of requests is within the limit, and the one on its way is of the turn of its attempt,
-- to a queue of the list that has an address.
abbrev pub Limited : List MessageQueue → ℕ → ℕ → Verdict → Type 0
Limited list max n (answered ec) = n ≤ max
Limited list max n (sent q c) =
    (n ≤ c.attempt_times + 1)
    × (c.attempt_times < max)
    × (c.max_attempt_times ≡ max)
    × (c.candidates ≡ list)
    × (0 < length list)
    × (message_queue c ≡ some q)
    × (is_empty q.service_address ≡ false)

length_pos : (l : List MessageQueue) → is_empty l ≡ false → 0 < length l
length_pos [] h = absurd cc
length_pos (q ∷ l) h = omega arith

start_callback : List MessageQueue → ℤ → RetrySendCallback
start_callback list max = record {
  attempt_times = 0;
  max_attempt_times = pos_part max;
  candidates = list;
}

-- What `send0` does once its checks pass, and that they passed.
send0-cases :
    (p : Platform) (m : MqMessage) (list : List MessageQueue) (max : ℤ) (v : Verdict)
    → send0 p m list max ≡ some v
    → ((ec : ErrorCode) × (v ≡ answered ec))
      ⊎ ((0 < length list)
          × ((0 < pos_part max) × (send_impl true (start_callback list max) ≡ some v)))
unfolding send0 start_callback
send0-cases p m list max v e = elim (Bool-cases (validate p m)) [
  | inr bad ↦ inl (ErrorCode.bad_request, cc)
  | inl ok ↦ elim (Bool-cases (is_empty list)) [
    | inl void ↦ inl (ErrorCode.not_found, cc)
    | inr held ↦ elim (Bool-cases (leb_ℤ max (pos 0))) [
      | inl low ↦ inl (ErrorCode.bad_configuration, cc)
      | inr high ↦ inr (length_pos list held, (ground arith, cc))
    ]
  ]
]

sent-Limited :
    (list : List MessageQueue) (max n k : ℕ) (c d : RetrySendCallback) (q : MessageQueue)
    → 0 < length list
    → c.candidates ≡ list
    → c.max_attempt_times ≡ max
    → n ≤ k + 1
    → From k c (some (sent q d))
    → Limited list max n (sent q d)
sent-Limited list max n k c d q h e same le f =
    (omega (arith, f.0, le), omega (arith, f.1, same), f.2 ∙ same, f.3 ∙ e, h, f.4, f.5)

start-Limited :
    (p : Platform) (m : MqMessage) (list : List MessageQueue) (max : ℤ) (q : MessageQueue)
    (c : RetrySendCallback)
    → send0 p m list max ≡ some (sent q c)
    → Limited list (pos_part max) 1 (sent q c)
unfolding start_callback
start-Limited p m list max q c e = elim (send0-cases p m list max (sent q c) e) [
  | inl (ec, refused) ↦ absurd cc
  | inr (held, (high, run)) ↦
      sent-Limited list (pos_part max) 1 0 (start_callback list max) c q held refl refl
        (omega arith)
        (subst (From 0 (start_callback list max)) run
          (send_impl-From true (start_callback list max) held high))
]

failure-From :
    (alive : Bool) (ec : ErrorCode) (c : RetrySendCallback) (list : List MessageQueue) (v : Verdict)
    → c.candidates ≡ list
    → 0 < length list
    → on_failure alive ec c ≡ some v
    → From (c.attempt_times + 1) c (some v)
failure-From alive ec c list v e held run =
    subst (From (c.attempt_times + 1) c) run
      (on_failure-From alive ec c (subst (λ l. 0 < length l) (sym e) held))

-- Whatever fails, a send makes at most as many requests as attempts are allowed; each request goes to
-- the candidate at the position of its attempt, counted round the list, and that queue has an address.
pub Sending-Limited :
    (p : Platform) (m : MqMessage) (list : List MessageQueue) (max : ℤ) (n : ℕ) (v : Verdict)
    → Sending p m list max n v
    → Limited list (pos_part max) n v
Sending-Limited p m list max n v (starts {q = q} {c = c} e) = start-Limited p m list max q c e
Sending-Limited p m list max n v (refuses e) = omega arith
Sending-Limited p m list max n v
      (retries {n = k} {q = q} {c = c} alive ec {r = r} {d = d} before e) =
    let (le, below, same, is_list, held, turn, address) =
      Sending-Limited p m list max k (sent q c) before in
    sent-Limited list (pos_part max) (k + 1) (c.attempt_times + 1) c d r held is_list same
      (omega (arith, le)) (failure-From alive ec c list (sent r d) is_list held e)
Sending-Limited p m list max n v (ends {q = q} {c = c} alive ec {e = er} before e) =
    let limited = Sending-Limited p m list max n (sent q c) before in
    omega (arith, limited.0, limited.1)

-- A number of failed replies in a row, all with one error; `none` if a step had no outcome.
abbrev pub and_then : Option Verdict → (Verdict → Option Verdict) → Option Verdict
and_then none f = none
and_then (some v) f = f v

abbrev pub after_failure : Bool → ErrorCode → Verdict → Option Verdict
after_failure alive ec (answered e) = some (answered e)
after_failure alive ec (sent q c) = on_failure alive ec c

unfoldable pub fail : ℕ → Bool → ErrorCode → Verdict → Option Verdict
fail zero alive ec v = some v
fail (suc k) alive ec v = and_then (after_failure alive ec v) (fail k alive ec)

fail-answered :
    (k : ℕ) (alive : Bool) (ec e : ErrorCode) → fail k alive ec (answered e) ≡ some (answered e)
unfolding fail
fail-answered zero alive ec e = refl
fail-answered (suc k) alive ec e = fail-answered k alive ec e

-- With `k` attempts left at most, an answer comes within `k` failures.
abbrev Answers : ℕ → Bool → ErrorCode → Type 0
Answers k alive ec =
    (q : MessageQueue) (c : RetrySendCallback)
    → 0 < length c.candidates
    → c.attempt_times < c.max_attempt_times
    → c.max_attempt_times ≤ c.attempt_times + k
    → (e : ErrorCode) × (fail k alive ec (sent q c) ≡ some (answered e))

Answers-suc :
    (k : ℕ) (alive : Bool) (ec : ErrorCode) (c : RetrySendCallback) (o : Option Verdict)
    → Answers k alive ec
    → 0 < length c.candidates
    → c.max_attempt_times ≤ c.attempt_times + suc k
    → From (c.attempt_times + 1) c o
    → (e : ErrorCode) × (and_then o (fail k alive ec) ≡ some (answered e))
Answers-suc k alive ec c none rec held enough f = elim f [ ]
Answers-suc k alive ec c (some (answered e)) rec held enough f = (e, fail-answered k alive ec e)
Answers-suc k alive ec c (some (sent r d)) rec held enough f =
    rec r d (subst (λ l. 0 < length l) (sym f.3) held) (omega (arith, f.1, f.2))
      (omega (arith, f.0, f.2, enough))

fail-Answers : (k : ℕ) (alive : Bool) (ec : ErrorCode) → Answers k alive ec
unfolding fail
fail-Answers zero alive ec q c held below enough = absurd (omega (arith, below, enough))
fail-Answers (suc k) alive ec q c held below enough =
    Answers-suc k alive ec c (on_failure alive ec c) (fail-Answers k alive ec) held enough
      (on_failure-From alive ec c held)

-- A send whose requests all fail comes to an answer within as many failures as attempts are allowed.
pub Sending-answers :
    (p : Platform) (m : MqMessage) (list : List MessageQueue) (max : ℤ) (n : ℕ) (v : Verdict)
    (alive : Bool) (ec : ErrorCode)
    → Sending p m list max n v
    → (e : ErrorCode) × (fail (pos_part max) alive ec v ≡ some (answered e))
Sending-answers p m list max n (answered e) alive ec s =
    (e, fail-answered (pos_part max) alive ec e)
Sending-answers p m list max n (sent q c) alive ec s =
    let (le, below, same, is_list, held, turn, address) =
      Sending-Limited p m list max n (sent q c) s in
    fail-Answers (pos_part max) alive ec q c (subst (λ l. 0 < length l) (sym is_list) held)
      (omega (arith, below, same)) (omega (arith, same))
