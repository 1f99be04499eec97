-- ===== src/Multiplexing/Chains.antt =====
-- A poll of a broker never stops and never doubles, and none starts by itself.
use rocketmq_client_cpp.Prelude.{◌≡◌, List, [], ◌∷◌, ◌++◌, Option, none, some}
use rocketmq_client_cpp.Prelude.Text.{Text}
use rocketmq_client_cpp.Multiplexing.{
  Client, Context, Effect, multiplexing_call, multiplexing_later, end_transaction,
  on_multiplexing_response, on_multiplexing_timer,
}

-- The hosts that effects poll, now or later.
abbrev pub polls : List Effect → List Text
polls [] = []
polls (multiplexing_call target request timeout ∷ es) = target ∷ polls es
polls (multiplexing_later target ∷ es) = target ∷ polls es
polls (end_transaction target message_id transaction_id resolution ∷ es) = polls es

module _ (c : Client) (target : Text) where
  -- What comes of a handler, if anything, polls the host once.
  abbrev PollsOnce : Option (List Effect) → Type 0
  PollsOnce none = Unit {0}
  PollsOnce (some es) = polls es ≡ target ∷ []

-- A call on its way, or a timer that will make one.
pub data Pending : Type 0 where
  in_call in_timer : Text → Pending

abbrev pub pending_of : List Effect → List Pending
pending_of [] = []
pending_of (multiplexing_call target request timeout ∷ es) = in_call target ∷ pending_of es
pending_of (multiplexing_later target ∷ es) = in_timer target ∷ pending_of es
pending_of (end_transaction target message_id transaction_id resolution ∷ es) = pending_of es

abbrev pub host_of : Pending → Text
host_of (in_call target) = target
host_of (in_timer target) = target

-- A call is answered, or a timer fires.
pub data Step (c : Client) : List Pending → List Pending → Type 0 where
  answered :
      (before : List Pending) (ctx : Context) (after : List Pending) (es : List Effect)
      → on_multiplexing_response c ctx ≡ some es
      → Step c (before ++ in_call ctx.remote_address ∷ after) (before ++ (pending_of es ++ after))
  fired :
      (before : List Pending) (target : Text) (after : List Pending)
      → Step c
          (before ++ in_timer target ∷ after)
          (before ++ (pending_of (on_multiplexing_timer c target) ++ after))

pub data Reach (c : Client) (x : List Pending) : List Pending → Type 0 where
  here : Reach c x x
  later : {y z : List Pending} → Reach c x y → Step c y z → Reach c x z
