-- ===== src/PullConsumer/Pulled.antt =====
-- What a pull of PullConsumerImpl.cpp calls back with.
use rocketmq_client_cpp.Prelude.{
  ◌≡◌, refl, Bool, true, false, not, ◌&&◌, Option, none, some, List, map, keep, any, Bool-cases,
  inl, inr,
}
use rocketmq_client_cpp.Prelude.Text.{Text, text_eq}
use rocketmq_client_cpp.Types.{ErrorCode, Message}
use rocketmq_client_cpp.Rpc.{
  Code, ok, unauthenticated, permission_denied, invalid_argument, not_found, deadline_exceeded,
  failed_precondition, internal, resource_exhausted, out_of_range, other,
}
use rocketmq_client_cpp.Rpc.Answers.{is_ok}
use rocketmq_client_cpp.Rpc.Wrap.{Codec, pop_loop, wrapped_message, body_digest_match}
use rocketmq_client_cpp.Rpc.Wrap.Pop.{pop_loop-kept, pop_loop-none}
use rocketmq_client_cpp.PullConsumer.{
  InvocationContext, PullMessageResponse, PullResult, Outcome, aborted, on_failure, on_success,
  on_pull, by_code, succeed,
}

-- The result of a response: its offsets, and the messages of the items whose digest matches, in order.
abbrev pub result_of : Codec → PullMessageResponse → PullResult
result_of codec r = record {
  min = r.min_offset;
  max = r.max_offset;
  next = r.next_offset;
  messages = map (wrapped_message codec) (keep (body_digest_match codec) r.items);
}

-- An outcome, by whether the call went through with OK.
abbrev pub Fits : Text → Codec → Bool → PullMessageResponse → Outcome → Type 0
Fits ns codec passes r (on_failure ec) = passes ≡ false
Fits ns codec passes r aborted =
    (passes ≡ true) × (any (λ i. not (text_eq i.resource_namespace ns)) r.items ≡ true)
Fits ns codec passes r (on_success result) = (passes ≡ true) × (result ≡ result_of codec r)

abbrev pub IsOutcome : Text → Codec → Option InvocationContext → Outcome → Type 0
IsOutcome ns codec none out = out ≡ on_failure ErrorCode.request_timeout
IsOutcome ns codec (some ctx) out =
    Fits ns codec (ctx.status_ok && is_ok ctx.response.code) ctx.response out

module _ (ns : Text) (codec : Codec) (r : PullMessageResponse) where
  succeed-Fits :
      (o : Option (List Message))
      → pop_loop (λ m. m) ns codec r.items ≡ o
      → Fits ns codec true r (succeed r o)
  unfolding succeed
  succeed-Fits none e = (refl, pop_loop-none (λ m. m) ns codec r.items e)
  succeed-Fits (some ms) e =
      let kept = pop_loop-kept (λ m. m) ns codec r.items ms e in (refl, rw kept refl)

  by_code-Fits : (c : Code) → Fits ns codec (is_ok c) r (by_code ns codec r c)
  unfolding by_code
  by_code-Fits ok = succeed-Fits (pop_loop (λ m. m) ns codec r.items) refl
  by_code-Fits permission_denied = refl
  by_code-Fits unauthenticated = refl
  by_code-Fits deadline_exceeded = refl
  by_code-Fits invalid_argument = refl
  by_code-Fits internal = refl
  by_code-Fits not_found = refl
  by_code-Fits failed_precondition = refl
  by_code-Fits resource_exhausted = refl
  by_code-Fits out_of_range = refl
  by_code-Fits (other n) = refl

-- Without a context a pull fails as timed out. With one, it fails only if the call or the code is not
-- OK; it succeeds only if both are, with the offsets of the response and the messages of the items
-- whose digest matches, in order; and an assertion fails only if both are and some item has another
-- namespace.
pub on_pull-IsOutcome :
    (ns : Text) (codec : Codec) (o : Option InvocationContext)
    → IsOutcome ns codec o (on_pull ns codec o)
unfolding on_pull
on_pull-IsOutcome ns codec none = refl
on_pull-IsOutcome ns codec (some ctx) = elim (Bool-cases ctx.status_ok) [
  | inl fine ↦ rw fine (by_code-Fits ns codec ctx.response ctx.response.code)
  | inr failed ↦ rw failed refl
]
