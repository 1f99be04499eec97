-- ===== src/Rpc/Wrap/Pull.antt =====
-- What `processPullResult` of ClientManagerImpl.cpp hands over.
use rocketmq_client_cpp.Prelude.{
  ◌≡◌, refl, true, Option, none, some, List, [], ◌∷◌, map, Bool-cases, inl, inr, All, ◌⊎◌, subst,
}
use rocketmq_client_cpp.Prelude.Text.{Text, text_eq}
use rocketmq_client_cpp.Types.{Message}
use rocketmq_client_cpp.Rpc.{
  Code, other, unauthenticated, permission_denied, invalid_argument, not_found, deadline_exceeded,
  failed_precondition, internal, resource_exhausted, out_of_range,
}
use rocketmq_client_cpp.Rpc.Wrap.{
  ReceiveMessageStatus, ReceiveResult, Response, Codec, Item, Wrapped, wrap_message,
  wrapped_message, body_digest_match, pull_loop, pull_step, process_pull_result, pull_by_code,
  pull_result, failed_assertion, wrapped, corrupted, ok_status,
}

pull_result-offset :
    (o : Option (ReceiveMessageStatus × List Message)) (r : ReceiveResult)
    → pull_result o ≡ some r
    → r.next_offset ≡ 0
unfolding pull_result
pull_result-offset none r e = absurd cc
pull_result-offset (some (s, ms)) r e = cc

pull_by_code-offset :
    (ns : Text) (codec : Codec) (items : List Item) (c : Code) (r : ReceiveResult)
    → pull_by_code ns codec items c ≡ some r
    → r.next_offset ≡ 0
unfolding pull_by_code
pull_by_code-offset ns codec [] Code.ok r e = absurd cc
pull_by_code-offset ns codec (i ∷ items) Code.ok r e = pull_result-offset _ r e
pull_by_code-offset ns codec items unauthenticated r e = cc
pull_by_code-offset ns codec items permission_denied r e = cc
pull_by_code-offset ns codec items invalid_argument r e = cc
pull_by_code-offset ns codec items not_found r e = cc
pull_by_code-offset ns codec items deadline_exceeded r e = cc
pull_by_code-offset ns codec items failed_precondition r e = cc
pull_by_code-offset ns codec items internal r e = cc
pull_by_code-offset ns codec items resource_exhausted r e = cc
pull_by_code-offset ns codec items out_of_range r e = cc
pull_by_code-offset ns codec items (other n) r e = cc

pub process_pull_result-offset :
    (ns : Text) (codec : Codec) (response : Response) (r : ReceiveResult)
    → process_pull_result ns codec response ≡ some r
    → r.next_offset ≡ 0
unfolding process_pull_result
process_pull_result-offset ns codec response r e =
    pull_by_code-offset ns codec response.items response.code r e

-- An item that is wrapped, with its digest checked.
abbrev pub Verified : Text → Codec → Item → Type 0
Verified ns codec i =
    (wrap_message ns codec i ≡ wrapped (wrapped_message codec i))
    × (body_digest_match codec i ≡ true)

pub Wrapped-cases :
    (w : Wrapped) → (w ≡ failed_assertion) ⊎ ((w ≡ corrupted) ⊎ ((m : Message) × (w ≡ wrapped m)))
Wrapped-cases failed_assertion = inl refl
Wrapped-cases corrupted = inr (inl refl)
Wrapped-cases (wrapped m) = inr (inr (m, refl))

pub wrap_message-Verified :
    (ns : Text) (codec : Codec) (i : Item) (m : Message)
    → wrap_message ns codec i ≡ wrapped m
    → (m ≡ wrapped_message codec i) × Verified ns codec i
unfolding wrap_message
wrap_message-Verified ns codec i m e = elim (Bool-cases (text_eq i.resource_namespace ns)) [
  | inl n ↦ elim (Bool-cases (body_digest_match codec i)) [
    | inl d ↦ (cc, (cc, d))
    | inr d ↦ absurd cc
  ]
  | inr n ↦ absurd cc
]

-- Every item verified, and the messages those of the items in order.
abbrev pub Found : Text → Codec → List Item → List Message → Type 0
Found ns codec items ms = All (Verified ns codec) items × (ms ≡ map (wrapped_message codec) items)

pull_step-found :
    (w : Wrapped) (rest : Option (ReceiveMessageStatus × List Message)) (ms : List Message)
    → pull_step w rest ≡ some (ok_status, ms)
    → (m : Message) × ((l : List Message) × ((w ≡ wrapped m)
          × (rest ≡ some (ok_status, l))
          × (ms ≡ m ∷ l)))
unfolding pull_step
pull_step-found failed_assertion rest ms e = absurd cc
pull_step-found corrupted rest ms e = absurd cc
pull_step-found (wrapped m) none ms e = absurd cc
pull_step-found (wrapped m) (some (s, l)) ms e = (m, (l, (refl, cc, cc)))

pull_loop-Found :
    (ns : Text) (codec : Codec) (items : List Item) (ms : List Message)
    → pull_loop ns codec items ≡ some (ok_status, ms)
    → Found ns codec items ms
unfolding pull_loop
pull_loop-Found ns codec [] ms e = (tt, cc)
pull_loop-Found ns codec (i ∷ items) ms e =
    let (m, (l, (w, rest, whole))) =
      pull_step-found (wrap_message ns codec i) (pull_loop ns codec items) ms e in
    let (is_m, verified) = wrap_message-Verified ns codec i m w in
    let (all_verified, is_l) = pull_loop-Found ns codec items l rest in
    ((verified, all_verified), cc)

pull_result-Found :
    (ns : Text) (codec : Codec) (items : List Item) (r : ReceiveResult)
    → pull_result (pull_loop ns codec items) ≡ some r
    → r.status ≡ ok_status
    → Found ns codec items r.messages
pull_result-Found ns codec items r e s =
    let (ms, (run, same)) = go (pull_loop ns codec items) e in
    subst (Found ns codec items) same (pull_loop-Found ns codec items ms run)
  where
    go :
        (o : Option (ReceiveMessageStatus × List Message))
        → pull_result o ≡ some r
        → (ms : List Message) × ((o ≡ some (ok_status, ms)) × (ms ≡ r.messages))
    go none e = absurd (unfold pull_result in cc)
    go (some (t, ms)) e = unfold pull_result in (ms, (cc, cc))

pull_by_code-Found :
    (ns : Text) (codec : Codec) (items : List Item) (c : Code) (r : ReceiveResult)
    → pull_by_code ns codec items c ≡ some r
    → r.status ≡ ok_status
    → Found ns codec items r.messages
unfolding pull_by_code
pull_by_code-Found ns codec [] Code.ok r e s = absurd cc
pull_by_code-Found ns codec (i ∷ items) Code.ok r e s = pull_result-Found ns codec (i ∷ items) r e s
pull_by_code-Found ns codec items unauthenticated r e s = absurd cc
pull_by_code-Found ns codec items permission_denied r e s = absurd cc
pull_by_code-Found ns codec items invalid_argument r e s = absurd cc
pull_by_code-Found ns codec items not_found r e s = absurd cc
pull_by_code-Found ns codec items deadline_exceeded r e s = absurd cc
pull_by_code-Found ns codec items failed_precondition r e s = absurd cc
pull_by_code-Found ns codec items internal r e s = absurd cc
pull_by_code-Found ns codec items resource_exhausted r e s = absurd cc
pull_by_code-Found ns codec items out_of_range r e s = absurd cc
pull_by_code-Found ns codec items (other n) r e s = absurd cc

-- A pull whose result is OK hands over exactly the items of the response, in order, each decoded, and
-- each with a digest that matches where its body is not empty.
pub process_pull_result-Found :
    (ns : Text) (codec : Codec) (response : Response) (r : ReceiveResult)
    → process_pull_result ns codec response ≡ some r
    → r.status ≡ ok_status
    → Found ns codec response.items r.messages
unfolding process_pull_result
process_pull_result-Found ns codec response r e s =
    pull_by_code-Found ns codec response.items response.code r e s
