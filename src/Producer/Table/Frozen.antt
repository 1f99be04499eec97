-- ===== src/Producer/Table/Frozen.antt =====
-- The table of publish information of src/main/cpp/rocketmq/ProducerImpl.cpp is not brought up to date.
use rocketmq_client_cpp.Prelude.{
  ℕ, ◌≡◌, refl, false, Bool-cases, inl, inr, ap, sym, subst, ◌∙◌, Option, none, some, List, [], ◌∷◌,
  ◌++◌, All,
}
use rocketmq_client_cpp.Prelude.Text.{Text, text_eq, text_eq-eq}
use rocketmq_client_cpp.Prelude.Table.{lookup, lookup-insert_or_assign}
use rocketmq_client_cpp.PublishInfo.{PublishInfo, make}
use rocketmq_client_cpp.Producer.{found}
use rocketmq_client_cpp.Producer.Table.{
  Table, Request, RouteResult, unavailable, ready, answer_or_ask, store, async_publish_info,
  on_route, Step, asks, replies, Reach, here, later, Answer,
}

-- No request for the route of a topic is on its way.
abbrev pub Unasked : Text → List Request → Type 0
Unasked topic = All (λ r. text_eq r.topic topic ≡ false)

-- The topic has its publish information, and nothing on its way would replace it.
abbrev pub IsFrozen : Text → PublishInfo → Table → Type 0
IsFrozen topic info t =
    (lookup topic t.topic_publish_info_table ≡ some info) × Unasked topic t.requests

Unasked-append :
    (topic : Text) (l : List Request) (r : Request)
    → Unasked topic l
    → text_eq r.topic topic ≡ false
    → Unasked topic (l ++ r ∷ [])
Unasked-append topic [] r h e = (e, tt)
Unasked-append topic (x ∷ l) r h e = (h.0, Unasked-append topic l r h.1 e)

Unasked-remove :
    (topic : Text) (before after : List Request) (r : Request)
    → Unasked topic (before ++ r ∷ after)
    → (text_eq r.topic topic ≡ false) × Unasked topic (before ++ after)
Unasked-remove topic [] after r h = h
Unasked-remove topic (x ∷ before) after r h =
    let (other, rest) = Unasked-remove topic before after r h.1 in (other, (h.0, rest))

answer_or_ask-IsFrozen :
    (topic asked : Text) (info : PublishInfo) (cb : ℕ) (t : Table) (known : Option PublishInfo)
    → lookup asked t.topic_publish_info_table ≡ known
    → IsFrozen topic info t
    → IsFrozen topic info (answer_or_ask asked cb t known).0
unfolding answer_or_ask
answer_or_ask-IsFrozen topic asked info cb t (some other) e frozen = frozen
answer_or_ask-IsFrozen topic asked info cb t none e (there, unasked) = (
  there,
  Unasked-append topic t.requests _ unasked (elim (Bool-cases (text_eq asked topic)) [
    | inl same ↦ absurd (
        none_some (
          sym e
          ∙ (ap (λ k. lookup k t.topic_publish_info_table) (text_eq-eq asked topic same) ∙ there)))
    | inr other ↦ other
  ]),
)
  where
    none_some : {x : PublishInfo} → ◌≡◌ {A = Option PublishInfo} none (some x) → ⊥
    none_some h = cc

-- A handler that ends leaves the topic frozen.
abbrev LeavesFrozen : Text → PublishInfo → Option (Table × List Answer) → Type 0
LeavesFrozen topic info none = Unit {0}
LeavesFrozen topic info (some (t, answers)) = IsFrozen topic info t

store-LeavesFrozen :
    (topic : Text) (info : PublishInfo) (r : Request) (t : Table) (o : Option PublishInfo)
    → text_eq r.topic topic ≡ false
    → IsFrozen topic info t
    → LeavesFrozen topic info (store r t o)
unfolding store
store-LeavesFrozen topic info r t none other frozen = tt
store-LeavesFrozen topic info r t (some new) other (there, unasked) =
    ((lookup-insert_or_assign r.topic topic _ t.topic_publish_info_table ∙ rw other there), unasked)

on_route-LeavesFrozen :
    (topic : Text) (info : PublishInfo) (r : Request) (result : RouteResult) (which : ℕ) (t : Table)
    → text_eq r.topic topic ≡ false
    → IsFrozen topic info t
    → LeavesFrozen topic info (on_route r result which t)
unfolding on_route
on_route-LeavesFrozen topic info r (unavailable ec) which t other frozen = frozen
on_route-LeavesFrozen topic info r (ready route) which t other frozen =
    store-LeavesFrozen topic info r t (make r.topic route which) other frozen

Step-IsFrozen :
    {t u : Table} (topic : Text) (info : PublishInfo)
    → Step t u
    → IsFrozen topic info t
    → IsFrozen topic info u
unfolding async_publish_info
Step-IsFrozen {t} topic info (asks asked cb) frozen =
    answer_or_ask-IsFrozen topic asked info cb t _ refl frozen
Step-IsFrozen {t} topic info (replies before after r result which held done) (there, unasked) =
    let (other, rest) = Unasked-remove topic before after r (subst (Unasked topic) held unasked) in
    subst (LeavesFrozen topic info) done (
      on_route-LeavesFrozen topic info r result which (record t { requests = before ++ after })
        other (there, rest))

Reach-IsFrozen :
    {t u : Table} (topic : Text) (info : PublishInfo)
    → Reach t u
    → IsFrozen topic info t
    → IsFrozen topic info u
Reach-IsFrozen topic info here frozen = frozen
Reach-IsFrozen topic info (later r step) frozen =
    Step-IsFrozen topic info step (Reach-IsFrozen topic info r frozen)

-- Once a topic has its publish information and no request for its route is on its way, then after any
-- further lookups and replies, whatever routes they bring, a caller who asks for the topic is answered
-- at once with that same information, and no request for the topic is on its way.
pub Reach-frozen :
    {t u : Table} (topic : Text) (info : PublishInfo) (cb : ℕ)
    → IsFrozen topic info t
    → Reach t u
    → (async_publish_info topic cb u ≡ (u, record { callback = cb; result = found info } ∷ []))
      × Unasked topic u.requests
unfolding async_publish_info answer_or_ask
Reach-frozen {u} topic info cb frozen r =
    let (there, unasked) = Reach-IsFrozen topic info r frozen in (rw there refl, unasked)
