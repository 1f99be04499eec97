-- ===== src/Producer/Table.antt =====
-- The table of publish information of src/main/cpp/rocketmq/ProducerImpl.cpp, and its requests for routes that are on
-- their way.
pub mod Frozen
use rocketmq_client_cpp.Prelude.{ℕ, ◌≡◌, Option, none, some, List, [], ◌∷◌, ◌++◌}
use rocketmq_client_cpp.Prelude.Table.{lookup, insert_or_assign}
use rocketmq_client_cpp.Prelude.Text.{Text}
use rocketmq_client_cpp.Types.{ErrorCode}
use rocketmq_client_cpp.Route.{Partition}
use rocketmq_client_cpp.PublishInfo.{PublishInfo, make}
use rocketmq_client_cpp.Producer.{Lookup, failed, found}

-- A lookup of a route that has not called back: its topic, and whom to call then.
pub record Request : Type 0 where
  pub topic : Text
  pub callback : ℕ

pub record Table : Type 0 where
  pub topic_publish_info_table : List (Text × PublishInfo)
  pub requests : List Request

-- A callback with what it is called with.
pub record Answer : Type 0 where
  pub callback : ℕ
  pub result : Lookup

-- What the lookup of a route calls back with.
pub data RouteResult : Type 0 where
  unavailable : ErrorCode → RouteResult
  ready : List Partition → RouteResult

unfoldable pub answer_or_ask : Text → ℕ → Table → Option PublishInfo → Table × List Answer
answer_or_ask topic cb t (some info) = (t, record { callback = cb; result = found info } ∷ [])
answer_or_ask topic cb t none =
    (record t { requests = t.requests ++ record { topic = topic; callback = cb } ∷ [] }, [])

unfoldable pub async_publish_info : Text → ℕ → Table → Table × List Answer
unfolding answer_or_ask
async_publish_info topic cb t = answer_or_ask topic cb t (lookup topic t.topic_publish_info_table)

unfoldable pub store : Request → Table → Option PublishInfo → Option (Table × List Answer)
store r t none = none
store r t (some info) = some (
  record t { topic_publish_info_table = insert_or_assign r.topic info t.topic_publish_info_table },
  record { callback = r.callback; result = found info } ∷ [],
)

-- The callback of the lookup; `which` is the counter of the thread that runs it, and `none` a failed assertion.
unfoldable pub on_route : Request → RouteResult → ℕ → Table → Option (Table × List Answer)
unfolding store
on_route r (unavailable ec) which t =
    some (t, record { callback = r.callback; result = failed ec } ∷ [])
on_route r (ready route) which t = store r t (make r.topic route which)

-- A caller asks, or a lookup calls back, whatever it found.
pub data Step (t : Table) : Table → Type 0 where
  asks : (topic : Text) (cb : ℕ) → Step t (async_publish_info topic cb t).0
  replies :
      (before after : List Request) (r : Request) (result : RouteResult) (which : ℕ) {u : Table}
      {answers : List Answer}
      → t.requests ≡ before ++ r ∷ after
      → on_route r result which (record t { requests = before ++ after }) ≡ some (u, answers)
      → Step t u

pub data Reach (t : Table) : Table → Type 0 where
  here : Reach t t
  later : {u v : Table} → Reach t u → Step u v → Reach t v
