-- ===== src/PullConsumer/Queues.antt =====
-- `queuesFor` of PullConsumerImpl.cpp and the lookup of the route that it waits for.
use rocketmq_client_cpp.Prelude.{
  ℕ, ◌≡◌, refl, Bool, false, none, some, List, [], ◌∷◌, map, is_empty,
}
use rocketmq_client_cpp.Prelude.Text.{Text, text_eq_refl}
use rocketmq_client_cpp.Prelude.Table.{lookup, lookup-insert_or_assign}
use rocketmq_client_cpp.Types.{MessageQueue}
use rocketmq_client_cpp.Route.{Partition, as_message_queue}
use rocketmq_client_cpp.RouteCache.{Client, Effect, call, resolve_route, on_topic_route_ready}
use rocketmq_client_cpp.RouteCache.Ready.{knowing, on_topic_route_ready-knowing}
use rocketmq_client_cpp.PullConsumer.{Promise, set_value, queues_for, on_queues}

-- The effects call the callbacks, each once and in their order, and nothing else, and each of the calls, where the
-- callback is that of `queuesFor`, settles its promise this way.
abbrev pub SettleEach : Promise (List MessageQueue) → List ℕ → List Effect → Type 0
SettleEach p [] [] = Unit {0}
SettleEach p [] (e ∷ es) = ⊥
SettleEach p (cb ∷ cbs) [] = ⊥
SettleEach p (cb ∷ cbs) (call called ec route ∷ es) =
    (called ≡ cb) × ((on_queues ec route ≡ some p) × SettleEach p cbs es)
SettleEach p (cb ∷ cbs) (resolve_route topic ∷ es) = ⊥

settle_each :
    (route : List Partition) (cbs : List ℕ)
    → SettleEach
        (set_value (map as_message_queue route))
        cbs
        (map (λ cb. call cb none (some route)) cbs)
unfolding on_queues
settle_each route [] = tt
settle_each route (cb ∷ cbs) = (refl, (refl, settle_each route cbs))

queues_for-knowing :
    (topic : Text) (route : List Partition) (c : Client) (has_name_server : Bool) (cb : ℕ)
    → queues_for has_name_server topic cb (knowing topic route c)
      ≡ (knowing topic route c, [], set_value (map as_message_queue route))
unfolding queues_for
queues_for-knowing topic route c has_name_server cb =
    rw (lookup-insert_or_assign topic topic route c.topic_route_table, text_eq_refl topic) refl

-- When the route of a topic comes that is not empty, not known yet and waited for, no assertion fails,
-- every callback that waits is called once, in the order of their coming, and settles a lookup of the
-- queues with those of the route, and a later lookup is settled with the same queues at once.
pub queues_for-agrees :
    (topic : Text) (route : List Partition) (c : Client) (cbs : List ℕ)
    → is_empty route ≡ false
    → lookup topic c.topic_route_table ≡ none
    → lookup topic c.inflight_route_requests ≡ some cbs
    → (c' : Client) × ((es : List Effect) × ((on_topic_route_ready topic none (some route) c
            ≡ some (c', es))
          × (SettleEach (set_value (map as_message_queue route)) cbs es
              × ((has_name_server : Bool) (cb : ℕ)
                  → queues_for has_name_server topic cb c'
                    ≡ (c', [], set_value (map as_message_queue route))))))
queues_for-agrees topic route c cbs e t i = (
  knowing topic route c,
  (
    map (λ cb. call cb none (some route)) cbs,
    (
      on_topic_route_ready-knowing topic route c cbs e t i,
      (settle_each route cbs, queues_for-knowing topic route c),
    ),
  ),
)
