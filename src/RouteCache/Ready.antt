-- ===== src/RouteCache/Ready.antt =====
-- The first reply that brings the route of a topic: `onTopicRouteReady` of ClientImpl.cpp.
use rocketmq_client_cpp.Prelude.{ℕ, ◌≡◌, refl, false, none, some, List, [], ◌∷◌, map, is_empty, ap}
use rocketmq_client_cpp.Prelude.Text.{Text}
use rocketmq_client_cpp.Prelude.Table.{lookup, insert_or_assign, erase_key}
use rocketmq_client_cpp.Route.{Partition}
use rocketmq_client_cpp.RouteCache.{
  Client, call, answer, store, release_pending, update_route_cache, on_topic_route_ready,
}

-- The client that knows the route and waits for it no more.
abbrev pub knowing : Text → List Partition → Client → Client
knowing topic route c = record {
  topic_route_table = insert_or_assign topic route c.topic_route_table;
  inflight_route_requests = erase_key topic c.inflight_route_requests;
}

answer-map :
    (route : List Partition) (cbs : List ℕ)
    → answer none (some route) cbs ≡ map (λ cb. call cb none (some route)) cbs
unfolding answer
answer-map route [] = refl
answer-map route (cb ∷ cbs) = ap (λ l. call cb none (some route) ∷ l) (answer-map route cbs)

pub on_topic_route_ready-knowing :
    (topic : Text) (route : List Partition) (c : Client) (cbs : List ℕ)
    → is_empty route ≡ false
    → lookup topic c.topic_route_table ≡ none
    → lookup topic c.inflight_route_requests ≡ some cbs
    → on_topic_route_ready topic none (some route) c
      ≡ some (knowing topic route c, map (λ cb. call cb none (some route)) cbs)
unfolding on_topic_route_ready update_route_cache store release_pending
on_topic_route_ready-knowing topic route c cbs e t i = rw (e, t, i, answer-map route cbs) refl
