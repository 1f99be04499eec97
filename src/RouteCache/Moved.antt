-- ===== src/RouteCache/Moved.antt =====
-- A route whose brokers have moved: `updateRouteCache` of ClientImpl.cpp compares brokers by name alone.
use rocketmq_client_cpp.Prelude.{◌≡◌, refl, true, none, some, List, [], ◌∷◌, map, arith}
use rocketmq_client_cpp.Prelude.Text.{Text, text_eq_refl}
use rocketmq_client_cpp.Prelude.Table.{lookup}
use rocketmq_client_cpp.Route.{Partition, ServiceAddress, partition_eq, route_eq}
use rocketmq_client_cpp.RouteCache.{Client, update_route_cache}

-- The same partition with its broker, of another address and another identifier.
abbrev pub moved : (Partition → ServiceAddress) → Partition → Partition
moved address p = record p { broker = record (p.broker) { service_address = address p } }

partition_eq-moved :
    (address : Partition → ServiceAddress) (p : Partition) → partition_eq p (moved address p) ≡ true
unfolding partition_eq
partition_eq-moved address p = ground (
  arith,
  text_eq_refl p.topic.resource_namespace,
  text_eq_refl p.topic.name,
  text_eq_refl p.broker.name,
)

route_eq-moved :
    (address : Partition → ServiceAddress) (route : List Partition)
    → route_eq route (map (moved address) route) ≡ true
unfolding route_eq
route_eq-moved address [] = refl
route_eq-moved address (p ∷ route) =
    rw (partition_eq-moved address p) (route_eq-moved address route)

-- A route whose partitions are those of the cached one, with the brokers at any other addresses, does
-- not change the cache.
update_route_cache-moved :
    (address : Partition → ServiceAddress) (topic : Text) (route : List Partition) (c : Client)
    → lookup topic c.topic_route_table ≡ some route
    → update_route_cache topic none (some (map (moved address) route)) c ≡ c
unfolding update_route_cache
update_route_cache-moved address topic [] c e = refl
update_route_cache-moved address topic (p ∷ route) c e =
    rw (e, route_eq-moved address (p ∷ route)) refl
