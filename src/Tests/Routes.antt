-- ===== src/Tests/Routes.antt =====
-- The route cache.
use rocketmq_client_cpp.Prelude.{◌+◌, ◌≡◌, refl, true, none, [], ◌∷◌, some}
use rocketmq_client_cpp.Prelude.Text.{codes, text_eq}
use rocketmq_client_cpp.Prelude.Table.{lookup}
use rocketmq_client_cpp.RouteCache.{Client, register}
use rocketmq_client_cpp.Route.{Partition, ServiceAddress, make_service_address, ipv4}
use rocketmq_client_cpp.Tests.{partition_0, pos}
use rocketmq_client_cpp.RouteCache.Coalesce.{World, Missing, waiting, called, asked_server, Shared}

abbrev fresh : Client
fresh = record { topic_route_table = []; inflight_route_requests = [] }

-- The same route with its broker at another address.
abbrev elsewhere : Partition → ServiceAddress
elsewhere p = make_service_address ipv4 (record { host = codes "10.0.0.2"; port = pos 80 } ∷ [])

abbrev knowing : Client
knowing = record {
  topic_route_table = (codes "t", partition_0 ∷ []) ∷ [];
  inflight_route_requests = [];
}

knowing_route : lookup (codes "t") knowing.topic_route_table ≡ some (partition_0 ∷ [])
unfolding lookup text_eq
knowing_route = refl

fresh-Missing : Missing (codes "t") fresh
unfolding lookup
fresh-Missing = refl

fresh-waiting : waiting (codes "t") fresh ≡ none
unfolding lookup
fresh-waiting = refl

abbrev asked : World
asked = record {
  client = (register true (codes "t") 1 fresh).0;
  arrived = 1 ∷ [];
  answered = called (register true (codes "t") 1 fresh).1;
  requests = 0 + asked_server (register true (codes "t") 1 fresh).1;
}
