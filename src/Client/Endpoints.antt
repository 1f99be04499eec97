-- ===== src/Client/Endpoints.antt =====
-- Whom a client of ClientImpl.cpp sends its heartbeats to.
use rocketmq_client_cpp.Prelude.{◌≡◌, refl, ap, List, [], ◌∷◌, map}
use rocketmq_client_cpp.Prelude.Text.{Text}
use rocketmq_client_cpp.RouteCache.{endpoints_in_use}
use rocketmq_client_cpp.RouteCache.Endpoints.{
  has, NoTwice, serves_table, has-endpoints_in_use, NoTwice-endpoints_in_use,
}
use rocketmq_client_cpp.Client.{Client, Effect, send_heartbeat, heartbeat}

-- The hosts of heartbeats.
abbrev pub targets : List Effect → List Text
targets [] = []
targets (send_heartbeat host ∷ es) = host ∷ targets es
targets (e ∷ es) = targets es

targets-map : (hosts : List Text) → targets (map send_heartbeat hosts) ≡ hosts
targets-map [] = refl
targets-map (host ∷ hosts) = ap (λ l. host ∷ l) (targets-map hosts)

-- A heartbeat goes to no host twice, and to a host exactly when a partition of some route of the table
-- is served there.
pub heartbeat-targets :
    (c : Client) (host : Text)
    → NoTwice (targets (heartbeat c))
      × (has (targets (heartbeat c)) host ≡ serves_table c.topic_route_table host)
unfolding heartbeat
heartbeat-targets c host =
    let hosts = endpoints_in_use c.topic_route_table [] in
    rw (targets-map hosts) (
      NoTwice-endpoints_in_use c.topic_route_table [] tt,
      has-endpoints_in_use c.topic_route_table host [],
    )
