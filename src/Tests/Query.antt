-- ===== src/Tests/Query.antt =====
-- The query of an assignment.
use rocketmq_client_cpp.Prelude.{◌≡◌, refl, ℕ, none, some, [], ◌∷◌, arith, zero, suc}
use rocketmq_client_cpp.Prelude.Text.{Text}
use rocketmq_client_cpp.Prelude.Int.{pos}
use rocketmq_client_cpp.Types.{clustering}
use rocketmq_client_cpp.Route.{Partition, address}
use rocketmq_client_cpp.PushConsumer.Broker.{
  host_of, host_at, broker_loop, select_broker, on_route, query_assignment,
}
use rocketmq_client_cpp.PushConsumer.Broker.Choice.{Asked, on_route-asks}
use rocketmq_client_cpp.Tests.{partition_0}

-- A partition of a broker that is not a master.
abbrev slave_partition : Partition
slave_partition = record partition_0 { broker = record partition_0.broker { id = pos 1 } }

on_route-asks_example :
    (host : Text) × ((on_route clustering 3 6 none (some (slave_partition ∷ partition_0 ∷ []))
        ≡ some (
          (select_broker 3 6 (some (slave_partition ∷ partition_0 ∷ []))).0,
          query_assignment host ∷ [],
        ))
      × Asked (slave_partition ∷ partition_0 ∷ []) host)
on_route-asks_example =
    on_route-asks 3 6 none (some (slave_partition ∷ partition_0 ∷ [])) (omega arith) (omega arith)

-- The counter is 7, which is the second of two partitions.
selected :
    select_broker 3 6 (some (slave_partition ∷ partition_0 ∷ []))
    ≡ (7, some (some (address partition_0.broker.service_address)))
unfolding select_broker broker_loop host_at host_of
selected = refl

no_master : (j : ℕ) → host_at (slave_partition ∷ []) j ≡ none
unfolding host_at host_of
no_master zero = refl
no_master (suc j) = refl
