-- ===== src/Tests/Client.antt =====
-- The life of a client, its polls, heartbeats and health checks, and its name servers.
use rocketmq_client_cpp.Prelude.{◌≡◌, refl, true, false, none, some, [], ◌∷◌, arith, keep, not}
use rocketmq_client_cpp.Prelude.Text.{Text, codes, text_eq}
use rocketmq_client_cpp.Types.{created, stopped, clustering, polling}
use rocketmq_client_cpp.Rpc.{Reply, Code}
use rocketmq_client_cpp.Client.{PushConsumer, standard, heartbeat}
use rocketmq_client_cpp.Client.Lifetime.{life, scheduled, leaked, crashes, life-clean, life-leaked}
use rocketmq_client_cpp.Client.Endpoints.{heartbeat-targets, targets}
use rocketmq_client_cpp.Client.Health.{check_all}
use rocketmq_client_cpp.Client.Health.Round.{check_all-keep, passes}
use rocketmq_client_cpp.RouteCache.Endpoints.{has, NoTwice, serves_table}
use rocketmq_client_cpp.Multiplexing
use rocketmq_client_cpp.Tests.Receive.{codec}
use rocketmq_client_cpp.Multiplexing.{Context, Response, polling_response, subscriber}
use rocketmq_client_cpp.NameServer.{Resolver}
use rocketmq_client_cpp.Tests.{partition_0}

abbrev push : PushConsumer
push = record {
  base = record {
    state = created;
    has_resolver = true;
    has_manager = false;
    route_update_handle = 0;
    topic_route_table = (codes "orders", partition_0 ∷ []) ∷ [];
  };
  message_listener = some standard;
  message_model = clustering;
  receive_message_policy = polling;
  consume_batch_size = 4;
  consume_message_service = none;
  throttle_table = (codes "orders", 9) ∷ [];
  scan_assignment_handle = 0;
}

life-clean_example :
    (scheduled (life ((1, 2) ∷ []) push).1 ≡ 1 ∷ 2 ∷ [])
    × ((leaked (life ((1, 2) ∷ []) push).1 ≡ [])
        × ((crashes (life ((1, 2) ∷ []) push).1 ≡ false)
            × ((life ((1, 2) ∷ []) push).0.base.state ≡ stopped)))
life-clean_example =
    life-clean 1 2 push standard (refl, (refl, (refl, (refl, refl)))) (λ e. absurd (omega arith))
      (λ e. absurd (omega arith))

life-leaked_example : leaked (life ((1, 2) ∷ (3, 4) ∷ []) push).1 ≡ 2 ∷ []
life-leaked_example =
    life-leaked 1 2 push standard (refl, (refl, (refl, (refl, refl)))) (λ e. absurd (omega arith)) 3
      4 (λ e. absurd (omega arith)) (λ e. absurd (omega arith)) (λ e. absurd (omega arith))

heartbeat-targets_example :
    NoTwice (targets (heartbeat push.base))
    × (has (targets (heartbeat push.base)) (codes "ipv4:10.0.0.1:80")
        ≡ serves_table push.base.topic_route_table (codes "ipv4:10.0.0.1:80"))
heartbeat-targets_example = heartbeat-targets push.base (codes "ipv4:10.0.0.1:80")

-- Only the host "a" is well.
abbrev reply : Text → Reply
reply host = record { status_ok = text_eq host (codes "a"); code = Code.ok }

check_all-keep_example :
    check_all reply (codes "a" ∷ codes "b" ∷ [])
    ≡ keep (λ e. not (passes (reply e))) (codes "a" ∷ codes "b" ∷ [])
check_all-keep_example = check_all-keep reply (codes "a" ∷ codes "b" ∷ [])

-- A poll that fails, and the timer that makes it again.
abbrev multiplexer : Multiplexing.Client
multiplexer = record {
  resource_namespace = codes "ns";
  group_name = codes "group";
  client_id = codes "id";
  group_type = subscriber;
  topics = codes "orders" ∷ [];
  codec = codec;
  verify_message_consumption = λ m. [];
  transaction_state_checker = none;
}

abbrev failed_poll : Context
failed_poll = record { status_ok = false; remote_address = codes "a"; response = polling_response }

abbrev servers : Resolver
servers = record { name_server_list = codes "a" ∷ codes "b" ∷ codes "c" ∷ []; index = 5 }
