-- ===== src/Manager.antt =====
-- The client manager's RPC clients and observers: src/main/cpp/client/ClientManagerImpl.cpp. A client's
-- channel is known by whether it was shut down, which gRPC decides.
pub mod Clients
use rocketmq_client_cpp.Prelude.{
  ℕ, Bool, true, false, not, ◌&&◌, ◌||◌, Option, none, some, List, [], ◌∷◌, any, if◌then◌else◌,
}
use rocketmq_client_cpp.Prelude.Text.{Text, text_eq}
use rocketmq_client_cpp.Prelude.Table.{lookup, insert_or_assign}
use rocketmq_client_cpp.Types.{State, created, starting, started, stopping, stopped}

pub record RpcClient : Type 0 where
  pub channel_shutdown : Bool
  pub need_heartbeat : Bool

abbrev pub is_ok : RpcClient → Bool
is_ok c = not c.channel_shutdown

abbrev pub RpcTable : Type 0
RpcTable = List (Text × RpcClient)

abbrev pub new_client : Bool → RpcClient
new_client need = record { channel_shutdown = false; need_heartbeat = need }

abbrev pub marked : RpcClient → RpcClient
marked c = record c { need_heartbeat = true }

-- The client of the table is shared with the caller: where it is asked to need a heartbeat, so is the
-- table's.
pub reuse : Text → Bool → RpcTable → Option RpcClient → RpcTable × RpcClient
reuse host need table none = (insert_or_assign host (new_client need) table, new_client need)
reuse host need table (some c) =
    if not (is_ok c)
    then (insert_or_assign host (new_client need) table, new_client need)
    else if need && not c.need_heartbeat
    then (insert_or_assign host (marked c) table, marked c)
    else (table, c)

unfoldable pub get_rpc_client : Text → Bool → RpcTable → RpcTable × RpcClient
unfolding reuse
get_rpc_client host need table = reuse host need table (lookup host table)

abbrev pub in_use : List Text → Text → Bool
in_use hosts host = any (λ h. text_eq h host) hosts

-- The loop over the table: what is left, and the hosts that are removed.
unfoldable pub clean_offline_rpc_clients : List Text → RpcTable → RpcTable × List Text
clean_offline_rpc_clients hosts [] = ([], [])
clean_offline_rpc_clients hosts ((host, c) ∷ table) =
    let (table', removed) = clean_offline_rpc_clients hosts table in
    if c.need_heartbeat && not (in_use hosts host)
    then (table', host ∷ removed)
    else ((host, c) ∷ table', removed)

-- An observer, `none` where it is gone, with whether it is active.
abbrev pub Observer : Type 0
Observer = Option (ℕ × Bool)

active_clients : List Observer → List ℕ
active_clients [] = []
active_clients (none ∷ clients) = active_clients clients
active_clients (some (id, active) ∷ clients) =
    if active then id ∷ active_clients clients else active_clients clients

is_running : State → Bool
is_running created = false
is_running starting = true
is_running started = true
is_running stopping = false
is_running stopped = false

-- The clients whose `heartbeat` is called.
unfoldable pub do_heartbeat : State → List Observer → List ℕ
unfolding is_running active_clients
do_heartbeat state clients = if is_running state then active_clients clients else []

-- The table, the hosts whose removal the active clients hear of, and the clients whose `healthCheck` is
-- called.
unfoldable pub do_health_check :
    State → List Text → List Observer → RpcTable → RpcTable × List Text × List ℕ
unfolding is_running active_clients
do_health_check state hosts clients table =
    let (table', removed) = clean_offline_rpc_clients hosts table in
    if is_running state then (table', removed, active_clients clients) else (table, [], [])

unfoldable pub start : State → State
start created = started
start starting = starting
start started = started
start stopping = stopping
start stopped = stopped

unfoldable pub shutdown : State → RpcTable → State × RpcTable
shutdown started table = (stopped, [])
shutdown created table = (created, table)
shutdown starting table = (starting, table)
shutdown stopping table = (stopping, table)
shutdown stopped table = (stopped, table)
