-- ===== src/RouteCache.antt =====
-- The routes that a client knows and the lookups on their way: `getRouteFor`, `fetchRouteFor`,
-- `onTopicRouteReady`, `updateRouteCache` and the isolated endpoints of
-- src/main/cpp/rocketmq/ClientImpl.cpp. A callback is a number; a method under its mutexes is a function.
pub mod Coalesce
pub mod Shared
pub mod NoServer
pub mod Endpoints
pub mod Moved
pub mod Ready
use rocketmq_client_cpp.Prelude.{
  ℕ, Bool, true, false, not, ◌||◌, Option, none, some, List, [], ◌∷◌, ◌++◌, map, is_empty, any,
  keep, is_some, if◌then◌else◌,
}
use rocketmq_client_cpp.Prelude.Text.{Text, text_eq}
use rocketmq_client_cpp.Prelude.Table.{lookup, contains_key, insert_or_assign, erase_key}
use rocketmq_client_cpp.Types.{ErrorCode, State, started, starting, created, stopping, stopped}
use rocketmq_client_cpp.Route.{Partition, route_eq, as_message_queue}

pub record Client : Type 0 where
  pub topic_route_table : List (Text × List Partition)
  pub inflight_route_requests : List (Text × List ℕ)

pub data Effect : Type 0 where
  call : ℕ → Option ErrorCode → Option (List Partition) → Effect
  resolve_route : Text → Effect

-- `fetchRouteFor`: without a name server nothing is asked, and nothing is called back.
unfoldable pub fetch_route_for : Bool → Text → List Effect
fetch_route_for has_name_server topic = if has_name_server then resolve_route topic ∷ [] else []

pub join : Bool → Text → ℕ → Client → Option (List ℕ) → Client × List Effect
join has_name_server topic cb c (some cbs) = (
  record c {
    inflight_route_requests = insert_or_assign topic (cbs ++ cb ∷ []) c.inflight_route_requests;
  },
  [],
)
join has_name_server topic cb c none = (
  record c { inflight_route_requests = insert_or_assign topic (cb ∷ []) c.inflight_route_requests },
  fetch_route_for has_name_server topic,
)

-- The second look, under the lock on the requests, and what follows it.
pub register_for : Bool → Text → ℕ → Client → Option (List Partition) → Client × List Effect
unfolding join
register_for has_name_server topic cb c (some route) = (c, call cb none (some route) ∷ [])
register_for has_name_server topic cb c none =
    join has_name_server topic cb c (lookup topic c.inflight_route_requests)

unfoldable pub register : Bool → Text → ℕ → Client → Client × List Effect
unfolding register_for
register has_name_server topic cb c =
    register_for has_name_server topic cb c (lookup topic c.topic_route_table)

found_or : Bool → Text → ℕ → Client → Option (List Partition) → Client × List Effect
found_or has_name_server topic cb c (some route) = (c, call cb none (some route) ∷ [])
found_or has_name_server topic cb c none = register has_name_server topic cb c

-- The first look takes no lock on the requests: other calls may come between it and `register`.
unfoldable pub get_route_for : Bool → Text → ℕ → Client → Client × List Effect
unfolding found_or
get_route_for has_name_server topic cb c =
    found_or has_name_server topic cb c (lookup topic c.topic_route_table)

store : Text → List Partition → Client → Option (List Partition) → Client
store topic route c none = record c {
  topic_route_table = insert_or_assign topic route c.topic_route_table;
}
store topic route c (some cached) =
    if route_eq cached route
    then c
    else record c { topic_route_table = insert_or_assign topic route c.topic_route_table }

unfoldable pub update_route_cache :
    Text → Option ErrorCode → Option (List Partition) → Client → Client
unfolding store
update_route_cache topic ec none c = c
update_route_cache topic ec (some route) c =
    if is_some ec || is_empty route
    then c
    else store topic route c (lookup topic c.topic_route_table)

answer : Option ErrorCode → Option (List Partition) → List ℕ → List Effect
answer ec route [] = []
answer ec route (cb ∷ cbs) = call cb ec route ∷ answer ec route cbs

pub release_pending :
    Text
    → Option ErrorCode
    → Option (List Partition)
    → Client
    → Option (List ℕ)
    → Option (Client × List Effect)
unfolding answer
release_pending topic ec route c none = none
release_pending topic ec route c (some cbs) = some (
  record c { inflight_route_requests = erase_key topic c.inflight_route_requests },
  answer ec route cbs,
)

-- `none` is a failed assertion.
unfoldable pub on_topic_route_ready :
    Text → Option ErrorCode → Option (List Partition) → Client → Option (Client × List Effect)
unfolding release_pending
on_topic_route_ready topic ec route c =
    let c' = update_route_cache topic ec route c in
    release_pending topic ec route c' (lookup topic c'.inflight_route_requests)

abbrev topics : List (Text × List Partition) → List Text
topics [] = []
topics ((topic, route) ∷ table) = topic ∷ topics table

-- The topics that `updateRouteInfo` fetches again.
unfoldable pub update_route_info : Client → State → List Text
update_route_info c started = topics c.topic_route_table
update_route_info c starting = topics c.topic_route_table
update_route_info c created = []
update_route_info c stopping = []
update_route_info c stopped = []

-- Endpoints that were isolated and are now removed are forgotten.
unfoldable pub on_remote_endpoint_removal : List Text → List Text → List Text
on_remote_endpoint_removal hosts isolated =
    keep (λ endpoint. not (any (λ host. text_eq endpoint host) hosts)) isolated

add_endpoint : Text → List Text → List Text
add_endpoint e endpoints =
    if any (λ x. text_eq x e) endpoints then endpoints else endpoints ++ e ∷ []

route_endpoints : List Partition → List Text → List Text
unfolding add_endpoint
route_endpoints [] endpoints = endpoints
route_endpoints (p ∷ route) endpoints =
    route_endpoints route (add_endpoint (as_message_queue p).service_address endpoints)

unfoldable pub endpoints_in_use : List (Text × List Partition) → List Text → List Text
unfolding route_endpoints
endpoints_in_use [] endpoints = endpoints
endpoints_in_use ((topic, route) ∷ table) endpoints =
    endpoints_in_use table (route_endpoints route endpoints)
