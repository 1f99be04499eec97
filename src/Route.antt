-- ===== src/Route.antt =====
-- Route data: src/main/cpp/client/include/{ServiceAddress,Broker,Topic,Partition,TopicRouteData}.h.
use rocketmq_client_cpp.Prelude.{
  Bool, true, false, not, ◌&&◌, List, [], ◌∷◌, ◌++◌, is_empty, if◌then◌else◌,
}
use rocketmq_client_cpp.Prelude.Text.{Text, codes, text_eq, text_lt}
use rocketmq_client_cpp.Prelude.Int.{ℤ, pos, eq_ℤ, ltb_ℤ}
use rocketmq_client_cpp.Prelude.Sort.{sort}
use rocketmq_client_cpp.Prelude.Decimal.{to_string}
use rocketmq_client_cpp.Types.{MessageQueue}

pub data AddressScheme : Type 0 where
  ipv4 ipv6 domain_name : AddressScheme

pub record Address : Type 0 where
  pub host : Text
  pub port : ℤ

abbrev pub address_lt : Address → Address → Bool
address_lt a b =
    if text_lt a.host b.host
    then true
    else if text_lt b.host a.host
    then false
    else ltb_ℤ a.port b.port

pub record ServiceAddress : Type 0 where
  pub scheme : AddressScheme
  pub addresses : List Address

-- The constructor sorts the addresses.
unfoldable pub make_service_address : AddressScheme → List Address → ServiceAddress
make_service_address s l = record { scheme = s; addresses = sort address_lt l }

scheme_prefix : AddressScheme → Text
scheme_prefix ipv4 = codes "ipv4:"
scheme_prefix ipv6 = codes "ipv6:"
scheme_prefix domain_name = codes "dns:"

-- The loop of `address`, with `first`.
join_addresses : Bool → List Address → Text
join_addresses first [] = []
join_addresses first (a ∷ l) =
    (if first then [] else codes ",")
    ++ (a.host ++ (codes ":" ++ (to_string a.port ++ join_addresses false l)))

unfoldable pub address : ServiceAddress → Text
unfolding scheme_prefix join_addresses
address s = scheme_prefix s.scheme ++ join_addresses true s.addresses

pub record Broker : Type 0 where
  pub name : Text
  pub id : ℤ
  pub service_address : ServiceAddress

-- `operator bool`.
abbrev pub broker_valid : Broker → Bool
broker_valid b = not (is_empty b.service_address.addresses)

pub record Topic : Type 0 where
  pub resource_namespace : Text
  pub name : Text

abbrev pub topic_eq : Topic → Topic → Bool
topic_eq s t = text_eq s.resource_namespace t.resource_namespace && text_eq s.name t.name

abbrev pub topic_lt : Topic → Topic → Bool
topic_lt s t =
    if text_lt s.resource_namespace t.resource_namespace
    then true
    else if text_lt t.resource_namespace s.resource_namespace
    then false
    else text_lt s.name t.name

pub data Permission : Type 0 where
  none read write read_write : Permission

pub record Partition : Type 0 where
  pub topic : Topic
  pub broker : Broker
  pub id : ℤ
  pub permission : Permission

unfoldable pub as_message_queue : Partition → MessageQueue
as_message_queue p = record {
  topic = p.topic.name;
  broker_name = p.broker.name;
  queue_id = p.id;
  service_address = address p.broker.service_address;
}

abbrev permission_eq : Permission → Permission → Bool
permission_eq none none = true
permission_eq read read = true
permission_eq write write = true
permission_eq read_write read_write = true
permission_eq _ _ = false

-- Brokers are compared by name alone.
unfoldable pub partition_eq : Partition → Partition → Bool
partition_eq p q =
    topic_eq p.topic q.topic
    && (eq_ℤ p.id q.id
        && (text_eq p.broker.name q.broker.name && permission_eq p.permission q.permission))

unfoldable pub partition_lt : Partition → Partition → Bool
partition_lt p q =
    if topic_lt p.topic q.topic
    then true
    else if topic_lt q.topic p.topic
    then false
    else if text_lt p.broker.name q.broker.name
    then true
    else if text_lt q.broker.name p.broker.name
    then false
    else ltb_ℤ p.id q.id

-- TopicRouteData: its partitions, which the constructor sorts.
unfoldable pub make_route : List Partition → List Partition
make_route l = sort partition_lt l

unfoldable pub route_eq : List Partition → List Partition → Bool
route_eq [] [] = true
route_eq (p ∷ l) (q ∷ r) = partition_eq p q && route_eq l r
route_eq _ _ = false

abbrev pub master_broker_id : ℤ
master_broker_id = pos 0
